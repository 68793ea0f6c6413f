-- ===== src/Lock.antt =====
-- The lockfile: src/salt/cmd_lock.cpp. `lock_load` reads the pins; Lock/Compare
-- compares them with what is installed.
pub mod Load
pub mod Compare
pub mod Diff
pub mod Exit
pub mod Apply
use salt_os.Prelude.{
  ℕ, zero, suc, ◌+◌, ◌-◌, ◌*◌, ◌/◌, ◌%◌, ◌≤◌, ◌<◌, compare, Ordering, max, ◌≡◌, refl, sym, ap, ◌∙◌,
  subst, ◌≢◌, ◌↔◌, ◌⊎◌, inl, inr, ⊎_elim, Bool, true, false, not, ◌&&◌, ◌||◌, Option, none, some,
  List, [], ◌∷◌, ◌++◌, map, arith, ltb, leb, ◌==◌, ==_iff, if◌then◌else◌, &&_eq_true, Bool-cases,
  Option-cases, eq_of_iff, length, filter, any, length-append, mem-cons, mem-append, mem-concat,
  concat-ne_nil, not-mem-nil, mem-filter, Str, codes, str_eq, str_eq_iff, str_eq_refl, contains,
  contains-cons, contains-append, set_insert, set_of, contains-set_insert, contains-set_of, Memᴰ,
}
use salt_os.Prelude.Int.{ℤ, eq_ℤ}
use salt_os.Repo.{sha256_hex_valid}
use salt_os.Db.{Db, get_pkg}
use salt_os.Db.Rows.{PkgRow, or_empty}

-- `LockEntry` of src/salt/cli.hpp
pub record LockEntry : Type 0 where
  pub name : Str
  pub version : Str
  pub release : ℤ
  pub arch : Str
  pub sha256 : Str
  pub repo : Str
  pub filename : Str

-- `ForeignPin`
pub record ForeignPin : Type 0 where
  pub name : Str
  pub version : Str
  pub digest : Str

-- `StratumLock`
pub record StratumLock : Type 0 where
  pub name : Str
  pub family : Str
  pub package_manager : Str
  pub packages : List ForeignPin

-- What `salt_toml_get` finds under a key that should hold an array of tables.
pub data Tables (A : Type 0) : Type 0 where
  absent no_array : Tables A
  tables : List A → Tables A

-- The strings that `salt_toml_string` reads from a `[[native]]` table, none being NULL, and the
-- release as an `int`, 1 if there is none.
pub record NativeTable : Type 0 where
  pub name : Option Str
  pub version : Option Str
  pub grain_sha256 : Option Str
  pub sha256 : Option Str
  pub release : ℤ
  pub arch : Option Str
  pub repo : Option Str
  pub filename : Option Str

pub record PinTable : Type 0 where
  pub name : Option Str
  pub version : Option Str
  pub digest : Option Str

pub record StratumTable : Type 0 where
  pub name : Option Str
  pub family : Option Str
  pub package_manager : Option Str
  pub packages : Tables PinTable

pub record LockFile : Type 0 where
  pub native : Tables NativeTable
  pub stratum : Tables StratumTable

-- The messages in `err`.
pub data LoadError : Type 0 where
  no_lockfile native_no_array stratum_no_array : LoadError
  native_no_name stratum_no_name : ℕ → LoadError
  native_no_version native_no_sha256 native_twice stratum_twice package_no_array : Str → LoadError
  package_no_name : Str → ℕ → LoadError
  package_no_version package_no_digest package_twice : Str → Str → LoadError

pub data Result (A : Type 0) : Type 0 where
  failed : LoadError → Result A
  loaded : A → Result A

abbrev pub cons_loaded : {A : Type 0} → A → Result (List A) → Result (List A)
cons_loaded a (failed e) = failed e
cons_loaded a (loaded xs) = loaded (a ∷ xs)

-- `s.rfind("sha256:", 0) == 0` and `s.substr(7)`
unfoldable pub strip_prefix : Str → Str → Option Str
strip_prefix [] s = some s
strip_prefix (p ∷ ps) [] = none
strip_prefix (p ∷ ps) (c ∷ s) = let rest = strip_prefix ps s in if p == c then rest else none

unfoldable pub strip_sha_prefix : Str → Str
strip_sha_prefix s = elim (strip_prefix (codes "sha256:") s) [ none ↦ s | some rest ↦ rest ]

abbrev pub or_else : Option Str → Option Str → Option Str
or_else none b = b
or_else (some a) b = some a

abbrev pub or_default : Str → Option Str → Str
or_default d none = d
or_default d (some s) = s

abbrev pub stripped : Option Str → Str
stripped none = []
stripped (some s) = strip_sha_prefix s

abbrev pub entry_of : NativeTable → LockEntry
entry_of t = record {
  name = or_empty t.name;
  version = or_empty t.version;
  release = t.release;
  arch = or_empty t.arch;
  sha256 = stripped (or_else t.grain_sha256 t.sha256);
  repo = or_default (codes "current") t.repo;
  filename = or_empty t.filename;
}

-- The loop over `[[native]]`, `i` being the number of the entry and `seen` the names before it.
unfoldable pub load_native : ℕ → List Str → List NativeTable → Result (List LockEntry)
load_native i seen [] = loaded []
load_native i seen (t ∷ ts) =
    let e = entry_of t in
    let rest = load_native (suc i) (e.name ∷ seen) ts in
    if str_eq e.name []
    then failed (native_no_name (suc i))
    else if str_eq e.version []
    then failed (native_no_version e.name)
    else if not (sha256_hex_valid e.sha256)
    then failed (native_no_sha256 e.name)
    else if contains seen e.name
    then failed (native_twice e.name)
    else cons_loaded e rest

-- `strchr(pdig, ':') == nullptr || strchr(pdig, ':')[1] == '\0'`, negated
unfoldable pub has_digest : Str → Bool
has_digest [] = false
has_digest (c ∷ s) = let rest = has_digest s in if c == b':' then not (str_eq s []) else rest

abbrev pub pin_of : PinTable → ForeignPin
pin_of t = record {
  name = or_empty t.name;
  version = or_empty t.version;
  digest = or_empty t.digest;
}

-- The loop over the packages of a stratum.
unfoldable pub load_pins : Str → ℕ → List Str → List PinTable → Result (List ForeignPin)
load_pins stratum j seen [] = loaded []
load_pins stratum j seen (t ∷ ts) =
    let p = pin_of t in
    let rest = load_pins stratum (suc j) (p.name ∷ seen) ts in
    if str_eq p.name []
    then failed (package_no_name stratum (suc j))
    else if str_eq p.version []
    then failed (package_no_version stratum p.name)
    else if not (has_digest p.digest)
    then failed (package_no_digest stratum p.name)
    else if contains seen p.name
    then failed (package_twice stratum p.name)
    else cons_loaded p rest

unfoldable pub load_packages : Str → Tables PinTable → Result (List ForeignPin)
load_packages stratum absent = loaded []
load_packages stratum no_array = failed (package_no_array stratum)
load_packages stratum (tables ts) = load_pins stratum 0 [] ts

abbrev pub stratum_of : StratumTable → List ForeignPin → StratumLock
stratum_of t pins = record {
  name = or_empty t.name;
  family = or_empty t.family;
  package_manager = or_empty t.package_manager;
  packages = pins;
}

abbrev pub add_stratum :
    StratumTable → Result (List ForeignPin) → Result (List StratumLock) → Result (List StratumLock)
add_stratum t (failed e) rest = failed e
add_stratum t (loaded pins) rest = cons_loaded (stratum_of t pins) rest

-- The loop of `load_strata`.
unfoldable pub load_stratum : ℕ → List Str → List StratumTable → Result (List StratumLock)
load_stratum i seen [] = loaded []
load_stratum i seen (t ∷ ts) =
    let name = or_empty t.name in
    let rest = load_stratum (suc i) (name ∷ seen) ts in
    if str_eq name []
    then failed (stratum_no_name (suc i))
    else if contains seen name
    then failed (stratum_twice name)
    else add_stratum t (load_packages name t.packages) rest

unfoldable pub load_strata : Tables StratumTable → Result (List StratumLock)
load_strata absent = loaded []
load_strata no_array = failed stratum_no_array
load_strata (tables ts) = load_stratum 0 [] ts

unfoldable pub load_natives : Tables NativeTable → Result (List LockEntry)
load_natives absent = loaded []
load_natives no_array = failed native_no_array
load_natives (tables ts) = load_native 0 [] ts

abbrev pub with_strata :
    Result (List LockEntry) → Result (List StratumLock) → Result (List LockEntry × List StratumLock)
with_strata (failed e) r = failed e
with_strata (loaded es) (failed e) = failed e
with_strata (loaded es) (loaded ss) = loaded (es, ss)

-- `lock_load`, of a file that was parsed or of none.
unfoldable pub lock_load : Option LockFile → Result (List LockEntry × List StratumLock)
lock_load none = failed no_lockfile
lock_load (some f) = with_strata (load_natives f.native) (load_strata f.stratum)
