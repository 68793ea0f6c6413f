-- ===== src/Lock/Compare.antt =====
-- The comparison of src/salt/cmd_lock.cpp: `compare_lock` and `compare_stratum` compare the pins
-- with what is installed, `lock_diff` reports both.
use salt_os.Prelude.{
  ℕ, suc, ◌+◌, Bool, false, not, ◌&&◌, ◌||◌, Option, none, some, List, [], ◌∷◌, map, ◌==◌,
  if◌then◌else◌, length, filter, Str, str_eq, contains, set_of,
}
use salt_os.Prelude.Int.{eq_ℤ}
use salt_os.Repo.{sha256_hex_valid}
use salt_os.Db.{Db, get_pkg}
use salt_os.Db.Rows.{PkgRow}
use salt_os.Lock.{LockEntry, ForeignPin, StratumLock, LockFile, Result, failed, loaded, lock_load}

-- The names of `salt_db_list_installed`: ORDER BY name, and names are unique.
abbrev pub installed_names : Db → List Str
installed_names db = set_of (map (λ r. r.name) db.packages)

-- `LockCompare`; the two reasons to be in `changed` show in its second string.
pub data LockChange : Type 0 where
  other_version other_sha256 : LockEntry → PkgRow → LockChange

pub record LockCompare : Type 0 where
  pub extra : List Str
  pub missing : List LockEntry
  pub changed : List LockChange
  pub matched : ℕ

abbrev pub same_version : LockEntry → PkgRow → Bool
same_version le p = str_eq le.version p.version && eq_ℤ le.release p.release

abbrev pub same_sha256 : LockEntry → PkgRow → Bool
same_sha256 le p = not (sha256_hex_valid p.sha256) || str_eq le.sha256 p.sha256

abbrev pub add_compared : LockEntry → Option PkgRow → LockCompare → LockCompare
add_compared le none c = record c { missing = le ∷ c.missing }
add_compared le (some p) c =
    if same_version le p && same_sha256 le p
    then record c { matched = suc c.matched }
    else if not (same_version le p)
    then record c { changed = other_version le p ∷ c.changed }
    else record c { changed = other_sha256 le p ∷ c.changed }

unfoldable pub compare_entries : Db → List LockEntry → LockCompare
compare_entries db [] = record { extra = []; missing = []; changed = []; matched = 0 }
compare_entries db (le ∷ ls) = add_compared le (get_pkg db le.name) (compare_entries db ls)

-- `compare_lock`
unfoldable pub compare_lock : Db → List LockEntry → LockCompare
compare_lock db lock = record (compare_entries db lock) {
  extra = filter (λ n. not (contains (map (λ le. le.name) lock) n)) (installed_names db);
}

-- `salt_foreign_pkg`; `digest` may be NULL.
pub record ForeignPkg : Type 0 where
  pub name : Str
  pub version : Str
  pub digest : Option Str

abbrev pub find_foreign : List ForeignPkg → Str → Option ForeignPkg
find_foreign [] name = none
find_foreign (p ∷ ps) name =
    let rest = find_foreign ps name in if str_eq p.name name then some p else rest

-- `StratumCompare`, `changed` with `changed_from` beside it.
pub record StratumCompare : Type 0 where
  pub missing : List ForeignPin
  pub changed : List (ForeignPin × ForeignPkg)
  pub extra : List Str
  pub matched : ℕ

abbrev pub other_digest : Str → Option Str → Bool
other_digest d none = false
other_digest d (some x) = not (str_eq d x)

abbrev pub add_pin : ForeignPin → Option ForeignPkg → StratumCompare → StratumCompare
add_pin p none c = record c { missing = p ∷ c.missing }
add_pin p (some cur) c =
    if not (str_eq p.version cur.version)
    then record c { changed = (p, cur) ∷ c.changed }
    else if other_digest p.digest cur.digest
    then record c { changed = (p, cur) ∷ c.changed }
    else record c { matched = suc c.matched }

unfoldable pub compare_pins : List ForeignPkg → List ForeignPin → StratumCompare
compare_pins live [] = record { missing = []; changed = []; extra = []; matched = 0 }
compare_pins live (p ∷ ps) = add_pin p (find_foreign live p.name) (compare_pins live ps)

-- `compare_stratum`
unfoldable pub compare_stratum : StratumLock → List ForeignPkg → StratumCompare
compare_stratum sl live = record (compare_pins live sl.packages) {
  extra = filter (λ n. not (contains (map (λ p. p.name) sl.packages) n)) (map (λ p. p.name) live);
}

-- `StratumCompare::diffs`
abbrev pub diffs : StratumCompare → ℕ
diffs c = length c.missing + length c.changed + length c.extra

-- `query_stratum`: 0 with the packages, 1 or 2.
pub data Query : Type 0 where
  listed : List ForeignPkg → Query
  unknown_stratum not_listed : Query

-- The loop of `lock_diff` over the strata; `none` is the return of 2.
unfoldable pub diff_strata : (Str → Query) → List StratumLock → ℕ → Option ℕ
diff_strata query [] n = some n
diff_strata query (sl ∷ ss) n = elim (query sl.name) [
  | not_listed ↦ none
  | unknown_stratum ↦ diff_strata query ss (suc n)
  | listed live ↦ diff_strata query ss (n + diffs (compare_stratum sl live))
]

abbrev pub exit_code : Option ℕ → ℕ
exit_code none = 2
exit_code (some n) = if n == 0 then 0 else 1

abbrev pub diff_loaded : Db → (Str → Query) → Result (List LockEntry × List StratumLock) → ℕ
diff_loaded db query (failed e) = 2
diff_loaded db query (loaded (lock, strata)) =
    let c = compare_lock db lock in
    exit_code (diff_strata query strata (length c.extra + length c.missing + length c.changed))

-- `lock_diff`, its exit code; the package database is taken to open.
unfoldable pub lock_diff : Db → (Str → Query) → Option LockFile → ℕ
lock_diff db query f = diff_loaded db query (lock_load f)
