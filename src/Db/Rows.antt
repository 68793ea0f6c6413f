-- ===== src/Db/Rows.antt =====
-- The rows of the package database: the tables of SCHEMA in src/halite/src/db.c, and what is
-- written to them (src/halite/include/salt/pkg.h).
use salt_os.Prelude.{ℕ, Option, none, some, List, [], ◌∷◌, if◌then◌else◌, Str, codes, str_eq}
use salt_os.Prelude.Int.{ℤ}

-- `salt_hook_kind`
pub data HookKind : Type 0 where
  post_install post_upgrade pre_remove post_remove : HookKind

-- HOOK_NAMES, `salt_hook_name`
unfoldable pub hook_name : HookKind → Str
hook_name post_install = codes "post_install"
hook_name post_upgrade = codes "post_upgrade"
hook_name pre_remove = codes "pre_remove"
hook_name post_remove = codes "post_remove"

-- The kinds from 0 to SALT_HOOK_COUNT - 1.
abbrev pub hook_kinds : List HookKind
hook_kinds = post_install ∷ post_upgrade ∷ pre_remove ∷ post_remove ∷ []

abbrev hook_from : Str → List HookKind → Option HookKind
hook_from name [] = none
hook_from name (k ∷ ks) =
    let rest = hook_from name ks in if str_eq name (hook_name k) then some k else rest

-- `salt_hook_from_name`; `none` is -1.
unfoldable pub hook_from_name : Str → Option HookKind
hook_from_name name = hook_from name hook_kinds

-- `salt_pkg_meta`; what may be NULL is an option.
pub record PkgMeta : Type 0 where
  pub name : Str
  pub version : Str
  pub release : ℤ
  pub arch : Str
  pub summary : Option Str
  pub license : Option Str
  pub deps : List Str
  pub conflicts : List Str
  pub hooks : HookKind → Option Str

-- `salt_manifest_entry`
pub record ManifestEntry : Type 0 where
  pub path : Str
  pub typeflag : ℕ
  pub mode : ℕ
  pub size : ℕ
  pub sha256 : Option Str
  pub linkname : Option Str

-- `s ? s : ""`
abbrev pub or_empty : Option Str → Str
or_empty none = []
or_empty (some s) = s

pub record PkgRow : Type 0 where
  pub name : Str
  pub version : Str
  pub release : ℤ
  pub arch : Str
  pub summary : Str
  pub license : Str
  pub repo : Str
  pub sig_status : Str
  pub install_time : ℕ
  pub txn_id : ℕ
  pub filename : Str
  pub sha256 : Str

pub record FileRow : Type 0 where
  pub name : Str
  pub path : Str
  pub mode : ℕ
  pub size : ℕ
  pub sha256 : Str
  pub typeflag : ℕ
  pub linkname : Str

pub record DepRow : Type 0 where
  pub name : Str
  pub dep : Str

pub record ConflictRow : Type 0 where
  pub name : Str
  pub conflict : Str

pub record HookRow : Type 0 where
  pub name : Str
  pub hook : Str
  pub body : Str

-- `salt_deployment`, a row of `transactions`.
pub record TxnRow : Type 0 where
  pub id : ℕ
  pub op : Str
  pub status : Str
  pub time : ℕ
  pub snapshot : Option Str
