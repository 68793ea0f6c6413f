-- ===== src/Install/Args.antt =====
-- The arguments of `salt install`, `update` and `remove`: `parse_txn_flags` of
-- src/salt/cmd_install.cpp and `parse_pkgref` of src/salt/cli.cpp.
pub mod Parsed
use salt_os.Prelude.{
  ℕ, zero, suc, ◌+◌, ◌-◌, ◌*◌, ◌/◌, ◌%◌, ◌≤◌, ◌<◌, compare, Ordering, max, ◌≡◌, refl, sym, ap, ◌∙◌,
  subst, ◌≢◌, ◌↔◌, ◌⊎◌, inl, inr, ⊎_elim, Bool, true, false, not, ◌&&◌, ◌||◌, Option, none, some,
  List, [], ◌∷◌, ◌++◌, map, arith, ltb, leb, ◌==◌, ==_iff, if◌then◌else◌, &&_eq_true, Bool-cases,
  Option-cases, eq_of_iff, length, filter, any, length-append, mem-cons, mem-append, mem-concat,
  concat-ne_nil, not-mem-nil, mem-filter, Str, codes, str_eq, str_eq_iff, str_eq_refl, contains,
  contains-cons, contains-append, set_insert, set_of, contains-set_insert, contains-set_of, Memᴰ,
}

-- `TxnFlags` of src/salt/cli.hpp
pub record TxnFlags : Type 0 where
  pub allow_unverified : Bool
  pub download_only : Bool
  pub locked : Bool
  pub cascade : Bool
  pub nodeps : Bool
  pub dry_run : Bool
  pub lockfile : Str

-- `!a.empty() && a[0] == '-'`
unfoldable pub is_option : Str → Bool
is_option [] = false
is_option (c ∷ s) = c == b'-'

-- What an option without an argument sets.
unfoldable pub simple_flag : Str → TxnFlags → Option TxnFlags
simple_flag a f =
    if str_eq a (codes "--allow-unverified")
    then some (record f { allow_unverified = true })
    else if str_eq a (codes "--download-only")
    then some (record f { download_only = true })
    else if str_eq a (codes "--locked")
    then some (record f { locked = true })
    else none

unfoldable pub later_flag : Str → TxnFlags → Option TxnFlags
later_flag a f =
    if str_eq a (codes "--cascade")
    then some (record f { cascade = true })
    else if str_eq a (codes "--nodeps")
    then some (record f { nodeps = true })
    else if str_eq a (codes "--dry-run") || str_eq a (codes "-n")
    then some (record f { dry_run = true })
    else none

abbrev pub keep_arg : Str → Option (List Str × TxnFlags) → Option (List Str × TxnFlags)
keep_arg a none = none
keep_arg a (some (rest, f)) = some (a ∷ rest, f)

-- The tests behind `--lockfile`, `rest` being what the loop makes of the later arguments.
unfoldable pub parse_other :
    Str → TxnFlags → (TxnFlags → Option (List Str × TxnFlags)) → Option (List Str × TxnFlags)
parse_other a f rest = elim (later_flag a f) [
  | some g ↦ rest g
  | none ↦ if is_option a then none else keep_arg a (rest f)
]

-- `parse_txn_flags`: the arguments that are left and the flags; none is false.
unfoldable pub parse_txn_flags : List Str → TxnFlags → Option (List Str × TxnFlags)
parse_txn_flags [] f = some ([], f)
parse_txn_flags (a ∷ []) f = elim (simple_flag a f) [
  | some g ↦ some ([], g)
  | none ↦ parse_other a f (λ g. some ([], g))
]
parse_txn_flags (a ∷ b ∷ args) f =
    let after_file = parse_txn_flags args (record f { locked = true; lockfile = b }) in
    elim (simple_flag a f) [
      | some g ↦ parse_txn_flags (b ∷ args) g
      | none ↦
          if str_eq a (codes "--lockfile")
          then after_file
          else parse_other a f (parse_txn_flags (b ∷ args))
    ]

-- `PkgRef` of src/salt/cli.hpp
pub record PkgRef : Type 0 where
  pub stratum : Str
  pub pkg : Str
  pub foreign : Bool

-- The parts before and behind the first slash.
unfoldable pub split_first : Str → Option (Str × Str)
split_first [] = none
split_first (c ∷ s) =
    let rest = split_first s in
    if c == b'/' then some ([], s) else elim rest [ none ↦ none | some p ↦ some (c ∷ p.0, p.1) ]

abbrev pub ref_of : Str → Option (Str × Str) → PkgRef
ref_of arg none = record { stratum = []; pkg = arg; foreign = false }
ref_of arg (some (s, p)) =
    if str_eq s [] || str_eq p []
    then record { stratum = []; pkg = arg; foreign = false }
    else record { stratum = s; pkg = p; foreign = true }

-- `parse_pkgref`
unfoldable pub parse_pkgref : Str → PkgRef
parse_pkgref arg = ref_of arg (split_first arg)
