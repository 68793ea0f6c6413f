-- ===== src/Setup/Cli.antt =====
-- `parse_cli` of src/setup/config.cpp.
pub mod Sets
use salt_os.Prelude.{
  ℕ, zero, suc, ◌+◌, ◌-◌, ◌*◌, ◌/◌, ◌%◌, ◌≤◌, ◌<◌, compare, Ordering, max, ◌≡◌, refl, sym, ap, ◌∙◌,
  subst, ◌≢◌, ◌↔◌, ◌⊎◌, inl, inr, ⊎_elim, Bool, true, false, not, ◌&&◌, ◌||◌, Option, none, some,
  List, [], ◌∷◌, ◌++◌, map, arith, ltb, leb, ◌==◌, ==_iff, if◌then◌else◌, &&_eq_true, Bool-cases,
  Option-cases, eq_of_iff, length, filter, any, length-append, mem-cons, mem-append, mem-concat,
  concat-ne_nil, not-mem-nil, mem-filter, Str, codes, str_eq, str_eq_iff, str_eq_refl, contains,
  contains-cons, contains-append, set_insert, set_of, contains-set_insert, contains-set_of, Memᴰ,
}

-- `CliOptions`
pub record CliOptions : Type 0 where
  pub from : Str
  pub profiles : List Str
  pub sets : List Str
  pub mnt : Str
  pub dump_config : Bool
  pub yes : Bool
  pub help : Bool

-- `kv.find('=') != npos`
unfoldable pub has_equals : Str → Bool
has_equals [] = false
has_equals (c ∷ s) = let rest = has_equals s in c == b'=' || rest

-- An option that takes an argument.
pub data Valued : Type 0 where
  from_option profile_option set_option disk_option user_option target_option mnt_option : Valued

unfoldable pub valued_option : Str → Option Valued
valued_option a =
    if str_eq a (codes "--from")
    then some from_option
    else if str_eq a (codes "--profile")
    then some profile_option
    else if str_eq a (codes "--set")
    then some set_option
    else if str_eq a (codes "--disk")
    then some disk_option
    else if str_eq a (codes "--user")
    then some user_option
    else if str_eq a (codes "--target")
    then some target_option
    else if str_eq a (codes "--mnt")
    then some mnt_option
    else none

abbrev pub add_set : Str → CliOptions → CliOptions
add_set kv o = record o { sets = o.sets ++ kv ∷ [] }

-- What an option does with its argument; none is an error.
unfoldable pub apply_option : Valued → Str → CliOptions → Option CliOptions
apply_option from_option v o = some (record o { from = v })
apply_option profile_option v o = some (record o { profiles = o.profiles ++ v ∷ [] })
apply_option set_option v o = if has_equals v then some (add_set v o) else none
apply_option disk_option v o = some (add_set (codes "install.disk=" ++ v) o)
apply_option user_option v o = some (add_set (codes "user.name=" ++ v) o)
apply_option target_option v o =
    some (add_set (codes "install.target=" ++ v) (add_set (codes "install.mode=mounted") o))
apply_option mnt_option v o = some (record o { mnt = v })

-- `parse_cli`, of the arguments behind the program's name; none is the return of 2.
unfoldable pub parse_cli : List Str → CliOptions → Option CliOptions
parse_cli [] o = some o
parse_cli (a ∷ []) o =
    if str_eq a (codes "--help") || str_eq a (codes "-h")
    then some (record o { help = true })
    else elim (valued_option a) [
      | some v ↦ none
      | none ↦
          if str_eq a (codes "--yes") || str_eq a (codes "-y")
          then some (record o { yes = true })
          else if str_eq a (codes "--dump-config")
          then some (record o { dump_config = true })
          else none
    ]
parse_cli (a ∷ b ∷ args) o =
    let yes = parse_cli (b ∷ args) (record o { yes = true }) in
    let dump = parse_cli (b ∷ args) (record o { dump_config = true }) in
    if str_eq a (codes "--help") || str_eq a (codes "-h")
    then some (record o { help = true })
    else elim (valued_option a) [
      | some v ↦ elim (apply_option v b o) [ none ↦ none | some o' ↦ parse_cli args o' ]
      | none ↦
          if str_eq a (codes "--yes") || str_eq a (codes "-y")
          then yes
          else if str_eq a (codes "--dump-config")
          then dump
          else none
    ]
