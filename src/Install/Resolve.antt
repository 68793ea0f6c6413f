-- ===== src/Install/Resolve.antt =====
-- `resolve` of src/salt/cmd_install.cpp: the packages that an install or an update brings in.
pub mod Inv
pub mod Total
use salt_os.Prelude.{
  ℕ, zero, suc, ◌+◌, ◌-◌, ◌*◌, ◌/◌, ◌%◌, ◌≤◌, ◌<◌, compare, Ordering, max, ◌≡◌, refl, sym, ap, ◌∙◌,
  subst, ◌≢◌, ◌↔◌, ◌⊎◌, inl, inr, ⊎_elim, Bool, true, false, not, ◌&&◌, ◌||◌, Option, none, some,
  List, [], ◌∷◌, ◌++◌, map, arith, ltb, leb, ◌==◌, ==_iff, if◌then◌else◌, &&_eq_true, Bool-cases,
  Option-cases, eq_of_iff, length, filter, any, length-append, mem-cons, mem-append, not-mem-nil,
  mem-filter, Str, codes, str_eq, str_eq_iff, str_eq_refl, contains, contains-cons, contains-append,
  set_insert, set_of, contains-set_insert, contains-set_of, Memᴰ,
}
use salt_os.Repo.{RepoEntry, RepoIndex, index_find}
use salt_os.Db.{Db, is_installed}

-- The two messages that `resolve` pushes.
pub data ResolveProblem : Type 0 where
  not_found : Str → ResolveProblem
  dep_missing : Str → Str → ResolveProblem

-- The three containers that the calls share.
pub record Resolving : Type 0 where
  pub seen : List Str
  pub order : List RepoEntry
  pub problems : List ResolveProblem

abbrev pub not_resolving : Resolving
not_resolving = record { seen = []; order = []; problems = [] }

-- `wanted_by.empty()` tells the two messages apart.
abbrev pub problem_of : Str → Str → ResolveProblem
problem_of name wanted_by =
    if str_eq wanted_by [] then not_found name else dep_missing name wanted_by

infixl 5 ◌>>=◌
abbrev pub ◌>>=◌ : Option Resolving → (Resolving → Option Resolving) → Option Resolving
none >>= f = none
some st >>= f = f st

module _ (idx : RepoIndex) (db : Db) (targets : List Str) (nodeps : Bool) where
  -- `targets.count(name) || !salt_db_is_installed(db, name)`
  unfoldable pub needed : Str → Bool
  needed name = contains targets name || not (is_installed db name)

  -- The dependencies that the loop goes through: none under --nodeps.
  abbrev pub deps_of : RepoEntry → List Str
  deps_of e = if nodeps then [] else e.deps

  -- The loop over the dependencies of `name`, `rec` being the recursive call.
  unfoldable pub visit_deps :
      (Str → Str → Resolving → Option Resolving) → Str → List Str → Resolving → Option Resolving
  visit_deps rec name [] st = some st
  visit_deps rec name (d ∷ ds) st =
      (if needed d then rec d name st else some st) >>= visit_deps rec name ds

  -- `if (…) order.push_back(e);`
  abbrev pub push_needed : Str → RepoEntry → Resolving → Resolving
  push_needed name e st = if needed name then record st { order = st.order ++ e ∷ [] } else st

  -- What follows the search in the index.
  abbrev pub visit_entry :
      (Str → Str → Resolving → Option Resolving)
      → Str
      → Str
      → Option RepoEntry
      → Resolving
      → Option Resolving
  visit_entry rec name wanted_by none st =
      some (record st { problems = st.problems ++ problem_of name wanted_by ∷ [] })
  visit_entry rec name wanted_by (some e) st =
      visit_deps rec name (deps_of e) st >>= λ st'. some (push_needed name e st')

  -- `resolve`, on fuel; `none` means that the fuel ran out.
  unfoldable pub resolve : ℕ → Str → Str → Resolving → Option Resolving
  resolve zero name wanted_by st = none
  resolve (suc f) name wanted_by st =
      let rest =
        visit_entry (resolve f) name wanted_by (index_find idx name)
          (record st { seen = name ∷ st.seen }) in
      if contains st.seen name then some st else rest

  -- `for (auto &n : targets) resolve(…)` of `do_install`.
  unfoldable pub resolve_each : ℕ → List Str → Resolving → Option Resolving
  resolve_each f [] st = some st
  resolve_each f (t ∷ ts) st = resolve f t [] st >>= resolve_each f ts

  -- One call for each entry of the index, one for a name that it lacks, and the first.
  abbrev pub resolve_fuel : ℕ
  resolve_fuel = suc (suc (length idx.items))

  unfoldable pub resolve_all : Option Resolving
  resolve_all = resolve_each resolve_fuel targets not_resolving
