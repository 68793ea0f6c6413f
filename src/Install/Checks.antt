-- ===== src/Install/Checks.antt =====
-- `check_conflicts` and `check_dangling` of src/salt/cmd_install.cpp: what a plan is refused for.
-- `arriving.count` and `present.count` are `has_name`. A check is given by its messages; it returns true if there are none.
pub mod Rows
pub mod Sound
use salt_os.Prelude.{
  ℕ, zero, suc, ◌+◌, ◌-◌, ◌*◌, ◌/◌, ◌%◌, ◌≤◌, ◌<◌, compare, Ordering, max, ◌≡◌, refl, sym, ap, ◌∙◌,
  subst, ◌≢◌, ◌↔◌, ◌⊎◌, inl, inr, ⊎_elim, Bool, true, false, not, ◌&&◌, ◌||◌, Option, none, some,
  List, [], ◌∷◌, ◌++◌, map, arith, ltb, leb, ◌==◌, ==_iff, if◌then◌else◌, &&_eq_true, Bool-cases,
  Option-cases, eq_of_iff, length, filter, any, length-append, mem-cons, mem-append, mem-concat,
  concat-ne_nil, not-mem-nil, mem-filter, Str, codes, str_eq, str_eq_iff, str_eq_refl, contains,
  contains-cons, contains-append, set_insert, set_of, contains-set_insert, contains-set_of, Memᴰ,
}
use salt_os.Repo.{RepoEntry}
use salt_os.Db.{Db, is_installed}
use salt_os.Db.Ops.{revdeps, conflicts_with}
use salt_os.Install.Resolve.Inv.{has_name}

-- `NativePlan` of src/salt/cli.hpp
pub record NativePlan : Type 0 where
  pub remove : List Str
  pub install : List RepoEntry

-- `leaving.count`: removed or replaced.
unfoldable pub is_leaving : NativePlan → Str → Bool
is_leaving plan x = contains plan.remove x || has_name plan.install x

-- The messages on conflicts.
pub data PlanConflict : Type 0 where
  both_arrive with_installed of_installed : Str → Str → PlanConflict

-- The conflicts that an entry declares.
unfoldable pub declared_conflicts : Db → NativePlan → Str → List Str → List PlanConflict
declared_conflicts db plan name [] = []
declared_conflicts db plan name (c ∷ cs) =
    let rest = declared_conflicts db plan name cs in
    if str_eq c name
    then rest
    else if has_name plan.install c
    then both_arrive name c ∷ rest
    else if is_installed db c && not (is_leaving plan c)
    then with_installed name c ∷ rest
    else rest

-- The conflicts that installed packages declare with an entry.
unfoldable pub suffered_conflicts : NativePlan → Str → List Str → List PlanConflict
suffered_conflicts plan name [] = []
suffered_conflicts plan name (who ∷ ws) =
    let rest = suffered_conflicts plan name ws in
    if str_eq who name || is_leaving plan who then rest else of_installed who name ∷ rest

unfoldable pub entry_conflicts : Db → NativePlan → List RepoEntry → List PlanConflict
entry_conflicts db plan [] = []
entry_conflicts db plan (e ∷ es) =
    declared_conflicts db plan e.name e.conflicts
    ++ (suffered_conflicts plan e.name (conflicts_with db e.name) ++ entry_conflicts db plan es)

abbrev pub is_nil {ℓ} : {A : Type ℓ} → List A → Bool
is_nil [] = true
is_nil (x ∷ xs) = false

unfoldable pub check_conflicts : Db → NativePlan → Bool
check_conflicts db plan = is_nil (entry_conflicts db plan plan.install)

-- `gone.count`: removed and not installed anew.
unfoldable pub is_gone : NativePlan → Str → Bool
is_gone plan x = contains plan.remove x && not (has_name plan.install x)

-- "… is required by …"
pub data Dangling : Type 0 where
  required_by : Str → Str → Dangling

unfoldable pub dangling_of : Db → NativePlan → Str → List Str → List Dangling
dangling_of db plan n [] = []
dangling_of db plan n (who ∷ ws) =
    let rest = dangling_of db plan n ws in
    if is_gone plan who || has_name plan.install who
    then rest
    else if not (is_installed db who)
    then rest
    else required_by n who ∷ rest

-- The loop over `gone`, a set.
unfoldable pub dangling_in : Db → NativePlan → List Str → List Dangling
dangling_in db plan [] = []
dangling_in db plan (n ∷ ns) = dangling_of db plan n (revdeps db n) ++ dangling_in db plan ns

unfoldable pub check_dangling : Db → NativePlan → Bool
check_dangling db plan =
    is_nil (dangling_in db plan (filter (λ n. not (has_name plan.install n)) (set_of plan.remove)))
