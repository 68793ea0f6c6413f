-- ===== src/Examples/Install.antt =====
-- The editor is installed, and removed with what depends on it.
use salt_os.Prelude.{
  ◌≡◌, refl, ◌↔◌, true, false, some, List, [], ◌∷◌, arith, not-mem-nil, Str, codes, str_eq,
  contains, set_insert, set_of,
}
use salt_os.Util.Rc.{ok}
use salt_os.Repo.{RepoEntry, index_find, find_from, pick_newest, is_newer}
use salt_os.Repo.Vercmp.{vercmp, vercmp_loop, skip_zeros, digit_run, after_run, runs_cmp}
use salt_os.Db.{Db, is_installed}
use salt_os.Db.Ops.{revdeps, conflicts_with}
use salt_os.Install.Resolve.{Resolving, needed, visit_deps, resolve, resolve_each, resolve_all}
use salt_os.Install.Resolve.Total.{IsResolved, resolve_all-IsResolved}
use salt_os.Prelude.{str_cmp}
use salt_os.Install.Visit.{Visiting}
use salt_os.Install.Checks.{
  NativePlan, is_leaving, declared_conflicts, suffered_conflicts, entry_conflicts, check_conflicts,
  dangling_in, dangling_of, is_gone, check_dangling,
}
use salt_os.Install.Checks.Rows.{has_dep, has_conflict}
use salt_os.Install.Checks.Sound.{
  ConflictFree, DanglingFree, check_conflicts_iff, check_dangling_iff,
}
use salt_os.Install.Order.{order_by_deps, remove_order, cascade}
use salt_os.Install.Order.Deps.{IsDepOrder, order_by_deps-IsDepOrder}
use salt_os.Install.Order.Cascading.{IsCascade, cascade-IsCascade}
use salt_os.Install.Order.Remove.{IsRemoveOrder, remove_order-IsRemoveOrder}
use salt_os.Install.Effect.{run_plan}
use salt_os.Install.Effect.Coherent.{
  NoConflicts, DepsMet, run_plan-NoConflicts, run_plan-DepsMet, install-DepsMet,
}
use salt_os.Install.Effect.Cascaded.{removing, cascade-DepsMet}
use salt_os.Examples.{
  completing, index, editor, library_new, no_packages, two_packages, artifact_of,
}

abbrev ed : List Str
ed = codes "ed" ∷ []

abbrev lib : List Str
lib = codes "lib" ∷ []

resolve_all-IsResolved_example :
    (st : Resolving) × (resolve_all index no_packages ed false ≡ some st)
    × (st.problems ≡ [] → IsResolved index no_packages ed false st.order)
resolve_all-IsResolved_example = resolve_all-IsResolved index no_packages ed false

abbrev resolved : Resolving
resolved = record {
  seen = codes "lib" ∷ codes "ed" ∷ [];
  order = library_new ∷ editor ∷ [];
  problems = [];
}

resolves : resolve_all index no_packages ed false ≡ some resolved
unfolding resolve_all resolve_each resolve visit_deps needed index_find find_from pick_newest
    is_newer vercmp vercmp_loop skip_zeros digit_run after_run runs_cmp str_eq contains is_installed
resolves = refl

no_packages-DepsMet : DepsMet no_packages
unfolding DepsMet has_dep
no_packages-DepsMet who x c w = absurd (ground arith)

no_packages-NoConflicts : NoConflicts no_packages
unfolding NoConflicts has_conflict
no_packages-NoConflicts who x c d w = absurd (ground arith)

install-DepsMet_example :
    (db' : Db) × (run_plan completing
        (codes "current")
        7
        5
        artifact_of
        (record { remove = []; install = library_new ∷ editor ∷ [] })
        no_packages
      ≡ (ok, db'))
    × DepsMet db'
    × ((t : Str) → contains ed t ≡ true → is_installed db' t ≡ true)
install-DepsMet_example =
    install-DepsMet completing (λ s db. refl) (codes "current") 7 5 artifact_of (λ e. refl)
      (λ e. refl) (λ e. refl) index no_packages ed resolved resolves refl no_packages-DepsMet

abbrev both : NativePlan
both = record { remove = []; install = library_new ∷ editor ∷ [] }

both-conflicts : check_conflicts no_packages both ≡ true
unfolding check_conflicts entry_conflicts declared_conflicts suffered_conflicts conflicts_with
    is_leaving is_installed str_eq contains
both-conflicts = refl

run_plan-NoConflicts_example :
    (db' : Db) × (run_plan completing (codes "current") 7 5 artifact_of both no_packages
      ≡ (ok, db'))
    × NoConflicts db'
run_plan-NoConflicts_example =
    run_plan-NoConflicts completing (λ s db. refl) (codes "current") 7 5 artifact_of (λ e. refl)
      (λ e. refl) (λ e. refl) both no_packages both-conflicts no_packages-NoConflicts

abbrev all_gone : NativePlan
all_gone = record { remove = codes "ed" ∷ codes "lib" ∷ []; install = [] }

all_gone-dangling : check_dangling two_packages all_gone ≡ true
unfolding check_dangling dangling_in set_of set_insert revdeps str_eq contains is_installed str_cmp
    dangling_of is_gone
all_gone-dangling = refl

two_packages-DepsMet : DepsMet two_packages
unfolding DepsMet has_dep is_installed
two_packages-DepsMet who x c w = ground arith

run_plan-DepsMet_example :
    (db' : Db) × (run_plan completing (codes "current") 7 5 artifact_of all_gone two_packages
      ≡ (ok, db'))
    × DepsMet db'
run_plan-DepsMet_example =
    run_plan-DepsMet completing (λ s db. refl) (codes "current") 7 5 artifact_of (λ e. refl)
      (λ e. refl) (λ e. refl) all_gone two_packages all_gone-dangling
      (λ e d m. absurd (not-mem-nil e m)) two_packages-DepsMet

cascade-DepsMet_example :
    (set : List Str) × (st : Visiting Str) × (db' : Db) × (cascade two_packages lib ≡ some set)
    × (remove_order two_packages set ≡ some st)
    × (check_dangling two_packages (removing st.out) ≡ true)
    × (run_plan completing (codes "current") 7 5 artifact_of (removing st.out) two_packages
        ≡ (ok, db'))
    × ((x : Str) → contains lib x ≡ true → is_installed db' x ≡ false)
    × (DepsMet two_packages → DepsMet db')
cascade-DepsMet_example =
    cascade-DepsMet completing (λ s db. refl) (codes "current") 7 5 artifact_of (λ e. refl)
      (λ e. refl) (λ e. refl) two_packages lib

check_conflicts_iff_example :
    (check_conflicts no_packages both ≡ true) ↔ ConflictFree no_packages both both.install
check_conflicts_iff_example = check_conflicts_iff no_packages both

check_dangling_iff_example :
    (check_dangling two_packages all_gone ≡ true) ↔ DanglingFree two_packages all_gone
check_dangling_iff_example = check_dangling_iff two_packages all_gone

order_by_deps-IsDepOrder_example :
    (st : Visiting RepoEntry) × (order_by_deps (editor ∷ library_new ∷ []) ≡ some st)
    × IsDepOrder (editor ∷ library_new ∷ []) st.out
order_by_deps-IsDepOrder_example = order_by_deps-IsDepOrder (editor ∷ library_new ∷ [])

cascade-IsCascade_example :
    (set : List Str) × (cascade two_packages lib ≡ some set) × IsCascade two_packages lib set
cascade-IsCascade_example = cascade-IsCascade two_packages lib

remove_order-IsRemoveOrder_example :
    (st : Visiting Str) × (remove_order two_packages (codes "ed" ∷ codes "lib" ∷ []) ≡ some st)
    × IsRemoveOrder two_packages (codes "ed" ∷ codes "lib" ∷ []) st.out
remove_order-IsRemoveOrder_example =
    remove_order-IsRemoveOrder two_packages (codes "ed" ∷ codes "lib" ∷ [])
