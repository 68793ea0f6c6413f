-- ===== src/Install/Effect/Coherent.antt =====
-- A plan that passes the checks keeps the installed packages free of conflicts and complete.
use salt_os.Prelude.{
  ℕ, ◌≡◌, refl, sym, ap, ◌∙◌, ◌≢◌, ◌⊎◌, inl, inr, ⊎_elim, Bool, true, false, some, List, [], arith,
  Bool-cases, Str, contains, Memᴰ,
}
use salt_os.Util.Rc.{ok}
use salt_os.Repo.{RepoEntry, RepoIndex}
use salt_os.Db.{Db, Stmt, is_installed}
use salt_os.Install.Resolve.{Resolving, resolve_all}
use salt_os.Install.Resolve.Inv.{has_name, mem_of_has_name}
use salt_os.Install.Resolve.Total.{IsResolved, resolve_all-IsResolved}
use salt_os.Install.Checks.{NativePlan, is_leaving, is_gone, check_conflicts, check_dangling}
use salt_os.Install.Checks.Rows.{has_conflict, has_dep}
use salt_os.Install.Checks.Sound.{check_conflicts_iff, check_dangling_iff}
use salt_os.Install.Effect.{Artifact, run_plan}
use salt_os.Install.Effect.Tables.{Removed, Installed, run_removes_lem, run_installs_lem}

-- No two installed packages conflict.
unfoldable pub NoConflicts : Db → Type 0
NoConflicts db =
    (who x : Str)
    → has_conflict db.conflicts who x ≡ true
    → who ≢ x
    → is_installed db who ≡ true
    → is_installed db x ≡ false

-- Each dependency of an installed package is installed.
unfoldable pub DepsMet : Db → Type 0
DepsMet db =
    (who x : Str)
    → has_dep db.deps who x ≡ true
    → is_installed db who ≡ true
    → is_installed db x ≡ true

some_injective {ℓ} : {A : Type ℓ} {x y : A} → some x ≡ some y → x ≡ y
some_injective h = cc

nothing_gone : (plan : NativePlan) (n : Str) → plan.remove ≡ [] → is_gone plan n ≡ true → ⊥
unfolding is_gone contains
nothing_gone plan n nil g = ground (arith, ap (λ l. contains l n) nil)

module _ (completes : Stmt → Db → Bool) (engine : (s : Stmt) (db : Db) → completes s db ≡ true)
    (repo : Str) (now txn_id : ℕ) (artifact : RepoEntry → Artifact)
    (named : (e : RepoEntry) → (artifact e).meta.name ≡ e.name)
    (same_deps : (e : RepoEntry) → (artifact e).meta.deps ≡ e.deps)
    (same_conflicts : (e : RepoEntry) → (artifact e).meta.conflicts ≡ e.conflicts) where
  -- The tables after a plan, by way of those after its removals.
  pub run_plan_lem :
      (plan : NativePlan) (db : Db)
      → (mid db' : Db) × (run_plan completes repo now txn_id artifact plan db ≡ (ok, db'))
        × Removed plan.remove db mid
        × Installed plan.install mid db'
  unfolding run_plan
  run_plan_lem plan db =
      let (mid, e, r) =
        run_removes_lem completes engine repo now txn_id artifact named same_deps same_conflicts
          plan.remove db in
      let (db', k, i) =
        run_installs_lem completes engine repo now txn_id artifact named same_deps same_conflicts
          plan.install mid in
      (mid, db', rw e k, r, i)

  -- If the engine completes each statement, and each archive has the name, the dependencies and
  -- the conflicts of its entry, then the database calls of a plan that passes the check of
  -- conflicts succeed, and from installed packages without conflicts they lead to installed
  -- packages without conflicts.
  pub run_plan-NoConflicts :
      (plan : NativePlan) (db : Db)
      → check_conflicts db plan ≡ true
      → NoConflicts db
      → (db' : Db) × (run_plan completes repo now txn_id artifact plan db ≡ (ok, db'))
        × NoConflicts db'
  unfolding NoConflicts is_leaving
  run_plan-NoConflicts plan db check clean =
      let (mid, db', e, r, i) = run_plan_lem plan db in
      let free = (check_conflicts_iff db plan).0 check in
      (
        db',
        e,
        λ who x c d w. elim (Bool-cases (is_installed db' x)) [
          | inr gone ↦ gone
          | inl there ↦ absurd (
              ⊎_elim
                (λ (f, m, n, c).
                  let kept = (free f m).0 x c (λ k. d (sym n ∙ sym k)) in
                  ground (arith, i.installed x, r.installed x, kept))
                (λ (c, n).
                  ⊎_elim
                    (λ has.
                      let (f, m, k) = mem_of_has_name plan.install x has in
                      ground (
                        arith,
                        r.conflict who x c,
                        (free f m).1 who (rw k (r.conflict who x c).0),
                        d,
                        k,
                      ))
                    (λ old. ground (
                      arith,
                      r.conflict who x c,
                      r.installed x,
                      r.installed who,
                      i.installed who,
                      clean who x,
                      d,
                    ))
                    ((i.installed x).0 there))
                (i.conflict who x c))
        ],
      )

  -- If the engine completes each statement, and each archive has the name, the dependencies and
  -- the conflicts of its entry, then the database calls of a plan succeed that passes the check of
  -- dependencies and whose entries depend only on each other and on installed packages that stay;
  -- if each dependency of an installed package was installed before, it is so afterwards.
  pub run_plan-DepsMet :
      (plan : NativePlan) (db : Db)
      → check_dangling db plan ≡ true
      → ((e : RepoEntry) (d : Str)
          → Memᴰ e plan.install
          → contains e.deps d ≡ true
          → (has_name plan.install d ≡ true)
            ⊎ ((is_installed db d ≡ true) × (contains plan.remove d ≡ false)))
      → DepsMet db
      → (db' : Db) × (run_plan completes repo now txn_id artifact plan db ≡ (ok, db')) × DepsMet db'
  unfolding DepsMet is_gone
  run_plan-DepsMet plan db check met whole =
      let (mid, db', e, r, i) = run_plan_lem plan db in
      let free = (check_dangling_iff db plan).0 check in
      (
        db',
        e,
        λ who x c w.
            ⊎_elim (λ (f, m, n, c). ground (arith, met f x m c, i.installed x, r.installed x))
              (λ (c, n). ground (
                arith,
                r.dep who x c,
                i.installed x,
                r.installed x,
                i.installed who,
                r.installed who,
                whole who x,
                free x who,
              ))
              (i.dep who x c),
      )

  -- If the engine completes each statement, and each archive has the name, the dependencies and
  -- the conflicts of its entry, then the database calls succeed that install what `resolve`
  -- collects without a problem, dependencies included: afterwards the targets are installed, and
  -- if each dependency of an installed package was installed before, it is so again.
  pub install-DepsMet :
      (idx : RepoIndex) (db : Db) (targets : List Str) (st : Resolving)
      → resolve_all idx db targets false ≡ some st
      → st.problems ≡ []
      → DepsMet db
      → (db' : Db) × (run_plan completes repo now txn_id artifact
            (record { remove = []; install = st.order })
            db
          ≡ (ok, db'))
        × DepsMet db'
        × ((t : Str) → contains targets t ≡ true → is_installed db' t ≡ true)
  unfolding DepsMet contains
  install-DepsMet idx db targets st resolved clean whole =
      let (got, e, full) = resolve_all-IsResolved idx db targets false in
      let same : got ≡ st = some_injective (sym e ∙ resolved) in
      let all : IsResolved idx db targets false st.order = rw same at (full (rw same clean)) in
      let plan : NativePlan = record { remove = []; install = st.order } in
      let (db', k, whole') =
        run_plan-DepsMet plan db
          ((check_dangling_iff db plan).1 (λ n who g. absurd (nothing_gone plan n refl g)))
          (λ f d m c. ground (arith, all.closed f d m c)) whole in
      let (mid, db2, k2, r, i) = run_plan_lem plan db in
      let one : db2 ≡ db' = ap (λ p. p.1) (sym k2 ∙ k) in
      (db', k, whole', λ t c. rw one at ((i.installed t).1 (inl (all.wanted t c))))
