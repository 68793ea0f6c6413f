-- ===== src/Install/Effect/Cascaded.antt =====
-- `salt remove --cascade`: what `native_remove` plans passes the check and leaves no dependency open.
use salt_os.Prelude.{
  ℕ, ◌≡◌, sym, ap, ◌∙◌, subst, ◌↔◌, inl, Bool, true, false, some, List, [], arith, not-mem-nil, Str,
  contains,
}
use salt_os.Util.Rc.{ok}
use salt_os.Repo.{RepoEntry}
use salt_os.Db.{Db, Stmt, is_installed}
use salt_os.Db.Ops.{revdeps}
use salt_os.Install.Visit.{Visiting}
use salt_os.Install.Checks.{NativePlan, is_gone, check_dangling}
use salt_os.Install.Checks.Rows.{contains-revdeps_in}
use salt_os.Install.Checks.Sound.{check_dangling_iff}
use salt_os.Install.Order.{remove_order, cascade}
use salt_os.Install.Order.Cascading.{ClosedUnder, cascade-IsCascade}
use salt_os.Install.Order.Remove.{remove_order-IsRemoveOrder}
use salt_os.Install.Effect.{Artifact, run_plan}
use salt_os.Install.Effect.Coherent.{DepsMet, run_plan_lem, run_plan-DepsMet}

abbrev pub removing : List Str → NativePlan
removing names = record { remove = names; install = [] }

closed_dangling :
    (db : Db) (set out : List Str)
    → ClosedUnder db set
    → ((x : Str) → (contains out x ≡ true) ↔ (contains set x ≡ true))
    → check_dangling db (removing out) ≡ true
unfolding is_gone ClosedUnder revdeps
closed_dangling db set out closed same = (check_dangling_iff db (removing out)).1 (λ n who g d i.
    inl (
      ground (
        arith,
        same n,
        same who,
        λ (k : contains set n ≡ true). closed n who k ((contains-revdeps_in db.deps n who).1 d) i,
      )))

module _ (completes : Stmt → Db → Bool) (engine : (s : Stmt) (db : Db) → completes s db ≡ true)
    (repo : Str) (now txn_id : ℕ) (artifact : RepoEntry → Artifact)
    (named : (e : RepoEntry) → (artifact e).meta.name ≡ e.name)
    (same_deps : (e : RepoEntry) → (artifact e).meta.deps ≡ e.deps)
    (same_conflicts : (e : RepoEntry) → (artifact e).meta.conflicts ≡ e.conflicts) where
  -- A removal with `--cascade` finds its packages and their order, and its plan passes the check of
  -- dependencies. If the engine completes each statement, and each archive has the name, the
  -- dependencies and the conflicts of its entry, then its database calls succeed, no argument is
  -- installed afterwards, and if each dependency of an installed package was installed before, it
  -- is so again.
  pub cascade-DepsMet :
      (db : Db) (args : List Str)
      → (set : List Str) × (st : Visiting Str) × (db' : Db) × (cascade db args ≡ some set)
        × (remove_order db set ≡ some st)
        × (check_dangling db (removing st.out) ≡ true)
        × (run_plan completes repo now txn_id artifact (removing st.out) db ≡ (ok, db'))
        × ((x : Str) → contains args x ≡ true → is_installed db' x ≡ false)
        × (DepsMet db → DepsMet db')
  unfolding contains
  cascade-DepsMet db args =
      let (set, e, c) = cascade-IsCascade db args in
      let (st, o, r) = remove_order-IsRemoveOrder db set in
      let passes = closed_dangling db set st.out c.closed r.same in
      let (mid, db', k, gone, i) =
        run_plan_lem completes engine repo now txn_id artifact named same_deps same_conflicts
          (removing st.out) db in
      (
        set,
        st,
        db',
        e,
        o,
        passes,
        k,
        λ x a. ground (arith, i.installed x, gone.installed x, r.same x, c.asked x a),
        λ whole.
            let (db2, k2, w) =
              run_plan-DepsMet completes engine repo now txn_id artifact named same_deps
                same_conflicts (removing st.out) db passes (λ f d m. absurd (not-mem-nil f m))
                whole in
            subst DepsMet (ap (λ p. p.1) (sym k2 ∙ k)) w,
      )
