-- ===== src/Install/Effect/Tables.antt =====
-- What the removals and the installations of a plan leave in the tables.
use salt_os.Prelude.{
  ℕ, ◌≡◌, refl, sym, ◌∙◌, ◌↔◌, ◌⊎◌, inl, inr, ⊎_elim, Bool, true, false, ◌&&◌, ◌||◌, some, List, [],
  ◌∷◌, ◌++◌, map, arith, Bool-cases, any, Str, str_eq, str_eq_iff, contains, Memᴰ,
}
use salt_os.Util.Rc.{ok}
use salt_os.Repo.{RepoEntry}
use salt_os.Db.{Db, Stmt, is_installed, with_artifact, apply, allowed, update_artifact}
use salt_os.Db.Ops.{set_pkg_artifact, pkg_row, dep_row, conflict_row}
use salt_os.Db.Ops.Record.{without, with_rows, record_install_lem, record_remove_lem, step_lem}
use salt_os.Db.Rows.{PkgRow}
use salt_os.Install.Resolve.Inv.{has_name}
use salt_os.Install.Checks.Rows.{has_conflict, has_dep}
use salt_os.Install.Effect.{
  Artifact, run_removes, run_install, run_installs, is_installed-without, has_conflict-without,
  has_dep-without, any-append, any-dep_row, any-conflict_row,
}

-- What is left of the tables once the packages of a list are removed.
pub record Removed (names : List Str) (db db' : Db) : Type 0 where
  pub installed :
      (x : Str)
      → (is_installed db' x ≡ true) ↔ ((is_installed db x ≡ true) × (contains names x ≡ false))
  pub conflict :
      (who x : Str)
      → has_conflict db'.conflicts who x ≡ true
      → (has_conflict db.conflicts who x ≡ true) × (contains names who ≡ false)
  pub dep :
      (who x : Str)
      → has_dep db'.deps who x ≡ true
      → (has_dep db.deps who x ≡ true) × (contains names who ≡ false)

-- An entry of the list has the name and declares the conflict, or the dependency.
abbrev pub Declares : (RepoEntry → List Str) → List RepoEntry → Str → Str → Type 0
Declares f es who x = (e : RepoEntry) × Memᴰ e es × (e.name ≡ who) × (contains (f e) x ≡ true)

pub record Installed (es : List RepoEntry) (db db' : Db) : Type 0 where
  pub installed :
      (x : Str)
      → (is_installed db' x ≡ true) ↔ ((has_name es x ≡ true) ⊎ (is_installed db x ≡ true))
  pub conflict :
      (who x : Str)
      → has_conflict db'.conflicts who x ≡ true
      → Declares (λ e. e.conflicts) es who x
        ⊎ ((has_conflict db.conflicts who x ≡ true) × (has_name es who ≡ false))
  pub dep :
      (who x : Str)
      → has_dep db'.deps who x ≡ true
      → Declares (λ e. e.deps) es who x
        ⊎ ((has_dep db.deps who x ≡ true) × (has_name es who ≡ false))

module _ (completes : Stmt → Db → Bool) (engine : (s : Stmt) (db : Db) → completes s db ≡ true)
    (repo : Str) (now txn_id : ℕ) (artifact : RepoEntry → Artifact)
    (named : (e : RepoEntry) → (artifact e).meta.name ≡ e.name)
    (same_deps : (e : RepoEntry) → (artifact e).meta.deps ≡ e.deps)
    (same_conflicts : (e : RepoEntry) → (artifact e).meta.conflicts ≡ e.conflicts) where
  pub run_removes_lem :
      (ns : List Str) (db : Db)
      → (db' : Db) × (run_removes completes repo now txn_id artifact ns db ≡ (ok, db'))
        × Removed ns db db'
  unfolding run_removes contains
  run_removes_lem [] db = (
    db,
    refl,
    record {
      installed = λ x. (λ h. (h, refl), λ h. h.0);
      conflict = λ who x h. (h, refl);
      dep = λ who x h. (h, refl);
    },
  )
  run_removes_lem (n ∷ ns) db =
      let (db', e, r) = run_removes_lem ns (without n db) in
      (
        db',
        rw (record_remove_lem completes engine n db) e,
        record {
          installed =
              λ x. ground (arith, r.installed x, is_installed-without n db x, str_eq_iff n x);
          conflict = λ who x h.
              ground (arith, r.conflict who x h, has_conflict-without n db who x, str_eq_iff n who);
          dep = λ who x h.
              ground (arith, r.dep who x h, has_dep-without n db who x, str_eq_iff n who);
        },
      )

  any-with_artifact :
      (n f s : Str) (rs : List PkgRow) (x : Str)
      → any (λ r. str_eq r.name x) (map (with_artifact n f s) rs) ≡ any (λ r. str_eq r.name x) rs
  any-with_artifact n f s [] x = refl
  any-with_artifact n f s (r ∷ rs) x = ground (arith, any-with_artifact n f s rs x)

  -- The tables after one installation.
  abbrev one_installed : RepoEntry → Db → Db
  one_installed e db =
      let a = artifact e in
      apply (update_artifact a.meta.name e.filename a.sha256) (
        with_rows a.meta a.manifest (pkg_row a.meta (some repo) (some a.sig_status) now txn_id)
          (without a.meta.name db))

  run_install_lem :
      (e : RepoEntry) (db : Db)
      → run_install completes repo now txn_id artifact e db ≡ (ok, one_installed e db)
  unfolding set_pkg_artifact allowed
  run_install_lem e db =
      let a = artifact e in
      rw
        (
          record_install_lem completes engine a.meta a.manifest (some repo) (some a.sig_status) now
              txn_id db,
          step_lem completes engine (update_artifact a.meta.name e.filename a.sha256) (λ d. refl),
        )
        refl

  one-is_installed :
      (e : RepoEntry) (db : Db) (x : Str)
      → is_installed (one_installed e db) x
        ≡ is_installed (without (artifact e).meta.name db) x || str_eq (artifact e).meta.name x
  unfolding apply with_rows is_installed
  one-is_installed e db x =
      let a = artifact e in
      let row = pkg_row a.meta (some repo) (some a.sig_status) now txn_id in
      let rows = (without a.meta.name db).packages in
      any-with_artifact a.meta.name e.filename a.sha256 (rows ++ row ∷ []) x
      ∙ any-append (λ r. str_eq r.name x) rows (row ∷ [])
      ∙ ground arith

  one-has_conflict :
      (e : RepoEntry) (db : Db) (who x : Str)
      → has_conflict (one_installed e db).conflicts who x
        ≡ has_conflict (without (artifact e).meta.name db).conflicts who x
          || has_conflict
              (map (conflict_row (artifact e).meta.name) (artifact e).meta.conflicts)
              who
              x
  unfolding apply with_rows has_conflict
  one-has_conflict e db who x =
      let a = artifact e in
      any-append (λ r. str_eq r.name who && str_eq r.conflict x) (without a.meta.name db).conflicts
        (map (conflict_row a.meta.name) a.meta.conflicts)

  one-has_dep :
      (e : RepoEntry) (db : Db) (who x : Str)
      → has_dep (one_installed e db).deps who x
        ≡ has_dep (without (artifact e).meta.name db).deps who x
          || has_dep (map (dep_row (artifact e).meta.name) (artifact e).meta.deps) who x
  unfolding apply with_rows has_dep
  one-has_dep e db who x =
      let a = artifact e in
      any-append (λ r. str_eq r.name who && str_eq r.dep x) (without a.meta.name db).deps
        (map (dep_row a.meta.name) a.meta.deps)

  conflict_first :
      (e : RepoEntry) (es : List RepoEntry) (db : Db) (who x : Str)
      → has_conflict (one_installed e db).conflicts who x ≡ true
      → has_name es who ≡ false
      → Declares (λ e. e.conflicts) (e ∷ es) who x
        ⊎ ((has_conflict db.conflicts who x ≡ true) × (has_name (e ∷ es) who ≡ false))
  conflict_first e es db who x h n =
      let a = artifact e in
      elim (Bool-cases (has_conflict (without a.meta.name db).conflicts who x)) [
        | inl old ↦
            let (c, d) = has_conflict-without a.meta.name db who x old in
            inr (c, ground (arith, str_eq_iff e.name who, named e))
        | inr new ↦
            let (k, c) =
              any-conflict_row a.meta.name a.meta.conflicts who x
                (ground (arith, one-has_conflict e db who x)) in
            inl (e, Memᴰ.head refl, sym (named e) ∙ k, rw (same_conflicts e) at c)
      ]

  dep_first :
      (e : RepoEntry) (es : List RepoEntry) (db : Db) (who x : Str)
      → has_dep (one_installed e db).deps who x ≡ true
      → has_name es who ≡ false
      → Declares (λ e. e.deps) (e ∷ es) who x
        ⊎ ((has_dep db.deps who x ≡ true) × (has_name (e ∷ es) who ≡ false))
  dep_first e es db who x h n =
      let a = artifact e in
      elim (Bool-cases (has_dep (without a.meta.name db).deps who x)) [
        | inl old ↦
            let (c, d) = has_dep-without a.meta.name db who x old in
            inr (c, ground (arith, str_eq_iff e.name who, named e))
        | inr new ↦
            let (k, c) =
              any-dep_row a.meta.name a.meta.deps who x (ground (arith, one-has_dep e db who x)) in
            inl (e, Memᴰ.head refl, sym (named e) ∙ k, rw (same_deps e) at c)
      ]

  pub run_installs_lem :
      (es : List RepoEntry) (db : Db)
      → (db' : Db) × (run_installs completes repo now txn_id artifact es db ≡ (ok, db'))
        × Installed es db db'
  unfolding run_installs
  run_installs_lem [] db = (
    db,
    refl,
    record {
      installed = λ x. ground arith;
      conflict = λ who x h. inr (h, refl);
      dep = λ who x h. inr (h, refl);
    },
  )
  run_installs_lem (e ∷ es) db =
      let one = one_installed e db in
      let (db', k, r) = run_installs_lem es one in
      let a = artifact e in
      (
        db',
        rw (run_install_lem e db) k,
        record {
          installed = λ x. ground (
            arith,
            r.installed x,
            one-is_installed e db x,
            is_installed-without a.meta.name db x,
            str_eq_iff a.meta.name x,
            str_eq_iff e.name x,
            named e,
          );
          conflict = λ who x h.
              ⊎_elim (λ (f, m, n, c). inl (f, Memᴰ.tail m, n, c))
                (λ (c, n). conflict_first e es db who x c n) (r.conflict who x h);
          dep = λ who x h.
              ⊎_elim (λ (f, m, n, c). inl (f, Memᴰ.tail m, n, c))
                (λ (c, n). dep_first e es db who x c n) (r.dep who x h);
        },
      )
