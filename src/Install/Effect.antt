-- ===== src/Install/Effect.antt =====
-- What a plan that is carried out does to the package database: the calls of src/halite/src/db.c
-- that the two loops of `native_transaction` (src/salt/cmd_install.cpp) come down to, without the
-- files. Install/Run has the loops themselves, and Install/Run/Recorded compares the two.

pub mod Tables
pub mod Coherent
pub mod Cascaded
use salt_os.Prelude.{
  ℕ, zero, suc, ◌+◌, ◌-◌, ◌*◌, ◌/◌, ◌%◌, ◌≤◌, ◌<◌, compare, Ordering, max, ◌≡◌, refl, sym, ap, ◌∙◌,
  subst, ◌≢◌, ◌↔◌, ◌⊎◌, inl, inr, ⊎_elim, Bool, true, false, not, ◌&&◌, ◌||◌, Option, none, some,
  List, [], ◌∷◌, ◌++◌, map, arith, ltb, leb, ◌==◌, ==_iff, if◌then◌else◌, &&_eq_true, Bool-cases,
  Option-cases, eq_of_iff, length, filter, any, length-append, mem-cons, mem-append, mem-concat,
  concat-ne_nil, not-mem-nil, mem-filter, Str, codes, str_eq, str_eq_iff, str_eq_refl, contains,
  contains-cons, contains-append, set_insert, set_of, contains-set_insert, contains-set_of, Memᴰ,
}
use mathlib.Core.List.Memᴰ
use salt_os.Util.Rc.{
  Rc, ok, err, err_io, err_format, err_notfound, err_verify, err_exists, err_dep, err_usage,
}
use salt_os.Repo.{RepoEntry}
use salt_os.Db.{Db, Stmt, is_installed, other, with_artifact, apply, allowed, step, update_artifact}
use salt_os.Db.Ops.{
  record_install, record_remove, set_pkg_artifact, pkg_row, dep_row, conflict_row, done_rc,
}
use salt_os.Db.Ops.Record.{without, with_rows, record_install_lem, record_remove_lem, step_lem}
use salt_os.Db.Rows.{PkgMeta, ManifestEntry, PkgRow, DepRow, ConflictRow, or_empty}
use salt_os.Install.Resolve.Inv.{has_name}
use salt_os.Install.Checks.{NativePlan, is_leaving}
use salt_os.Install.Checks.Rows.{has_conflict, has_dep}

-- The archive of an entry, the digest of its bytes, and the signature status.
pub record Artifact : Type 0 where
  pub meta : PkgMeta
  pub manifest : List ManifestEntry
  pub sha256 : Str
  pub sig_status : Str

-- `if (rc == SALT_OK) rc = …`
abbrev pub and_then : Rc × Db → (Db → Rc × Db) → Rc × Db
and_then (ok, db) f = f db
and_then (rc, db) f = (rc, db)

module _ (completes : Stmt → Db → Bool) (repo : Str) (now txn_id : ℕ)
    (artifact : RepoEntry → Artifact) where
  unfoldable pub run_removes : List Str → Db → Rc × Db
  run_removes [] db = (ok, db)
  run_removes (n ∷ ns) db = and_then (record_remove completes n db) (run_removes ns)

  abbrev pub run_install : RepoEntry → Db → Rc × Db
  run_install e db =
      let a = artifact e in
      and_then
        (record_install completes a.meta a.manifest (some repo) (some a.sig_status) now txn_id db)
        (set_pkg_artifact completes a.meta.name (some e.filename) (some a.sha256))

  unfoldable pub run_installs : List RepoEntry → Db → Rc × Db
  run_installs [] db = (ok, db)
  run_installs (e ∷ es) db = and_then (run_install e db) (run_installs es)

  unfoldable pub run_plan : NativePlan → Db → Rc × Db
  run_plan plan db = and_then (run_removes plan.remove db) (run_installs plan.install)

-- What the tables say of packages, dependencies and conflicts.
pub is_installed-without :
    (n : Str) (db : Db) (x : Str)
    → (is_installed (without n db) x ≡ true) ↔ ((is_installed db x ≡ true) × (x ≢ n))
unfolding is_installed without
is_installed-without n db x = go db.packages
  where
    go :
        (rs : List PkgRow)
        → (any (λ r. str_eq r.name x) (filter (λ r. other n r.name) rs) ≡ true)
          ↔ ((any (λ r. str_eq r.name x) rs ≡ true) × (x ≢ n))
    go [] = ground arith
    go (r ∷ rs) = ground (arith, go rs, str_eq_iff r.name x, str_eq_iff r.name n)

pub has_conflict-without :
    (n : Str) (db : Db) (who x : Str)
    → has_conflict (without n db).conflicts who x ≡ true
    → (has_conflict db.conflicts who x ≡ true) × (who ≢ n)
unfolding has_conflict without
has_conflict-without n db who x = go db.conflicts
  where
    go :
        (rs : List ConflictRow)
        → any (λ r. str_eq r.name who && str_eq r.conflict x) (filter (λ r. other n r.name) rs)
          ≡ true
        → (any (λ r. str_eq r.name who && str_eq r.conflict x) rs ≡ true) × (who ≢ n)
    go [] = ground arith
    go (r ∷ rs) = ground (arith, go rs, str_eq_iff r.name who, str_eq_iff r.name n)

pub has_dep-without :
    (n : Str) (db : Db) (who x : Str)
    → has_dep (without n db).deps who x ≡ true
    → (has_dep db.deps who x ≡ true) × (who ≢ n)
unfolding has_dep without
has_dep-without n db who x = go db.deps
  where
    go :
        (rs : List DepRow)
        → any (λ r. str_eq r.name who && str_eq r.dep x) (filter (λ r. other n r.name) rs) ≡ true
        → (any (λ r. str_eq r.name who && str_eq r.dep x) rs ≡ true) × (who ≢ n)
    go [] = ground arith
    go (r ∷ rs) = ground (arith, go rs, str_eq_iff r.name who, str_eq_iff r.name n)

pub any-append {ℓ} :
    {A : Type ℓ} (p : A → Bool) (xs ys : List A) → any p (xs ++ ys) ≡ any p xs || any p ys
any-append p [] ys = refl
any-append p (x ∷ xs) ys = ground (arith, any-append p xs ys)

pub any-dep_row :
    (n : Str) (ds : List Str) (who x : Str)
    → has_dep (map (dep_row n) ds) who x ≡ true
    → (n ≡ who) × (contains ds x ≡ true)
unfolding has_dep contains
any-dep_row n [] who x = ground arith
any-dep_row n (d ∷ ds) who x = ground (arith, any-dep_row n ds who x, str_eq_iff n who)

pub any-conflict_row :
    (n : Str) (cs : List Str) (who x : Str)
    → has_conflict (map (conflict_row n) cs) who x ≡ true
    → (n ≡ who) × (contains cs x ≡ true)
unfolding has_conflict contains
any-conflict_row n [] who x = ground arith
any-conflict_row n (d ∷ ds) who x = ground (arith, any-conflict_row n ds who x, str_eq_iff n who)
