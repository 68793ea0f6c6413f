-- ===== src/Db/Ops/Record.antt =====
-- `salt_db_record_install` and `salt_db_record_remove` (src/halite/src/db.c): the tables that they
-- leave when the engine completes each statement.
use salt_os.Prelude.{
  ℕ, ◌≡◌, refl, ap, ◌∙◌, Bool, true, false, Option, List, [], ◌∷◌, ◌++◌, map, arith, filter, any,
  Str, str_eq,
}
use salt_os.Util.Rc.{ok}
use salt_os.Db.{
  Db, Stmt, delete_package, delete_files, delete_deps, delete_conflicts, delete_hooks,
  insert_package, insert_file, insert_dep, insert_conflict, insert_hook, step, step_unchecked,
  steps, is_installed, other, apply, allowed,
}
use salt_os.Db.Ops.{
  hook_rows, pkg_row, file_row, dep_row, conflict_row, forget, record_install, record_remove,
}
use salt_os.Db.Rows.{PkgMeta, ManifestEntry, PkgRow, HookRow}

-- The tables without the rows of a package.
unfoldable pub without : Str → Db → Db
without name db = record db {
  packages = filter (λ r. other name r.name) db.packages;
  files = filter (λ r. other name r.name) db.files;
  deps = filter (λ r. other name r.name) db.deps;
  conflicts = filter (λ r. other name r.name) db.conflicts;
  hooks = filter (λ r. other name r.name) db.hooks;
}

-- The tables with the rows of a package at the end.
unfoldable pub with_rows : PkgMeta → List ManifestEntry → PkgRow → Db → Db
with_rows meta manifest row db = record db {
  packages = db.packages ++ row ∷ [];
  files = db.files ++ map (file_row meta.name) manifest;
  deps = db.deps ++ map (dep_row meta.name) meta.deps;
  conflicts = db.conflicts ++ map (conflict_row meta.name) meta.conflicts;
  hooks = db.hooks ++ hook_rows meta;
}

pub append_assoc {ℓ} : {A : Type ℓ} (xs ys zs : List A) → (xs ++ ys) ++ zs ≡ xs ++ (ys ++ zs)
append_assoc [] ys zs = refl
append_assoc (x ∷ xs) ys zs = ap (λ l. x ∷ l) (append_assoc xs ys zs)

pub append_nil {ℓ} : {A : Type ℓ} (xs : List A) → xs ++ [] ≡ xs
append_nil [] = refl
append_nil (x ∷ xs) = ap (λ l. x ∷ l) (append_nil xs)

-- A package is not installed after its row is deleted.
pub any-filter-other :
    (name : Str) (rs : List PkgRow)
    → any (λ r. str_eq r.name name) (filter (λ r. other name r.name) rs) ≡ false
any-filter-other name [] = refl
any-filter-other name (r ∷ rs) = ground (arith, any-filter-other name rs)

-- The key of the new row is free once the old rows are deleted.
fresh_after :
    (name : Str) (row : PkgRow) (after : Db)
    → row.name ≡ name
    → (db : Db) → after.packages ≡ (without name db).packages
    → allowed (insert_package row) after ≡ true
unfolding allowed is_installed without
fresh_after name row after h db k = rw (h, k, any-filter-other name db.packages) refl

module _ (completes : Stmt → Db → Bool)
    (engine : (s : Stmt) (db : Db) → completes s db ≡ true) where
  steps_cons :
      (s : Stmt) (ss : List Stmt) (db : Db)
      → allowed s db ≡ true
      → steps completes (s ∷ ss) db ≡ steps completes ss (apply s db)
  unfolding steps step
  steps_cons s ss db h = rw (engine s db, h) refl

  steps_hooks :
      (rows : List HookRow) (ss : List Stmt) (db : Db)
      → steps completes (map insert_hook rows ++ ss) db
        ≡ steps completes ss (record db { hooks = db.hooks ++ rows })
  unfolding apply allowed
  steps_hooks [] ss db = rw (append_nil db.hooks) refl
  steps_hooks (r ∷ rs) ss db =
      steps_cons (insert_hook r) (map insert_hook rs ++ ss) db refl
      ∙ steps_hooks rs ss (apply (insert_hook r) db)
      ∙ rw (append_assoc db.hooks (r ∷ []) rs) refl

  steps_files :
      (name : Str) (es : List ManifestEntry) (ss : List Stmt) (db : Db)
      → steps completes (map (λ e. insert_file (file_row name e)) es ++ ss) db
        ≡ steps completes ss (record db { files = db.files ++ map (file_row name) es })
  unfolding apply allowed
  steps_files name [] ss db = rw (append_nil db.files) refl
  steps_files name (e ∷ es) ss db =
      steps_cons (insert_file (file_row name e)) (map (λ e. insert_file (file_row name e)) es ++ ss)
        db refl
      ∙ steps_files name es ss (apply (insert_file (file_row name e)) db)
      ∙ rw (append_assoc db.files (file_row name e ∷ []) (map (file_row name) es)) refl

  steps_deps :
      (name : Str) (ds : List Str) (ss : List Stmt) (db : Db)
      → steps completes (map (λ d. insert_dep (dep_row name d)) ds ++ ss) db
        ≡ steps completes ss (record db { deps = db.deps ++ map (dep_row name) ds })
  unfolding apply allowed
  steps_deps name [] ss db = rw (append_nil db.deps) refl
  steps_deps name (d ∷ ds) ss db =
      steps_cons (insert_dep (dep_row name d)) (map (λ d. insert_dep (dep_row name d)) ds ++ ss) db
        refl
      ∙ steps_deps name ds ss (apply (insert_dep (dep_row name d)) db)
      ∙ rw (append_assoc db.deps (dep_row name d ∷ []) (map (dep_row name) ds)) refl

  steps_conflicts :
      (name : Str) (cs : List Str) (db : Db)
      → steps completes (map (λ c. insert_conflict (conflict_row name c)) cs) db
        ≡ (ok, record db { conflicts = db.conflicts ++ map (conflict_row name) cs })
  unfolding apply allowed steps
  steps_conflicts name [] db = rw (append_nil db.conflicts) refl
  steps_conflicts name (c ∷ cs) db =
      steps_cons (insert_conflict (conflict_row name c))
        (map (λ c. insert_conflict (conflict_row name c)) cs) db refl
      ∙ steps_conflicts name cs (apply (insert_conflict (conflict_row name c)) db)
      ∙ rw (append_assoc db.conflicts (conflict_row name c ∷ []) (map (conflict_row name) cs)) refl

  pub step_lem :
      (s : Stmt)
      → ((db : Db) → allowed s db ≡ true)
      → (db : Db) → step completes s db ≡ (true, apply s db)
  unfolding step
  step_lem s h db = rw (engine s db, h db) refl

  forget_lem : (name : Str) (db : Db) → forget completes name db ≡ without name db
  unfolding apply allowed without
  forget_lem name db =
      rw
        (
          forget,
          step_unchecked,
          step_lem (delete_package name) (λ d. refl),
          step_lem (delete_files name) (λ d. refl),
          step_lem (delete_deps name) (λ d. refl),
          step_lem (delete_conflicts name) (λ d. refl),
          step_lem (delete_hooks name) (λ d. refl),
        )
        refl

  -- If the engine completes each statement, `salt_db_record_install` succeeds, and replaces all rows
  -- of the package by the new ones.
  pub record_install_lem :
      (meta : PkgMeta) (manifest : List ManifestEntry) (repo sig : Option Str) (now txn_id : ℕ)
      (db : Db)
      → record_install completes meta manifest repo sig now txn_id db
        ≡ (ok, with_rows meta manifest (pkg_row meta repo sig now txn_id) (without meta.name db))
  unfolding record_install with_rows apply allowed
  record_install_lem meta manifest repo sig now txn_id db =
      let row = pkg_row meta repo sig now txn_id in
      let d0 = without meta.name db in
      let d1 : Db = record d0 { hooks = d0.hooks ++ hook_rows meta } in
      let d2 : Db = record d1 { packages = d1.packages ++ row ∷ [] } in
      let d3 : Db = record d2 { files = d2.files ++ map (file_row meta.name) manifest } in
      let d4 : Db = record d3 { deps = d3.deps ++ map (dep_row meta.name) meta.deps } in
      let conflicts = map (λ c. insert_conflict (conflict_row meta.name c)) meta.conflicts in
      let deps = map (λ d. insert_dep (dep_row meta.name d)) meta.deps ++ conflicts in
      let files = map (λ e. insert_file (file_row meta.name e)) manifest ++ deps in
      rw (forget_lem meta.name db) (
        steps_hooks (hook_rows meta) (insert_package row ∷ files) d0
        ∙ steps_cons (insert_package row) files d1 (fresh_after meta.name row d1 refl db refl)
        ∙ steps_files meta.name manifest deps d2
        ∙ steps_deps meta.name meta.deps conflicts d3
        ∙ steps_conflicts meta.name meta.conflicts d4)

  -- If the engine completes each statement, `salt_db_record_remove` succeeds, and deletes all rows
  -- of the package.
  pub record_remove_lem :
      (name : Str) (db : Db) → record_remove completes name db ≡ (ok, without name db)
  unfolding record_remove apply allowed without
  record_remove_lem name db =
      rw
        (
          record_remove,
          step_unchecked,
          step_lem (delete_files name) (λ d. refl),
          step_lem (delete_deps name) (λ d. refl),
          step_lem (delete_conflicts name) (λ d. refl),
          step_lem (delete_hooks name) (λ d. refl),
          step_lem (delete_package name) (λ d. refl),
        )
        refl
