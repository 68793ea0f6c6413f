-- ===== src/Db.antt =====
-- The package database: src/halite/src/db.c. A table is the list of its rows in the order of
-- insertion. SQLite executes the statements; `Stmt` has those that write, `apply` says what they do.
pub mod Rows
pub mod Ops
pub mod Manifest
use salt_os.Prelude.{
  ℕ, zero, suc, ◌+◌, ◌-◌, ◌*◌, ◌/◌, ◌%◌, ◌≤◌, ◌<◌, compare, Ordering, max, ◌≡◌, refl, sym, ap, ◌∙◌,
  subst, ◌≢◌, ◌↔◌, ◌⊎◌, inl, inr, ⊎_elim, Bool, true, false, not, ◌&&◌, ◌||◌, Option, none, some,
  List, [], ◌∷◌, ◌++◌, map, arith, ltb, leb, ◌==◌, ==_iff, if◌then◌else◌, &&_eq_true, Bool-cases,
  Option-cases, eq_of_iff, length, filter, any, length-append, mem-cons, mem-append, not-mem-nil,
  mem-filter, Str, codes, str_eq, str_eq_iff, str_eq_refl, contains, contains-cons, contains-append,
  Memᴰ,
}
use salt_os.Util.Rc.{Rc, ok, err, err_notfound}
use salt_os.Prelude.Int.{ℤ}
use salt_os.Db.Rows.{
  HookKind, hook_name, hook_kinds, PkgMeta, ManifestEntry, or_empty, PkgRow, FileRow, DepRow,
  ConflictRow, HookRow, TxnRow,
}

-- The tables, and the id that AUTOINCREMENT gives next.
pub record Db : Type 0 where
  pub packages : List PkgRow
  pub files : List FileRow
  pub deps : List DepRow
  pub conflicts : List ConflictRow
  pub hooks : List HookRow
  pub transactions : List TxnRow
  pub next_id : ℕ

-- SELECT 1 FROM packages WHERE name=?
unfoldable pub is_installed : Db → Str → Bool
is_installed db name = any (λ r. str_eq r.name name) db.packages

abbrev first_named : Str → List PkgRow → Option PkgRow
first_named name [] = none
first_named name (r ∷ rs) =
    let rest = first_named name rs in if str_eq r.name name then some r else rest

-- `salt_db_get_pkg`; `none` is SALT_ERR_NOTFOUND.
unfoldable pub get_pkg : Db → Str → Option PkgRow
get_pkg db name = first_named name db.packages

-- The statements that write.
pub data Stmt : Type 0 where
  delete_package delete_files delete_deps delete_conflicts delete_hooks : Str → Stmt
  insert_package : PkgRow → Stmt
  insert_file : FileRow → Stmt
  insert_dep : DepRow → Stmt
  insert_conflict : ConflictRow → Stmt
  insert_hook : HookRow → Stmt
  insert_txn : Str → ℕ → Stmt
  update_status : ℕ → Str → Stmt
  update_snapshot : ℕ → Str → Stmt
  update_artifact : Str → Str → Str → Stmt

abbrev pub other : Str → Str → Bool
other name x = not (str_eq x name)

abbrev pub with_status : ℕ → Str → TxnRow → TxnRow
with_status id status t = if t.id == id then record t { status = status } else t

abbrev pub with_snapshot : ℕ → Str → TxnRow → TxnRow
with_snapshot id snapshot t = if t.id == id then record t { snapshot = some snapshot } else t

abbrev pub with_artifact : Str → Str → Str → PkgRow → PkgRow
with_artifact name filename sha256 r =
    if str_eq r.name name then record r { filename = filename; sha256 = sha256 } else r

-- What a statement does to the tables when it completes.
unfoldable pub apply : Stmt → Db → Db
apply (delete_package n) db = record db { packages = filter (λ r. other n r.name) db.packages }
apply (delete_files n) db = record db { files = filter (λ r. other n r.name) db.files }
apply (delete_deps n) db = record db { deps = filter (λ r. other n r.name) db.deps }
apply (delete_conflicts n) db = record db { conflicts = filter (λ r. other n r.name) db.conflicts }
apply (delete_hooks n) db = record db { hooks = filter (λ r. other n r.name) db.hooks }
apply (insert_package r) db = record db { packages = db.packages ++ r ∷ [] }
apply (insert_file r) db = record db { files = db.files ++ r ∷ [] }
apply (insert_dep r) db = record db { deps = db.deps ++ r ∷ [] }
apply (insert_conflict r) db = record db { conflicts = db.conflicts ++ r ∷ [] }
apply (insert_hook r) db = record db { hooks = db.hooks ++ r ∷ [] }
apply (insert_txn op time) db = record db {
  transactions =
      db.transactions
      ++ record { id = db.next_id; op = op; status = codes "started"; time = time; snapshot = none }
        ∷ [];
  next_id = suc db.next_id;
}
apply (update_status id s) db = record db { transactions = map (with_status id s) db.transactions }
apply (update_snapshot id s) db = record db {
  transactions = map (with_snapshot id s) db.transactions;
}
apply (update_artifact n f s) db = record db { packages = map (with_artifact n f s) db.packages }

-- `packages.name` is a PRIMARY KEY: a second row of a name is refused.
unfoldable pub allowed : Stmt → Db → Bool
unfolding is_installed
allowed (insert_package r) db = not (is_installed db r.name)
allowed _ db = true

-- The engine may fail to complete any statement (a full disk, a lock): `completes` says which.
module _ (completes : Stmt → Db → Bool) where
  -- `sqlite3_step`: SQLITE_DONE with the new tables, or an error and no change.
  unfoldable pub step : Stmt → Db → Bool × Db
  unfolding allowed apply
  step s db = if completes s db && allowed s db then (true, apply s db) else (false, db)

  -- A step whose result the code does not read.
  abbrev pub step_unchecked : Stmt → Db → Db
  step_unchecked s db = (step s db).1

  -- `if (rc != SQLITE_DONE) return SALT_ERR;` after each statement.
  unfoldable pub steps : List Stmt → Db → Rc × Db
  steps [] db = (ok, db)
  steps (s ∷ ss) db =
      let (done, db') = step s db in let rest = steps ss db' in if done then rest else (err, db')
