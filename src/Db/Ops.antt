-- ===== src/Db/Ops.antt =====
-- The operations of src/halite/src/db.c that write, and the queries that the transactions use.
pub mod Record
use salt_os.Prelude.{
  ℕ, zero, suc, ◌+◌, ◌-◌, ◌*◌, ◌/◌, ◌%◌, ◌≤◌, ◌<◌, compare, Ordering, max, ◌≡◌, refl, sym, ap, ◌∙◌,
  subst, ◌≢◌, ◌↔◌, ◌⊎◌, inl, inr, ⊎_elim, Bool, true, false, not, ◌&&◌, ◌||◌, Option, none, some,
  List, [], ◌∷◌, ◌++◌, map, arith, ltb, leb, ◌==◌, ==_iff, if◌then◌else◌, &&_eq_true, Bool-cases,
  Option-cases, eq_of_iff, length, filter, any, length-append, mem-cons, mem-append, not-mem-nil,
  mem-filter, Str, codes, str_eq, str_eq_iff, str_eq_refl, contains, contains-cons, contains-append,
  set_insert, Memᴰ,
}
use mathlib.Core.List.{reverse}
use salt_os.Util.Rc.{Rc, ok, err, err_notfound}
use salt_os.Prelude.Int.{ℤ}
use salt_os.Db.{
  Db, Stmt, delete_package, delete_files, delete_deps, delete_conflicts, delete_hooks,
  insert_package, insert_file, insert_dep, insert_conflict, insert_hook, insert_txn, update_status,
  update_snapshot, update_artifact, step, step_unchecked, steps, is_installed,
}
use salt_os.Db.Rows.{
  HookKind, hook_name, hook_kinds, PkgMeta, ManifestEntry, or_empty, PkgRow, FileRow, DepRow,
  ConflictRow, HookRow, TxnRow,
}

-- The hooks that the metadata declares, in the order of their kinds.
abbrev pub hook_rows_from : Str → (HookKind → Option Str) → List HookKind → List HookRow
hook_rows_from name hooks [] = []
hook_rows_from name hooks (k ∷ ks) =
    let rest = hook_rows_from name hooks ks in
    elim (hooks k) [
      | none ↦ rest
      | some body ↦ record { name = name; hook = hook_name k; body = body } ∷ rest
    ]

abbrev pub hook_rows : PkgMeta → List HookRow
hook_rows meta = hook_rows_from meta.name meta.hooks hook_kinds

-- `sig_status ? sig_status : "unknown"`
abbrev pub or_unknown : Option Str → Str
or_unknown none = codes "unknown"
or_unknown (some s) = s

abbrev pub pkg_row : PkgMeta → Option Str → Option Str → ℕ → ℕ → PkgRow
pkg_row meta repo sig now txn_id = record {
  name = meta.name;
  version = meta.version;
  release = meta.release;
  arch = meta.arch;
  summary = or_empty meta.summary;
  license = or_empty meta.license;
  repo = or_empty repo;
  sig_status = or_unknown sig;
  install_time = now;
  txn_id = txn_id;
  filename = [];
  sha256 = [];
}

abbrev pub file_row : Str → ManifestEntry → FileRow
file_row name e = record {
  name = name;
  path = e.path;
  mode = e.mode;
  size = e.size;
  sha256 = or_empty e.sha256;
  typeflag = if e.typeflag == 0 then b'0' else e.typeflag;
  linkname = or_empty e.linkname;
}

abbrev pub dep_row : Str → Str → DepRow
dep_row name dep = record { name = name; dep = dep }

abbrev pub conflict_row : Str → Str → ConflictRow
conflict_row name conflict = record { name = name; conflict = conflict }

-- The inserts of `salt_db_record_install`, in its order.
abbrev pub install_inserts : PkgMeta → List ManifestEntry → PkgRow → List Stmt
install_inserts meta manifest row =
    map insert_hook (hook_rows meta)
    ++ (insert_package row
        ∷ (map (λ e. insert_file (file_row meta.name e)) manifest
            ++ (map (λ d. insert_dep (dep_row meta.name d)) meta.deps
                ++ map (λ c. insert_conflict (conflict_row meta.name c)) meta.conflicts)))

module _ (completes : Stmt → Db → Bool) where
  -- The five deletes at the head of `salt_db_record_install`, whose results are not read.
  abbrev pub forget : Str → Db → Db
  forget name db = step_unchecked completes (delete_hooks name) (
      step_unchecked completes (delete_conflicts name) (
        step_unchecked completes (delete_deps name) (
          step_unchecked completes (delete_files name)
            (step_unchecked completes (delete_package name) db))))

  -- `salt_db_record_install`; `now` is `time(NULL)`.
  unfoldable pub record_install :
      PkgMeta → List ManifestEntry → Option Str → Option Str → ℕ → ℕ → Db → Rc × Db
  record_install meta manifest repo sig now txn_id db =
      steps completes (install_inserts meta manifest (pkg_row meta repo sig now txn_id))
        (forget meta.name db)

  abbrev pub done_rc : Bool × Db → Rc × Db
  done_rc (true, db) = (ok, db)
  done_rc (false, db) = (err, db)

  -- `salt_db_record_remove`: only the result of the last delete is read.
  unfoldable pub record_remove : Str → Db → Rc × Db
  record_remove name db = done_rc (
      step completes (delete_package name) (
        step_unchecked completes (delete_hooks name) (
          step_unchecked completes (delete_conflicts name) (
            step_unchecked completes (delete_deps name)
              (step_unchecked completes (delete_files name) db)))))

  -- `salt_db_set_pkg_artifact`
  unfoldable pub set_pkg_artifact : Str → Option Str → Option Str → Db → Rc × Db
  set_pkg_artifact name filename sha256 db =
      done_rc (step completes (update_artifact name (or_empty filename) (or_empty sha256)) db)

  -- `salt_db_txn_new`: the new id comes from `sqlite3_last_insert_rowid`.
  unfoldable pub txn_new : Str → ℕ → Db → Option ℕ × Db
  txn_new op now db =
      let (done, db') = step completes (insert_txn op now) db in
      (if done then some db.next_id else none, db')

  -- `salt_db_txn_finish`
  unfoldable pub txn_finish : ℕ → Str → Db → Rc × Db
  txn_finish id status db = done_rc (step completes (update_status id status) db)

  -- `salt_db_txn_set_snapshot`
  unfoldable pub txn_set_snapshot : ℕ → Str → Db → Rc × Db
  txn_set_snapshot id snapshot db = done_rc (step completes (update_snapshot id snapshot) db)

-- The columns that `salt_db_restore_state_from` copies from an attached database with all columns:
-- the tables of packages, files, deps and conflicts. It names no other table.
unfoldable pub restore_state_from : Db → Db → Db
restore_state_from before db = record db {
  packages = before.packages;
  files = before.files;
  deps = before.deps;
  conflicts = before.conflicts;
}

abbrev pub revdeps_in : Str → List DepRow → List Str
revdeps_in name [] = []
revdeps_in name (r ∷ rs) =
    let rest = revdeps_in name rs in if str_eq r.dep name then set_insert r.name rest else rest

-- `salt_db_revdeps`: SELECT DISTINCT name FROM deps WHERE dep=? ORDER BY name
unfoldable pub revdeps : Db → Str → List Str
revdeps db name = revdeps_in name db.deps

abbrev pub conflicts_in : Str → List ConflictRow → List Str
conflicts_in name [] = []
conflicts_in name (r ∷ rs) =
    let rest = conflicts_in name rs in
    if str_eq r.conflict name then set_insert r.name rest else rest

-- `salt_db_conflicts_with`: SELECT DISTINCT name FROM conflicts WHERE conflict=? ORDER BY name
unfoldable pub conflicts_with : Db → Str → List Str
conflicts_with db name = conflicts_in name db.conflicts

-- `salt_db_deployments`: ORDER BY id DESC, and ids grow with each insert.
unfoldable pub deployments : Db → List TxnRow
deployments db = reverse db.transactions

abbrev first_ok : List TxnRow → Option TxnRow
first_ok [] = none
first_ok (t ∷ ts) =
    let rest = first_ok ts in
    if str_eq t.status (codes "ok") && not (str_eq t.op (codes "rollback")) then some t else rest

-- `salt_db_last_ok_txn`
unfoldable pub last_ok_txn : Db → Option TxnRow
unfolding deployments
last_ok_txn db = first_ok (deployments db)

-- `while (*q == '/') q++;`
abbrev unrooted : Str → Str
unrooted [] = []
unrooted (c ∷ s) = let rest = unrooted s in if c == b'/' then rest else c ∷ s

abbrev owner_in : Str → List FileRow → Option Str
owner_in path [] = none
owner_in path (r ∷ rs) =
    let rest = owner_in path rs in
    if str_eq r.path path || str_eq r.path (unrooted path) then some r.name else rest

-- `salt_db_owner`: SELECT name FROM files WHERE path=? OR path=? LIMIT 1
unfoldable pub owner : Db → Str → Option Str
owner db path = owner_in path db.files
