-- ===== src/Install/Run.antt =====
-- `install_one` and `native_transaction` of src/salt/cmd_install.cpp: a plan is carried out against
-- the files and the database, or both are turned back.

pub mod Owned
pub mod Removing
pub mod Going
pub mod Carried
pub mod Atomic
pub mod Undone
pub mod Recorded
use salt_os.Prelude.{
  ℕ, zero, suc, ◌+◌, ◌-◌, ◌*◌, ◌/◌, ◌%◌, ◌≤◌, ◌<◌, compare, Ordering, max, ◌≡◌, refl, sym, ap, ◌∙◌,
  subst, ◌≢◌, ◌↔◌, ◌⊎◌, inl, inr, ⊎_elim, Bool, true, false, not, ◌&&◌, ◌||◌, Option, none, some,
  List, [], ◌∷◌, ◌++◌, map, arith, ltb, leb, ◌==◌, ==_iff, if◌then◌else◌, &&_eq_true, Bool-cases,
  Option-cases, eq_of_iff, length, filter, any, length-append, mem-cons, mem-append, mem-concat,
  concat-ne_nil, not-mem-nil, mem-filter, Str, codes, str_eq, str_eq_iff, str_eq_refl, contains,
  contains-cons, contains-append, set_insert, set_of, contains-set_insert, contains-set_of, Memᴰ,
}
use salt_os.Util.Rc.{Rc, ok, err, err_format, err_verify, then_ok}
use salt_os.Db.{Db, Stmt}
use salt_os.Db.Ops.{set_pkg_artifact, txn_new, txn_finish, txn_set_snapshot}
use salt_os.Repo.{RepoEntry, entry_hash_ok}
use salt_os.Txn.Store.{Files}
use salt_os.Txn.{Kernel, Disk, revert_files}
use salt_os.Txn.Archive.{Archive, HookCall, System, install_archive, remove_pkg}
use salt_os.Install.Args.{TxnFlags}
use salt_os.Install.Checks.{NativePlan, check_conflicts, check_dangling, is_nil}
use salt_os.Install.Fetch.{Fetched, fetch_and_verify}

-- What a transaction meets: the kernel on the way and on the way back, the hooks, the database
-- engine, the downloads and their digests, `salt_archive_open`, the name of a snapshot if it can be
-- taken, and what `deploy_post_txn` does after a success.
pub record Env : Type 0 where
  pub kernel : Kernel
  pub back : Kernel
  pub hook : HookCall → Files → Rc × Files
  pub completes : Stmt → Db → Bool
  pub begins : Db → Bool
  pub commits : Db → Bool
  pub rolls_back : Db → Bool
  pub snapshot : ℕ → Option Str
  pub digest : Str → Option Str
  pub cached : RepoEntry → Option Str
  pub downloaded : RepoEntry → Option Str
  pub open_archive : Str → Option Archive
  pub arch : Str
  pub repo : Str
  pub signed_ok : Bool
  pub confirmed : Bool
  pub now : ℕ
  pub post_txn : System → System

-- `!verified ? "unverified" : signed_ok ? "signed" : "unsigned"`
abbrev pub sig_status : Bool → Bool → Str
sig_status verified signed_ok =
    if not verified
    then codes "unverified"
    else if signed_ok
    then codes "signed"
    else codes "unsigned"

module _ (env : Env) (f : TxnFlags) where
  abbrev pub fetch : RepoEntry → Fetched
  fetch e = fetch_and_verify env.digest e f.allow_unverified (env.cached e) (env.downloaded e)

  -- The archive of an entry, if it can be opened.
  abbrev pub archive_of : Option Str → Option Archive
  archive_of none = none
  archive_of (some bytes) = env.open_archive bytes

  abbrev pub opened : RepoEntry → Option Archive
  opened e = archive_of (fetch e).file

  -- `install_one` on an archive that is open.
  unfoldable pub install_opened : RepoEntry → ℕ → Archive → System → Rc × System
  install_opened e txn_id ar s =
      if not (str_eq ar.meta.arch env.arch) && not (str_eq ar.meta.arch (codes "any"))
      then (err, s)
      else if not (str_eq ar.meta.name e.name)
      then (err_verify, s)
      else then_ok
          (install_archive env.kernel env.hook env.completes env.now ar (some env.repo)
            (some (sig_status (entry_hash_ok e) env.signed_ok)) txn_id s)
          λ s.
            let (rc, db) =
              set_pkg_artifact env.completes ar.meta.name (some e.filename) (some (fetch e).sha_out)
                s.db in
            (rc, record s { db = db })

  -- `install_one`
  unfoldable pub install_one : RepoEntry → ℕ → System → Rc × System
  install_one e txn_id s = elim (opened e) [
    | none ↦ (err_format, s)
    | some ar ↦ install_opened e txn_id ar s
  ]

  unfoldable pub remove_each : List Str → ℕ → System → Rc × System
  remove_each [] txn_id s = (ok, s)
  remove_each (n ∷ ns) txn_id s =
      then_ok (remove_pkg env.kernel env.hook env.completes env.now n s) (remove_each ns txn_id)

  unfoldable pub install_each : List RepoEntry → ℕ → System → Rc × System
  install_each [] txn_id s = (ok, s)
  install_each (e ∷ es) txn_id s = then_ok (install_one e txn_id s) (install_each es txn_id)

  -- `salt_db_txn_finish` and `salt_db_sql_commit` at the end.
  unfoldable pub commit : ℕ → System → Rc × System
  commit id s =
      let (rc, db) = txn_finish env.completes id (codes "ok") s.db in
      then_ok (rc, record s { db = db }) λ s. (if env.commits s.db then ok else err, s)

  -- From `salt_db_sql_begin` to `salt_db_sql_commit`.
  unfoldable pub transact : NativePlan → ℕ → System → Rc × System
  transact plan id s =
      then_ok (if env.begins s.db then ok else err, s)
        λ s.
          then_ok (remove_each plan.remove id s)
            λ s. then_ok (install_each plan.install id s) (commit id)

  -- A success, or the rollback to the database `db` in which the transaction began.
  unfoldable pub conclude : ℕ → Db → Rc × System → ℕ × System
  conclude id db (ok, s) = (0, env.post_txn s)
  conclude id db (rc, s) =
      let before = if env.rolls_back s.db then db else s.db in
      (
        1,
        record {
          db = (txn_finish env.completes id (codes "failed") before).1;
          disk = revert_files env.back s.disk;
        },
      )

  -- The transaction of an id that is new, so that nothing is saved under it yet.
  unfoldable pub run_txn : NativePlan → ℕ → Db → Disk → ℕ × System
  run_txn plan id db d = elim (env.snapshot id) [
    | none ↦ (1, record { db = (txn_finish env.completes id (codes "failed") db).1; disk = d })
    | some name ↦
        let started = (txn_set_snapshot env.completes id name db).1 in
        let fresh : Disk = record { root = d.root; saved = []; added = none } in
        conclude id started (transact plan id (record { db = started; disk = fresh }))
  ]

  -- The loop over `fetch_and_verify`.
  unfoldable pub all_fetched : List RepoEntry → Bool
  all_fetched [] = true
  all_fetched (e ∷ es) = let rest = all_fetched es in elim (fetch e).rc [ ok ↦ rest | _ ↦ false ]

  -- `salt_db_txn_new`, and the transaction if it has an id.
  unfoldable pub begin_txn : NativePlan → Option ℕ → Db → Disk → ℕ × System
  begin_txn plan none db d = (1, record { db = db; disk = d })
  begin_txn plan (some id) db d = run_txn plan id db d

  -- `native_transaction`: the exit code, and what it leaves.
  unfoldable pub native_transaction : NativePlan → Str → System → ℕ × System
  native_transaction plan op s =
      if is_nil plan.remove && is_nil plan.install
      then (0, s)
      else if not (check_conflicts s.db plan)
      then (1, s)
      else if not (check_dangling s.db plan)
      then (1, s)
      else if f.dry_run
      then (0, s)
      else if not f.download_only && not env.confirmed
      then (1, s)
      else if not (all_fetched plan.install)
      then (1, s)
      else if f.download_only
      then (0, s)
      else let (id, db) = txn_new env.completes op env.now s.db in begin_txn plan id db s.disk
