-- ===== src/Txn/Rollback.antt =====
-- `salt_rollback_last` of src/halite/src/txn.c.
use salt_os.Prelude.{
  ℕ, Bool, true, false, ◌&&◌, Option, none, some, [], ◌∷◌, ◌==◌, if◌then◌else◌, Str, codes,
}
use salt_os.Util.Rc.{Rc, ok, err, err_notfound}
use salt_os.Db.{Db, Stmt}
use salt_os.Db.Ops.{last_ok_txn, txn_finish, txn_new, restore_state_from}
use salt_os.Txn.Store.{Files}
use salt_os.Txn.{Kernel, Disk, revert_files}

-- The state directory of a transaction: `db.before` if it is there, the backup, `added.list`.
pub record StateDir : Type 0 where
  pub before : Option Db
  pub saved : Files
  pub added : Option Str

-- The database and the root.
pub record Host : Type 0 where
  pub db : Db
  pub root : Files

-- `strncmp(snapshot, "root-", 5) == 0`
abbrev has_prefix : Str → Str → Bool
has_prefix [] s = true
has_prefix (p ∷ ps) [] = false
has_prefix (p ∷ ps) (c ∷ s) = p == c && has_prefix ps s

abbrev pub is_root_snapshot : Option Str → Bool
is_root_snapshot none = false
is_root_snapshot (some name) = has_prefix (codes "root-") name

-- `salt_db_restore_state_from`, a transaction that `restores` says the engine commits.
unfoldable pub restore_db : (Db → Bool) → Db → Db → Rc × Db
restore_db restores before db =
    if restores db then (ok, restore_state_from before db) else (err, db)

-- The row of the rollback, if one can be made.
unfoldable pub record_rollback : (Stmt → Db → Bool) → ℕ → ℕ → Db → Db
record_rollback completes now id db =
    let rolled = (txn_finish completes id (codes "rolled-back") db).1 in
    let (rb, db') = txn_new completes (codes "rollback") now rolled in
    elim rb [ none ↦ db' | some n ↦ (txn_finish completes n (codes "ok") db').1 ]

module _ (back : Kernel) (completes : Stmt → Db → Bool) (restores : Db → Bool) (now : ℕ) where
  abbrev finish_rollback : ℕ → Rc × Db → Files → Rc × Host
  finish_rollback id (ok, db) root =
      (ok, record { db = record_rollback completes now id db; root = root })
  finish_rollback id (rc, db) root = (rc, record { db = db; root = root })

  -- The rollback by the state directory of the transaction.
  unfoldable pub rollback_by : StateDir → ℕ → Host → Rc × Host
  rollback_by dir id m = elim dir.before [
    | none ↦ (err_notfound, m)
    | some before ↦
        let d : Disk = record { root = m.root; saved = dir.saved; added = dir.added } in
        finish_rollback id (restore_db restores before m.db) (revert_files back d).root
  ]

  -- `salt_rollback_last`; `rollback_to` is `salt_rollback_to`, which serves snapshots of btrfs.
  unfoldable pub rollback_last : Bool → (ℕ → Host → Rc × Host) → (ℕ → StateDir) → Host → Rc × Host
  rollback_last use_btrfs rollback_to dirs m = elim (last_ok_txn m.db) [
    | none ↦ (err_notfound, m)
    | some t ↦
        if use_btrfs && is_root_snapshot t.snapshot
        then rollback_to t.id m
        else rollback_by (dirs t.id) t.id m
  ]
