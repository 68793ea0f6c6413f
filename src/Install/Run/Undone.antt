-- ===== src/Install/Run/Undone.antt =====
-- A transaction that is rolled back is undone.
use salt_os.Prelude.{ℕ, ◌≡◌, none, some, []}
use salt_os.Util.Rc.{Rc}
use salt_os.Db.{Db}
use salt_os.Txn.Archive.{System}
use salt_os.Txn.Rollback.{StateDir}
use salt_os.Install.Args.{TxnFlags}
use salt_os.Install.Checks.{NativePlan}
use salt_os.Install.Run.{Env, transact}
use salt_os.Install.Run.Atomic.{Reversible}

-- The tables of packages, files, dependencies and conflicts are the same.
abbrev pub SamePackages : Db → Db → Type 0
SamePackages db db' =
    (db'.packages ≡ db.packages)
    × (db'.files ≡ db.files)
    × (db'.deps ≡ db.deps)
    × (db'.conflicts ≡ db.conflicts)

module _ (env : Env) (f : TxnFlags) (plan : NativePlan) (s : System) (r : Reversible env f plan s)
    (id : ℕ) where
  abbrev pub begun : System
  begun = record { db = s.db; disk = record { root = s.disk.root; saved = []; added = none } }

  abbrev pub ended : System
  ended = (transact env f plan id begun).1

  -- The directory that the transaction leaves.
  abbrev pub state_dir : StateDir
  state_dir = record { before = some s.db; saved = ended.disk.saved; added = ended.disk.added }
