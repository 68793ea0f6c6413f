-- ===== src/Install/Run/Atomic.antt =====
-- A transaction takes place or leaves no trace.
use salt_os.Prelude.{
  List, ℕ, ◌≡◌, refl, sym, ◌∙◌, subst, ◌≢◌, ◌⊎◌, inl, inr, ⊎_elim, Bool, true, false, not, ◌&&◌,
  Option, none, some, [], if◌then◌else◌, Bool-cases, Option-cases, Str, codes, Memᴰ,
}
use salt_os.Util.Rc.{
  Rc, ok, err, err_io, err_format, err_notfound, err_verify, err_exists, err_dep, err_usage,
}
use salt_os.Db.{Db, Stmt, update_status, update_snapshot, insert_txn, apply, allowed, step}
use salt_os.Db.Ops.{txn_new, txn_finish, txn_set_snapshot}
use salt_os.Txn.Store.{Loc, get}
use salt_os.Txn.{revert_files}
use salt_os.Txn.Archive.{System, Archive}
use salt_os.Txn.Saved.{IsPlainAt}
use salt_os.Txn.Quiet.{IsQuiet}
use salt_os.Txn.Reverted.{Completes, revert_files-restores}
use salt_os.Install.Args.{TxnFlags}
use salt_os.Install.Checks.{NativePlan, check_conflicts, check_dangling, is_nil}
use salt_os.Install.Run.{
  Env, opened, transact, conclude, run_txn, begin_txn, all_fetched, native_transaction,
}
use salt_os.Install.Run.Removing.{OldPlace}
use salt_os.Install.Run.Carried.{start-Removing, transact-CanRevert}
use salt_os.Install.Run.Going.{AllUnpack, IsArchiveOf}
use salt_os.Txn.Direct.{AreDirect}
use salt_os.Txn.Extract.{TarEntry}
use salt_os.Txn.Listed.{IsPlaceOf}

conclude-cases :
    (env : Env) (f : TxnFlags) (id : ℕ) (db : Db) (rc : Rc) (s : System)
    → env.rolls_back s.db ≡ true
    → ((conclude env f id db (rc, s)).0 ≡ 0)
      ⊎ (conclude env f id db (rc, s) ≡ (
        1,
        record {
          db = (txn_finish env.completes id (codes "failed") db).1;
          disk = revert_files env.back s.disk;
        },
      ))
unfolding conclude
conclude-cases env f id db ok s h = inl refl
conclude-cases env f id db err s h = inr (rw h refl)
conclude-cases env f id db err_io s h = inr (rw h refl)
conclude-cases env f id db err_format s h = inr (rw h refl)
conclude-cases env f id db err_notfound s h = inr (rw h refl)
conclude-cases env f id db err_verify s h = inr (rw h refl)
conclude-cases env f id db err_exists s h = inr (rw h refl)
conclude-cases env f id db err_dep s h = inr (rw h refl)
conclude-cases env f id db err_usage s h = inr (rw h refl)

-- The tables of packages, files, dependencies, conflicts and hooks are the same.
abbrev pub SameTables : Db → Db → Type 0
SameTables db db' =
    (db'.packages ≡ db.packages)
    × (db'.files ≡ db.files)
    × (db'.deps ≡ db.deps)
    × (db'.conflicts ≡ db.conflicts)
    × (db'.hooks ≡ db.hooks)

pub SameTables-trans : (a b c : Db) → SameTables a b → SameTables b c → SameTables a c
SameTables-trans a b c p q = (q.0 ∙ p.0, q.1 ∙ p.1, q.2 ∙ p.2, q.3 ∙ p.3, q.4 ∙ p.4)

module _ (completes : Stmt → Db → Bool) where
  pub txn_finish-SameTables :
      (id : ℕ) (status : Str) (db : Db) → SameTables db (txn_finish completes id status db).1
  unfolding txn_finish step apply allowed
  txn_finish-SameTables id status db = elim (Bool-cases (completes (update_status id status) db)) [
    | inl t ↦ rw t (refl, refl, refl, refl, refl)
    | inr n ↦ rw n (refl, refl, refl, refl, refl)
  ]

  txn_set_snapshot-SameTables :
      (id : ℕ) (name : Str) (db : Db) → SameTables db (txn_set_snapshot completes id name db).1
  unfolding txn_set_snapshot step apply allowed
  txn_set_snapshot-SameTables id name db =
      elim (Bool-cases (completes (update_snapshot id name) db)) [
        | inl t ↦ rw t (refl, refl, refl, refl, refl)
        | inr n ↦ rw n (refl, refl, refl, refl, refl)
      ]

  pub txn_new-SameTables :
      (op : Str) (now : ℕ) (db : Db) → SameTables db (txn_new completes op now db).1
  unfolding txn_new step apply allowed
  txn_new-SameTables op now db = elim (Bool-cases (completes (insert_txn op now) db)) [
    | inl t ↦ rw t (refl, refl, refl, refl, refl)
    | inr n ↦ rw n (refl, refl, refl, refl, refl)
  ]

-- The tables and the files are as they were.
abbrev pub NoTrace : System → System → Type 0
NoTrace s s' = SameTables s.db s'.db × ((l : Loc) → get l s'.disk.root ≡ get l s.disk.root)

-- The files that a transaction removes, installs or replaces.
abbrev pub IsTouched : Env → TxnFlags → NativePlan → System → Loc → Type 0
IsTouched env f plan s l =
    ((n : Str) × Memᴰ n plan.remove × OldPlace s.db n l)
    ⊎ ((ar : Archive) × IsArchiveOf s.disk.root s.db env.kernel (opened env f) plan.install ar
        × (IsPlaceOf ar.manifest l ⊎ OldPlace s.db ar.meta.name l))

-- The payloads that it extracts.
abbrev pub IsPayloadOf : Env → TxnFlags → NativePlan → System → List TarEntry → Type 0
IsPayloadOf env f plan s es =
    (ar : Archive) × IsArchiveOf s.disk.root s.db env.kernel (opened env f) plan.install ar
    × (ar.payload.entries ≡ es)

-- What a transaction relies on: paths that pass through no symbolic link, hooks that change no file, a list that can be read, a kernel and an
-- engine that complete what turns it back, and archives and packages whose files can be backed up.
pub record Reversible (env : Env) (f : TxnFlags) (plan : NativePlan) (s : System) : Type 0 where
  pub direct : AreDirect s.disk.root (IsPayloadOf env f plan s) (IsTouched env f plan s)
  pub quiet : IsQuiet env.hook
  pub readable : (text : Str) → env.kernel.list_read text ≡ true
  pub back : Completes env.back
  pub rolls_back : (db : Db) → env.rolls_back db ≡ true
  pub removable :
      (n : Str) → Memᴰ n plan.remove → (l : Loc) → OldPlace s.db n l → IsPlainAt s.disk.root l
  pub installable : AllUnpack s.disk.root s.db env.kernel (opened env f) plan.install

module _ (env : Env) (f : TxnFlags) (plan : NativePlan) (s : System)
    (r : Reversible env f plan s) where
  conclude-NoTrace :
      (id : ℕ) (db : Db)
      → SameTables s.db db
      → let begun : System = record {
        db = db;
        disk = record { root = s.disk.root; saved = []; added = none };
      } in
        (conclude env f id db (transact env f plan id begun)).0 ≢ 0
        → NoTrace s (conclude env f id db (transact env f plan id begun)).1
  conclude-NoTrace id db same fails =
      let begun : System = record {
        db = db;
        disk = record { root = s.disk.root; saved = []; added = none };
      } in
      let ended = transact env f plan id begun in
      let (paths, held) =
        transact-CanRevert env f s.disk.root s.db r.quiet r.readable plan id begun
          (start-Removing s db (same.1)) r.removable r.installable in
      let failed = (txn_finish env.completes id (codes "failed") db).1 in
      ⊎_elim (λ zero_code. absurd (fails zero_code))
        (λ e.
          subst (λ x. NoTrace s x.1) (sym e)
            (
              SameTables-trans s.db db failed same
                  (txn_finish-SameTables env.completes id (codes "failed") db),
              revert_files-restores env.back r.back s.disk.root paths ended.1.disk held.holds
                  held.text,
            ))
        (conclude-cases env f id db ended.0 ended.1 (r.rolls_back ended.1.db))

  run_txn-NoTrace :
      (id : ℕ) (db : Db)
      → SameTables s.db db
      → (run_txn env f plan id db s.disk).0 ≢ 0
      → NoTrace s (run_txn env f plan id db s.disk).1
  unfolding run_txn
  run_txn-NoTrace id db same = elim (Option-cases (env.snapshot id)) [
    | inl unsnapped ↦
        rw (unsnapped, run_txn)
          (λ _. (
            SameTables-trans s.db db (txn_finish env.completes id (codes "failed") db).1 same
                (txn_finish-SameTables env.completes id (codes "failed") db),
            λ l. refl,
          ))
    | inr (name, e) ↦
        rw (e, run_txn)
          (conclude-NoTrace id (txn_set_snapshot env.completes id name db).1 (
            SameTables-trans s.db db (txn_set_snapshot env.completes id name db).1 same
              (txn_set_snapshot-SameTables env.completes id name db)))
  ]

  begin_txn-NoTrace :
      (id : Option ℕ) (db : Db)
      → SameTables s.db db
      → (begin_txn env f plan id db s.disk).0 ≢ 0
      → NoTrace s (begin_txn env f plan id db s.disk).1
  unfolding begin_txn
  begin_txn-NoTrace none db same = λ _. (same, λ l. refl)
  begin_txn-NoTrace (some id) db same = run_txn-NoTrace id db same

  unchanged : NoTrace s s
  unchanged = ((refl, refl, refl, refl, refl), λ l. refl)

  -- A transaction that does not exit with 0 leaves the tables of packages, files, dependencies,
  -- conflicts and hooks as they were, and each file of the root with its type, its permissions and
  -- its bytes or target, whatever fails on the way, given that no path concerned passes through a
  -- symbolic link, that hooks change no file, that `added.list` can be read, that the calls which turn it back
  -- complete, that a backup can keep the files concerned, that each payload writes only to files of
  -- its manifest, and that archives share no files.
  pub native_transaction-NoTrace :
      (op : Str)
      → (native_transaction env f plan op s).0 ≢ 0
      → NoTrace s (native_transaction env f plan op s).1
  unfolding native_transaction
  native_transaction-NoTrace op =
      let new = txn_new env.completes op env.now s.db in
      step (is_nil plan.remove && is_nil plan.install) 0 _ (
        step (not (check_conflicts s.db plan)) 1 _ (
          step (not (check_dangling s.db plan)) 1 _ (
            step f.dry_run 0 _ (
              step (not f.download_only && not env.confirmed) 1 _ (
                step (not (all_fetched env f plan.install)) 1 _ (
                  step f.download_only 0 (begin_txn env f plan new.0 new.1 s.disk) (
                    begin_txn-NoTrace new.0 new.1
                      (txn_new-SameTables env.completes op env.now s.db))))))))
    where
      step :
          (b : Bool) (code : ℕ) (rest : ℕ × System)
          → (rest.0 ≢ 0 → NoTrace s rest.1)
          → (if b then (code, s) else rest).0 ≢ 0
          → NoTrace s (if b then (code, s) else rest).1
      step true code rest h = λ _. unchanged
      step false code rest h = h
