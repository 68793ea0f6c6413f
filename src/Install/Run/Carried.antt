-- ===== src/Install/Run/Carried.antt =====
-- However the steps of a transaction end, what they change of the files is saved.
use salt_os.Prelude.{
  ℕ, ◌≡◌, refl, subst, inl, inr, true, not, ◌&&◌, none, some, List, [], ◌∷◌, if◌then◌else◌,
  Bool-cases, Option-cases, Str, codes, str_eq, Memᴰ,
}
use mathlib.Core.List.Memᴰ
use salt_os.Util.Rc.{ok, err, then_ok, then_ok-elim}
use salt_os.Db.{Db}
use salt_os.Db.Ops.{set_pkg_artifact, txn_finish}
use salt_os.Repo.{RepoEntry, entry_hash_ok}
use salt_os.Txn.Store.{Loc, Files}
use salt_os.Txn.Archive.{Archive, System, install_archive, remove_pkg}
use salt_os.Txn.Saved.{unlines, IsPlainAt}
use salt_os.Txn.Listed.{Held}
use salt_os.Txn.Quiet.{IsQuiet}
use salt_os.Install.Args.{TxnFlags}
use salt_os.Install.Checks.{NativePlan}
use salt_os.Install.Run.{
  Env, fetch, opened, sig_status, install_opened, install_one, remove_each, install_each, commit,
  transact,
}
use salt_os.Install.Run.Owned.{Fewer, set_pkg_artifact-Fewer}
use salt_os.Install.Run.Removing.{OldPlace, Removing, remove_pkg-Removing}
use salt_os.Install.Run.Going.{AllUnpack, Going, Going-tail, Fewer-Going, install_archive-Going}

module _ (env : Env) (f : TxnFlags) (orig : Files) (db0 : Db) (quiet : IsQuiet env.hook)
    (readable : (text : Str) → env.kernel.list_read text ≡ true) where
  abbrev pub Goes : List RepoEntry → System → Type 0
  Goes = Going orig db0 env.kernel (opened env f)

  -- What is saved suffices to turn the files back.
  abbrev pub CanRevert : System → Type 0
  CanRevert s = (paths : List Str) × Held orig paths s.disk

  Going-CanRevert : (es : List RepoEntry) (s : System) → Goes es s → CanRevert s
  Going-CanRevert es s g = (g.paths, g.held)

  install_one-Going :
      (e : RepoEntry) (es : List RepoEntry) (id : ℕ) (s : System)
      → Goes (e ∷ es) s
      → AllUnpack orig db0 env.kernel (opened env f) (e ∷ es)
      → Goes es (install_one env f e id s).1
  unfolding install_one install_opened
  install_one-Going e es id s g all = elim (Option-cases (opened env f e)) [
    | inl closed ↦ rw (closed, install_one) (Going-tail orig db0 env.kernel (opened env f) e es s g)
    | inr (ar, is_open) ↦ rw (is_open, install_one) (go ar is_open)
  ]
    where
      go : (ar : Archive) → opened env f e ≡ some ar → Goes es (install_opened env f e id ar s).1
      go ar is_open =
          let (unpacks, apart) = all.0 ar is_open in
          let k = env.kernel in
          let kept = Going-tail orig db0 k (opened env f) e es s g in
          elim (Bool-cases
            (not (str_eq ar.meta.arch env.arch) && not (str_eq ar.meta.arch (codes "any")))) [
              | inl t ↦ rw t kept
              | inr arch ↦ rw arch (elim (Bool-cases (not (str_eq ar.meta.name e.name))) [
                | inl t ↦ rw t kept
                | inr name ↦ rw name (
                    let r =
                      install_archive k env.hook env.completes env.now ar (some env.repo)
                        (some (sig_status (entry_hash_ok e) env.signed_ok)) id s in
                    then_ok-elim (Goes es) r.0 r.1
                      (λ s.
                        let (rc, db) =
                          set_pkg_artifact env.completes ar.meta.name (some e.filename)
                            (some (fetch env f e).sha_out) s.db in
                        (rc, record s { db = db }))
                      (install_archive-Going orig db0 k (opened env f) e es ar is_open unpacks apart
                        env.hook quiet readable env.completes env.now (some env.repo)
                        (some (sig_status (entry_hash_ok e) env.signed_ok)) id s g)
                      (λ _.
                        Fewer-Going orig db0 k (opened env f) e es ar is_open unpacks apart r.1 _
                          (λ x _.
                            set_pkg_artifact-Fewer env.completes x ar.meta.name (some e.filename)
                              (some (fetch env f e).sha_out) r.1.db)
                          (install_archive-Going orig db0 k (opened env f) e es ar is_open unpacks
                            apart env.hook quiet readable env.completes env.now (some env.repo)
                            (some (sig_status (entry_hash_ok e) env.signed_ok)) id s g)))
              ])
            ]

  install_each-CanRevert :
      (es : List RepoEntry) (id : ℕ) (s : System)
      → Goes es s
      → AllUnpack orig db0 env.kernel (opened env f) es
      → CanRevert (install_each env f es id s).1
  unfolding install_each
  install_each-CanRevert [] id s g all = Going-CanRevert [] s g
  install_each-CanRevert (e ∷ es) id s g all =
      let r = install_one env f e id s in
      let after = install_one-Going e es id s g all in
      then_ok-elim CanRevert r.0 r.1 (install_each env f es id) (Going-CanRevert es r.1 after)
        (λ _. install_each-CanRevert es id r.1 after (all.1))

  remove_each-Removing :
      (ns : List Str) (id : ℕ) (s : System)
      → Removing orig db0 s
      → ((n : Str) → Memᴰ n ns → (l : Loc) → OldPlace db0 n l → IsPlainAt orig l)
      → Removing orig db0 (remove_each env f ns id s).1
  unfolding remove_each
  remove_each-Removing [] id s r plain = r
  remove_each-Removing (n ∷ ns) id s r plain =
      let p = remove_pkg env.kernel env.hook env.completes env.now n s in
      let after =
        remove_pkg-Removing orig db0 env.kernel env.hook quiet env.completes env.now n s r
          (plain n (Memᴰ.head refl)) in
      then_ok-elim (Removing orig db0) p.0 p.1 (remove_each env f ns id) after
        (λ _. remove_each-Removing ns id p.1 after (λ m i. plain m (Memᴰ.tail i)))

  Removing-Going : (es : List RepoEntry) (s : System) → Removing orig db0 s → Goes es s
  Removing-Going es s r = record {
    paths = [];
    held = r.held;
    untouched = λ a i l p. r.untouched l;
    fewer = λ a i. r.fewer a.meta.name;
  }

  commit-CanRevert : (id : ℕ) (s : System) → CanRevert s → CanRevert (commit env f id s).1
  unfolding commit
  commit-CanRevert id s c =
      let r = txn_finish env.completes id (codes "ok") s.db in
      let s' : System = record s { db = r.1 } in
      then_ok-elim CanRevert r.0 s' (λ s. (if env.commits s.db then ok else err, s)) c (λ _. c)

  -- However a transaction ends, its files can be turned back.
  pub transact-CanRevert :
      (plan : NativePlan) (id : ℕ) (s : System)
      → Removing orig db0 s
      → ((n : Str) → Memᴰ n plan.remove → (l : Loc) → OldPlace db0 n l → IsPlainAt orig l)
      → AllUnpack orig db0 env.kernel (opened env f) plan.install
      → CanRevert (transact env f plan id s).1
  unfolding transact
  transact-CanRevert plan id s r plain all =
      let removed = remove_each env f plan.remove id s in
      let installed = install_each env f plan.install id removed.1 in
      let r' = remove_each-Removing plan.remove id s r plain in
      let c' =
        install_each-CanRevert plan.install id removed.1 (Removing-Going plan.install removed.1 r')
          all in
      then_ok-elim CanRevert (if env.begins s.db then ok else err) s
        (λ s.
          then_ok (remove_each env f plan.remove id s)
            λ s. then_ok (install_each env f plan.install id s) (commit env f id))
        ([], r.held)
        λ _.
          then_ok-elim CanRevert removed.0 removed.1
            (λ s. then_ok (install_each env f plan.install id s) (commit env f id)) ([], r'.held)
            λ _.
              then_ok-elim CanRevert installed.0 installed.1 (commit env f id) c'
                (λ _. commit-CanRevert id installed.1 c')

-- At the start nothing is saved, and nothing has changed.
pub start-Removing :
    (s : System) (db : Db)
    → db.files ≡ s.db.files
    → Removing s.disk.root s.db
        (record { db = db; disk = record { root = s.disk.root; saved = []; added = none } })
unfolding Fewer unlines
start-Removing s db same = record {
  held = record {
    holds = record {
      lines = λ p m. absurd (Memᴰ.not-nil m);
      backed = λ l n m. absurd (Memᴰ.not-nil m);
      status = λ l. inl (refl, λ h. Memᴰ.not-nil h.1);
    };
    text = refl;
  };
  untouched = λ l. (λ h. Memᴰ.not-nil h.1, inl refl);
  fewer = λ x r e m. subst (Memᴰ r) same m;
}
