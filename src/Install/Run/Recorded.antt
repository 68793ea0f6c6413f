-- ===== src/Install/Run/Recorded.antt =====
-- What a transaction that succeeds leaves in the database: its calls of src/halite/src/db.c are those
-- of Install/Effect, whatever happens to the files.
use salt_os.Prelude.{
  ℕ, ◌≡◌, refl, ap, ◌∙◌, inl, inr, not, ◌&&◌, Option, none, some, List, [], ◌∷◌, arith,
  if◌then◌else◌, Bool-cases, Option-cases, Str, codes, str_eq, Memᴰ,
}
use salt_os.Util.Rc.{Rc, ok, err, then_ok-ok}
use salt_os.Db.{Db, is_installed, get_pkg}
use salt_os.Db.Manifest.{pkg_manifest}
use salt_os.Db.Ops.{record_install, record_remove, txn_finish}
use salt_os.Repo.{RepoEntry, entry_hash_ok}
use salt_os.Txn.{Disk}
use salt_os.Txn.Archive.{
  Archive, System, manifest_is_confined, install_archive, remove_pkg, then_record, version_of,
  after_remove, remove_disk, install_files,
}
use salt_os.Install.Args.{TxnFlags}
use salt_os.Install.Checks.{NativePlan}
use salt_os.Install.Effect.{Artifact, run_removes, run_install, run_installs, run_plan}
use salt_os.Install.Run.{
  Env, fetch, opened, sig_status, install_opened, install_one, remove_each, install_each, commit,
  transact,
}

then_record-ok :
    (r : Rc × Disk) (db : Db) (f : Db → Rc × Db) (s : System)
    → then_record r db f ≡ (ok, s)
    → f db ≡ (ok, s.db)
then_record-ok (ok, d) db f s h = ap (λ p. (p.0, p.1.db)) h
then_record-ok (_, d) db f s h = absurd (ground (arith, ap (λ p. p.0) h))

module _ (env : Env) (f : TxnFlags) (id : ℕ) (artifact : RepoEntry → Artifact) where
  -- What an archive that is opened is.
  abbrev pub artifact_of : RepoEntry → Archive → Artifact
  artifact_of e ar = record {
    meta = ar.meta;
    manifest = ar.manifest;
    sha256 = (fetch env f e).sha_out;
    sig_status = sig_status (entry_hash_ok e) env.signed_ok;
  }

  -- `artifact` is what the archives of the entries are, as they are opened.
  abbrev pub IsOpened : List RepoEntry → Type 0
  IsOpened es =
      (e : RepoEntry) (ar : Archive)
      → Memᴰ e es
      → opened env f e ≡ some ar
      → artifact e ≡ artifact_of e ar

  after_remove-ok :
      (n : Str) (db : Db) (r : Rc × System) (s' : System)
      → after_remove env.kernel env.hook n db r ≡ (ok, s')
      → (x : System) × (r ≡ (ok, x)) × (x.db ≡ s'.db)
  unfolding after_remove
  after_remove-ok n db (ok, s) s' h = (s, refl, ap (λ p. p.1.db) h)
  after_remove-ok n db (_, s) s' h = absurd (ground (arith, ap (λ p. p.0) h))

  remove_pkg-record :
      (n : Str) (s s' : System)
      → remove_pkg env.kernel env.hook env.completes env.now n s ≡ (ok, s')
      → record_remove env.completes n s.db ≡ (ok, s'.db)
  unfolding remove_pkg
  remove_pkg-record n s s' h = elim (Bool-cases (is_installed s.db n)) [
    | inl i ↦
        let d = remove_disk env.kernel env.hook n s.db s.disk in
        let (x, e, b) =
          after_remove-ok n s.db (then_record d s.db (record_remove env.completes n)) s'
            (rw i at h) in
        then_record-ok d s.db (record_remove env.completes n) x e ∙ ap (λ b. (ok, b)) b
    | inr i ↦ absurd (ground (arith, ap (λ p. p.0) (rw i at h)))
  ]

  remove_each-run :
      (ns : List Str) (s s' : System)
      → remove_each env f ns id s ≡ (ok, s')
      → run_removes env.completes env.repo env.now id artifact ns s.db ≡ (ok, s'.db)
  unfolding remove_each run_removes
  remove_each-run [] s s' h = ap (λ p. (p.0, p.1.db)) h
  remove_each-run (n ∷ ns) s s' h =
      let r = remove_pkg env.kernel env.hook env.completes env.now n s in
      let (e, g) = then_ok-ok r.0 r.1 s' (remove_each env f ns id) h in
      rw (remove_pkg-record n s r.1 (ap (λ c. (c, r.1)) e)) (remove_each-run ns r.1 s' g)

  install_archive-record :
      (ar : Archive) (repo sig : Option Str) (s s' : System)
      → install_archive env.kernel env.hook env.completes env.now ar repo sig id s ≡ (ok, s')
      → record_install env.completes ar.meta ar.manifest repo sig env.now id s.db ≡ (ok, s'.db)
  unfolding install_archive
  install_archive-record ar repo sig s s' h = elim (Bool-cases (manifest_is_confined ar.manifest)) [
    | inl i ↦
        let upgrade = is_installed s.db ar.meta.name in
        let old = if upgrade then pkg_manifest s.db ar.meta.name else [] in
        let version = if upgrade then version_of (get_pkg s.db ar.meta.name) else none in
        then_record-ok (install_files env.kernel env.hook ar upgrade old version s.db s.disk) s.db
          (record_install env.completes ar.meta ar.manifest repo sig env.now id) s' (rw i at h)
    | inr i ↦ absurd (ground (arith, ap (λ p. p.0) (rw i at h)))
  ]

  install_opened-run :
      (e : RepoEntry) (ar : Archive) (s s' : System)
      → artifact e ≡ artifact_of e ar
      → install_opened env f e id ar s ≡ (ok, s')
      → run_install env.completes env.repo env.now id artifact e s.db ≡ (ok, s'.db)
  unfolding install_opened
  install_opened-run e ar s s' a h =
      elim (Bool-cases
        (not (str_eq ar.meta.arch env.arch) && not (str_eq ar.meta.arch (codes "any")))) [
          | inl w ↦ absurd (ground (arith, ap (λ p. p.0) (rw w at h)))
          | inr g ↦ elim (Bool-cases (not (str_eq ar.meta.name e.name))) [
            | inl w ↦ absurd (ground (arith, ap (λ p. p.0) (rw (g, w) at h)))
            | inr n ↦
                let sig = some (sig_status (entry_hash_ok e) env.signed_ok) in
                let r =
                  install_archive env.kernel env.hook env.completes env.now ar (some env.repo) sig
                    id s in
                let (q, h') = then_ok-ok r.0 r.1 s' _ (rw (g, n) at h) in
                rw (a, install_archive-record ar (some env.repo) sig s r.1 (ap (λ c. (c, r.1)) q))
                  (ap (λ p. (p.0, p.1.db)) h')
          ]
        ]

  install_one-run :
      (e : RepoEntry) (es : List RepoEntry) (s s' : System)
      → IsOpened es
      → Memᴰ e es
      → install_one env f e id s ≡ (ok, s')
      → run_install env.completes env.repo env.now id artifact e s.db ≡ (ok, s'.db)
  unfolding install_one
  install_one-run e es s s' o m h = elim (Option-cases (opened env f e)) [
    | inl n ↦ absurd (ground (arith, ap (λ p. p.0) (rw (install_one, n) at h)))
    | inr (ar, q) ↦ install_opened-run e ar s s' (o e ar m q) (rw (install_one, q) at h)
  ]

  install_each-run :
      (es : List RepoEntry) (s s' : System)
      → IsOpened es
      → install_each env f es id s ≡ (ok, s')
      → run_installs env.completes env.repo env.now id artifact es s.db ≡ (ok, s'.db)
  unfolding install_each run_installs
  install_each-run [] s s' o h = ap (λ p. (p.0, p.1.db)) h
  install_each-run (e ∷ es) s s' o h =
      let r = install_one env f e id s in
      let (q, g) = then_ok-ok r.0 r.1 s' (install_each env f es id) h in
      rw (install_one-run e (e ∷ es) s r.1 o (Memᴰ.head refl) (ap (λ c. (c, r.1)) q))
        (install_each-run es r.1 s' (λ x ar m. o x ar (Memᴰ.tail m)) g)

  -- If a transaction succeeds, the database calls of its plan do too, and what it leaves in the
  -- database is what they leave, with the transaction marked as "ok".
  pub transact-run_plan :
      (plan : NativePlan) (s s' : System)
      → IsOpened plan.install
      → transact env f plan id s ≡ (ok, s')
      → (db : Db) × (run_plan env.completes env.repo env.now id artifact plan s.db ≡ (ok, db))
        × (txn_finish env.completes id (codes "ok") db ≡ (ok, s'.db))
  unfolding transact run_plan commit
  transact-run_plan plan s s' o h =
      let (_, h1) = then_ok-ok (if env.begins s.db then ok else err) s s' _ h in
      let r = remove_each env f plan.remove id s in
      let (q, h2) = then_ok-ok r.0 r.1 s' _ h1 in
      let t = install_each env f plan.install id r.1 in
      let (p, h3) = then_ok-ok t.0 t.1 s' (commit env f id) h2 in
      let e = txn_finish env.completes id (codes "ok") t.1.db in
      let (u, h4) = then_ok-ok e.0 (record t.1 { db = e.1 }) s' _ h3 in
      (
        t.1.db,
        rw (remove_each-run plan.remove s r.1 (ap (λ c. (c, r.1)) q))
            (install_each-run plan.install r.1 t.1 o (ap (λ c. (c, t.1)) p)),
        ap (λ c. (c, e.1)) u ∙ ap (λ p. (ok, p.1.db)) h4,
      )
