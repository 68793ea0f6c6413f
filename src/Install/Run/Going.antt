-- ===== src/Install/Run/Going.antt =====
-- The installations of a transaction save the files that they replace.
use salt_os.Prelude.{
  ℕ, ◌≡◌, refl, ◌≢◌, ◌⊎◌, inl, inr, Bool, true, false, Option, none, some, List, [], ◌∷◌,
  if◌then◌else◌, Bool-cases, Str, Memᴰ,
}
use mathlib.Core.List.Memᴰ
use salt_os.Util.Rc.{
  Rc, ok, err, err_io, err_format, err_notfound, err_verify, err_exists, err_dep, err_usage,
}
use salt_os.Db.Rows.{ManifestEntry}
use salt_os.Db.{Db, Stmt, is_installed, get_pkg}
use salt_os.Db.Ops.{record_install}
use salt_os.Db.Manifest.{pkg_manifest}
use salt_os.Repo.{RepoEntry}
use salt_os.Txn.Store.{Loc, Files}
use salt_os.Txn.{Kernel, Disk}
use salt_os.Txn.Archive.{
  Archive, HookCall, System, manifest_is_confined, version_of, install_files, then_record,
  install_archive,
}
use salt_os.Txn.Changes.{Written}
use salt_os.Txn.Saved.{IsUntouched, IsPlainAt}
use salt_os.Txn.Prepared.{loc, IsFileOf}
use salt_os.Txn.Listed.{Held, IsPlaceOf}
use salt_os.Txn.Quiet.{IsQuiet}
use salt_os.Txn.Installed.{Installable, Ended, install_files-Ended}
use salt_os.Install.Run.Owned.{Fewer, Fewer-trans, record_install-Fewer, pkg_manifest-Fewer}
use salt_os.Install.Run.Removing.{OldPlace}

module _ (orig : Files) (db0 : Db) (k : Kernel) where
  -- What is asked of an archive: its payload writes only to the files of its manifest, whose paths
  -- have no newline; at those and at the files that it replaces the root has nothing that a backup
  -- does not keep, and no directory; a place that old and new manifest share is spelled the same.
  pub record Unpacks (ar : Archive) : Type 0 where
    pub lines : (e : ManifestEntry) → IsFileOf ar.manifest e → ¬ Memᴰ 10 e.path
    pub plain : (l : Loc) → IsPlaceOf ar.manifest l → IsPlainAt orig l
    pub free : (l : Loc) (root : Files) → IsPlaceOf ar.manifest l → k.is_dir l root ≡ false
    pub covered : (l : Loc) → Written ar.payload.entries l → IsPlaceOf ar.manifest l
    pub old_plain : (l : Loc) → OldPlace db0 ar.meta.name l → IsPlainAt orig l
    pub spelled :
        (e m : ManifestEntry)
        → IsFileOf (pkg_manifest db0 ar.meta.name) e
        → IsFileOf ar.manifest m
        → loc m ≡ loc e
        → m.path ≡ e.path

  -- The second archive has another name, and no file at a place of the first, now or before.
  pub record Apart (a b : Archive) : Type 0 where
    pub names : a.meta.name ≢ b.meta.name
    pub places :
        (l : Loc) → IsPlaceOf b.manifest l ⊎ OldPlace db0 b.meta.name l → ¬ IsPlaceOf a.manifest l

  module _ (open_entry : RepoEntry → Option Archive) where
    abbrev pub IsArchiveOf : List RepoEntry → Archive → Type 0
    IsArchiveOf es a = (x : RepoEntry) × Memᴰ x es × (open_entry x ≡ some a)

    abbrev pub AllUnpack : List RepoEntry → Type 0
    AllUnpack [] = Unit
    AllUnpack (e ∷ es) =
        ((ar : Archive)
          → open_entry e ≡ some ar
          → Unpacks ar × ((a : Archive) → IsArchiveOf es a → Apart ar a))
        × AllUnpack es

    -- While the packages of `es` are still to be installed, nothing was installed at their places.
    pub record Going (es : List RepoEntry) (s : System) : Type 0 where
      pub paths : List Str
      pub held : Held orig paths s.disk
      pub untouched :
          (a : Archive)
          → IsArchiveOf es a
          → (l : Loc) → IsPlaceOf a.manifest l ⊎ OldPlace db0 a.meta.name l
          → IsUntouched orig paths s.disk.root l
      pub fewer : (a : Archive) → IsArchiveOf es a → Fewer a.meta.name db0 s.db

    pub Going-tail :
        (e : RepoEntry) (es : List RepoEntry) (s : System) → Going (e ∷ es) s → Going es s
    Going-tail e es s g = record {
      paths = g.paths;
      held = g.held;
      untouched = λ a (x, m, o). g.untouched a (x, Memᴰ.tail m, o);
      fewer = λ a (x, m, o). g.fewer a (x, Memᴰ.tail m, o);
    }

    module _ (e : RepoEntry) (es : List RepoEntry) (ar : Archive) (is_open : open_entry e ≡ some ar)
        (unpacks : Unpacks ar) (apart : (a : Archive) → IsArchiveOf es a → Apart ar a) where
      Going-Installable :
          (s : System) (g : Going (e ∷ es) s) (old : List ManifestEntry)
          → manifest_is_confined ar.manifest ≡ true
          → ((x : ManifestEntry) → Memᴰ x old → Memᴰ x (pkg_manifest db0 ar.meta.name))
          → Installable orig k g.paths ar old s.disk.root
      Going-Installable s g old confined was =
          let here : IsArchiveOf (e ∷ es) ar = (e, Memᴰ.head refl, is_open) in
          record {
            confined = confined;
            lines = unpacks.lines;
            ready = λ x i. (
              g.untouched ar here (loc x) (inl (x, i, refl)),
              unpacks.plain (loc x) (x, i, refl),
              unpacks.free (loc x) s.disk.root (x, i, refl),
            );
            covered = unpacks.covered;
            deletable = λ x i.
                let place : OldPlace db0 ar.meta.name (loc x) = (x, (was x i.0, i.1), refl) in
                (g.untouched ar here (loc x) (inr place), unpacks.old_plain (loc x) place);
            spelled = λ x m i j h. unpacks.spelled x m (was x i.0, i.1) j h;
          }

      Ended-Going :
          (s : System) (g : Going (e ∷ es) s) (d : Disk)
          → Ended orig g.paths ar s.disk d
          → Going es (record { db = s.db; disk = d })
      Ended-Going s g d n = record {
        paths = n.listed;
        held = n.held;
        untouched = λ a (x, m, o) l p.
            n.elsewhere l ((apart a (x, m, o)).places l p) (g.untouched a (x, Memᴰ.tail m, o) l p);
        fewer = λ a (x, m, o). g.fewer a (x, Memᴰ.tail m, o);
      }

      pub Fewer-Going :
          (s : System) (db : Db)
          → ((x : Str) → ar.meta.name ≢ x → Fewer x s.db db)
          → Going es s
          → Going es (record { db = db; disk = s.disk })
      Fewer-Going s db f g = record {
        paths = g.paths;
        held = g.held;
        untouched = g.untouched;
        fewer = λ a i.
            Fewer-trans a.meta.name db0 s.db db (g.fewer a i) (f a.meta.name ((apart a i).names));
      }

      module _ (hook : HookCall → Files → Rc × Files) (quiet : IsQuiet hook)
          (readable : (text : Str) → k.list_read text ≡ true) (completes : Stmt → Db → Bool)
          (now : ℕ) where
        then_record-Going :
            (rc : Rc) (d : Disk) (db : Db) (repo sig : Option Str) (id : ℕ)
            → Going es (record { db = db; disk = d })
            → Going es
                (then_record
                  (rc, d)
                  db
                  (record_install completes ar.meta ar.manifest repo sig now id)).1
        then_record-Going ok d db repo sig id g =
            Fewer-Going (record { db = db; disk = d }) _
              (λ x. record_install-Fewer completes x ar.meta ar.manifest repo sig now id db) g
        then_record-Going err d db repo sig id g = g
        then_record-Going err_io d db repo sig id g = g
        then_record-Going err_format d db repo sig id g = g
        then_record-Going err_notfound d db repo sig id g = g
        then_record-Going err_verify d db repo sig id g = g
        then_record-Going err_exists d db repo sig id g = g
        then_record-Going err_dep d db repo sig id g = g
        then_record-Going err_usage d db repo sig id g = g

        old_was :
            (s : System)
            → Fewer ar.meta.name db0 s.db
            → (upgrade : Bool) (x : ManifestEntry)
            → Memᴰ x (if upgrade then pkg_manifest s.db ar.meta.name else [])
            → Memᴰ x (pkg_manifest db0 ar.meta.name)
        old_was s f true x m = pkg_manifest-Fewer ar.meta.name db0 s.db f x m
        old_was s f false x m = absurd (Memᴰ.not-nil m)

        pub install_archive-Going :
            (repo sig : Option Str) (id : ℕ) (s : System)
            → Going (e ∷ es) s
            → Going es (install_archive k hook completes now ar repo sig id s).1
        unfolding install_archive
        install_archive-Going repo sig id s g =
            elim (Bool-cases (manifest_is_confined ar.manifest)) [
              | inr unsafe ↦ rw unsafe (Going-tail e es s g)
              | inl confined ↦ rw confined (
                  let upgrade = is_installed s.db ar.meta.name in
                  let old = if upgrade then pkg_manifest s.db ar.meta.name else [] in
                  let version = if upgrade then version_of (get_pkg s.db ar.meta.name) else none in
                  let r = install_files k hook ar upgrade old version s.db s.disk in
                  then_record-Going r.0 r.1 s.db repo sig id (
                    Ended-Going s g r.1 (
                      install_files-Ended orig k readable hook quiet g.paths ar upgrade old version
                        s.db s.disk g.held
                        (Going-Installable s g old confined
                          (old_was s (g.fewer ar (e, Memᴰ.head refl, is_open)) upgrade)))))
            ]
