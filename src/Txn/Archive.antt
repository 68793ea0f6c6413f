-- ===== src/Txn/Archive.antt =====
-- `salt_install_archive` and `salt_remove_pkg` of src/halite/src/txn.c.
use salt_os.Prelude.{
  ℕ, Bool, true, false, not, ◌||◌, Option, none, some, List, [], ◌∷◌, ◌++◌, ◌==◌, if◌then◌else◌,
  any, Str, str_eq,
}
use salt_os.Util.Rc.{Rc, ok, err_format, err_notfound, err_exists, then_ok}
use salt_os.Util.{path_is_confined}
use salt_os.Util.Components.{components}
use salt_os.Db.Rows.{
  HookKind, post_install, post_upgrade, pre_remove, post_remove, PkgMeta, ManifestEntry, PkgRow,
}
use salt_os.Db.{Db, Stmt, is_installed, get_pkg}
use salt_os.Db.Ops.{record_install, record_remove, owner}
use salt_os.Db.Manifest.{pkg_manifest, pkg_hook}
use salt_os.Txn.Store.{Files, unlink}
use salt_os.Txn.{Kernel, Disk, backup_file, append_added}
use salt_os.Txn.Extract.{Payload, extract, exists_at}

-- `salt_archive`
pub record Archive : Type 0 where
  pub meta : PkgMeta
  pub manifest : List ManifestEntry
  pub payload : Payload

-- The arguments of `run_hook`.
pub record HookCall : Type 0 where
  pub pkg : Str
  pub version : Option Str
  pub old_version : Option Str
  pub kind : HookKind
  pub body : Str

-- What a transaction works on.
pub record System : Type 0 where
  pub db : Db
  pub disk : Disk

abbrev pub is_dir_entry : ManifestEntry → Bool
is_dir_entry e = e.typeflag == b'5'

-- `manifest_has`
unfoldable pub manifest_has : List ManifestEntry → Str → Bool
manifest_has m path = any (λ e. str_eq e.path path) m

-- `manifest_check_confined`
unfoldable pub manifest_is_confined : List ManifestEntry → Bool
manifest_is_confined [] = true
manifest_is_confined (e ∷ es) =
    let rest = manifest_is_confined es in if not (path_is_confined e.path) then false else rest

-- `strcmp(owner, ar->meta.name) != 0`
abbrev pub is_foreign : Str → Option Str → Bool
is_foreign name none = false
is_foreign name (some o) = not (str_eq o name)

abbrev pub version_of : Option PkgRow → Option Str
version_of none = none
version_of (some r) = some r.version

-- `if (rc == SALT_OK) rc = …` for what is recorded in the database.
abbrev pub then_record : Rc × Disk → Db → (Db → Rc × Db) → Rc × System
then_record (ok, d) db f = let (rc, db') = f db in (rc, record { db = db'; disk = d })
then_record (rc, d) db f = (rc, record { db = db; disk = d })

module _ (k : Kernel) where
  -- An entry of the manifest before anything is extracted: what stands there is backed up, or the
  -- path is a line for `added.list`.
  unfoldable pub prepare_entry : Str → Db → ManifestEntry → Str → Disk → Rc × (Str × Disk)
  prepare_entry name db e added d =
      if is_dir_entry e
      then (ok, (added, d))
      else if is_foreign name (owner db e.path)
      then (err_exists, (added, d))
      else if exists_at k (components e.path) d.root
      then (let (rc, d') = backup_file k e.path d in (rc, (added, d')))
      else (ok, (added ++ (e.path ++ 10 ∷ []), d))

  -- The loop over the manifest.
  unfoldable pub prepare : Str → Db → List ManifestEntry → Str → Disk → Rc × (Str × Disk)
  prepare name db [] added d = (ok, (added, d))
  prepare name db (e ∷ es) added d =
      then_ok (prepare_entry name db e added d) (λ p. prepare name db es p.0 p.1)

  -- The lines that the loop finds are appended when it ends well.
  abbrev pub then_append : Rc × (Str × Disk) → Rc × Disk
  then_append (ok, (added, d)) = append_added k added d
  then_append (rc, (added, d)) = (rc, d)

  -- `salt_archive_extract_payload` into the root.
  unfoldable pub extract_payload : Payload → Disk → Rc × Disk
  extract_payload p d =
      let (rc, root) = extract k p.entries p.ends d.root in (rc, record d { root = root })

  -- `unlink` of a path of the root.
  abbrev pub unlink_path : Str → Disk → Rc × Disk
  unlink_path path d = (ok, record d { root = unlink k.root (components path) d.root })

  -- The loop over the manifest that an upgrade replaces.
  unfoldable pub remove_old : List ManifestEntry → List ManifestEntry → Disk → Rc × Disk
  remove_old m [] d = (ok, d)
  remove_old m (e ∷ old) d =
      then_ok
        (if is_dir_entry e || manifest_has m e.path || not (path_is_confined e.path)
          then (ok, d)
          else then_ok (backup_file k e.path d) (unlink_path e.path))
        (remove_old m old)

  -- The loop over the manifest of a package that goes; `rmdir` changes no file.
  unfoldable pub remove_files : List ManifestEntry → Disk → Rc × Disk
  remove_files [] d = (ok, d)
  remove_files (e ∷ es) d =
      then_ok
        (if not (path_is_confined e.path) || is_dir_entry e
          then (ok, d)
          else then_ok (backup_file k e.path d) (unlink_path e.path))
        (remove_files es)

  -- `run_hook` is a program of the package: `hook` says how it ends and what it leaves in the root.
  module _ (hook : HookCall → Files → Rc × Files) where
    unfoldable pub run_hook : HookCall → Disk → Rc × Disk
    run_hook c d = let (rc, root) = hook c d.root in (rc, record d { root = root })

    abbrev pub run_hook_if : (Str → HookCall) → Option Str → Disk → Rc × Disk
    run_hook_if call none d = (ok, d)
    run_hook_if call (some body) d = run_hook (call body) d

    -- The hook behind an installation.
    unfoldable pub post_hook : Archive → Bool → Option Str → Disk → Rc × Disk
    post_hook ar upgrade old_version =
        let kind = if upgrade then post_upgrade else post_install in
        run_hook_if
          (λ body. record {
            pkg = ar.meta.name;
            version = some ar.meta.version;
            old_version = old_version;
            kind = kind;
            body = body;
          })
          (ar.meta.hooks kind)

    -- The files of `salt_install_archive`.
    unfoldable pub install_files :
        Archive → Bool → List ManifestEntry → Option Str → Db → Disk → Rc × Disk
    install_files ar upgrade old old_version db d =
        then_ok (then_append (prepare ar.meta.name db ar.manifest [] d)) λ d.
          then_ok (extract_payload ar.payload d)
            λ d. then_ok (remove_old ar.manifest old d) (post_hook ar upgrade old_version)

    -- The hooks before and behind a removal.
    unfoldable pub remove_hook : HookKind → Str → Db → Disk → Rc × Disk
    remove_hook kind name db =
        run_hook_if
          (λ body. record {
            pkg = name;
            version = version_of (get_pkg db name);
            old_version = none;
            kind = kind;
            body = body;
          })
          (pkg_hook db name kind)

    -- The files of `salt_remove_pkg`.
    unfoldable pub remove_disk : Str → Db → Disk → Rc × Disk
    remove_disk name db d =
        then_ok (remove_hook pre_remove name db d) (remove_files (pkg_manifest db name))

    -- The hook behind a removal can only warn.
    unfoldable pub after_remove : Str → Db → Rc × System → Rc × System
    after_remove name db (ok, s) =
        let (_, d) = remove_hook post_remove name db s.disk in (ok, record s { disk = d })
    after_remove name db (rc, s) = (rc, s)

    module _ (completes : Stmt → Db → Bool) (now : ℕ) where
      -- `salt_install_archive`
      unfoldable pub install_archive : Archive → Option Str → Option Str → ℕ → System → Rc × System
      install_archive ar repo sig txn_id s =
          let upgrade = is_installed s.db ar.meta.name in
          let old = if upgrade then pkg_manifest s.db ar.meta.name else [] in
          let old_version = if upgrade then version_of (get_pkg s.db ar.meta.name) else none in
          if not (manifest_is_confined ar.manifest)
          then (err_format, s)
          else then_record (install_files ar upgrade old old_version s.db s.disk) s.db
              (record_install completes ar.meta ar.manifest repo sig now txn_id)

      -- `salt_remove_pkg`
      unfoldable pub remove_pkg : Str → System → Rc × System
      remove_pkg name s =
          if not (is_installed s.db name)
          then (err_notfound, s)
          else after_remove name s.db
              (then_record (remove_disk name s.db s.disk) s.db (record_remove completes name))
