-- ===== src/Install/Run/Removing.antt =====
-- The removals of a transaction save the files that they delete.
use salt_os.Prelude.{ℕ, refl, sym, ap, ◌∙◌, subst, inl, inr, Bool, [], Bool-cases, Str}
use salt_os.Util.Rc.{
  Rc, ok, err, err_io, err_format, err_notfound, err_verify, err_exists, err_dep, err_usage,
  then_ok-elim,
}
use salt_os.Db.Rows.{pre_remove, post_remove}
use salt_os.Db.{Db, Stmt, is_installed}
use salt_os.Db.Ops.{record_remove}
use salt_os.Db.Manifest.{pkg_manifest}
use salt_os.Txn.Store.{Loc, Files}
use salt_os.Txn.{Kernel, Disk, text_of}
use salt_os.Txn.Archive.{
  HookCall, System, remove_hook, remove_files, remove_disk, then_record, after_remove, remove_pkg,
}
use salt_os.Txn.Saved.{IsUntouched, IsPlainAt}
use salt_os.Txn.Prepared.{loc}
use salt_os.Txn.Cleared.{IsUntouched-fewer, remove_files-Cleared}
use salt_os.Txn.Listed.{Held, IsPlaceOf}
use salt_os.Txn.Quiet.{IsQuiet, remove_hook-same}
use salt_os.Install.Run.Owned.{Fewer, Fewer-trans, record_remove-Fewer, pkg_manifest-Fewer}

-- The places of the files that a package has installed.
abbrev pub OldPlace : Db → Str → Loc → Type 0
OldPlace db n l = IsPlaceOf (pkg_manifest db n) l

module _ (orig : Files) (db0 : Db) where
  -- While packages are removed, nothing is listed, and a location has what it had, or nothing.
  pub record Removing (s : System) : Type 0 where
    pub held : Held orig [] s.disk
    pub untouched : (l : Loc) → IsUntouched orig [] s.disk.root l
    pub fewer : (x : Str) → Fewer x db0 s.db

  module _ (k : Kernel) (hook : HookCall → Files → Rc × Files) (quiet : IsQuiet hook) where
    remove_disk-Removing :
        (n : Str) (db : Db) (d : Disk)
        → Removing (record { db = db; disk = d })
        → ((l : Loc) → OldPlace db0 n l → IsPlainAt orig l)
        → Removing (record { db = db; disk = (remove_disk k hook n db d).1 })
    unfolding remove_disk
    remove_disk-Removing n db d r plain =
        let pre = remove_hook k hook pre_remove n db d in
        let mid : Removing (record { db = db; disk = pre.1 }) =
          subst (λ d. Removing (record { db = db; disk = d }))
            (sym (remove_hook-same k hook quiet pre_remove n db d)) r in
        then_ok-elim (λ d. Removing (record { db = db; disk = d })) pre.0 pre.1
          (remove_files k (pkg_manifest db n)) mid
          λ _.
            let c = remove_files-Cleared orig k [] (pkg_manifest db n) pre.1 mid.held.holds (λ e i.
              (
                mid.untouched (loc e),
                plain (loc e) (e, (pkg_manifest-Fewer n db0 db (r.fewer n) e i.0, i.1), refl),
              )) in
            record {
              held = record { holds = c.holds; text = ap text_of c.added_same ∙ mid.held.text };
              untouched =
                  λ l. IsUntouched-fewer orig [] pre.1.root _ l (mid.untouched l) (c.fewer l);
              fewer = r.fewer;
            }

    after_remove-Removing :
        (n : Str) (db : Db) (rc : Rc) (s : System)
        → Removing s
        → Removing (after_remove k hook n db (rc, s)).1
    unfolding after_remove
    after_remove-Removing n db ok s r =
        subst (λ d. Removing (record { db = s.db; disk = d }))
          (sym (remove_hook-same k hook quiet post_remove n db s.disk)) r
    after_remove-Removing n db err s r = r
    after_remove-Removing n db err_io s r = r
    after_remove-Removing n db err_format s r = r
    after_remove-Removing n db err_notfound s r = r
    after_remove-Removing n db err_verify s r = r
    after_remove-Removing n db err_exists s r = r
    after_remove-Removing n db err_dep s r = r
    after_remove-Removing n db err_usage s r = r

    then_record-Removing :
        (n : Str) (completes : Stmt → Db → Bool) (rc : Rc) (d : Disk) (db : Db)
        → Removing (record { db = db; disk = d })
        → Removing (then_record (rc, d) db (record_remove completes n)).1
    then_record-Removing n completes ok d db r = record {
      held = r.held;
      untouched = r.untouched;
      fewer = λ x. Fewer-trans x db0 db _ (r.fewer x) (record_remove-Fewer completes x n db);
    }
    then_record-Removing n completes err d db r = r
    then_record-Removing n completes err_io d db r = r
    then_record-Removing n completes err_format d db r = r
    then_record-Removing n completes err_notfound d db r = r
    then_record-Removing n completes err_verify d db r = r
    then_record-Removing n completes err_exists d db r = r
    then_record-Removing n completes err_dep d db r = r
    then_record-Removing n completes err_usage d db r = r

    pub remove_pkg-Removing :
        (completes : Stmt → Db → Bool) (now : ℕ) (n : Str) (s : System)
        → Removing s
        → ((l : Loc) → OldPlace db0 n l → IsPlainAt orig l)
        → Removing (remove_pkg k hook completes now n s).1
    unfolding remove_pkg
    remove_pkg-Removing completes now n s r plain = elim (Bool-cases (is_installed s.db n)) [
      | inr absent ↦ rw absent r
      | inl there ↦ rw there (
          after_remove-Removing n s.db _ _ (
            then_record-Removing n completes (remove_disk k hook n s.db s.disk).0 _ s.db
              (remove_disk-Removing n s.db s.disk r plain)))
    ]
