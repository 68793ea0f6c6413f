-- ===== src/Txn/Installed.antt =====
-- An installation and a removal save what they change, however they end.
use salt_os.Prelude.{
  ◌≡◌, refl, sym, ap, ◌∙◌, subst, ◌⊎◌, ⊎_elim, Bool, true, Option, none, List, [], arith, Str, Memᴰ,
}
use salt_os.Util.Rc.{Rc, ok, then_ok, then_ok-elim}
use salt_os.Db.{Db}
use salt_os.Db.Rows.{ManifestEntry}
use salt_os.Txn.Store.{Loc, Files, get}
use salt_os.Txn.{Kernel, Disk, text_of}
use salt_os.Txn.Extract.{extract}
use salt_os.Txn.Archive.{
  Archive, HookCall, manifest_is_confined, prepare, then_append, extract_payload, remove_old,
  post_hook, install_files,
}
use salt_os.Txn.Quiet.{IsQuiet, post_hook-same}
use salt_os.Txn.Changes.{Written, extract-Changes}
use salt_os.Txn.Saved.{IsUntouched}
use salt_os.Txn.Prepared.{loc, IsFileOf, IsReady, prepare-Prepared}
use salt_os.Txn.Cleared.{Saved-Changes, IsUntouched-fewer, IsDeletable, remove_old-Cleared}
use salt_os.Txn.Listed.{IsPlaceOf, manifest_has-mem, Held, Listed, then_append-Listed}

module _ (orig : Files) where
  -- What an installation relies on: the files of the manifest are ready, the payload writes to
  -- them only, the files of the manifest that is replaced can be deleted, and a location that both
  -- manifests have is spelled the same.
  pub record Installable (k : Kernel) (paths : List Str) (ar : Archive) (old : List ManifestEntry)
      (root : Files) : Type 0 where
    pub confined : manifest_is_confined ar.manifest ≡ true
    pub lines : (e : ManifestEntry) → IsFileOf ar.manifest e → ¬ Memᴰ 10 e.path
    pub ready : IsReady orig paths k ar.manifest root
    pub covered : (l : Loc) → Written ar.payload.entries l → IsPlaceOf ar.manifest l
    pub deletable : (e : ManifestEntry) → IsFileOf old e → IsDeletable orig k paths root e
    pub spelled :
        (e m : ManifestEntry)
        → IsFileOf old e
        → IsFileOf ar.manifest m
        → loc m ≡ loc e
        → m.path ≡ e.path

  -- How it ends: the disk is held, and other locations are as untouched as before.
  pub record Ended (paths : List Str) (ar : Archive) (d d' : Disk) : Type 0 where
    pub listed : List Str
    pub held : Held orig listed d'
    pub elsewhere :
        (l : Loc)
        → (¬ IsPlaceOf ar.manifest l)
        → IsUntouched orig paths d.root l
        → IsUntouched orig listed d'.root l

  module _ (k : Kernel) (readable : (text : Str) → k.list_read text ≡ true) where
    Listed-Ended :
        (paths : List Str) (ar : Archive) (d : Disk) (rc : Rc) (d' : Disk)
        → Listed orig k readable paths ar.manifest d rc d'
        → Ended paths ar d d'
    Listed-Ended paths ar d rc d' l = record {
      listed = l.listed;
      held = l.held;
      elsewhere = λ j n u. (
        l.elsewhere j n (u.0),
        subst (λ r. (get j r ≡ get j orig) ⊎ (get j r ≡ none)) (sym l.root_same) (u.1),
      );
    }

    extract_payload-Ended :
        (paths : List Str) (ar : Archive) (old : List ManifestEntry) (d d1 : Disk)
        → Installable k paths ar old d.root
        → Listed orig k readable paths ar.manifest d ok d1
        → Ended paths ar d (extract_payload k ar.payload d1).1
    unfolding extract_payload
    extract_payload-Ended paths ar old d d1 i l =
        let c = extract-Changes k ar.payload.entries ar.payload.ends d1.root in
        record {
          listed = l.listed;
          held = record {
            holds =
                Saved-Changes orig (Written ar.payload.entries) l.listed d1.root _ d1.saved
                  l.held.holds c (λ j w. l.secured refl j (i.covered j w));
            text = l.held.text;
          };
          elsewhere = λ j n u. (
            l.elsewhere j n (u.0),
            ⊎_elim
                (λ (e : get j (extract k ar.payload.entries ar.payload.ends d1.root).1
                    ≡ get j d1.root).
                  subst (λ v. (v ≡ get j orig) ⊎ (v ≡ none)) (sym (e ∙ ap (get j) l.root_same))
                    (u.1))
                (λ w. absurd (n (i.covered j w))) (c j),
          );
        }

    remove_old-Ended :
        (paths : List Str) (ar : Archive) (old : List ManifestEntry) (d d2 : Disk)
        → Installable k paths ar old d.root
        → Ended paths ar d d2
        → Ended paths ar d (remove_old k ar.manifest old d2).1
    remove_old-Ended paths ar old d d2 i e =
        let c = remove_old-Cleared orig k e.listed ar.manifest old d2 e.held.holds (λ x f n. (
          e.elsewhere (loc x)
              (λ (m, g, h).
                ground
                  (arith, manifest_has-mem ar.manifest m x.path (g.0) (i.spelled x m f g h), n))
              ((i.deletable x f).0),
          (i.deletable x f).1,
        )) in
        record {
          listed = e.listed;
          held = record { holds = c.holds; text = ap text_of c.added_same ∙ e.held.text };
          elsewhere =
              λ j n u. IsUntouched-fewer orig e.listed d2.root _ j (e.elsewhere j n u) (c.fewer j);
        }

    module _ (hook : HookCall → Files → Rc × Files) (quiet : IsQuiet hook) where
      -- However the files of an installation end, what they changed is saved.
      pub install_files-Ended :
          (paths : List Str) (ar : Archive) (upgrade : Bool) (old : List ManifestEntry)
          (version : Option Str) (db : Db) (d : Disk)
          → Held orig paths d
          → Installable k paths ar old d.root
          → Ended paths ar d (install_files k hook ar upgrade old version db d).1
      unfolding install_files
      install_files-Ended paths ar upgrade old version db d h i =
          let p = prepare k ar.meta.name db ar.manifest [] d in
          let l =
            then_append-Listed orig k readable paths ar.manifest d p.0 p.1.0 p.1.1 i.confined
              i.lines h.text
              (prepare-Prepared orig paths k ar.meta.name db ar.manifest [] d h.holds i.ready) in
          let d1 = (then_append k p).1 in
          let d2 = extract_payload k ar.payload d1 in
          let d3 = remove_old k ar.manifest old d2.1 in
          let last = post_hook k hook ar upgrade version in
          then_ok-elim (Ended paths ar d) (then_append k p).0 d1
            (λ d.
              then_ok (extract_payload k ar.payload d)
                λ d. then_ok (remove_old k ar.manifest old d) last)
            (Listed-Ended paths ar d _ d1 l)
            λ r.
              let x =
                extract_payload-Ended paths ar old d d1 i
                  (subst (λ rc. Listed orig k readable paths ar.manifest d rc d1) r l) in
              then_ok-elim (Ended paths ar d) d2.0 d2.1
                (λ d. then_ok (remove_old k ar.manifest old d) last) x
                λ _.
                  let c = remove_old-Ended paths ar old d d2.1 i x in
                  then_ok-elim (Ended paths ar d) d3.0 d3.1 last c λ _.
                    subst (Ended paths ar d)
                      (sym (post_hook-same k hook quiet ar upgrade version d3.1)) c
