-- ===== src/Txn/Cleared.antt =====
-- What is deleted is in the backup: the loops over a manifest that delete files.
use salt_os.Prelude.{
  ◌≡◌, refl, sym, ap, ◌∙◌, subst, ◌⊎◌, inl, inr, ⊎_elim, Bool, true, false, not, ◌||◌, none, List,
  [], ◌∷◌, ◌++◌, arith, if◌then◌else◌, Bool-cases, Option-cases, mem-cons, mem-append, Str, Memᴰ,
}
use mathlib.Core.List.Memᴰ
use salt_os.Util.Rc.{Rc, ok, then_ok, then_ok-cases}
use salt_os.Util.{path_is_confined}
use salt_os.Util.Components.{components}
use salt_os.Db.Rows.{ManifestEntry}
use salt_os.Txn.Store.{Loc, Files, Answers, get, loc_eq, loc_eq_iff, get-del, unlink}
use salt_os.Txn.{Kernel, Disk, backup_file}
use salt_os.Txn.Changes.{Changes, unlink-Changes}
use salt_os.Txn.Saved.{
  IsLine, IsListed, IsBacked, Saved, IsUntouched, IsPlainAt, Kept, backup_file-Kept,
}
use salt_os.Txn.Archive.{is_dir_entry, manifest_has, unlink_path, remove_old, remove_files}
use salt_os.Txn.Prepared.{loc, IsFileOf}

-- Whether a path of a list names a location.
IsListed-dec : (paths : List Str) (l : Loc) → IsListed paths l ⊎ (¬ IsListed paths l)
IsListed-dec [] l = inr (λ h. Memᴰ.not-nil h.1)
IsListed-dec (p ∷ ps) l = elim (Bool-cases (loc_eq (components p) l)) [
  | inl t ↦ inl (p, Memᴰ.head refl, (loc_eq_iff (components p) l).0 t)
  | inr f ↦
      ⊎_elim (λ h. inl (h.0, Memᴰ.tail h.1, h.2))
        (λ n. inr (λ h.
          ⊎_elim
            (λ (e : h.0 ≡ p).
              ground (arith, ap components e, h.2, (loc_eq_iff (components p) l).1, f))
            (λ m. n (h.0, m, h.2)) ((mem-cons h.0 p ps).0 h.1)))
        (IsListed-dec ps l)
]

module _ (orig : Files) where
  -- Paths that are listed, where nothing stands yet.
  pub Saved-append :
      (paths new : List Str) (root saved : Files)
      → Saved orig paths root saved
      → ((p : Str) → Memᴰ p new → (get (components p) root ≡ none) × IsLine p)
      → Saved orig (paths ++ new) root saved
  Saved-append paths new root saved s free = record {
    lines = λ p m. ⊎_elim (s.lines p) (λ i. (free p i).1) ((mem-append p paths new).0 m);
    backed = s.backed;
    status = λ l.
        ⊎_elim
          (λ (i : (get l root ≡ get l orig) × (¬ IsListed paths l)).
            ⊎_elim
              (λ (h : IsListed new l). inr (
                inr (
                  sym i.0 ∙ subst (λ j. get j root ≡ none) h.2 ((free h.0 h.1).0),
                  (h.0, (mem-append h.0 paths new).1 (inr h.1), h.2),
                )))
              (λ n. inl (
                i.0,
                λ h.
                    ⊎_elim (λ m. i.1 (h.0, m, h.2)) (λ m. n (h.0, m, h.2))
                      ((mem-append h.0 paths new).0 h.1),
              ))
              (IsListed-dec new l))
          (λ r. inr (
            ⊎_elim inl
              (λ (n : (get l orig ≡ none) × IsListed paths l).
                inr (n.0, (n.1.0, (mem-append n.1.0 paths new).1 (inl n.1.1), n.1.2)))
              r))
          (s.status l);
  }

  -- What may be changed.
  abbrev pub IsSecured : List Str → Files → Loc → Type 0
  IsSecured paths saved l = IsBacked orig saved l ⊎ ((get l orig ≡ none) × IsListed paths l)

  pub Saved-Changes :
      (P : Loc → Type 0) (paths : List Str) (root root' saved : Files)
      → Saved orig paths root saved
      → Changes P root root'
      → ((l : Loc) → P l → IsSecured paths saved l)
      → Saved orig paths root' saved
  Saved-Changes P paths root root' saved s c secure = record {
    lines = s.lines;
    backed = s.backed;
    status = λ l.
        ⊎_elim
          (λ (same : get l root' ≡ get l root).
            ⊎_elim (λ (i : (get l root ≡ get l orig) × (¬ IsListed paths l)). inl (same ∙ i.0, i.1))
              inr (s.status l))
          (λ p. inr (secure l p)) (c l);
  }

  -- What is left when a path is backed up and deleted: the store has what it had, or nothing.
  pub record Cleared (paths : List Str) (d d' : Disk) : Type 0 where
    pub added_same : d'.added ≡ d.added
    pub holds : Saved orig paths d'.root d'.saved
    pub fewer : (l : Loc) → (get l d'.root ≡ get l d.root) ⊎ (get l d'.root ≡ none)

  pub Cleared-refl :
      (paths : List Str) (d : Disk) → Saved orig paths d.root d.saved → Cleared paths d d
  Cleared-refl paths d s = record { added_same = refl; holds = s; fewer = λ l. inl refl }

  pub Cleared-trans :
      (paths : List Str) (a b c : Disk) → Cleared paths a b → Cleared paths b c → Cleared paths a c
  Cleared-trans paths a b c f g = record {
    added_same = g.added_same ∙ f.added_same;
    holds = g.holds;
    fewer = λ l.
        ⊎_elim
          (λ (e : get l c.root ≡ get l b.root).
            ⊎_elim (λ (h : get l b.root ≡ get l a.root). inl (e ∙ h))
              (λ (h : get l b.root ≡ none). inr (e ∙ h)) (f.fewer l))
          inr (g.fewer l);
  }

  pub IsUntouched-fewer :
      (paths : List Str) (root root' : Files) (l : Loc)
      → IsUntouched orig paths root l
      → (get l root' ≡ get l root) ⊎ (get l root' ≡ none)
      → IsUntouched orig paths root' l
  IsUntouched-fewer paths root root' l (n, u) (inl e) = (
    n,
    ⊎_elim (λ (h : get l root ≡ get l orig). inl (e ∙ h)) (λ (h : get l root ≡ none). inr (e ∙ h))
        u,
  )
  IsUntouched-fewer paths root root' l (n, u) (inr e) = (n, inr e)

  unlink-fewer :
      (to : Answers) (l : Loc) (fs : Files) (j : Loc)
      → (get j (unlink to l fs) ≡ get j fs) ⊎ ((get j (unlink to l fs) ≡ none) × (l ≡ j))
  unfolding unlink
  unlink-fewer to l fs j = ground (arith, get-del j l fs, loc_eq_iff l j)

  module _ (k : Kernel) (paths : List Str) where
    -- A file is backed up and deleted.
    clear_path :
        (path : Str) (d : Disk)
        → Saved orig paths d.root d.saved
        → IsUntouched orig paths d.root (components path)
        → IsPlainAt orig (components path)
        → Cleared paths d (then_ok (backup_file k path d) (unlink_path k path)).1
    clear_path path d s u p =
        let b = (backup_file k path d).1 in
        let (same, added, kept) = backup_file-Kept orig k paths path d s u p in
        let held : Saved orig paths b.root b.saved =
          subst (λ r. Saved orig paths r b.saved) (sym same) kept.holds in
        ⊎_elim
          (λ q. rw q.1 (record {
            added_same = added;
            holds = Saved-unlinked path d b same kept q.0 held u;
            fewer = λ l.
                ⊎_elim
                  (λ (e : get l (unlink k.root (components path) b.root) ≡ get l b.root).
                    inl (e ∙ ap (get l) same))
                  (λ r. inr (r.0)) (unlink-fewer k.root (components path) b.root l);
          }))
          (λ q.
            rw q.1
              (record { added_same = added; holds = held; fewer = λ l. inl (ap (get l) same) }))
          (then_ok-cases (backup_file k path d).0 b (unlink_path k path))
      where
        Saved-unlinked :
            (path : Str) (d b : Disk)
            → b.root ≡ d.root
            → Kept orig paths d.root d.saved (components path) (backup_file k path d).0 b.saved
            → (backup_file k path d).0 ≡ ok
            → Saved orig paths b.root b.saved
            → IsUntouched orig paths d.root (components path)
            → Saved orig paths (unlink k.root (components path) b.root) b.saved
        Saved-unlinked path d b same kept r held u =
            elim (Option-cases (get (components path) b.root)) [
              | inl absent ↦
                  Saved-Changes (λ _. ⊥) paths b.root (unlink k.root (components path) b.root)
                    b.saved held
                    (λ j.
                      ⊎_elim inl
                        (λ g. inl (g.0 ∙ sym (subst (λ i. get i b.root ≡ none) g.1 absent)))
                        (unlink-fewer k.root (components path) b.root j))
                    (λ j. λ h. absurd h)
              | inr (n, e) ↦
                  Saved-Changes (λ j. components path ≡ j) paths b.root
                    (unlink k.root (components path) b.root) b.saved held
                    (unlink-Changes k.root (components path) b.root)
                    (λ j h. inl (
                      subst (λ i. IsBacked orig b.saved i) h
                        (kept.there r n (sym (ap (get (components path)) same) ∙ e))))
            ]

    -- A file of a manifest that may be deleted.
    abbrev pub IsDeletable : Files → ManifestEntry → Type 0
    IsDeletable root e = IsUntouched orig paths root (loc e) × IsPlainAt orig (loc e)

    IsDeletable-fewer :
        (d d' : Disk) (e : ManifestEntry)
        → Cleared paths d d'
        → IsDeletable d.root e
        → IsDeletable d'.root e
    IsDeletable-fewer d d' e c (u, p) =
        (IsUntouched-fewer paths d.root d'.root (loc e) u (c.fewer (loc e)), p)

    Cleared-then :
        (d : Disk) (rc : Rc) (mid : Disk) (f : Disk → Rc × Disk)
        → Cleared paths d mid
        → (Cleared paths d mid → Cleared paths mid (f mid).1)
        → Cleared paths d (then_ok (rc, mid) f).1
    Cleared-then d rc mid f c g =
        ⊎_elim (λ q. rw q.1 (Cleared-trans paths d mid (f mid).1 c (g c))) (λ q. rw q.1 c)
          (then_ok-cases rc mid f)

    clear_entry :
        (skipped : Bool) (path : Str) (d : Disk)
        → Saved orig paths d.root d.saved
        → (skipped ≡ false
            → IsUntouched orig paths d.root (components path) × IsPlainAt orig (components path))
        → Cleared paths d
            (if skipped then (ok, d) else then_ok (backup_file k path d) (unlink_path k path)).1
    clear_entry true path d s h = Cleared-refl paths d s
    clear_entry false path d s h = clear_path path d s ((h refl).0) ((h refl).1)

    pub remove_old-Cleared :
        (m old : List ManifestEntry) (d : Disk)
        → Saved orig paths d.root d.saved
        → ((e : ManifestEntry)
            → IsFileOf old e
            → manifest_has m e.path ≡ false
            → IsDeletable d.root e)
        → Cleared paths d (remove_old k m old d).1
    unfolding remove_old
    remove_old-Cleared m [] d s h = Cleared-refl paths d s
    remove_old-Cleared m (e ∷ old) d s h =
        let skipped = is_dir_entry e || manifest_has m e.path || not (path_is_confined e.path) in
        let step =
          if skipped then (ok, d) else then_ok (backup_file k e.path d) (unlink_path k e.path) in
        Cleared-then d step.0 step.1 (remove_old k m old)
          (clear_entry skipped e.path d s (λ f. h e (Memᴰ.head refl, ground arith) (ground arith)))
          (λ c.
            remove_old-Cleared m old step.1 c.holds
              (λ x i n. IsDeletable-fewer d step.1 x c (h x (Memᴰ.tail i.0, i.1) n)))

    pub remove_files-Cleared :
        (es : List ManifestEntry) (d : Disk)
        → Saved orig paths d.root d.saved
        → ((e : ManifestEntry) → IsFileOf es e → IsDeletable d.root e)
        → Cleared paths d (remove_files k es d).1
    unfolding remove_files
    remove_files-Cleared [] d s h = Cleared-refl paths d s
    remove_files-Cleared (e ∷ es) d s h =
        let skipped = not (path_is_confined e.path) || is_dir_entry e in
        let step =
          if skipped then (ok, d) else then_ok (backup_file k e.path d) (unlink_path k e.path) in
        Cleared-then d step.0 step.1 (remove_files k es)
          (clear_entry skipped e.path d s (λ f. h e (Memᴰ.head refl, ground arith)))
          (λ c.
            remove_files-Cleared es step.1 c.holds
              (λ x i. IsDeletable-fewer d step.1 x c (h x (Memᴰ.tail i.0, i.1))))
