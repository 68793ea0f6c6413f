-- ===== src/Txn/Listed.antt =====
-- When a manifest has been prepared, `added.list` has the paths at which nothing stood.
use salt_os.Prelude.{
  ◌≡◌, refl, sym, ap, ◌∙◌, subst, ◌≢◌, ◌⊎◌, inl, inr, ⊎_elim, true, Option, none, some, List, [],
  ◌∷◌, ◌++◌, arith, Bool-cases, mem-cons, mem-append, Str, str_eq_iff, Memᴰ,
}
use mathlib.Core.List.{append-nil}
use mathlib.Core.List.Memᴰ
use salt_os.Util.Rc.{
  Rc, ok, err, err_io, err_format, err_notfound, err_verify, err_exists, err_dep, err_usage,
}
use salt_os.Util.{path_is_confined}
use salt_os.Util.Components.{components}
use salt_os.Db.Rows.{ManifestEntry}
use salt_os.Txn.Store.{Loc, Files, get}
use salt_os.Txn.{Kernel, Disk, text_of, read_list, append_added}
use salt_os.Txn.Archive.{manifest_has, manifest_is_confined, then_append}
use salt_os.Txn.Saved.{unlines, IsLine, IsListed, IsBacked, Saved}
use salt_os.Txn.Prepared.{unlines-append, loc, IsFileOf, Prepared}
use salt_os.Txn.Cleared.{Saved-append, IsSecured}

-- The locations of the files of a manifest.
abbrev pub IsPlaceOf : List ManifestEntry → Loc → Type 0
IsPlaceOf es l = (m : ManifestEntry) × IsFileOf es m × (loc m ≡ l)

manifest_is_confined-mem :
    (es : List ManifestEntry) (e : ManifestEntry)
    → manifest_is_confined es ≡ true
    → Memᴰ e es
    → path_is_confined e.path ≡ true
unfolding manifest_is_confined
manifest_is_confined-mem [] e h m = absurd (Memᴰ.not-nil m)
manifest_is_confined-mem (f ∷ es) e h m =
    ⊎_elim (λ (q : e ≡ f). rw q (ground arith))
      (λ r. manifest_is_confined-mem es e (ground arith) r) ((mem-cons e f es).0 m)

pub manifest_has-mem :
    (es : List ManifestEntry) (e : ManifestEntry) (path : Str)
    → Memᴰ e es
    → e.path ≡ path
    → manifest_has es path ≡ true
unfolding manifest_has
manifest_has-mem [] e path m h = absurd (Memᴰ.not-nil m)
manifest_has-mem (f ∷ es) e path m h =
    ⊎_elim
      (λ (q : e ≡ f).
        ground (arith, (str_eq_iff f.path path).1 (ap (λ (x : ManifestEntry). x.path) (sym q) ∙ h)))
      (λ r. ground (arith, manifest_has-mem es e path r h)) ((mem-cons e f es).0 m)

module _ (orig : Files) where
  -- A disk whose changes are saved, and the paths that its list has.
  pub record Held (paths : List Str) (d : Disk) : Type 0 where
    pub holds : Saved orig paths d.root d.saved
    pub text : text_of d.added ≡ unlines paths

  module _ (k : Kernel) (readable : (text : Str) → k.list_read text ≡ true) where
    text_of-read_list : (a : Option Str) → text_of (read_list k a) ≡ text_of a
    text_of-read_list none = refl
    text_of-read_list (some text) = rw (readable text) refl

    -- The list has the text behind what it had, or the disk is as it was.
    append_added-cases :
        (text : Str) (d : Disk)
        → (((append_added k text d).0 ≡ ok)
            × ((append_added k text d).1.root ≡ d.root)
            × ((append_added k text d).1.saved ≡ d.saved)
            × (text_of (append_added k text d).1.added ≡ text_of d.added ++ text))
          ⊎ (((append_added k text d).0 ≢ ok) × ((append_added k text d).1 ≡ d))
    unfolding append_added
    append_added-cases [] d = inl (refl, refl, refl, sym (append-nil (text_of d.added)))
    append_added-cases (c ∷ s) d = elim (Bool-cases (k.list_write d.added)) [
      | inl t ↦ rw t (inl (refl, refl, refl, ap (λ r. r ++ c ∷ s) (text_of-read_list d.added)))
      | inr f ↦ rw f (inr (λ e. cc, refl))
    ]

    -- The disk when a manifest has been prepared: on success each of its files is secured.
    pub record Listed (paths : List Str) (es : List ManifestEntry) (d : Disk) (rc : Rc) (d' : Disk)
        : Type 0 where
      pub listed : List Str
      pub held : Held listed d'
      pub root_same : d'.root ≡ d.root
      pub elsewhere : (l : Loc) → (¬ IsPlaceOf es l) → (¬ IsListed paths l) → ¬ IsListed listed l
      pub secured : rc ≡ ok → (l : Loc) → IsPlaceOf es l → IsSecured orig listed d'.saved l

    then_append-cases :
        (rc : Rc) (text : Str) (d : Disk)
        → ((rc ≡ ok) × (then_append k (rc, (text, d)) ≡ append_added k text d))
          ⊎ ((rc ≢ ok) × (then_append k (rc, (text, d)) ≡ (rc, d)))
    then_append-cases ok text d = inl (refl, refl)
    then_append-cases err text d = inr (λ e. cc, refl)
    then_append-cases err_io text d = inr (λ e. cc, refl)
    then_append-cases err_format text d = inr (λ e. cc, refl)
    then_append-cases err_notfound text d = inr (λ e. cc, refl)
    then_append-cases err_verify text d = inr (λ e. cc, refl)
    then_append-cases err_exists text d = inr (λ e. cc, refl)
    then_append-cases err_dep text d = inr (λ e. cc, refl)
    then_append-cases err_usage text d = inr (λ e. cc, refl)

    Listed-fails :
        (paths : List Str) (es : List ManifestEntry) (d : Disk) (rc : Rc) (text : Str) (mid : Disk)
        (rc' : Rc)
        → rc' ≢ ok
        → text_of d.added ≡ unlines paths
        → Prepared orig paths es [] d rc text mid
        → Listed paths es d rc' mid
    Listed-fails paths es d rc text mid rc' bad t p = record {
      listed = paths;
      held = record {
        holds = subst (λ r. Saved orig paths r mid.saved) (sym p.root_same) p.holds;
        text = ap text_of p.added_same ∙ t;
      };
      root_same = p.root_same;
      elsewhere = λ l _ n. n;
      secured = λ r. absurd (bad r);
    }

    Listed-appended :
        (paths : List Str) (es : List ManifestEntry) (d : Disk) (text : Str) (mid d' : Disk)
        (rc : Rc)
        → manifest_is_confined es ≡ true
        → ((e : ManifestEntry) → IsFileOf es e → ¬ Memᴰ 10 e.path)
        → text_of d.added ≡ unlines paths
        → Prepared orig paths es [] d ok text mid
        → d'.root ≡ mid.root
        → d'.saved ≡ mid.saved
        → text_of d'.added ≡ text_of mid.added ++ text
        → Listed paths es d rc d'
    Listed-appended paths es d text mid d' rc confined lines t p root saved added =
        let free : (q : Str) → Memᴰ q p.new → (get (components q) d.root ≡ none) × IsLine q = λ q m.
          let (a, (x, f, h)) = p.free q m in
          (
            a,
            (
              subst (λ y. ¬ Memᴰ 10 y) h (lines x f),
              subst (λ y. path_is_confined y ≡ true) h (manifest_is_confined-mem es x confined f.0),
            ),
          ) in
        let s = Saved-append orig paths p.new d.root mid.saved p.holds free in
        record {
          listed = paths ++ p.new;
          held = record {
            holds =
                subst (λ r. Saved orig (paths ++ p.new) r d'.saved) (sym (root ∙ p.root_same))
                  (subst (λ v. Saved orig (paths ++ p.new) d.root v) (sym saved) s);
            text = added ∙ rw (p.added_same, t, p.text_new) (sym (unlines-append paths p.new));
          };
          root_same = root ∙ p.root_same;
          elsewhere = λ l place n h.
              ⊎_elim (λ m. n (h.0, m, h.2))
                (λ m. let (a, (x, f, e)) = p.free h.0 m in place (x, f, ap components e ∙ h.2))
                ((mem-append h.0 paths p.new).0 h.1);
          secured = λ _ l place.
              subst (λ v. IsSecured orig (paths ++ p.new) v l) (sym saved)
                (⊎_elim
                  (λ (i : (get l d.root ≡ get l orig) × (¬ IsListed (paths ++ p.new) l)).
                    ⊎_elim (λ b. inl (subst (λ j. IsBacked orig mid.saved j) place.2 b))
                      (λ m. absurd (
                        i.1
                          (place.0.path, (mem-append place.0.path paths p.new).1 (inr m), place.2)))
                      (p.covers refl place.0 place.1))
                  (λ r. r) (s.status l));
        }

    pub then_append-Listed :
        (paths : List Str) (es : List ManifestEntry) (d : Disk) (rc : Rc) (text : Str) (mid : Disk)
        → manifest_is_confined es ≡ true
        → ((e : ManifestEntry) → IsFileOf es e → ¬ Memᴰ 10 e.path)
        → text_of d.added ≡ unlines paths
        → Prepared orig paths es [] d rc text mid
        → Listed paths es d (then_append k (rc, (text, mid))).0 (then_append k (rc, (text, mid))).1
    then_append-Listed paths es d rc text mid confined lines t p =
        ⊎_elim
          (λ q. rw q.1 (
            ⊎_elim
              (λ a.
                Listed-appended paths es d text mid _ _ confined lines t
                  (subst (λ r. Prepared orig paths es [] d r text mid) q.0 p) a.1 a.2 a.3)
              (λ a. rw a.1 (Listed-fails paths es d rc text mid _ a.0 t p))
              (append_added-cases text mid)))
          (λ q. rw q.1 (Listed-fails paths es d rc text mid rc q.0 t p))
          (then_append-cases rc text mid)
