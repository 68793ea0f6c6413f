-- ===== src/Txn/Prepared.antt =====
-- Before a payload is extracted, everything that it replaces is saved or listed.
use salt_os.Prelude.{
  ◌≡◌, refl, sym, ap, ◌∙◌, subst, ◌≢◌, ◌⊎◌, inl, inr, ⊎_elim, false, none, List, [], ◌∷◌, ◌++◌,
  arith, Bool-cases, Option-cases, mem-cons, mem-append, Str, Memᴰ,
}
use mathlib.Core.List.{append_assoc, append-nil}
use mathlib.Core.List.Memᴰ
use salt_os.Util.Rc.{Rc, ok, err_exists, then_ok-cases}
use salt_os.Util.Components.{components}
use salt_os.Db.{Db}
use salt_os.Db.Ops.{owner}
use salt_os.Db.Rows.{ManifestEntry}
use salt_os.Txn.Store.{Loc, Files, get}
use salt_os.Txn.{Kernel, Disk}
use salt_os.Txn.Archive.{is_dir_entry, is_foreign, prepare_entry, prepare}
use salt_os.Txn.Saved.{unlines, IsBacked, Saved, IsUntouched, IsPlainAt, backup_file-Kept}

abbrev pub loc : ManifestEntry → Loc
loc e = components e.path

-- The files and links of a manifest, which are not its directories.
abbrev pub IsFileOf : List ManifestEntry → ManifestEntry → Type 0
IsFileOf es e = Memᴰ e es × (is_dir_entry e ≡ false)

pub unlines-append : (ps qs : List Str) → unlines (ps ++ qs) ≡ unlines ps ++ unlines qs
unfolding unlines
unlines-append [] qs = refl
unlines-append (p ∷ ps) qs = simp (unlines-append ps qs, append_assoc)

append-unlines_nil : (text : Str) → text ≡ text ++ unlines []
unfolding unlines
append-unlines_nil text = sym (append-nil text)

unlines-one : (p : Str) → unlines (p ∷ []) ≡ p ++ 10 ∷ []
unfolding unlines
unlines-one p = refl

module _ (orig : Files) (paths : List Str) where
  -- What the loop over a manifest leaves: `new` are the paths that it adds to its text.
  pub record Prepared (es : List ManifestEntry) (text : Str) (d : Disk) (rc : Rc) (text' : Str)
      (d' : Disk) : Type 0 where
    pub root_same : d'.root ≡ d.root
    pub added_same : d'.added ≡ d.added
    pub holds : Saved orig paths d.root d'.saved
    pub keeps : rc ≡ ok → (j : Loc) → IsBacked orig d.saved j → IsBacked orig d'.saved j
    pub new : List Str
    pub text_new : text' ≡ text ++ unlines new
    pub free :
        (p : Str)
        → Memᴰ p new
        → (get (components p) d.root ≡ none) × ((m : ManifestEntry) × IsFileOf es m × (m.path ≡ p))
    pub covers :
        rc ≡ ok
        → (e : ManifestEntry) → IsFileOf es e
        → IsBacked orig d'.saved (loc e) ⊎ Memᴰ e.path new

  -- The files of a manifest can be backed up: nothing was installed there, and no directory stands
  -- there.
  abbrev pub IsReady : Kernel → List ManifestEntry → Files → Type 0
  IsReady k es root =
      (e : ManifestEntry)
      → IsFileOf es e
      → IsUntouched orig paths root (loc e)
        × IsPlainAt orig (loc e)
        × (k.is_dir (loc e) root ≡ false)

  Prepared-nothing :
      (es : List ManifestEntry) (text : Str) (d : Disk) (rc : Rc)
      → Saved orig paths d.root d.saved
      → (rc ≡ ok → (e : ManifestEntry) → IsFileOf es e → ⊥)
      → Prepared es text d rc text d
  Prepared-nothing es text d rc s none_left = record {
    root_same = refl;
    added_same = refl;
    holds = s;
    keeps = λ r j b. b;
    new = [];
    text_new = append-unlines_nil text;
    free = λ p m. absurd (Memᴰ.not-nil m);
    covers = λ r e f. absurd (none_left r e f);
  }

  only : (e e' : ManifestEntry) → IsFileOf (e ∷ []) e' → e' ≡ e
  only e e' f = Memᴰ.eq_of_singleton f.0

  module _ (k : Kernel) (name : Str) (db : Db) where
    prepare_entry-Prepared :
        (e : ManifestEntry) (text : Str) (d : Disk)
        → Saved orig paths d.root d.saved
        → IsReady k (e ∷ []) d.root
        → Prepared
            (e ∷ [])
            text
            d
            (prepare_entry k name db e text d).0
            (prepare_entry k name db e text d).1.0
            (prepare_entry k name db e text d).1.1
    unfolding prepare_entry
    prepare_entry-Prepared e text d s ready = elim (Bool-cases (is_dir_entry e)) [
      | inl t ↦ rw t (
          Prepared-nothing (e ∷ []) text d ok s
            (λ r e' f. ground (arith, ap is_dir_entry (only e e' f), f.1, t)))
      | inr nd ↦ rw nd (elim (Bool-cases (is_foreign name (owner db e.path))) [
        | inl t ↦ rw t (Prepared-nothing (e ∷ []) text d err_exists s (λ r. absurd (cc)))
        | inr nf ↦ rw nf (
            let (u, p, free) = ready e (Memᴰ.head refl, nd) in
            elim (Option-cases (get (loc e) d.root)) [
              | inl absent ↦
                  rw (absent, free)
                    (record {
                      root_same = refl;
                      added_same = refl;
                      holds = s;
                      keeps = λ r j b. b;
                      new = e.path ∷ [];
                      text_new = ap (λ r. text ++ r) (sym (unlines-one e.path));
                      free = λ q m.
                          rw (Memᴰ.eq_of_singleton m) (absent, (e, (Memᴰ.head refl, nd), refl));
                      covers = λ r e' f.
                          inr (Memᴰ.head (ap (λ (x : ManifestEntry). x.path) (only e e' f)));
                    })
              | inr (n, there) ↦ rw there (
                  let (same, added, kept) = backup_file-Kept orig k paths e.path d s u p in
                  record {
                    root_same = same;
                    added_same = added;
                    holds = kept.holds;
                    keeps = kept.keeps;
                    new = [];
                    text_new = append-unlines_nil text;
                    free = λ q m. absurd (Memᴰ.not-nil m);
                    covers = λ r e' f. inl (rw (only e e' f) (kept.there r n there));
                  })
            ])
      ])
    ]

    IsReady-tail :
        (e : ManifestEntry) (es : List ManifestEntry) (root : Files)
        → IsReady k (e ∷ es) root
        → IsReady k es root
    IsReady-tail e es root ready f i = ready f (Memᴰ.tail i.0, i.1)

    IsReady-head :
        (e : ManifestEntry) (es : List ManifestEntry) (root : Files)
        → IsReady k (e ∷ es) root
        → IsReady k (e ∷ []) root
    IsReady-head e es root ready f i = ready f (Memᴰ.head (only e f i), i.1)

    Prepared-fails :
        (e : ManifestEntry) (es : List ManifestEntry) (text : Str) (d : Disk) (rc : Rc)
        (text' : Str) (d' : Disk)
        → rc ≢ ok
        → Prepared (e ∷ []) text d rc text' d'
        → Prepared (e ∷ es) text d rc text' d'
    Prepared-fails e es text d rc text' d' bad p = record {
      root_same = p.root_same;
      added_same = p.added_same;
      holds = p.holds;
      keeps = λ r. absurd (bad r);
      new = p.new;
      text_new = p.text_new;
      free = λ q m. let (a, (x, i, h)) = p.free q m in (a, (x, (Memᴰ.head (only e x i), i.1), h));
      covers = λ r. absurd (bad r);
    }

    Prepared-then :
        (e : ManifestEntry) (es : List ManifestEntry) (text : Str) (d : Disk) (text1 : Str)
        (d1 : Disk) (rc : Rc) (text' : Str) (d' : Disk)
        → Prepared (e ∷ []) text d ok text1 d1
        → Prepared es text1 d1 rc text' d'
        → Prepared (e ∷ es) text d rc text' d'
    Prepared-then e es text d text1 d1 rc text' d' p q = record {
      root_same = q.root_same ∙ p.root_same;
      added_same = q.added_same ∙ p.added_same;
      holds = subst (λ r. Saved orig paths r d'.saved) p.root_same q.holds;
      keeps = λ r j b. q.keeps r j (p.keeps refl j b);
      new = p.new ++ q.new;
      text_new = q.text_new ∙ simp (p.text_new, unlines-append, append_assoc);
      free = λ x m.
          ⊎_elim
            (λ i. let (a, (y, f, h)) = p.free x i in (a, (y, (Memᴰ.head (only e y f), f.1), h)))
            (λ i.
              let (a, (y, f, h)) = q.free x i in
              (sym (ap (get (components x)) p.root_same) ∙ a, (y, (Memᴰ.tail f.0, f.1), h)))
            ((mem-append x p.new q.new).0 m);
      covers = λ r x f.
          ⊎_elim
            (λ (h : x ≡ e).
              ⊎_elim (λ b. inl (q.keeps r (loc x) b))
                (λ i. inr ((mem-append x.path p.new q.new).1 (inl i)))
                (p.covers refl x (Memᴰ.head h, f.1)))
            (λ h.
              ⊎_elim inl (λ i. inr ((mem-append x.path p.new q.new).1 (inr i)))
                (q.covers r x (h, f.1)))
            ((mem-cons x e es).0 f.0);
    }

    -- The loop over a manifest: each of its files is in the backup afterwards, or among the paths
    -- that are to be listed.
    pub prepare-Prepared :
        (es : List ManifestEntry) (text : Str) (d : Disk)
        → Saved orig paths d.root d.saved
        → IsReady k es d.root
        → Prepared es text d
            (prepare k name db es text d).0
            (prepare k name db es text d).1.0
            (prepare k name db es text d).1.1
    unfolding prepare
    prepare-Prepared [] text d s ready = Prepared-nothing [] text d ok s (λ r e f. Memᴰ.not-nil f.0)
    prepare-Prepared (e ∷ es) text d s ready =
        let first = prepare_entry-Prepared e text d s (IsReady-head e es d.root ready) in
        let text1 = (prepare_entry k name db e text d).1.0 in
        let d1 = (prepare_entry k name db e text d).1.1 in
        ⊎_elim
          (λ q. rw q.1 (
            Prepared-then e es text d text1 d1 _ _ _
              (subst (λ r. Prepared (e ∷ []) text d r text1 d1) q.0 first)
              (prepare-Prepared es text1 d1
                (subst (λ r. Saved orig paths r d1.saved) (sym first.root_same) first.holds)
                (subst (λ r. IsReady k es r) (sym first.root_same)
                  (IsReady-tail e es d.root ready)))))
          (λ q. rw q.1 (Prepared-fails e es text d _ text1 d1 q.0 first))
          (then_ok-cases (prepare_entry k name db e text d).0 (text1, d1)
            (λ p. prepare k name db es p.0 p.1))
