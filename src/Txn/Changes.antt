-- ===== src/Txn/Changes.antt =====
-- Which locations of the root the extraction of a payload and `unlink` can change.
use salt_os.Prelude.{
  ℕ, ◌≡◌, refl, ap, ◌∙◌, ◌⊎◌, inl, inr, ⊎_elim, Bool, true, ◌||◌, List, [], ◌∷◌, arith, ◌==◌,
  Bool-cases, Option-cases, Str, Memᴰ,
}
use salt_os.Util.Rc.{Rc, ok, then_ok-cases}
use salt_os.Util.{path_is_confined}
use salt_os.Util.Components.{components}
use salt_os.Txn.Store.{
  Loc, Node, file, link, Files, Answers, Call, get, del, put, loc_eq_iff, get-del, get-put, unlink,
  write_file, symlink,
}
use salt_os.Txn.{Kernel}
use salt_os.Txn.Extract.{
  TarEntry, strip_dot_slash, confine_parent, extract_dir, extract_link, extract_node, extract_entry,
  extract, or_mode,
}

-- Outside `P` the second store has what the first has.
abbrev pub Changes : (Loc → Type 0) → Files → Files → Type 0
Changes P fs fs' = (k : Loc) → (get k fs' ≡ get k fs) ⊎ P k

pub Changes-trans :
    (P Q : Loc → Type 0) (fs mid fs' : Files)
    → Changes P fs mid
    → ((k : Loc) → Q k → P k)
    → Changes Q mid fs'
    → Changes P fs fs'
Changes-trans P Q fs mid fs' c sub d k =
    ⊎_elim
      (λ (e : get k fs' ≡ get k mid). ⊎_elim (λ (h : get k mid ≡ get k fs). inl (e ∙ h)) inr (c k))
      (λ q. inr (sub k q)) (d k)

Changes-put : (l : Loc) (n : Node) (fs : Files) → Changes (λ k. l ≡ k) fs (put l n fs)
Changes-put l n fs k = ground (arith, get-put k l n fs, loc_eq_iff l k)

Changes-del : (l : Loc) (fs : Files) → Changes (λ k. l ≡ k) fs (del l fs)
Changes-del l fs k = ground (arith, get-del k l fs, loc_eq_iff l k)

Changes-refl : (P : Loc → Type 0) (fs : Files) → Changes P fs fs
Changes-refl P fs k = inl refl

module _ (to : Answers) where
  pub unlink-Changes : (l : Loc) (fs : Files) → Changes (λ k. l ≡ k) fs (unlink to l fs)
  unfolding unlink
  unlink-Changes l fs = elim (Bool-cases (to (Call.unlink_at l) fs)) [
    | inl t ↦ rw t (Changes-del l fs)
    | inr f ↦ rw f (Changes-refl _ fs)
  ]

  write_file-Changes :
      (l : Loc) (bytes : Str) (mode : ℕ) (fs : Files)
      → Changes (λ k. l ≡ k) fs (write_file to l bytes mode fs).1
  unfolding write_file
  write_file-Changes l bytes mode fs = elim (Bool-cases (to (Call.write_at l) fs)) [
    | inl t ↦ rw t (Changes-put l (file mode bytes) fs)
    | inr f ↦ rw f (Changes-refl _ fs)
  ]

  symlink-Changes :
      (target : Str) (l : Loc) (fs : Files) → Changes (λ k. l ≡ k) fs (symlink to target l fs).1
  unfolding symlink
  symlink-Changes target l fs = elim (Option-cases (get l fs)) [
    | inr (n, e) ↦ rw (e, symlink) (Changes-refl _ fs)
    | inl e ↦
        rw (e, symlink)
          (elim (Bool-cases (to (Call.symlink_at l) fs)) [
            | inl t ↦ rw t (Changes-put l (link target) fs)
            | inr f ↦ rw f (Changes-refl _ fs)
          ])
  ]

-- An entry that is a file or a symbolic link.
abbrev pub writes : TarEntry → Bool
writes e = e.typeflag == b'2' || e.typeflag == b'0' || e.typeflag == 0

-- The location that an entry is extracted to.
abbrev pub place : TarEntry → Loc
place e = components (strip_dot_slash e.path)

-- The locations that the entries of a payload write to.
abbrev pub Written : List TarEntry → Loc → Type 0
Written es j = (e : TarEntry) × Memᴰ e es × (writes e ≡ true) × (place e ≡ j)

module _ (k : Kernel) where
  extract_dir-same : (l : Loc) (fs : Files) → (extract_dir k l fs).1 ≡ fs
  unfolding extract_dir
  extract_dir-same l fs = ground arith

  extract_node-Changes :
      (e : TarEntry) (l : Loc) (fs : Files)
      → Changes (λ j. (writes e ≡ true) × (l ≡ j)) fs (extract_node k e l fs).1
  unfolding extract_node extract_link
  extract_node-Changes e l fs j = elim (Bool-cases (e.typeflag == b'5')) [
    | inl d ↦ rw d (inl (ap (get j) (extract_dir-same l fs)))
    | inr nd ↦ rw nd (elim (Bool-cases (e.typeflag == b'2')) [
      | inl s ↦ rw s (
          ⊎_elim inl (λ r. inr (refl, r))
            (Changes-trans (λ k. l ≡ k) (λ k. l ≡ k) fs (unlink k.root l fs) _
              (unlink-Changes k.root l fs) (λ i h. h)
              (symlink-Changes k.root e.linkname l (unlink k.root l fs)) j))
      | inr ns ↦ rw ns (elim (Bool-cases (e.typeflag == b'0' || e.typeflag == 0)) [
        | inl w ↦ rw w (
            ⊎_elim inl (λ r. inr (refl, r))
              (write_file-Changes k.root l e.bytes (or_mode e.mode 420) fs j))
        | inr nw ↦ rw nw (inl refl)
      ])
    ])
  ]

  extract_entry-Changes :
      (e : TarEntry) (fs : Files)
      → Changes (λ j. (writes e ≡ true) × (place e ≡ j)) fs (extract_entry k e fs).1
  unfolding extract_entry
  extract_entry-Changes e fs = elim (Bool-cases (path_is_confined (strip_dot_slash e.path))) [
    | inl c ↦ rw c (go (confine_parent k (place e) fs))
    | inr n ↦ rw n (λ j. inl (ground arith))
  ]
    where
      go :
          (rc : Rc)
          → Changes
              (λ j. (writes e ≡ true) × (place e ≡ j))
              fs
              (let r : Rc × Files = elim rc [
                | ok ↦ extract_node k e (place e) fs
                | other ↦ (other, fs)
              ] in
                r).1
      go ok = extract_node-Changes e (place e) fs
      go _ = Changes-refl _ fs

  pub extract-Changes :
      (es : List TarEntry) (ends : Rc) (fs : Files)
      → Changes (Written es) fs (extract k es ends fs).1
  unfolding extract
  extract-Changes [] ends fs = Changes-refl _ fs
  extract-Changes (e ∷ es) ends fs =
      let first : Changes (Written (e ∷ es)) fs (extract_entry k e fs).1 =
        λ j. ⊎_elim inl (λ h. inr (e, Memᴰ.head refl, h.0, h.1)) (extract_entry-Changes e fs j) in
      ⊎_elim
        (λ q. rw q.1 (
          Changes-trans (Written (e ∷ es)) (Written es) fs (extract_entry k e fs).1 _ first
            (λ j h. (h.0, Memᴰ.tail h.1, h.2, h.3))
            (extract-Changes es ends (extract_entry k e fs).1)))
        (λ q. rw q.1 first)
        (then_ok-cases (extract_entry k e fs).0 (extract_entry k e fs).1 (extract k es ends))
