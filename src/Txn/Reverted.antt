-- ===== src/Txn/Reverted.antt =====
-- A transaction that has saved what it changes can be reverted.
use salt_os.Prelude.{
  ◌≡◌, refl, sym, ap, ◌∙◌, inl, inr, ⊎_elim, true, false, Option, none, some, List, [], ◌∷◌, ◌++◌,
  arith, ◌==◌, ==_iff, if◌then◌else◌, Bool-cases, mem-cons, Str, Memᴰ,
}
use mathlib.Core.List.Memᴰ
use salt_os.Util.Components.{components}
use salt_os.Txn.Store.{Loc, Node, Files, Call, get, loc_eq, loc_eq_iff, get-del, unlink}
use salt_os.Txn.{
  Kernel, Disk, lines_of, text_of, read_list, unlink_lines, restore_tree, revert_files,
}
use salt_os.Txn.Copies.{IsPlain, copy_node-puts}
use salt_os.Txn.Saved.{unlines, IsLine, IsListed, IsBacked, Saved}

-- The list is read as it was written.
lines_of-line : (p rest : Str) → (¬ Memᴰ 10 p) → lines_of (p ++ 10 ∷ rest) ≡ p ∷ lines_of rest
unfolding lines_of
lines_of-line [] rest clean = refl
lines_of-line (c ∷ p) rest clean = elim (Bool-cases (c == 10)) [
  | inl t ↦ absurd (clean (Memᴰ.head (sym ((==_iff c 10).0 t))))
  | inr f ↦ rw f (rw (lines_of-line p rest (λ m. clean (Memᴰ.tail m))) refl)
]

lines_of-unlines : (ps : List Str) → ((p : Str) → Memᴰ p ps → IsLine p) → lines_of (unlines ps) ≡ ps
unfolding unlines lines_of
lines_of-unlines [] h = refl
lines_of-unlines (p ∷ ps) h =
    lines_of-line p (unlines ps) ((h p (Memᴰ.head refl)).0)
    ∙ ap (λ r. p ∷ r) (lines_of-unlines ps (λ q m. h q (Memᴰ.tail m)))

-- All calls of the reversal complete.
pub record Completes (k : Kernel) : Type 0 where
  pub root : (c : Call) (fs : Files) → k.root c fs ≡ true
  pub backup : (c : Call) (fs : Files) → k.backup c fs ≡ true
  pub list_read : (text : Str) → k.list_read text ≡ true

module _ (k : Kernel) (all : Completes k) where
  pub read_list-all : (a : Option Str) → text_of (read_list k a) ≡ text_of a
  read_list-all none = refl
  read_list-all (some text) = rw (all.list_read text) refl

  get-unlink :
      (j l : Loc) (fs : Files)
      → get j (unlink k.root l fs) ≡ (if loc_eq l j then none else get j fs)
  unfolding unlink
  get-unlink j l fs = rw (all.root (Call.unlink_at l) fs) (get-del j l fs)

  -- What is listed goes, and nothing else.
  unlink_lines-gone :
      (ps : List Str) (fs : Files) (j : Loc) → get j fs ≡ none → get j (unlink_lines k ps fs) ≡ none
  unfolding unlink_lines
  unlink_lines-gone [] fs j h = h
  unlink_lines-gone (p ∷ ps) fs j h =
      unlink_lines-gone ps _ j (ground (arith, get-unlink j (components p) fs, h))

  unlink_lines-listed :
      (ps : List Str) (fs : Files) (j : Loc)
      → ((p : Str) → Memᴰ p ps → IsLine p)
      → IsListed ps j
      → get j (unlink_lines k ps fs) ≡ none
  unfolding unlink_lines
  unlink_lines-listed [] fs j lines (p, m, e) = absurd (Memᴰ.not-nil m)
  unlink_lines-listed (q ∷ ps) fs j lines (p, m, e) =
      ⊎_elim
        (λ (same : p ≡ q).
          let at : loc_eq (components q) j ≡ true =
            (loc_eq_iff (components q) j).1 (ap components (sym same) ∙ e) in
          unlink_lines-gone ps _ j
            (rw ((lines q (Memᴰ.head refl)).1) (rw (get-unlink j (components q) fs, at) refl)))
        (λ (r : Memᴰ p ps). unlink_lines-listed ps _ j (λ x i. lines x (Memᴰ.tail i)) (p, r, e))
        ((mem-cons p q ps).0 m)

  unlink_lines-other :
      (ps : List Str) (fs : Files) (j : Loc)
      → (¬ IsListed ps j)
      → get j (unlink_lines k ps fs) ≡ get j fs
  unfolding unlink_lines
  unlink_lines-other [] fs j h = refl
  unlink_lines-other (p ∷ ps) fs j h =
      let differ : loc_eq (components p) j ≡ false =
        ⊎_elim
          (λ (t : loc_eq (components p) j ≡ true).
            absurd (h (p, Memᴰ.head refl, (loc_eq_iff (components p) j).0 t)))
          (λ f. f) (Bool-cases (loc_eq (components p) j)) in
      unlink_lines-other ps _ j (λ (q, m, e). h (q, Memᴰ.tail m, e))
      ∙ ground (arith, get-unlink j (components p) fs, differ)

  module _ (orig : Files) where
    abbrev IsOriginal : Files → Type 0
    IsOriginal left = (l : Loc) (n : Node) → Memᴰ (l, n) left → (get l orig ≡ some n) × IsPlain n

    restore_tree-keeps :
        (left saved fs : Files)
        → IsOriginal left
        → (j : Loc) → get j fs ≡ get j orig
        → get j (restore_tree k left saved fs) ≡ get j orig
    unfolding restore_tree
    restore_tree-keeps [] saved fs o j h = h
    restore_tree-keeps ((l, n) ∷ left) saved fs o j h =
        let (e, p) = o l n (Memᴰ.head refl) in
        restore_tree-keeps left saved _ (λ i m r. o i m (Memᴰ.tail r)) j
          (copy_node-puts k.backup k.root all.backup all.root n l saved fs p j
            ∙ elim (Bool-cases (loc_eq l j)) [
              | inl t ↦ rw t (sym e ∙ ap (λ i. get i orig) ((loc_eq_iff l j).0 t))
              | inr f ↦ rw f h
            ])

    restore_tree-restores :
        (left saved fs : Files)
        → IsOriginal left
        → (j : Loc) → IsBacked orig left j
        → get j (restore_tree k left saved fs) ≡ get j orig
    unfolding restore_tree
    restore_tree-restores [] saved fs o j (m, b) = absurd (Memᴰ.not-nil b)
    restore_tree-restores ((l, n) ∷ left) saved fs o j (m, b) =
        let o' : IsOriginal left = λ i x r. o i x (Memᴰ.tail r) in
        let (e, p) = o l n (Memᴰ.head refl) in
        ⊎_elim
          (λ (same : (j, m) ≡ (l, n)).
            let at : loc_eq l j ≡ true = (loc_eq_iff l j).1 (ap (λ x. x.0) (sym same)) in
            restore_tree-keeps left saved _ o' j (
              copy_node-puts k.backup k.root all.backup all.root n l saved fs p j
              ∙ rw at (sym e ∙ ap (λ i. get i orig) ((loc_eq_iff l j).0 at))))
          (λ r. restore_tree-restores left saved _ o' j (m, r)) ((mem-cons (j, m) (l, n) left).0 b)

    -- If what a transaction changes is saved, and the calls of the reversal complete, then
    -- afterwards each location of the root has what it had before.
    pub revert_files-restores :
        (paths : List Str) (d : Disk)
        → Saved orig paths d.root d.saved
        → text_of d.added ≡ unlines paths
        → (l : Loc) → get l (revert_files k d).root ≡ get l orig
    unfolding revert_files
    revert_files-restores paths d s text l =
        let read : lines_of (text_of (read_list k d.added)) ≡ paths =
          ap lines_of (read_list-all d.added ∙ text) ∙ lines_of-unlines paths s.lines in
        rw read (
          ⊎_elim
            (λ (i : (get l d.root ≡ get l orig) × (¬ IsListed paths l)).
              restore_tree-keeps d.saved d.saved _ s.backed l
                (unlink_lines-other paths d.root l i.1 ∙ i.0))
            (⊎_elim
              (λ (b : IsBacked orig d.saved l).
                restore_tree-restores d.saved d.saved _ s.backed l b)
              (λ (n : (get l orig ≡ none) × IsListed paths l).
                restore_tree-keeps d.saved d.saved _ s.backed l
                  (unlink_lines-listed paths d.root l s.lines n.1 ∙ sym n.0)))
            (s.status l))
