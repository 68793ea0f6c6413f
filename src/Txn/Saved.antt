-- ===== src/Txn/Saved.antt =====
-- What a transaction has saved of the files that it changes.
use salt_os.Prelude.{
  ◌≡◌, refl, sym, ◌∙◌, ◌≢◌, ◌⊎◌, inl, inr, ⊎_elim, true, false, none, some, List, [], ◌∷◌, ◌++◌,
  arith, Bool-cases, Option-cases, Str, Memᴰ,
}
use salt_os.Util.Rc.{Rc, ok}
use salt_os.Util.{path_is_confined}
use salt_os.Util.Components.{components}
use salt_os.Txn.Store.{Loc, Node, Files, get, loc_eq, loc_eq_iff}
use salt_os.Txn.{Kernel, Disk, backup_file}
use salt_os.Txn.Copies.{IsPlain, Copied, copy_node-Copied}

-- The text that has a line for each path.
unfoldable pub unlines : List Str → Str
unlines [] = []
unlines (p ∷ ps) = p ++ 10 ∷ unlines ps

-- A path that `added.list` can hold.
abbrev pub IsLine : Str → Type 0
IsLine p = (¬ Memᴰ 10 p) × (path_is_confined p ≡ true)

abbrev pub IsListed : List Str → Loc → Type 0
IsListed paths l = (p : Str) × Memᴰ p paths × (components p ≡ l)

module _ (orig : Files) where
  abbrev pub IsBacked : Files → Loc → Type 0
  IsBacked saved l = (n : Node) × Memᴰ (l, n) saved

  -- A location is as it was, or what stood there is in the backup, or nothing stood there and it is
  -- listed.
  abbrev pub Status : List Str → Files → Files → Loc → Type 0
  Status paths root saved l =
      ((get l root ≡ get l orig) × (¬ IsListed paths l))
      ⊎ IsBacked saved l
      ⊎ ((get l orig ≡ none) × IsListed paths l)

  -- `root` can be turned back by `saved` and a list of `paths`.
  pub record Saved (paths : List Str) (root saved : Files) : Type 0 where
    pub lines : (p : Str) → Memᴰ p paths → IsLine p
    pub backed : (l : Loc) (n : Node) → Memᴰ (l, n) saved → (get l orig ≡ some n) × IsPlain n
    pub status : (l : Loc) → Status paths root saved l

  -- A location that nothing was installed at.
  abbrev pub IsUntouched : List Str → Files → Loc → Type 0
  IsUntouched paths root l =
      (¬ IsListed paths l) × ((get l root ≡ get l orig) ⊎ (get l root ≡ none))

  abbrev pub IsPlainAt : Loc → Type 0
  IsPlainAt l = (n : Node) → get l orig ≡ some n → IsPlain n

  -- What a backup of a location leaves.
  pub record Kept (paths : List Str) (root saved : Files) (l : Loc) (rc : Rc) (saved' : Files)
      : Type 0 where
    pub holds : Saved paths root saved'
    pub keeps : rc ≡ ok → (j : Loc) → IsBacked saved j → IsBacked saved' j
    pub there : rc ≡ ok → (n : Node) → get l root ≡ some n → IsBacked saved' l

  as_before :
      (paths : List Str) (root : Files) (l : Loc) (n : Node)
      → IsUntouched paths root l
      → get l root ≡ some n
      → get l orig ≡ some n
  as_before paths root l n (_, inl same) e = sym same ∙ e
  as_before paths root l n (_, inr gone) e = absurd (cc)

  Copied-Kept :
      (paths : List Str) (root saved : Files) (l : Loc) (n : Node) (rc : Rc) (saved' : Files)
      → Saved paths root saved
      → IsUntouched paths root l
      → IsPlainAt l
      → get l root ≡ some n
      → Copied n l saved rc saved'
      → Kept paths root saved l rc saved'
  Copied-Kept paths root saved l n rc saved' s u p e c =
      let e' : get l orig ≡ some n = as_before paths root l n u e in
      record {
        holds = record {
          lines = s.lines;
          backed = λ j m h.
              ⊎_elim (s.backed j m) (λ (q : (j ≡ l) × (m ≡ n)). rw (q.0, q.1) (e', p n e'))
                (c.from j m h);
          status = λ j. elim (Bool-cases (loc_eq l j)) [
            | inl t ↦
                inl (rw (← (loc_eq_iff l j).0 t) (e ∙ sym e'), rw (← (loc_eq_iff l j).0 t) (u.0))
            | inr f ↦
                ⊎_elim inl
                  (λ r. inr (
                    ⊎_elim (λ (b : IsBacked saved j). inl (b.0, c.others j b.0 (other f) b.1)) inr
                      r))
                  (s.status j)
          ];
        };
        keeps = λ r j b. elim (Bool-cases (loc_eq l j)) [
          | inl t ↦ (n, rw (← (loc_eq_iff l j).0 t) (c.there r))
          | inr f ↦ (b.0, c.others j b.0 (other f) b.1)
        ];
        there = λ r m h. (n, c.there r);
      }
    where
      other : {j : Loc} → loc_eq l j ≡ false → l ≢ j
      other {j} f h = ground (arith, loc_eq_iff l j)

  module _ (k : Kernel) where
    pub backup_file-Kept :
        (paths : List Str) (path : Str) (d : Disk)
        → Saved paths d.root d.saved
        → IsUntouched paths d.root (components path)
        → IsPlainAt (components path)
        → ((backup_file k path d).1.root ≡ d.root)
          × ((backup_file k path d).1.added ≡ d.added)
          × Kept paths d.root d.saved
              (components path)
              (backup_file k path d).0
              (backup_file k path d).1.saved
    unfolding backup_file
    backup_file-Kept paths path d s u p = elim (Option-cases (get (components path) d.root)) [
      | inl e ↦
          rw (e, backup_file)
            (refl, refl, record { holds = s; keeps = λ r j b. b; there = λ r n h. absurd (cc) })
      | inr (n, e) ↦
          rw (e, backup_file)
            (
              refl,
              refl,
              Copied-Kept paths d.root d.saved (components path) n _ _ s u p e (
                  copy_node-Copied k.root k.backup n (components path) d.root d.saved
                    (p n (as_before paths d.root (components path) n u e))),
            )
    ]
