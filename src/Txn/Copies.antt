-- ===== src/Txn/Copies.antt =====
-- What the copies between the root and the backup leave in the store that they write to.
use salt_os.Prelude.{
  ℕ, zero, suc, ◌%◌, ◌≤◌, ◌<◌, ◌≡◌, refl, sym, ap, ◌∙◌, subst, ◌≢◌, ◌⊎◌, inl, inr, ⊎_elim, true,
  none, some, [], ◌∷◌, arith, if◌then◌else◌, Bool-cases, Option-cases, length, mem-cons, Str, Memᴰ,
}
use salt_os.Util.Rc.{Rc, ok, err_io}
use salt_os.Txn.Store.{
  Loc, Node, file, link, special, Files, Answers, Call, get, del, put, loc_eq, loc_eq_iff, get-del,
  get-put, unlink, write_file, symlink, copy_file, copy_link, copy_node, readlink_bytes, link_max,
}

-- A node of which a copy keeps everything: no device, no mode beyond 0777, no link of more than
-- 1023 bytes.
unfoldable pub IsPlain : Node → Type 0
IsPlain (file mode bytes) = mode < 512
IsPlain (link target) = length target ≤ link_max
IsPlain special = ⊥

mod_small : (n : ℕ) → n < 512 → n % 512 ≡ n
mod_small n h = omega arith

readlink_bytes-all : (k : ℕ) (s : Str) → length s ≤ k → readlink_bytes k s ≡ s
unfolding readlink_bytes
readlink_bytes-all zero [] h = refl
readlink_bytes-all zero (c ∷ s) h = absurd (omega arith)
readlink_bytes-all (suc k) [] h = refl
readlink_bytes-all (suc k) (c ∷ s) h = ap (λ r. c ∷ r) (readlink_bytes-all k s (omega arith))

pub mem-del : (k l : Loc) (m : Node) (fs : Files) → Memᴰ (k, m) (del l fs) → Memᴰ (k, m) fs
unfolding del
mem-del k l m [] h = h
mem-del k l m ((j, n) ∷ fs) h = elim (Bool-cases (loc_eq j l)) [
  | inl t ↦
      Memᴰ.tail (
        mem-del k l m fs (subst (λ b. Memᴰ (k, m) (if b then del l fs else (j, n) ∷ del l fs)) t h))
  | inr f ↦
      ⊎_elim Memᴰ.head (λ r. Memᴰ.tail (mem-del k l m fs r))
        ((mem-cons (k, m) (j, n) (del l fs)).0
          (subst (λ b. Memᴰ (k, m) (if b then del l fs else (j, n) ∷ del l fs)) f h))
]

pub mem-del_other :
    (k l : Loc) (m : Node) (fs : Files) → l ≢ k → Memᴰ (k, m) fs → Memᴰ (k, m) (del l fs)
unfolding del
mem-del_other k l m [] ne h = h
mem-del_other k l m ((j, n) ∷ fs) ne h = elim (Bool-cases (loc_eq j l)) [
  | inl t ↦ rw t (
      ⊎_elim
        (λ (e : (k, m) ≡ (j, n)). absurd (ne (sym ((loc_eq_iff j l).0 t) ∙ ap (λ p. p.0) (sym e))))
        (mem-del_other k l m fs ne) ((mem-cons (k, m) (j, n) fs).0 h))
  | inr f ↦ rw f (
      ⊎_elim (λ (e : (k, m) ≡ (j, n)). Memᴰ.head e) (λ r. Memᴰ.tail (mem-del_other k l m fs ne r))
        ((mem-cons (k, m) (j, n) fs).0 h))
]

-- A copy adds at most the node, loses at most what stood in its place, and has the node if it
-- succeeds.
pub record Copied (n : Node) (l : Loc) (dest : Files) (rc : Rc) (dest' : Files) : Type 0 where
  pub from : (k : Loc) (m : Node) → Memᴰ (k, m) dest' → Memᴰ (k, m) dest ⊎ ((k ≡ l) × (m ≡ n))
  pub others : (k : Loc) (m : Node) → l ≢ k → Memᴰ (k, m) dest → Memᴰ (k, m) dest'
  pub there : rc ≡ ok → Memᴰ (l, n) dest'

Copied-same : (n : Node) (l : Loc) (dest : Files) → Copied n l dest err_io dest
Copied-same n l dest = record {
  from = λ k m h. inl h;
  others = λ k m ne h. h;
  there = λ e. absurd (cc);
}

Copied-put : (n : Node) (l : Loc) (dest : Files) (rc : Rc) → Copied n l dest rc (put l n dest)
Copied-put n l dest rc = record {
  from = λ k m h.
      ⊎_elim (λ (e : (k, m) ≡ (l, n)). inr (ap (λ p. p.0) e, ap (λ p. p.1) e))
        (λ r. inl (mem-del k l m dest r)) ((mem-cons (k, m) (l, n) (del l dest)).0 h);
  others = λ k m ne h. Memᴰ.tail (mem-del_other k l m dest ne h);
  there = λ e. Memᴰ.head refl;
}

Copied-del : (n : Node) (l : Loc) (dest : Files) → Copied n l dest err_io (del l dest)
Copied-del n l dest = record {
  from = λ k m h. inl (mem-del k l m dest h);
  others = λ k m ne h. mem-del_other k l m dest ne h;
  there = λ e. absurd (cc);
}

write_file-Copied :
    (to : Answers) (l : Loc) (bytes : Str) (mode : ℕ) (dest : Files)
    → Copied
        (file mode bytes)
        l
        dest
        (write_file to l bytes mode dest).0
        (write_file to l bytes mode dest).1
unfolding write_file
write_file-Copied to l bytes mode dest = elim (Bool-cases (to (Call.write_at l) dest)) [
  | inl t ↦ rw t (Copied-put (file mode bytes) l dest ok)
  | inr f ↦ rw f (Copied-same (file mode bytes) l dest)
]

Copied-after :
    (n : Node) (l : Loc) (dest mid : Files) (rc : Rc) (dest' : Files)
    → Copied n l dest err_io mid
    → Copied n l mid rc dest'
    → Copied n l dest rc dest'
Copied-after n l dest mid rc dest' c d = record {
  from = λ k m h. ⊎_elim (c.from k m) inr (d.from k m h);
  others = λ k m ne h. d.others k m ne (c.others k m ne h);
  there = d.there;
}

unlink-Copied :
    (to : Answers) (n : Node) (l : Loc) (dest : Files) → Copied n l dest err_io (unlink to l dest)
unfolding unlink
unlink-Copied to n l dest = elim (Bool-cases (to (Call.unlink_at l) dest)) [
  | inl t ↦ rw t (Copied-del n l dest)
  | inr f ↦ rw f (Copied-same n l dest)
]

symlink-Copied :
    (to : Answers) (target : Str) (l : Loc) (dest : Files)
    → Copied (link target) l dest (symlink to target l dest).0 (symlink to target l dest).1
unfolding symlink
symlink-Copied to target l dest = elim (Option-cases (get l dest)) [
  | inl none_there ↦
      rw (none_there, symlink)
        (elim (Bool-cases (to (Call.symlink_at l) dest)) [
          | inl t ↦ rw t (Copied-put (link target) l dest ok)
          | inr f ↦ rw f (Copied-same (link target) l dest)
        ])
  | inr (n, e) ↦ rw (e, symlink) (Copied-same (link target) l dest)
]

pub copy_node-Copied :
    (from to : Answers) (n : Node) (l : Loc) (source dest : Files)
    → IsPlain n
    → Copied n l dest (copy_node from to n l source dest).0 (copy_node from to n l source dest).1
unfolding copy_node copy_file copy_link IsPlain
copy_node-Copied from to (file mode bytes) l source dest p =
    elim (Bool-cases (from (Call.read_at l) source)) [
      | inl t ↦ rw t (rw (mod_small mode p) (write_file-Copied to l bytes mode dest))
      | inr f ↦ rw f (Copied-same (file mode bytes) l dest)
    ]
copy_node-Copied from to (link target) l source dest p =
    elim (Bool-cases (from (Call.readlink_at l) source)) [
      | inl t ↦ rw t (
          rw (readlink_bytes-all link_max target p) (
            Copied-after _ _ _ _ _ _ (unlink-Copied to (link target) l dest)
              (symlink-Copied to target l (unlink to l dest))))
      | inr f ↦ rw f (Copied-same (link target) l dest)
    ]
copy_node-Copied from to special l source dest p = absurd p

symlink-puts :
    (to : Answers)
    → ((c : Call) (fs : Files) → to c fs ≡ true)
    → (target : Str) (l : Loc) (dest : Files) (k : Loc) → get l dest ≡ none
    → get k (symlink to target l dest).1 ≡ (if loc_eq l k then some (link target) else get k dest)
unfolding symlink
symlink-puts to t target l dest k absent =
    rw (absent, symlink) (rw (t (Call.symlink_at l) dest) (get-put k l (link target) dest))

-- Where every call completes, a copy of a plain node puts it in its place.
pub copy_node-puts :
    (from to : Answers)
    → ((c : Call) (fs : Files) → from c fs ≡ true)
    → ((c : Call) (fs : Files) → to c fs ≡ true)
    → (n : Node) (l : Loc) (source dest : Files) → IsPlain n
    → (k : Loc)
    → get k (copy_node from to n l source dest).1 ≡ (if loc_eq l k then some n else get k dest)
unfolding copy_node copy_file copy_link write_file unlink symlink IsPlain
copy_node-puts from to f t (file mode bytes) l source dest p k =
    rw (f (Call.read_at l) source, t (Call.write_at l) dest, mod_small mode p)
      (get-put k l (file mode bytes) dest)
copy_node-puts from to f t (link target) l source dest p k =
    let free : get l (del l dest) ≡ none = ground (arith, get-del l l dest, loc_eq_iff l l) in
    rw
      (
        f (Call.readlink_at l) source,
        t (Call.unlink_at l) dest,
        readlink_bytes-all link_max target p,
      )
      (ground (arith, symlink-puts to t target l (del l dest) k free, get-del k l dest))
copy_node-puts from to f t special l source dest p k = absurd p
