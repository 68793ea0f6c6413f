-- ===== src/Util/Confined.antt =====
-- What `salt_path_is_confined` accepts, and that an accepted path stays below its root.
use salt_os.Prelude.{
  ℕ, zero, suc, ◌<◌, ◌≡◌, refl, ap, ◌∙◌, ◌≢◌, ◌↔◌, ◌⊎◌, inl, inr, Bool, true, false, not, ◌&&◌,
  ◌||◌, Option, none, some, List, [], ◌∷◌, arith, ◌==◌, ==_iff, if◌then◌else◌, Bool-cases, length,
  any, mem-cons, not-mem-nil, Str, codes, str_eq, str_eq_iff, Memᴰ,
}
use salt_os.Util.{is_real, is_dot_dot, until_slash, after_slash, confined_loop, path_is_confined}
use salt_os.Util.Components.{split_slash, split_slash-step, length-after_slash}

abbrev pub confined_parts : List Str → Bool
confined_parts parts = not (any is_dot_dot parts) && any is_real parts

parts-nil : (any is_dot_dot (split_slash []) ≡ false) × (any is_real (split_slash []) ≡ false)
unfolding split_slash str_eq
parts-nil = (refl, refl)

-- With more fuel than bytes the loop returns what the components say.
pub confined_loop-parts :
    (f : ℕ) (seen : Bool) (p : Str)
    → length p < f
    → confined_loop f seen p
      ≡ some (not (any is_dot_dot (split_slash p)) && (seen || any is_real (split_slash p)))
unfolding confined_loop
confined_loop-parts zero seen p h = absurd (omega arith)
confined_loop-parts (suc f) seen [] h = ground (arith, parts-nil)
confined_loop-parts (suc f) seen (c ∷ s) h =
    let comp = until_slash (c ∷ s) in
    let rest = after_slash (c ∷ s) in
    let step = confined_loop-parts f (is_real comp || seen) rest in
    elim (split_slash-step c s) [
      | inl e ↦ rw e (ground (arith, length-after_slash c s, step))
      | inr (e, z) ↦ rw e (ground (arith, length-after_slash c s, step, z, parts-nil))
    ]

-- The two tests of a path that is not empty.
pub path_is_confined-parts :
    (c : ℕ) (s : Str)
    → path_is_confined (c ∷ s) ≡ (not (c == b'/') && confined_parts (split_slash (c ∷ s)))
unfolding path_is_confined
path_is_confined-parts c s =
    ground (arith, confined_loop-parts (suc (length (c ∷ s))) false (c ∷ s))

head_eq : (a b : ℕ) (s t : Str) → a ∷ s ≡ b ∷ t → a ≡ b
head_eq a b s t e = cc

none_dot_dot :
    (ps : List Str)
    → (any is_dot_dot ps ≡ false) ↔ ((part : Str) → Memᴰ part ps → part ≢ codes "..")
none_dot_dot [] = (λ h part m. absurd (not-mem-nil part m), λ h. refl)
none_dot_dot (p ∷ ps) = (
  λ h part m e. elim ((mem-cons part p ps).0 m) [
    | inl k ↦ absurd (ground (arith, str_eq_iff p (codes ".."), k, e))
    | inr k ↦ (none_dot_dot ps).0 (ground arith) part k e
  ],
  λ h.
      let rest = (none_dot_dot ps).1 (λ part m. h part (Memᴰ.tail m)) in
      let here = h p (Memᴰ.head refl) in ground (arith, str_eq_iff p (codes ".."), rest, here),
)

some_real :
    (ps : List Str)
    → (any is_real ps ≡ true) ↔ ((part : Str) × Memᴰ part ps × (part ≢ []) × (part ≢ codes "."))
some_real [] = (λ h. cc, λ (part, m, e, d). absurd (not-mem-nil part m))
some_real (p ∷ ps) = (
  λ h. elim (Bool-cases (is_real p)) [
    | inl r ↦ (
      p,
      Memᴰ.head refl,
      λ e. ground (arith, str_eq_iff p []),
      λ e. ground (arith, str_eq_iff p (codes ".")),
    )
    | inr r ↦ let (part, m, e, d) = (some_real ps).0 (ground arith) in (part, Memᴰ.tail m, e, d)
  ],
  λ (part, m, e, d). elim ((mem-cons part p ps).0 m) [
    | inl k ↦
        let a : p ≢ [] = λ z. e (k ∙ z) in
        let b : p ≢ codes "." = λ z. d (k ∙ z) in
        ground (arith, str_eq_iff p [], str_eq_iff p (codes "."), a, b)
    | inr k ↦ let rest = (some_real ps).1 (part, k, e, d) in ground (arith, rest)
  ],
)

-- A path is accepted exactly if it is not empty, does not begin with a slash, has no component
-- "..", and has a component that is neither empty nor ".".
pub path_is_confined_iff :
    (p : Str)
    → (path_is_confined p ≡ true) ↔ (
        (p ≢ [])
        × ((s : Str) → p ≢ b'/' ∷ s)
        × ((part : Str) → Memᴰ part (split_slash p) → part ≢ codes "..")
        × ((part : Str) × Memᴰ part (split_slash p) × (part ≢ []) × (part ≢ codes ".")))
path_is_confined_iff [] =
    (λ h. absurd (unfold path_is_confined in (cc h)), λ (n, f, u, r). absurd (n refl))
path_is_confined_iff (c ∷ s) =
    let parts = path_is_confined-parts c s in
    (
      λ h. (
        λ e. cc e,
        λ t e. absurd (ground (arith, parts, ==_iff c b'/', head_eq c b'/' s t e)),
        (none_dot_dot (split_slash (c ∷ s))).0 (ground (arith, parts)),
        (some_real (split_slash (c ∷ s))).0 (ground (arith, parts)),
      ),
      λ (n, f, u, r).
          let a = (none_dot_dot (split_slash (c ∷ s))).1 u in
          let b = (some_real (split_slash (c ∷ s))).1 r in
          let d : (c == b'/') ≡ false = elim (Bool-cases (c == b'/')) [
            | inl k ↦ absurd (f s (ap (λ x. x ∷ s) ((==_iff c b'/').0 k)))
            | inr k ↦ k
          ] in
          ground (arith, parts, a, b, d),
    )

-- Following components from a directory: `none` is a step above the root.
unfoldable pub walk : List Str → List Str → Option (List Str)
walk stack [] = some stack
walk [] (p ∷ ps) =
    let pushed = walk (p ∷ []) ps in
    let same = walk [] ps in if is_dot_dot p then none else if is_real p then pushed else same
walk (d ∷ stack) (p ∷ ps) =
    let up = walk stack ps in
    let pushed = walk (p ∷ d ∷ stack) ps in
    let same = walk (d ∷ stack) ps in
    if is_dot_dot p then up else if is_real p then pushed else same

-- A path that is accepted never steps above the root, and ends below it: the stack that it leads to
-- is not empty.
no_dot_dot-walk :
    (stack ps : List Str)
    → any is_dot_dot ps ≡ false
    → (end : List Str) × (walk stack ps ≡ some end)
      × ((any is_real ps ≡ true) ⊎ (stack ≢ []) → end ≢ [])
unfolding walk
no_dot_dot-walk stack [] h = (stack, refl, λ k e. ground arith)
no_dot_dot-walk [] (p ∷ ps) h = elim (Bool-cases (is_real p)) [
  | inl r ↦
      let (end, e, n) = no_dot_dot-walk (p ∷ []) ps (ground arith) in
      (end, ground arith, λ k. n (inr (λ z. cc)))
  | inr r ↦
      let (end, e, n) = no_dot_dot-walk [] ps (ground arith) in
      (end, ground arith, λ k. n (ground arith))
]
no_dot_dot-walk (d ∷ stack) (p ∷ ps) h = elim (Bool-cases (is_real p)) [
  | inl r ↦
      let (end, e, n) = no_dot_dot-walk (p ∷ d ∷ stack) ps (ground arith) in
      (end, ground arith, λ k. n (inr (λ z. cc)))
  | inr r ↦
      let (end, e, n) = no_dot_dot-walk (d ∷ stack) ps (ground arith) in
      (end, ground arith, λ k. n (inr (λ z. cc)))
]

-- A path that `salt_path_is_confined` accepts, followed component by component from a root, never
-- steps above that root and ends strictly below it.
pub path_is_confined-walk :
    (p : Str)
    → path_is_confined p ≡ true
    → (end : List Str) × (walk [] (split_slash p) ≡ some end) × (end ≢ [])
path_is_confined-walk [] h = absurd (unfold path_is_confined in (cc h))
path_is_confined-walk (c ∷ s) h =
    let parts : confined_parts (split_slash (c ∷ s)) ≡ true =
      ground (arith, path_is_confined-parts c s) in
    let (end, e, n) = no_dot_dot-walk [] (split_slash (c ∷ s)) (ground arith) in
    (end, e, n (ground arith))
