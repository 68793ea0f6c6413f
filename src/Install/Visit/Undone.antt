-- ===== src/Install/Visit/Undone.antt =====
-- The names that a search or a cascade has still to do, which bounds its fuel.
use salt_os.Prelude.{
  ℕ, ◌≤◌, ◌<◌, ◌≡◌, inr, true, false, not, List, [], ◌∷◌, arith, length, filter, Str, str_eq_iff,
  contains, contains-cons,
}

-- The names of a list that are not done.
unfoldable pub undone : List Str → List Str → ℕ
undone names done = length (filter (λ n. not (contains done n)) names)

pub undone-le :
    (names s t : List Str)
    → ((x : Str) → contains s x ≡ true → contains t x ≡ true)
    → undone names t ≤ undone names s
unfolding undone
undone-le [] s t h = omega arith
undone-le (n ∷ ns) s t h = ground (arith, h n, undone-le ns s t h)

pub undone-lt :
    (names s : List Str) (x : Str)
    → contains names x ≡ true
    → contains s x ≡ false
    → undone names (x ∷ s) < undone names s
unfolding undone contains
undone-lt [] s x m h = absurd (ground arith)
undone-lt (n ∷ ns) s x m h = ground (
  arith,
  undone-lt ns s x,
  str_eq_iff x n,
  str_eq_iff n x,
  undone-le ns s (x ∷ s) (λ y k. (contains-cons x y s).1 (inr k)),
)

pub undone-nil : (names : List Str) → undone names [] ≤ length names
unfolding undone contains
undone-nil [] = omega arith
undone-nil (n ∷ ns) = ground (arith, undone-nil ns)
