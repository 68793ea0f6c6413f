-- ===== src/Prelude/Text.antt =====
-- C strings: the list of their bytes, without the final 0. `str_eq` is `strcmp(a, b) == 0`.
use Prim.Native.Nat.{ℕ, compare, Ordering}
use Prim.Native.Char.{code}
use Prim.Native.String.{String}
use mathlib.Core.Path.{◌≡◌, refl}
use mathlib.Core.Logic.{◌↔◌, ◌⊎◌}
use mathlib.Core.Bool.{Bool, true, false, ◌&&◌}
use mathlib.Core.List.{List, [], ◌∷◌, ◌++◌}
use native.Mathlib.Omega.{arith}
use salt_os.Prelude.Tests.{◌==◌, if◌then◌else◌}

abbrev pub Str : Type 0
Str = List ℕ

-- The bytes of an ASCII literal.
abbrev pub codes : String → Str
codes String.[] = []
codes (String.◌∷◌ c s) = code c ∷ codes s

unfoldable pub str_eq : Str → Str → Bool
str_eq [] [] = true
str_eq (a ∷ s) (b ∷ t) = a == b && str_eq s t
str_eq _ _ = false

pub str_eq_iff : (s t : Str) → (str_eq s t ≡ true) ↔ (s ≡ t)
unfolding str_eq
str_eq_iff [] [] = (λ _. refl, λ _. refl)
str_eq_iff [] (b ∷ t) = ground arith
str_eq_iff (a ∷ s) [] = ground arith
str_eq_iff (a ∷ s) (b ∷ t) = ground (arith, str_eq_iff s t)

pub str_eq_refl : (s : Str) → str_eq s s ≡ true
str_eq_refl s = (str_eq_iff s s).1 refl

-- `salt_strlist_contains`; a `std::set<std::string>` is such a list too, its `count` this test.
unfoldable pub contains : List Str → Str → Bool
contains [] s = false
contains (x ∷ xs) s = let rest = contains xs s in if str_eq x s then true else rest

pub contains-cons :
    (x s : Str) (xs : List Str) → (contains (x ∷ xs) s ≡ true) ↔ ((x ≡ s) ⊎ (contains xs s ≡ true))
unfolding contains
contains-cons x s xs = ground (arith, str_eq_iff x s)

pub contains-append :
    (xs ys : List Str) (s : Str)
    → (contains (xs ++ ys) s ≡ true) ↔ ((contains xs s ≡ true) ⊎ (contains ys s ≡ true))
unfolding contains
contains-append [] ys s = ground arith
contains-append (x ∷ xs) ys s = ground (arith, contains-append xs ys s)

-- The order of `std::string` and of SQLite's BINARY collation: bytewise, a proper prefix first.
unfoldable pub str_cmp : Str → Str → Ordering
str_cmp [] [] = Ordering.eq
str_cmp [] (b ∷ t) = Ordering.lt
str_cmp (a ∷ s) [] = Ordering.gt
str_cmp (a ∷ s) (b ∷ t) = elim (compare a b) [
  | Ordering.lt ↦ Ordering.lt
  | Ordering.gt ↦ Ordering.gt
  | Ordering.eq ↦ str_cmp s t
]

str_cmp_eq : (s t : Str) → str_cmp s t ≡ Ordering.eq → s ≡ t
unfolding str_cmp
str_cmp_eq [] [] h = refl
str_cmp_eq [] (b ∷ t) h = cc
str_cmp_eq (a ∷ s) [] h = cc
str_cmp_eq (a ∷ s) (b ∷ t) h = ground (arith, str_cmp_eq s t)

-- `insert` of a `std::set<std::string>`, which lists its elements in their order; so too the result
-- of `SELECT DISTINCT … ORDER BY`.
unfoldable pub set_insert : Str → List Str → List Str
set_insert x [] = x ∷ []
set_insert x (y ∷ ys) =
    let rest = y ∷ set_insert x ys in
    elim (str_cmp x y) [ Ordering.lt ↦ x ∷ y ∷ ys | Ordering.eq ↦ y ∷ ys | Ordering.gt ↦ rest ]

-- The set of the elements of a list.
unfoldable pub set_of : List Str → List Str
set_of [] = []
set_of (x ∷ xs) = set_insert x (set_of xs)

pub contains-set_insert :
    (x s : Str) (xs : List Str)
    → (contains (set_insert x xs) s ≡ true) ↔ ((x ≡ s) ⊎ (contains xs s ≡ true))
unfolding set_insert contains
contains-set_insert x s [] = ground (arith, str_eq_iff x s)
contains-set_insert x s (y ∷ ys) =
    ground (arith, str_eq_iff x s, str_eq_iff y s, str_cmp_eq x y, contains-set_insert x s ys)

pub contains-set_of :
    (xs : List Str) (s : Str) → (contains (set_of xs) s ≡ true) ↔ (contains xs s ≡ true)
unfolding set_of
contains-set_of [] s = (λ h. h, λ h. h)
contains-set_of (x ∷ xs) s =
    ground (arith, contains-set_insert x s (set_of xs), contains-cons x s xs, contains-set_of xs s)
