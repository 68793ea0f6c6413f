-- ===== src/Prelude/Lists.antt =====
-- Lists measured by native numbers, Boolean filters and predicates, under the library's names.
use Prim.Native.Nat.{ℕ, suc, ◌+◌}
use mathlib.Core.Path.{◌≡◌}
use mathlib.Core.Logic.{◌↔◌, ◌⊎◌, ◌≢◌, inl, inr, ⊎_elim, inr}
use mathlib.Core.Bool.{Bool, true, false}
use mathlib.Core.List.{List, [], ◌∷◌, ◌++◌, Memᴰ}
use mathlib.Core.List.Memᴰ
use native.Mathlib.Omega.{arith}
use salt_os.Prelude.Tests.{if◌then◌else◌, Bool-cases}

module _ {ℓ} {A : Type ℓ} where
  abbrev pub length : List A → ℕ
  length [] = 0
  length (x ∷ xs) = suc (length xs)

  -- The elements that pass a Boolean test, in their order.
  abbrev pub filter : (A → Bool) → List A → List A
  filter p [] = []
  filter p (x ∷ xs) = let rest = filter p xs in if p x then x ∷ rest else rest

  abbrev pub any : (A → Bool) → List A → Bool
  any p [] = false
  any p (x ∷ xs) = let rest = any p xs in if p x then true else rest

  pub length-append : (xs ys : List A) → length (xs ++ ys) ≡ length xs + length ys
  length-append [] ys = omega arith
  length-append (x ∷ xs) ys = omega (arith, length-append xs ys)

  pub mem-cons : (a x : A) (xs : List A) → Memᴰ a (x ∷ xs) ↔ ((a ≡ x) ⊎ Memᴰ a xs)
  mem-cons a x xs = (Memᴰ.cases_cons, ⊎_elim Memᴰ.head Memᴰ.tail)

  pub mem-append : (a : A) (xs ys : List A) → Memᴰ a (xs ++ ys) ↔ (Memᴰ a xs ⊎ Memᴰ a ys)
  mem-append a xs ys = (Memᴰ.append_cases xs, ⊎_elim (Memᴰ.append_left _) (Memᴰ.append_right xs))

  pub mem-concat : (a x : A) (xs : List A) → Memᴰ a (xs ++ x ∷ []) ↔ (Memᴰ a xs ⊎ (a ≡ x))
  mem-concat a x xs = (
    λ m. ⊎_elim inl (λ last. inr (Memᴰ.eq_of_singleton last)) (Memᴰ.append_cases xs m),
    ⊎_elim (Memᴰ.append_left _) (λ e. Memᴰ.append_right xs (Memᴰ.head e)),
  )

  pub concat-ne_nil : (xs : List A) (x : A) → (xs ++ x ∷ []) ≢ []
  concat-ne_nil [] x e = cc
  concat-ne_nil (y ∷ ys) x e = cc

  pub not-mem-nil : (a : A) → ¬ Memᴰ a []
  not-mem-nil a m = Memᴰ.not-nil m

  pub mem-filter :
      (p : A → Bool) (a : A) (xs : List A) → Memᴰ a (filter p xs) ↔ (Memᴰ a xs × (p a ≡ true))
  mem-filter p a [] = (λ m. absurd (Memᴰ.not-nil m), λ h. absurd (Memᴰ.not-nil h.0))
  mem-filter p a (x ∷ xs) = elim (Bool-cases (p x)) [
    | inl t ↦
        rw t (ground (arith, mem-filter p a xs, mem-cons a x xs, mem-cons a x (filter p xs), t))
    | inr f ↦ rw f (ground (arith, mem-filter p a xs, mem-cons a x xs, f))
  ]
