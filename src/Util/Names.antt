-- ===== src/Util/Names.antt =====
-- Membership in a list of names, as `salt_strlist_contains` finds it.
use salt_os.Prelude.{
  ◌≡◌, refl, sym, ap, ◌∙◌, ◌↔◌, inl, inr, true, List, [], ◌∷◌, map, mem-cons, not-mem-nil, Str,
  contains, contains-cons, Memᴰ,
}

pub contains-mem : (xs : List Str) (n : Str) → (contains xs n ≡ true) ↔ Memᴰ n xs
unfolding contains
contains-mem [] n = (λ h. absurd cc, λ m. absurd (not-mem-nil n m))
contains-mem (x ∷ xs) n = (
  λ h. elim ((contains-cons x n xs).0 h) [
    | inl e ↦ Memᴰ.head (sym e)
    | inr k ↦ Memᴰ.tail ((contains-mem xs n).0 k)
  ],
  λ m. (contains-cons x n xs).1 (elim ((mem-cons n x xs).0 m) [
    | inl e ↦ inl (sym e)
    | inr k ↦ inr ((contains-mem xs n).1 k)
  ]),
)

pub contains-map {ℓ} :
    {A : Type ℓ} (f : A → Str) (xs : List A) (n : Str)
    → (contains (map f xs) n ≡ true) ↔ ((x : A) × Memᴰ x xs × (f x ≡ n))
unfolding contains
contains-map f [] n = (λ h. absurd cc, λ (x, m, e). absurd (not-mem-nil x m))
contains-map f (x ∷ xs) n = (
  λ h. elim ((contains-cons (f x) n (map f xs)).0 h) [
    | inl e ↦ (x, Memᴰ.head refl, e)
    | inr k ↦ let (y, m, e) = (contains-map f xs n).0 k in (y, Memᴰ.tail m, e)
  ],
  λ (y, m, e). (contains-cons (f x) n (map f xs)).1 (elim ((mem-cons y x xs).0 m) [
    | inl k ↦ inl (sym (ap f k) ∙ e)
    | inr k ↦ inr ((contains-map f xs n).1 (y, k, e))
  ]),
)
