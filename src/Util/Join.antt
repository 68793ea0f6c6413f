-- ===== src/Util/Join.antt =====
-- `salt_join_path` joins the components of its arguments.
use salt_os.Prelude.{
  ◌≡◌, refl, sym, ap, ◌∙◌, inl, inr, Bool, true, List, [], ◌∷◌, ◌++◌, arith, ◌==◌, ==_iff,
  Bool-cases, filter, Str, str_eq,
}
use mathlib.Core.List.{append_assoc, append-nil}
use salt_os.Util.{is_real, ends_in_slash, strip_slashes, join_path}
use salt_os.Util.Components.{split_slash, components, split_slash-append}

filter-append {ℓ} :
    {A : Type ℓ} (p : A → Bool) (xs ys : List A) → filter p (xs ++ ys) ≡ filter p xs ++ filter p ys
filter-append p [] ys = refl
filter-append p (x ∷ xs) ys = ground (arith, filter-append p xs ys)

components-append : (s t : Str) → components (s ++ b'/' ∷ t) ≡ components s ++ components t
components-append s t =
    rw split_slash-append (filter-append is_real (split_slash s) (split_slash t))

components-nil : components [] ≡ []
unfolding split_slash str_eq
components-nil = refl

components-slash : (s : Str) → components (b'/' ∷ s) ≡ components s
components-slash s = components-append [] s ∙ rw components-nil

components-strip_slashes : (s : Str) → components (strip_slashes s) ≡ components s
unfolding strip_slashes
components-strip_slashes [] = refl
components-strip_slashes (c ∷ s) = elim (Bool-cases (c == b'/')) [
  | inl e ↦ rw ((==_iff c b'/').0 e) (components-strip_slashes s ∙ sym (components-slash s))
  | inr e ↦ rw e
]

split_last : (s : Str) → ends_in_slash s ≡ true → (r : Str) × (s ≡ r ++ b'/' ∷ [])
unfolding ends_in_slash
split_last [] h = cc
split_last (c ∷ []) h = ([], ground arith)
split_last (c ∷ d ∷ s) h = let (r, e) = split_last (d ∷ s) h in (c ∷ r, ap (◌∷◌ c) e)

-- A path that ends in a slash, joined to another.
components-ends_in_slash :
    (s t : Str) → ends_in_slash s ≡ true → components (s ++ t) ≡ components s ++ components t
components-ends_in_slash s t h =
    let (r, e) = split_last s h in
    rw e (
      rw append_assoc
        (components-append r t ∙ rw components-append (rw (components-nil, append-nil))))

-- The components of the joined path are those of the first path, and then those of the second.
pub components-join_path : (a b : Str) → components (join_path a b) ≡ components a ++ components b
unfolding join_path
components-join_path [] b = rw components-nil
components-join_path (c ∷ a) [] = rw (components-nil, append-nil)
components-join_path (c ∷ a) (d ∷ b) = elim (Bool-cases (ends_in_slash (c ∷ a))) [
  | inl e ↦
      rw e
        (components-ends_in_slash (c ∷ a) (strip_slashes (d ∷ b)) e ∙ rw components-strip_slashes)
  | inr e ↦ rw e (components-append (c ∷ a) (strip_slashes (d ∷ b)) ∙ rw components-strip_slashes)
]
