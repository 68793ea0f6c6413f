-- ===== src/Util/Components.antt =====
-- The components of a path, apart from the code that walks over paths.
use salt_os.Prelude.{
  ℕ, ◌≤◌, ◌≡◌, refl, ◌≢◌, ◌⊎◌, List, [], ◌∷◌, ◌++◌, arith, ◌==◌, if◌then◌else◌, length, filter, Str,
}
use salt_os.Util.{is_real, until_slash, after_slash}

abbrev onto_head : ℕ → List Str → List Str
onto_head c [] = (c ∷ []) ∷ []
onto_head c (s ∷ ss) = (c ∷ s) ∷ ss

-- The parts between the slashes, empty ones too.
unfoldable pub split_slash : Str → List Str
split_slash [] = [] ∷ []
split_slash (c ∷ s) = let rest = split_slash s in if c == b'/' then [] ∷ rest else onto_head c rest

-- The components that name something: neither empty nor ".".
abbrev pub components : Str → List Str
components s = filter is_real (split_slash s)

pub split_slash-ne_nil : (s : Str) → split_slash s ≢ []
unfolding split_slash
split_slash-ne_nil [] = λ e. cc
split_slash-ne_nil (c ∷ s) = ground arith

-- The walk of the code: one component, and the components of the rest.
pub split_slash-step :
    (c : ℕ) (s : Str)
    → (split_slash (c ∷ s) ≡ until_slash (c ∷ s) ∷ split_slash (after_slash (c ∷ s)))
      ⊎ ((split_slash (c ∷ s) ≡ until_slash (c ∷ s) ∷ []) × (after_slash (c ∷ s) ≡ []))
unfolding split_slash until_slash after_slash
split_slash-step c [] = ground arith
split_slash-step c (d ∷ s) = ground (arith, split_slash-step d s)

pub length-after_slash : (c : ℕ) (s : Str) → length (after_slash (c ∷ s)) ≤ length s
unfolding after_slash
length-after_slash c [] = ground arith
length-after_slash c (d ∷ s) = ground (arith, length-after_slash d s)

-- A slash between two paths separates their components.
pub split_slash-append : (s t : Str) → split_slash (s ++ b'/' ∷ t) ≡ split_slash s ++ split_slash t
unfolding split_slash
split_slash-append [] t = refl
split_slash-append (c ∷ s) t = ground (arith, split_slash-append s t, split_slash-ne_nil s)
