-- ===== src/Toml/Query/Fuel.antt =====
-- The loop of `salt_toml_path` has fuel enough.
use salt_os.Prelude.{
  ℕ, zero, suc, ◌≤◌, ◌≡◌, refl, inl, inr, Option, none, some, [], ◌∷◌, arith, ◌==◌, Bool-cases,
  length, Str,
}
use salt_os.Prelude.Int.{ℤ}
use salt_os.Toml.Parsed.{Value}
use salt_os.Toml.Query.{take_part, skip_dot, path_step, path_loop}

take_part-rest : (n : ℕ) (p : Str) → length (take_part n p).1 ≤ length p
unfolding take_part
take_part-rest zero p = omega arith
take_part-rest (suc n) [] = omega arith
take_part-rest (suc n) (c ∷ p) =
    let shorter = take_part-rest n p in
    elim (Bool-cases (c == b'.')) [ inl y ↦ rw y (omega arith) | inr y ↦ rw y (omega arith) ]

skip_dot-rest : (p : Str) → length (skip_dot p) ≤ length p
skip_dot-rest [] = omega arith
skip_dot-rest (c ∷ p) = elim (Bool-cases (c == b'.')) [
  | inl y ↦ rw y (omega arith)
  | inr y ↦ rw y (omega arith)
]

-- A round takes a byte at least.
round-rest : (n c : ℕ) (p : Str) → length (skip_dot (take_part (suc n) (c ∷ p)).1) ≤ length p
unfolding take_part
round-rest n c p = elim (Bool-cases (c == b'.')) [
  | inl y ↦ rw (y, y) (omega arith)
  | inr y ↦
      let dot = skip_dot-rest (take_part n p).1 in
      let part = take_part-rest n p in rw y (omega arith)
]

-- `salt_toml_path` ends: fuel beyond the length of the path changes nothing.
pub path_loop-enough :
    (strtol : Str → ℤ × Str) (n : ℕ) (v : Option Value) (p : Str)
    → length p ≤ n
    → path_loop strtol (suc n) v p ≡ path_loop strtol n v p
unfolding path_loop
path_loop-enough strtol zero none p h = refl
path_loop-enough strtol zero (some v) [] h = refl
path_loop-enough strtol zero (some v) (c ∷ p) h = absurd (omega arith)
path_loop-enough strtol (suc n) none p h = refl
path_loop-enough strtol (suc n) (some v) [] h = refl
path_loop-enough strtol (suc n) (some v) (c ∷ p) h =
    let shorter = round-rest 254 c p in
    path_loop-enough strtol n (path_step strtol v (take_part 255 (c ∷ p)).0)
      (skip_dot (take_part 255 (c ∷ p)).1) (omega arith)
