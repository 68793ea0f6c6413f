-- ===== src/Repo/Vercmp/Order.antt =====
-- `salt_vercmp` returns, is the order of the tokens of versions, and so is a total preorder.
use salt_os.Prelude.{
  ℕ, zero, suc, ◌≤◌, ◌<◌, ◌≡◌, ◌≢◌, ◌↔◌, refl, ap, ◌∙◌, [], ◌∷◌, some, Str, Ordering, length, true,
  false, Bool-cases, inl, inr, arith,
}
use salt_os.Repo.Vercmp.{is_digit, skip_zeros, digit_run, after_run, vercmp_loop, vercmp, or_eq}
use salt_os.Repo.Vercmp.Tokens.{
  sep, num, tokens_from, tokens, tokens_cmp, token_cmp, flip, tokens_cmp-flip, tokens_cmp_self,
  tokens_cmp_eq, tokens_cmp_trans,
}
use salt_os.Repo.Vercmp.Runs.{
  value, digit_run-AllDigits, skip_zeros-NoZero, tokens_from-skip_zeros, runs_cmp-value,
}

tokens-from_zero :
    (c : ℕ) (s : Str) → is_digit c ≡ true → tokens (c ∷ s) ≡ tokens_from (some 0) (c ∷ s)
unfolding tokens_from
tokens-from_zero c s d = ground arith

-- The first token of a version that begins with a digit.
tokens-digit :
    (c : ℕ) (s : Str)
    → is_digit c ≡ true
    → tokens (c ∷ s)
      ≡ num (value 0 (digit_run (skip_zeros (c ∷ s)))) ∷ tokens (after_run (skip_zeros (c ∷ s)))
tokens-digit c s d = tokens-from_zero c s d ∙ tokens_from-skip_zeros (c ∷ s)

length-after_run : (s : Str) → length (after_run s) ≤ length s
unfolding after_run
length-after_run [] = omega arith
length-after_run (c ∷ s) = ground (arith, length-after_run s)

length-skip_zeros : (s : Str) → length (skip_zeros s) ≤ length s
unfolding skip_zeros
length-skip_zeros [] = omega arith
length-skip_zeros (c ∷ s) = ground (arith, length-skip_zeros s)

-- What is left behind a number is shorter.
rest-lt : (c : ℕ) (s : Str) → is_digit c ≡ true → length (after_run (skip_zeros (c ∷ s))) ≤ length s
unfolding skip_zeros after_run
rest-lt c s d =
    ground (arith, length-after_run (skip_zeros s), length-skip_zeros s, length-after_run s)

tokens-sep : (c : ℕ) (s : Str) → is_digit c ≡ false → tokens (c ∷ s) ≡ sep c ∷ tokens s
unfolding tokens_from
tokens-sep c s d = ground arith

tokens-ne_nil : (c : ℕ) (s : Str) → tokens (c ∷ s) ≢ []
tokens-ne_nil c s e = elim (Bool-cases (is_digit c)) [
  | inl d ↦ cc (tokens-digit c s d)
  | inr d ↦ cc (tokens-sep c s d)
]

-- With more fuel than bytes the loop returns, and the result is the order of the tokens.
pub vercmp_loop-tokens :
    (f : ℕ) (a b : Str) → length a < f → vercmp_loop f a b ≡ some (tokens_cmp (tokens a) (tokens b))
unfolding vercmp_loop tokens_cmp
vercmp_loop-tokens zero a b h = absurd (omega arith)
vercmp_loop-tokens (suc f) [] [] h = unfold tokens_from in refl
vercmp_loop-tokens (suc f) [] (d ∷ b) h = elim (Bool-cases (is_digit d)) [
  | inl e ↦ rw (tokens-digit d b e) (unfold tokens_from in refl)
  | inr e ↦ rw (tokens-sep d b e) (unfold tokens_from in refl)
]
vercmp_loop-tokens (suc f) (c ∷ a) [] h = elim (Bool-cases (is_digit c)) [
  | inl e ↦ rw (tokens-digit c a e) (unfold tokens_from in refl)
  | inr e ↦ rw (tokens-sep c a e) (unfold tokens_from in refl)
]
vercmp_loop-tokens (suc f) (c ∷ a) (d ∷ b) h = elim (Bool-cases (is_digit c)) [
  | inl dc ↦ elim (Bool-cases (is_digit d)) [
    | inl dd ↦
        let x = skip_zeros (c ∷ a) in
        let y = skip_zeros (d ∷ b) in
        rw (tokens-digit c a dc, tokens-digit d b dd)
          (unfold token_cmp in
            ground (
              arith,
              runs_cmp-value (digit_run x) (digit_run y) (digit_run-AllDigits x)
                  (digit_run-AllDigits y) (skip_zeros-NoZero (c ∷ a)) (skip_zeros-NoZero (d ∷ b)),
              rest-lt c a dc,
              vercmp_loop-tokens f (after_run x) (after_run y),
            ))
    | inr dd ↦ rw (tokens-digit c a dc, tokens-sep d b dd) (unfold token_cmp in rw (dc, dd))
  ]
  | inr dc ↦ elim (Bool-cases (is_digit d)) [
    | inl dd ↦ rw (tokens-sep c a dc, tokens-digit d b dd) (unfold token_cmp in rw (dc, dd))
    | inr dd ↦
        rw (tokens-sep c a dc, tokens-sep d b dd)
          (unfold token_cmp in ground (arith, vercmp_loop-tokens f a b))
  ]
]

-- `salt_vercmp` is the order of the versions read as numbers and single characters.
pub vercmp-tokens : (a b : Str) → vercmp a b ≡ tokens_cmp (tokens a) (tokens b)
unfolding vercmp
vercmp-tokens a b = ap or_eq (vercmp_loop-tokens (suc (length a)) a b (omega arith))

pub vercmp-flip : (a b : Str) → vercmp b a ≡ flip (vercmp a b)
vercmp-flip a b = rw (vercmp-tokens a b, vercmp-tokens b a) (tokens_cmp-flip (tokens a) (tokens b))

-- No version differs from itself.
pub vercmp_self : (a : Str) → vercmp a a ≡ Ordering.eq
vercmp_self a = rw vercmp-tokens (tokens_cmp_self (tokens a))

-- "Not newer" is transitive: if `a` is not above `b` and `b` not above `c`, then `a` is not above `c`.
pub vercmp_trans :
    (a b c : Str) → vercmp a b ≢ Ordering.gt → vercmp b c ≢ Ordering.gt → vercmp a c ≢ Ordering.gt
vercmp_trans a b c h k = rw vercmp-tokens (
    tokens_cmp_trans (tokens a) (tokens b) (tokens c) (rw vercmp-tokens at h)
      (rw vercmp-tokens at k))

vercmp_eq : (a b : Str) → (vercmp a b ≡ Ordering.eq) ↔ (tokens a ≡ tokens b)
vercmp_eq a b = (
  λ h. tokens_cmp_eq (tokens a) (tokens b) (rw vercmp-tokens at h),
  λ e. rw vercmp-tokens (rw e (tokens_cmp_self (tokens b))),
)

-- Exchanging the arguments of `salt_vercmp` exchanges the sign of its result, and versions compare as
-- equal exactly if they read as the same tokens.
pub vercmp-antisym :
    (a b : Str)
    → (vercmp b a ≡ flip (vercmp a b)) × ((vercmp a b ≡ Ordering.eq) ↔ (tokens a ≡ tokens b))
vercmp-antisym a b = (vercmp-flip a b, vercmp_eq a b)
