-- ===== src/Repo/Vercmp/Runs.antt =====
-- Runs of digits: comparing them by length and bytes is comparing the numbers that they write.
use salt_os.Prelude.{
  ℕ, ◌+◌, ◌-◌, ◌*◌, ◌≤◌, ◌<◌, ◌≡◌, ◌≢◌, refl, ◌∙◌, [], ◌∷◌, none, some, Str, compare, length,
  Bool-cases, inl, inr, arith, ◌==◌, ==_iff,
}
use salt_os.Repo.Vercmp.{is_digit, skip_zeros, digit_run, after_run, run_cmp, runs_cmp}
use salt_os.Repo.Vercmp.Tokens.{num, tokens_from}

-- The number that a run of digits writes behind digits that write `v`.
pub value : ℕ → Str → ℕ
value v [] = v
value v (c ∷ s) = value (v * 10 + (c - b'0')) s

abbrev pub AllDigits : Str → Type 0
AllDigits [] = Unit
AllDigits (c ∷ s) = (b'0' ≤ c) × (c ≤ b'9') × AllDigits s

-- The run does not begin with '0'.
abbrev pub NoZero : Str → Type 0
NoZero [] = Unit
NoZero (c ∷ s) = c ≢ b'0'

pub digit_run-AllDigits : (s : Str) → AllDigits (digit_run s)
unfolding digit_run
digit_run-AllDigits [] = tt
digit_run-AllDigits (c ∷ s) = elim (Bool-cases (is_digit c)) [
  | inl d ↦ rw d (ground arith, ground arith, digit_run-AllDigits s)
  | inr d ↦ rw d tt
]

digit_run-head : (c : ℕ) (s : Str) → c ≢ b'0' → NoZero (digit_run (c ∷ s))
unfolding digit_run
digit_run-head c s h = elim (Bool-cases (is_digit c)) [ inl d ↦ rw d h | inr d ↦ rw d tt ]

pub skip_zeros-NoZero : (s : Str) → NoZero (digit_run (skip_zeros s))
unfolding skip_zeros
skip_zeros-NoZero [] = unfold digit_run in tt
skip_zeros-NoZero (c ∷ s) = elim (Bool-cases (c == b'0')) [
  | inl z ↦ rw z (skip_zeros-NoZero s)
  | inr z ↦ rw z (digit_run-head c s (ground arith))
]

-- A run stands for one number, and the tokens go on behind it.
pub tokens_from-some :
    (v : ℕ) (s : Str)
    → tokens_from (some v) s ≡ num (value v (digit_run s)) ∷ tokens_from none (after_run s)
unfolding tokens_from digit_run after_run value
tokens_from-some v [] = refl
tokens_from-some v (c ∷ s) = ground (arith, tokens_from-some (v * 10 + (c - b'0')) s)

tokens_from-zero : (s : Str) → tokens_from (some 0) (b'0' ∷ s) ≡ tokens_from (some 0) s
unfolding tokens_from
tokens_from-zero s = refl

pub tokens_from-skip_zeros :
    (s : Str)
    → tokens_from (some 0) s
      ≡ num (value 0 (digit_run (skip_zeros s))) ∷ tokens_from none (after_run (skip_zeros s))
unfolding skip_zeros
tokens_from-skip_zeros [] = tokens_from-some 0 []
tokens_from-skip_zeros (c ∷ s) = elim (Bool-cases (c == b'0')) [
  | inl z ↦ rw ((==_iff c b'0').0 z) (tokens_from-zero s ∙ tokens_from-skip_zeros s)
  | inr z ↦ rw z (tokens_from-some 0 (c ∷ s))
]

le-value : (v : ℕ) (s : Str) → v ≤ value v s
unfolding value
le-value v [] = omega arith
le-value v (c ∷ s) = omega (arith, le-value (v * 10 + (c - b'0')) s)

-- A smaller number stays smaller behind as many digits or more.
value-lt : (s t : Str) (v w : ℕ) → length s ≤ length t → AllDigits s → v < w → value v s < value w t
unfolding value
value-lt [] t v w l ds h = omega (arith, le-value w t)
value-lt (c ∷ s) [] v w l ds h = absurd (omega arith)
value-lt (c ∷ s) (d ∷ t) v w l ds h =
    value-lt s t (v * 10 + (c - b'0')) (w * 10 + (d - b'0')) (omega arith) ds.2
      (omega (arith, ds.0, ds.1))

shorter-lt :
    (s t : Str) → length s < length t → AllDigits s → AllDigits t → NoZero t → value 0 s < value 0 t
unfolding value
shorter-lt s [] l ds dt nz = absurd (omega arith)
shorter-lt s (d ∷ t) l ds dt nz =
    value-lt s t 0 (0 * 10 + (d - b'0')) (omega arith) ds (omega (arith, dt.0))

run_cmp-value :
    (s t : Str) (v : ℕ)
    → length s ≡ length t
    → AllDigits s
    → AllDigits t
    → run_cmp s t ≡ compare (value v s) (value v t)
unfolding run_cmp value
run_cmp-value [] [] v l ds dt = ground arith
run_cmp-value [] (d ∷ t) v l ds dt = absurd (omega arith)
run_cmp-value (c ∷ s) [] v l ds dt = absurd (omega arith)
run_cmp-value (c ∷ s) (d ∷ t) v l ds dt = ground (
  arith,
  ds,
  dt,
  value-lt s t (v * 10 + (c - b'0')) (v * 10 + (d - b'0')),
  value-lt t s (v * 10 + (d - b'0')) (v * 10 + (c - b'0')),
  run_cmp-value s t (v * 10 + (c - b'0')),
)

-- Runs without leading zeros are ordered as the numbers that they write.
pub runs_cmp-value :
    (s t : Str)
    → AllDigits s
    → AllDigits t
    → NoZero s
    → NoZero t
    → runs_cmp s t ≡ compare (value 0 s) (value 0 t)
unfolding runs_cmp
runs_cmp-value s t ds dt ns nt = ground (arith, shorter-lt s t, shorter-lt t s, run_cmp-value s t 0)
