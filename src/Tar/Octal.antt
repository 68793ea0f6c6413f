-- ===== src/Tar/Octal.antt =====
-- A number that fits in its field is read as it was written.
use salt_os.Prelude.{
  ℕ, zero, suc, ◌+◌, ◌-◌, ◌*◌, ◌/◌, ◌%◌, ◌<◌, ◌≡◌, refl, ap, ◌∙◌, [], ◌∷◌, ◌++◌, arith, length,
  length-append, Str,
}
use salt_os.Tar.{
  low_digits, pow_eight, digit_count, first_bytes, octal, parse_octal_from, parse_octal,
}

parse_octal_from-append :
    (v : ℕ) (s t : Str) → parse_octal_from v (s ++ t) ≡ parse_octal_from (parse_octal_from v s) t
unfolding parse_octal_from
parse_octal_from-append v [] t = refl
parse_octal_from-append v (c ∷ s) t = ground (
  arith,
  parse_octal_from-append v s t,
  parse_octal_from-append ((v * 8 + (c - 48)) % 18446744073709551616) s t,
)

parse_digit :
    (v d : ℕ)
    → d < 8
    → v * 8 + d < 18446744073709551616
    → parse_octal_from v ((48 + d) ∷ []) ≡ v * 8 + d
unfolding parse_octal_from
parse_digit v d h k = ground arith

parse_low_digits :
    (k v : ℕ) → v < pow_eight k → v < 18446744073709551616 → parse_octal_from 0 (low_digits k v) ≡ v
unfolding pow_eight low_digits
parse_low_digits zero v h b = unfold parse_octal_from in (omega arith)
parse_low_digits (suc k) v h b =
    parse_octal_from-append 0 (low_digits k (v / 8)) ((48 + v % 8) ∷ [])
    ∙ rw (parse_low_digits k (v / 8) (omega arith) (omega arith))
        (parse_digit (v / 8) (v % 8) (omega arith) (omega arith) ∙ omega arith)

length-low_digits : (k v : ℕ) → length (low_digits k v) ≡ k
unfolding low_digits
length-low_digits zero v = refl
length-low_digits (suc k) v =
    length-append (low_digits k (v / 8)) ((48 + v % 8) ∷ [])
    ∙ ground (arith, length-low_digits k (v / 8))

first_bytes-all : (k : ℕ) (s : Str) → length s ≡ k → first_bytes k s ≡ s
first_bytes-all zero [] h = refl
first_bytes-all zero (c ∷ s) h = absurd (omega arith)
first_bytes-all (suc k) [] h = refl
first_bytes-all (suc k) (c ∷ s) h = ap (λ t. c ∷ t) (first_bytes-all k s (omega arith))

digit_count-fits : (f k v : ℕ) → v < pow_eight k → digit_count (suc f) k v ≡ k
unfolding digit_count
digit_count-fits f k v h = ground arith

parse_zero : (v : ℕ) → parse_octal_from v (0 ∷ []) ≡ v
unfolding parse_octal_from
parse_zero v = refl

-- A number below 8 to the number of digits of its field, and of 64 bits, is read from the field as
-- it was written.
pub parse_octal-octal :
    (k v : ℕ) → v < pow_eight k → v < 18446744073709551616 → parse_octal (octal k v) ≡ v
unfolding parse_octal octal
parse_octal-octal k v h b =
    rw (digit_count-fits 21 k v h, first_bytes-all k (low_digits k v) (length-low_digits k v))
      (parse_octal_from-append 0 (low_digits k v) (0 ∷ [])
        ∙ parse_zero (parse_octal_from 0 (low_digits k v))
        ∙ parse_low_digits k v h b)
