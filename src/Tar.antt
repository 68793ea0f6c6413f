-- ===== src/Tar.antt =====
-- The octal fields of tar headers: `octal` and `parse_octal` of src/halite/src/tar.c.
pub mod Octal
use salt_os.Prelude.{
  ℕ, zero, suc, ◌+◌, ◌-◌, ◌*◌, ◌/◌, ◌%◌, ◌≤◌, ◌<◌, compare, Ordering, max, ◌≡◌, refl, sym, ap, ◌∙◌,
  subst, ◌≢◌, ◌↔◌, ◌⊎◌, inl, inr, ⊎_elim, Bool, true, false, not, ◌&&◌, ◌||◌, Option, none, some,
  List, [], ◌∷◌, ◌++◌, map, arith, ltb, leb, ◌==◌, ==_iff, if◌then◌else◌, &&_eq_true, Bool-cases,
  Option-cases, eq_of_iff, length, filter, any, length-append, mem-cons, mem-append, mem-concat,
  concat-ne_nil, not-mem-nil, mem-filter, Str, codes, str_eq, str_eq_iff, str_eq_refl, contains,
  contains-cons, contains-append, set_insert, set_of, contains-set_insert, contains-set_of, Memᴰ,
}

-- The last `k` octal digits of a number.
unfoldable pub low_digits : ℕ → ℕ → Str
low_digits zero v = []
low_digits (suc k) v = low_digits k (v / 8) ++ (48 + v % 8) ∷ []

unfoldable pub pow_eight : ℕ → ℕ
pow_eight zero = 1
pow_eight (suc k) = 8 * pow_eight k

-- The number of digits that `%0*llo` prints, at least `k`; 22 digits are enough for 64 bits.
unfoldable pub digit_count : ℕ → ℕ → ℕ → ℕ
digit_count zero k v = k
digit_count (suc f) k v =
    let more = digit_count f (suc k) v in if ltb v (pow_eight k) then k else more

abbrev pub first_bytes : ℕ → Str → Str
first_bytes zero s = []
first_bytes (suc k) [] = []
first_bytes (suc k) (c ∷ s) = c ∷ first_bytes k s

-- `octal`: the first `k` bytes of what is printed and a zero, in a field of width `k + 1`.
unfoldable pub octal : ℕ → ℕ → Str
octal k v = first_bytes k (low_digits (digit_count 22 k v) v) ++ 0 ∷ []

-- The loop of `parse_octal`, on the value so far.
unfoldable pub parse_octal_from : ℕ → Str → ℕ
parse_octal_from v [] = v
parse_octal_from v (c ∷ s) =
    let digit = parse_octal_from ((v * 8 + (c - 48)) % 18446744073709551616) s in
    let other = parse_octal_from v s in if leb 48 c && leb c 55 then digit else other

unfoldable pub parse_octal : Str → ℕ
parse_octal s = parse_octal_from 0 s
