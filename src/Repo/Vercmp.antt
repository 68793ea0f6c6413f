-- ===== src/Repo/Vercmp.antt =====
-- `salt_vercmp` of src/halite/src/repo.c. `Ordering` stands for the sign of the returned int.
pub mod Tokens
pub mod Runs
pub mod Order
use salt_os.Prelude.{
  ℕ, zero, suc, ◌≤◌, Bool, ◌&&◌, List, [], ◌∷◌, Option, none, some, Str, compare, Ordering, leb,
  ◌==◌, length, if◌then◌else◌,
}

-- `isdigit`
unfoldable pub is_digit : ℕ → Bool
is_digit c = leb b'0' c && leb c b'9'

-- `while (*a == '0') a++;`
unfoldable pub skip_zeros : Str → Str
skip_zeros [] = []
skip_zeros (c ∷ s) = let rest = skip_zeros s in if c == b'0' then rest else c ∷ s

-- The digits that `while (isdigit(*a)) a++;` passes over, and what it stops at.
unfoldable pub digit_run : Str → Str
unfolding is_digit
digit_run [] = []
digit_run (c ∷ s) = let rest = digit_run s in if is_digit c then c ∷ rest else []

unfoldable pub after_run : Str → Str
unfolding is_digit
after_run [] = []
after_run (c ∷ s) = let rest = after_run s in if is_digit c then rest else c ∷ s

-- `strncmp(as, bs, la)` at two runs of `la` bytes.
unfoldable pub run_cmp : Str → Str → Ordering
run_cmp [] [] = Ordering.eq
run_cmp [] (d ∷ t) = Ordering.lt
run_cmp (c ∷ s) [] = Ordering.gt
run_cmp (c ∷ s) (d ∷ t) = elim (compare c d) [
  | Ordering.lt ↦ Ordering.lt
  | Ordering.gt ↦ Ordering.gt
  | Ordering.eq ↦ run_cmp s t
]

-- The two runs' order: the longer is greater, and runs of one length are compared bytewise.
unfoldable pub runs_cmp : Str → Str → Ordering
unfolding run_cmp
runs_cmp s t = elim (compare (length s) (length t)) [
  | Ordering.lt ↦ Ordering.lt
  | Ordering.gt ↦ Ordering.gt
  | Ordering.eq ↦ run_cmp s t
]

-- The loop, on fuel; `none` means that the fuel ran out.
unfoldable pub vercmp_loop : ℕ → Str → Str → Option Ordering
vercmp_loop zero a b = none
vercmp_loop (suc f) [] [] = some Ordering.eq
vercmp_loop (suc f) [] (d ∷ b) = some Ordering.lt
vercmp_loop (suc f) (c ∷ a) [] = some Ordering.gt
vercmp_loop (suc f) (c ∷ a) (d ∷ b) =
    let x = skip_zeros (c ∷ a) in
    let y = skip_zeros (d ∷ b) in
    let numeric : Option Ordering = elim (runs_cmp (digit_run x) (digit_run y)) [
      | Ordering.lt ↦ some Ordering.lt
      | Ordering.gt ↦ some Ordering.gt
      | Ordering.eq ↦ vercmp_loop f (after_run x) (after_run y)
    ] in
    let bytes : Option Ordering = elim (compare c d) [
      | Ordering.lt ↦ some Ordering.lt
      | Ordering.gt ↦ some Ordering.gt
      | Ordering.eq ↦ vercmp_loop f a b
    ] in
    if is_digit c && is_digit d
    then numeric
    else if is_digit c
    then some Ordering.gt
    else if is_digit d
    then some Ordering.lt
    else bytes

abbrev pub or_eq : Option Ordering → Ordering
or_eq none = Ordering.eq
or_eq (some o) = o

-- Each round passes at least one byte of `a`.
unfoldable pub vercmp : Str → Str → Ordering
vercmp a b = or_eq (vercmp_loop (suc (length a)) a b)
