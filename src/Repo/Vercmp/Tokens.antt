-- ===== src/Repo/Vercmp/Tokens.antt =====
-- What a version says, apart from the code that compares versions: numbers and single characters.
use salt_os.Prelude.{
  ℕ, ◌+◌, ◌-◌, ◌*◌, ◌≡◌, ◌≢◌, refl, List, [], ◌∷◌, Option, none, some, Str, compare, Ordering,
  if◌then◌else◌, arith,
}
use salt_os.Repo.Vercmp.{is_digit}

-- A run of digits as the number that it writes, and any other byte.
pub data Token : Type 0 where
  sep : ℕ → Token
  num : ℕ → Token

-- `some v`: the bytes before `s` end in a run of digits that writes `v`.
unfoldable pub tokens_from : Option ℕ → Str → List Token
unfolding is_digit
tokens_from none [] = []
tokens_from (some v) [] = num v ∷ []
tokens_from none (c ∷ s) =
    let more = tokens_from (some (c - b'0')) s in
    let next = sep c ∷ tokens_from none s in if is_digit c then more else next
tokens_from (some v) (c ∷ s) =
    let more = tokens_from (some (v * 10 + (c - b'0'))) s in
    let next = num v ∷ sep c ∷ tokens_from none s in if is_digit c then more else next

abbrev pub tokens : Str → List Token
tokens = tokens_from none

-- A character is below a number, and numbers are compared as integers.
unfoldable pub token_cmp : Token → Token → Ordering
token_cmp (sep c) (sep d) = compare c d
token_cmp (sep c) (num n) = Ordering.lt
token_cmp (num m) (sep d) = Ordering.gt
token_cmp (num m) (num n) = compare m n

-- The lexicographic order of token lists, in which a proper prefix is below.
unfoldable pub tokens_cmp : List Token → List Token → Ordering
unfolding token_cmp
tokens_cmp [] [] = Ordering.eq
tokens_cmp [] (u ∷ us) = Ordering.lt
tokens_cmp (t ∷ ts) [] = Ordering.gt
tokens_cmp (t ∷ ts) (u ∷ us) = elim (token_cmp t u) [
  | Ordering.lt ↦ Ordering.lt
  | Ordering.gt ↦ Ordering.gt
  | Ordering.eq ↦ tokens_cmp ts us
]

abbrev pub flip : Ordering → Ordering
flip Ordering.lt = Ordering.gt
flip Ordering.eq = Ordering.eq
flip Ordering.gt = Ordering.lt

token_cmp-flip : (t u : Token) → token_cmp u t ≡ flip (token_cmp t u)
unfolding token_cmp
token_cmp-flip t u = ground arith

token_cmp_eq : (t u : Token) → token_cmp t u ≡ Ordering.eq → t ≡ u
unfolding token_cmp
token_cmp_eq t u h = ground arith

token_cmp_trans :
    (t u v : Token)
    → token_cmp t u ≢ Ordering.gt
    → token_cmp u v ≢ Ordering.gt
    → (token_cmp t v ≢ Ordering.gt) × (token_cmp t v ≡ Ordering.eq → token_cmp t u ≡ Ordering.eq)
unfolding token_cmp
token_cmp_trans t u v h k = ground arith

pub tokens_cmp-flip : (ts us : List Token) → tokens_cmp us ts ≡ flip (tokens_cmp ts us)
unfolding tokens_cmp
tokens_cmp-flip [] [] = refl
tokens_cmp-flip [] (u ∷ us) = refl
tokens_cmp-flip (t ∷ ts) [] = refl
tokens_cmp-flip (t ∷ ts) (u ∷ us) =
    unfold tokens_cmp in ground (arith, token_cmp-flip t u, tokens_cmp-flip ts us)

pub tokens_cmp_self : (ts : List Token) → tokens_cmp ts ts ≡ Ordering.eq
unfolding tokens_cmp
tokens_cmp_self [] = refl
tokens_cmp_self (t ∷ ts) = ground (arith, token_cmp-flip t t, tokens_cmp_self ts)

pub tokens_cmp_eq : (ts us : List Token) → tokens_cmp ts us ≡ Ordering.eq → ts ≡ us
unfolding tokens_cmp
tokens_cmp_eq [] [] h = refl
tokens_cmp_eq [] (u ∷ us) h = cc
tokens_cmp_eq (t ∷ ts) [] h = cc
tokens_cmp_eq (t ∷ ts) (u ∷ us) h = ground (arith, token_cmp_eq t u, tokens_cmp_eq ts us)

pub tokens_cmp_trans :
    (ts us vs : List Token)
    → tokens_cmp ts us ≢ Ordering.gt
    → tokens_cmp us vs ≢ Ordering.gt
    → tokens_cmp ts vs ≢ Ordering.gt
unfolding tokens_cmp
tokens_cmp_trans [] us [] h k = λ e. cc
tokens_cmp_trans [] us (v ∷ vs) h k = λ e. cc
tokens_cmp_trans (t ∷ ts) [] vs h k = absurd (h refl)
tokens_cmp_trans (t ∷ ts) (u ∷ us) [] h k = absurd (k refl)
tokens_cmp_trans (t ∷ ts) (u ∷ us) (v ∷ vs) h k =
    ground
      (arith, token_cmp_trans t u v, token_cmp_eq t u, token_cmp_eq u v, tokens_cmp_trans ts us vs)
