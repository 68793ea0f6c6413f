-- ===== src/Toml/Quote/Lists.antt =====
-- Lists of texts that are written are read as they were.
use salt_os.Prelude.{
  ℕ, zero, suc, ◌+◌, ◌≤◌, ◌<◌, ◌≡◌, refl, sym, ap, ◌∙◌, false, List, [], ◌∷◌, ◌++◌, arith, length,
  Str, str_eq,
}
use mathlib.Core.List.{append_assoc}
use salt_os.Prelude.Int.{ℤ}
use salt_os.Toml.Parsed.{
  Value, Items, string, array, nil, cons, done, ◌>>=◌, array_push, skip_ws_inline,
  skip_ws_and_comments, skip_from, starts,
}
use salt_os.Toml.Values.{parse_value, value_at, array_items, array_next}
use salt_os.Toml.Quote.{quoted, listed}
use salt_os.Toml.Quote.RoundTrip.{IsQuoting, parse_value-quoted}

-- The items of an array of texts.
unfoldable pub strings : List Str → Items
strings [] = nil
strings (x ∷ xs) = cons (string x) (strings xs)

unfoldable join : Items → Items → Items
join nil b = b
join (cons v a) b = cons v (join a b)

join-array_push : (a b : Items) (v : Value) → join (array_push a v) b ≡ join a (cons v b)
unfolding join array_push
join-array_push nil b v = refl
join-array_push (cons w a) b v = ap (cons w) (join-array_push a b v)

join-nil : (a : Items) → join a nil ≡ a
unfolding join
join-nil nil = refl
join-nil (cons w a) = ap (cons w) (join-nil a)

-- The fuel that the items of a list take.
unfoldable pub room : List Str → ℕ
room [] = 1
room (x ∷ xs) = length x + 4 + room xs

room-pos : (xs : List Str) → 0 < room xs
unfolding room
room-pos [] = omega arith
room-pos (x ∷ xs) = let p = room-pos xs in omega arith

-- A quoted text at the head of the items.
skip-quoted :
    (q : ℕ → Str) (s rest : Str) → skip_ws_and_comments (quoted q s ++ rest) ≡ quoted q s ++ rest
unfolding quoted skip_from
skip-quoted q s rest = refl

module _ (strtoll : Str → ℤ) where
  array_items-quoted :
      (q : ℕ → Str) (f : ℕ) (a : Items) (s rest : Str)
      → array_items strtoll (suc f) a (quoted q s ++ rest) ≡ (
          parse_value strtoll f (quoted q s ++ rest) >>= λ v after.
          array_next strtoll f (array_push a v) (skip_ws_and_comments after))
  unfolding quoted array_items skip_from str_eq
  array_items-quoted q f a s rest = refl

  array_items-space :
      (f : ℕ) (a : Items) (s : Str) → array_items strtoll f a (32 ∷ s) ≡ array_items strtoll f a s
  unfolding array_items skip_from
  array_items-space zero a s = refl
  array_items-space (suc f) a s = refl

  array_items-end :
      (f : ℕ) (a : Items) (rest : Str)
      → array_items strtoll (suc f) a (b']' ∷ rest) ≡ done (array a) rest
  unfolding array_items skip_from str_eq
  array_items-end f a rest = refl

  -- An item and the byte behind it.
  array_items-item :
      (q : ℕ → Str)
      → IsQuoting q
      → (f : ℕ) (a : Items) (s rest : Str) → length s < f
      → starts 34 rest ≡ false
      → array_items strtoll (suc (suc (suc f))) a (quoted q s ++ rest)
        ≡ array_next strtoll (suc (suc f)) (array_push a (string s)) (skip_ws_and_comments rest)
  array_items-item q g f a s rest enough h =
      array_items-quoted q (suc (suc f)) a s rest
      ∙ ap
          (λ p. p >>= λ v after.
            array_next strtoll (suc (suc f)) (array_push a v) (skip_ws_and_comments after))
          (parse_value-quoted strtoll q g f s rest enough h)

  array_next-comma :
      (f : ℕ) (a : Items) (s : Str)
      → array_next strtoll (suc f) a (skip_ws_and_comments (b',' ∷ s)) ≡ array_items strtoll f a s
  unfolding array_next skip_from
  array_next-comma f a s = refl

  array_next-end :
      (f : ℕ) (a : Items) (s : Str)
      → array_next strtoll (suc f) a (skip_ws_and_comments (b']' ∷ s)) ≡ done (array a) s
  unfolding array_next skip_from
  array_next-end f a s = refl

  array_items-listed :
      (q : ℕ → Str)
      → IsQuoting q
      → (xs : List Str) (f : ℕ) (a : Items) (rest : Str) → room xs ≤ f
      → array_items strtoll f a (listed (quoted q) xs ++ (b']' ∷ rest))
        ≡ done (array (join a (strings xs))) rest
  unfolding listed strings room
  array_items-listed q g [] zero a rest h = grind arith
  array_items-listed q g [] (suc f) a rest h =
      array_items-end f a rest ∙ ap (λ b. done (array b) rest) (sym (join-nil a))
  array_items-listed q g (x ∷ []) (suc (suc (suc f))) a rest h =
      array_items-item q g f a x (b']' ∷ rest) (omega arith) refl
      ∙ array_next-end (suc f) (array_push a (string x)) rest
      ∙ ap (λ b. done (array b) rest)
          (sym (join-nil (array_push a (string x))) ∙ join-array_push a nil (string x))
  array_items-listed q g (x ∷ y ∷ xs) (suc (suc (suc f))) a rest h =
      let tail = listed (quoted q) (y ∷ xs) in
      ap (array_items strtoll (suc (suc (suc f))) a)
        (append_assoc (quoted q x) (b',' ∷ 32 ∷ tail) (b']' ∷ rest))
      ∙ array_items-item q g f a x (b',' ∷ 32 ∷ (tail ++ (b']' ∷ rest)))
          (let p = room-pos xs in omega arith) refl
      ∙ array_next-comma (suc f) (array_push a (string x)) (32 ∷ (tail ++ (b']' ∷ rest)))
      ∙ array_items-space (suc f) (array_push a (string x)) (tail ++ (b']' ∷ rest))
      ∙ array_items-listed q g (y ∷ xs) (suc f) (array_push a (string x)) rest (omega arith)
      ∙ ap (λ b. done (array b) rest) (join-array_push a (strings (y ∷ xs)) (string x))
  array_items-listed q g (x ∷ xs) zero a rest h = grind arith
  array_items-listed q g (x ∷ xs) (suc zero) a rest h = grind arith
  array_items-listed q g (x ∷ xs) (suc (suc zero)) a rest h = grind arith

  -- The parser at a bracket.
  parse_value-bracket :
      (f : ℕ) (s : Str) → parse_value strtoll (suc (suc f)) (b'[' ∷ s) ≡ array_items strtoll f nil s
  unfolding parse_value value_at skip_ws_inline
  parse_value-bracket f s = refl

  pub parse_value-listed_by :
      (q : ℕ → Str)
      → IsQuoting q
      → (f : ℕ) (xs : List Str) (rest : Str) → room xs ≤ f
      → parse_value strtoll (suc (suc f)) (b'[' ∷ (listed (quoted q) xs ++ (b']' ∷ rest)))
        ≡ done (array (strings xs)) rest
  unfolding join
  parse_value-listed_by q g f xs rest h =
      parse_value-bracket f (listed (quoted q) xs ++ (b']' ∷ rest))
      ∙ array_items-listed q g xs f nil rest h
