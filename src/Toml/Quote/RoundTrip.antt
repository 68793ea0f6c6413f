-- ===== src/Toml/Quote/RoundTrip.antt =====
-- What is quoted is read as it was.
use salt_os.Prelude.{
  ℕ, zero, suc, ◌<◌, ◌≡◌, refl, sym, ap, ◌∙◌, subst, inl, inr, false, [], ◌∷◌, ◌++◌, arith, ◌==◌,
  ==_iff, Bool-cases, length, Str,
}
use mathlib.Core.List.{append_assoc, append-nil}
use salt_os.Prelude.Int.{ℤ}
use salt_os.Toml.Parsed.{string, done, skip_ws_inline, starts}
use salt_os.Toml.Strings.{parse_escape, basic_string, three}
use salt_os.Toml.Values.{parse_value, value_at, as_string}
use salt_os.Toml.Quote.{quote_byte, escape_byte, each_byte, quoted, toml_quote, toml_escape}

-- A way to write a byte that the parser reads as the byte.
abbrev IsReadable : (ℕ → Str) → Type 0
IsReadable q =
    (c f : ℕ) (b rest : Str)
    → basic_string (suc f) b (q c ++ rest) ≡ basic_string f (b ++ c ∷ []) rest

quote_byte-IsReadable : IsReadable quote_byte
unfolding quote_byte basic_string parse_escape
quote_byte-IsReadable c f b rest = elim (Bool-cases (c == 34)) [
  | inl q ↦ rw ((==_iff c 34).0 q) refl
  | inr nq ↦ elim (Bool-cases (c == 92)) [
    | inl s ↦ rw ((==_iff c 92).0 s) refl
    | inr ns ↦ elim (Bool-cases (c == 10)) [
      | inl n ↦ rw ((==_iff c 10).0 n) refl
      | inr nn ↦ rw (nq, ns, nn) (rw (nq, ns, nn) refl)
    ]
  ]
]

escape_byte-IsReadable : IsReadable escape_byte
unfolding escape_byte basic_string parse_escape
escape_byte-IsReadable c f b rest = elim (Bool-cases (c == 34)) [
  | inl q ↦ rw ((==_iff c 34).0 q) refl
  | inr nq ↦ elim (Bool-cases (c == 92)) [
    | inl s ↦ rw ((==_iff c 92).0 s) refl
    | inr ns ↦ elim (Bool-cases (c == 10)) [
      | inl n ↦ rw ((==_iff c 10).0 n) refl
      | inr nn ↦ elim (Bool-cases (c == 9)) [
        | inl t ↦ rw ((==_iff c 9).0 t) refl
        | inr nt ↦ elim (Bool-cases (c == 13)) [
          | inl r ↦ rw ((==_iff c 13).0 r) refl
          | inr nr ↦ rw (nq, ns, nn, nt, nr) (rw (nq, ns, nn) refl)
        ]
      ]
    ]
  ]
]

-- The quote that ends a text.
basic_string-ended :
    (f : ℕ) (b rest : Str) → basic_string (suc f) b (34 ∷ rest) ≡ done (b ++ []) rest
unfolding basic_string
basic_string-ended f b rest = ap (λ c. done c rest) (sym (append-nil b))

basic_string-each_byte :
    (q : ℕ → Str)
    → IsReadable q
    → (f : ℕ) (b s rest : Str) → length s < f
    → basic_string f b (each_byte q s ++ (34 ∷ rest)) ≡ done (b ++ s) rest
unfolding each_byte
basic_string-each_byte q r zero b s rest h = grind arith
basic_string-each_byte q r (suc f) b [] rest h = basic_string-ended f b rest
basic_string-each_byte q r (suc f) b (c ∷ s) rest h =
    ap (basic_string (suc f) b) (append_assoc (q c) (each_byte q s) (34 ∷ rest))
    ∙ r c f b (each_byte q s ++ (34 ∷ rest))
    ∙ basic_string-each_byte q r f (b ++ c ∷ []) s rest (omega arith)
    ∙ ap (λ t. done t rest) (append_assoc b (c ∷ []) s)

-- A way to write a byte that leaves no bare quote.
abbrev pub IsQuoting : (ℕ → Str) → Type 0
IsQuoting q = IsReadable q × ((c : ℕ) (t : Str) → starts 34 (q c ++ t) ≡ false)

pub quote_byte-IsQuoting : IsQuoting quote_byte
unfolding quote_byte
quote_byte-IsQuoting = (
  quote_byte-IsReadable,
  λ c t. elim (Bool-cases (c == 34)) [
    | inl q ↦ rw ((==_iff c 34).0 q) refl
    | inr nq ↦ elim (Bool-cases (c == 92)) [
      | inl s ↦ rw ((==_iff c 92).0 s) refl
      | inr ns ↦ elim (Bool-cases (c == 10)) [
        | inl n ↦ rw ((==_iff c 10).0 n) refl
        | inr nn ↦ rw (nq, ns, nn) nq
      ]
    ]
  ],
)

pub escape_byte-IsQuoting : IsQuoting escape_byte
unfolding escape_byte
escape_byte-IsQuoting = (
  escape_byte-IsReadable,
  λ c t. elim (Bool-cases (c == 34)) [
    | inl q ↦ rw ((==_iff c 34).0 q) refl
    | inr nq ↦ elim (Bool-cases (c == 92)) [
      | inl s ↦ rw ((==_iff c 92).0 s) refl
      | inr ns ↦ elim (Bool-cases (c == 10)) [
        | inl n ↦ rw ((==_iff c 10).0 n) refl
        | inr nn ↦ elim (Bool-cases (c == 9)) [
          | inl t ↦ rw ((==_iff c 9).0 t) refl
          | inr nt ↦ elim (Bool-cases (c == 13)) [
            | inl r ↦ rw ((==_iff c 13).0 r) refl
            | inr nr ↦ rw (nq, ns, nn, nt, nr) nq
          ]
        ]
      ]
    ]
  ],
)

-- Three quotes are none when the second is no quote, or the third.
not-three : (s : Str) → starts 34 s ≡ false → three 34 (34 ∷ s) ≡ false
unfolding three
not-three [] h = refl
not-three (a ∷ []) h = refl
not-three (a ∷ b ∷ s) h = rw h refl

not-three_pair : (s : Str) → starts 34 s ≡ false → three 34 (34 ∷ 34 ∷ s) ≡ false
unfolding three
not-three_pair [] h = refl
not-three_pair (a ∷ s) h = rw h refl

not-three_quoted :
    (q : ℕ → Str)
    → IsQuoting q
    → (s rest : Str) → starts 34 rest ≡ false
    → three 34 (34 ∷ (each_byte q s ++ (34 ∷ rest))) ≡ false
unfolding each_byte
not-three_quoted q g [] rest h = not-three_pair rest h
not-three_quoted q g (c ∷ s) rest h = not-three ((q c ++ each_byte q s) ++ (34 ∷ rest)) (
    subst (λ t. starts 34 t ≡ false) (sym (append_assoc (q c) (each_byte q s) (34 ∷ rest)))
      (g.1 c (each_byte q s ++ (34 ∷ rest))))

quoted-append :
    (q : ℕ → Str) (s rest : Str) → quoted q s ++ rest ≡ 34 ∷ (each_byte q s ++ (34 ∷ rest))
unfolding quoted
quoted-append q s rest = ap (λ t. 34 ∷ t) (append_assoc (each_byte q s) (34 ∷ []) rest)

module _ (strtoll : Str → ℤ) where
  -- The value at a quote, when it is not one of three.
  value_at-quote :
      (f : ℕ) (s : Str)
      → three 34 (34 ∷ s) ≡ false
      → parse_value strtoll (suc (suc f)) (34 ∷ s) ≡ as_string strtoll (basic_string f [] s)
  unfolding parse_value value_at skip_ws_inline
  value_at-quote f s h = rw h refl

  pub parse_value-quoted :
      (q : ℕ → Str)
      → IsQuoting q
      → (f : ℕ) (s rest : Str) → length s < f
      → starts 34 rest ≡ false
      → parse_value strtoll (suc (suc f)) (quoted q s ++ rest) ≡ done (string s) rest
  parse_value-quoted q g f s rest enough h =
      ap (parse_value strtoll (suc (suc f))) (quoted-append q s rest)
      ∙ value_at-quote f (each_byte q s ++ (34 ∷ rest)) (not-three_quoted q g s rest h)
      ∙ ap (as_string strtoll) (basic_string-each_byte q g.0 f [] s rest enough)

  -- A text that `toml_quote` or `toml_escape` has written is read by the parser as that text,
  -- whatever its bytes are, and what follows it is left, when no quote follows and the fuel is above
  -- the length of the text by more than 2.
  pub parse_value-toml_quote :
      (f : ℕ) (s rest : Str)
      → length s < f
      → starts 34 rest ≡ false
      → parse_value strtoll (suc (suc f)) (toml_quote s ++ rest) ≡ done (string s) rest
        × parse_value strtoll (suc (suc f)) (toml_escape s ++ rest) ≡ done (string s) rest
  parse_value-toml_quote f s rest enough h = (
    parse_value-quoted quote_byte quote_byte-IsQuoting f s rest enough h,
    parse_value-quoted escape_byte escape_byte-IsQuoting f s rest enough h,
  )
