-- ===== src/Toml/Quote/Lines.antt =====
-- A line that is written is read back by its key.
use salt_os.Prelude.{
  ℕ, zero, suc, ◌≤◌, ◌≡◌, refl, sym, ap, ◌∙◌, subst, inl, inr, true, false, Option, none, some,
  List, [], ◌∷◌, ◌++◌, arith, ◌==◌, ==_iff, Bool-cases, length, not-mem-nil, Str, str_eq,
  str_eq_refl, Memᴰ,
}
use mathlib.Core.List.Memᴰ
use salt_os.Prelude.Int.{ℤ}
use salt_os.Toml.Parsed.{
  Value, Fields, array, table, end, field, done, table_set, table_get, skip_ws_inline,
  skip_ws_and_comments, skip_from,
}
use salt_os.Toml.Values.{parse_value, parse_key_at, parse_key_token, span, is_key_byte}
use salt_os.Toml.Document.{
  parse_dotted_path, dotted_next, descend, all_but_last, last_key, assign, after_value,
  parse_document, parse_line, line_value,
}
use salt_os.Toml.Query.{
  toml_get, take_part, skip_dot, path_step, path_loop, strings_of, array_strings, toml_string_array,
}
use salt_os.Toml.Quote.{
  quote_byte, escape_byte, quoted, listed, emit_with, emit_list, emit_str_array,
}
use salt_os.Toml.Quote.RoundTrip.{IsQuoting, quote_byte-IsQuoting, escape_byte-IsQuoting}
use salt_os.Toml.Quote.Lists.{strings, room, parse_value-listed_by}

-- The bytes of a key that stands without quotes.
abbrev pub AllKeyBytes : Str → Type 0
AllKeyBytes s = (c : ℕ) → Memᴰ c s → is_key_byte c ≡ true

pub AllKeyBytes-nil : AllKeyBytes []
AllKeyBytes-nil c m = absurd (not-mem-nil c m)

pub AllKeyBytes-cons :
    (c : ℕ) (s : Str) → is_key_byte c ≡ true → AllKeyBytes s → AllKeyBytes (c ∷ s)
AllKeyBytes-cons c s h more d m = elim (Memᴰ.cases_cons m) [
  | inl e ↦ subst (λ x. is_key_byte x ≡ true) (sym e) h
  | inr later ↦ more d later
]

-- A byte of a key is none of the others.
not_key : (c d : ℕ) → is_key_byte c ≡ true → is_key_byte d ≡ false → c == d ≡ false
not_key c d h n = elim (Bool-cases (c == d)) [
  | inl e ↦ let same = (==_iff c d).0 e in cc
  | inr ne ↦ ne
]

span-key : (key s : Str) → AllKeyBytes key → span is_key_byte (key ++ (32 ∷ s)) ≡ (key, 32 ∷ s)
unfolding span
span-key [] s h = refl
span-key (c ∷ key) s h = rw (h c (Memᴰ.head refl), span-key key s (λ d m. h d (Memᴰ.tail m))) refl

take_part-key : (key : Str) (n : ℕ) → AllKeyBytes key → length key ≤ n → take_part n key ≡ (key, [])
unfolding take_part
take_part-key [] zero h l = refl
take_part-key [] (suc n) h l = refl
take_part-key (c ∷ key) zero h l = absurd (omega arith)
take_part-key (c ∷ key) (suc n) h l =
    rw
      (
        not_key c b'.' (h c (Memᴰ.head refl)) refl,
        take_part-key key n (λ d m. h d (Memᴰ.tail m)) (omega arith),
      )
      refl

parse_key_token-key :
    (f k : ℕ) (ks s : Str)
    → AllKeyBytes (k ∷ ks)
    → parse_key_token f (k ∷ (ks ++ (32 ∷ s))) ≡ done (k ∷ ks) (32 ∷ s)
unfolding skip_ws_inline parse_key_at
parse_key_token-key f k ks s h =
    let is_key = h k (Memᴰ.head refl) in
    rw
      (
        not_key k 32 is_key refl,
        not_key k 9 is_key refl,
        not_key k 34 is_key refl,
        not_key k 39 is_key refl,
        span-key (k ∷ ks) s h,
      )
      refl

skip-key : (k : ℕ) (s : Str) → is_key_byte k ≡ true → skip_ws_and_comments (k ∷ s) ≡ k ∷ s
unfolding skip_from
skip-key k s h =
    rw
      (
        not_key k 32 h refl,
        not_key k 9 h refl,
        not_key k 13 h refl,
        not_key k 10 h refl,
        not_key k b'#' h refl,
      )
      refl

parse_dotted_path-key :
    (f k : ℕ) (ks s : Str)
    → AllKeyBytes (k ∷ ks)
    → parse_dotted_path (suc (suc f)) [] (k ∷ (ks ++ (32 ∷ b'=' ∷ s)))
      ≡ done ((k ∷ ks) ∷ []) (b'=' ∷ s)
unfolding parse_dotted_path dotted_next skip_ws_inline
parse_dotted_path-key f k ks s h = rw (parse_key_token-key (suc f) k ks (b'=' ∷ s) h) refl

module _ (strtoll : Str → ℤ) where
  parse_value-space : (f : ℕ) (s : Str) → parse_value strtoll f (32 ∷ s) ≡ parse_value strtoll f s
  unfolding parse_value skip_ws_inline
  parse_value-space zero s = refl
  parse_value-space (suc f) s = refl

  -- What is left behind the list is the end of the line.
  parse_document-end :
      (f : ℕ) (t : Fields) → parse_document strtoll (suc f) [] t (after_value (10 ∷ [])) ≡ done t []
  unfolding parse_document skip_from skip_ws_inline str_eq
  parse_document-end f t = refl

  line_value-listed :
      (q : ℕ → Str)
      → IsQuoting q
      → (f : ℕ) (key : Str) (xs : List Str) → room xs ≤ f
      → line_value strtoll
          (suc (suc (suc f)))
          []
          end
          (key ∷ [])
          (b'=' ∷ 32 ∷ b'[' ∷ (listed (quoted q) xs ++ (b']' ∷ 10 ∷ [])))
        ≡ done (field key (array (strings xs)) end) []
  unfolding line_value assign descend table_set all_but_last last_key
  line_value-listed q g f key xs h =
      rw
        (
          parse_value-space (suc (suc f)) (b'[' ∷ (listed (quoted q) xs ++ (b']' ∷ 10 ∷ []))),
          parse_value-listed_by strtoll q g f xs (10 ∷ []) h,
        )
        (parse_document-end (suc f) (field key (array (strings xs)) end))

  parse_document-emit_with :
      (q : ℕ → Str)
      → IsQuoting q
      → (f k : ℕ) (ks : Str) (xs : List Str) → AllKeyBytes (k ∷ ks)
      → room xs ≤ f
      → parse_document strtoll
          (suc (suc (suc (suc (suc f)))))
          []
          end
          (emit_with (quoted q) (k ∷ ks) xs)
        ≡ done (field (k ∷ ks) (array (strings xs)) end) []
  unfolding parse_document parse_line emit_with str_eq skip_ws_inline
  parse_document-emit_with q g f k ks xs h enough =
      let value = b'[' ∷ (listed (quoted q) xs ++ (b']' ∷ 10 ∷ [])) in
      rw
        (
          skip-key k (ks ++ (32 ∷ b'=' ∷ 32 ∷ value)) (h k (Memᴰ.head refl)),
          not_key k b'[' (h k (Memᴰ.head refl)) refl,
          parse_dotted_path-key (suc f) k ks (32 ∷ value) h,
        )
        (line_value-listed q g f (k ∷ ks) xs enough)

strings_of-strings : (xs : List Str) → strings_of (strings xs) ≡ xs
unfolding strings_of strings
strings_of-strings [] = refl
strings_of-strings (x ∷ xs) = ap (λ r. x ∷ r) (strings_of-strings xs)

-- The table of one line.
abbrev pub line_of : Str → List Str → Fields
line_of key xs = field key (array (strings xs)) end

path_loop-end : (strtol : Str → ℤ × Str) (n : ℕ) (v : Option Value) → path_loop strtol n v [] ≡ v
unfolding path_loop
path_loop-end strtol zero none = refl
path_loop-end strtol zero (some cur) = refl
path_loop-end strtol (suc n) none = refl
path_loop-end strtol (suc n) (some cur) = refl

-- A path of one part.
path_loop-part :
    (strtol : Str → ℤ × Str) (n c : ℕ) (p part : Str) (cur : Value)
    → take_part 255 (c ∷ p) ≡ (part, [])
    → path_loop strtol (suc n) (some cur) (c ∷ p) ≡ path_step strtol cur part
unfolding path_loop
path_loop-part strtol n c p part cur e =
    ap (λ r. path_loop strtol n (path_step strtol cur r.0) (skip_dot r.1)) e
    ∙ path_loop-end strtol n (path_step strtol cur part)

toml_string_array-line_of :
    (strtol : Str → ℤ × Str) (k : ℕ) (ks : Str) (xs : List Str)
    → AllKeyBytes (k ∷ ks)
    → length (k ∷ ks) ≤ 255
    → toml_string_array strtol (table (line_of (k ∷ ks) xs)) (k ∷ ks) ≡ some xs
unfolding path_step toml_get table_get array_strings
toml_string_array-line_of strtol k ks xs h short =
    let root = table (line_of (k ∷ ks) xs) in
    ap array_strings
      (path_loop-part strtol (length ks) k ks (k ∷ ks) root (take_part-key (k ∷ ks) 255 h short))
    ∙ rw (str_eq_refl (k ∷ ks), strings_of-strings xs) refl

-- A line that `emit_list` or `emit_str_array` writes for a key of 1 to 255 letters, digits, `_` and
-- `-` and for any texts is parsed as a document whose value at that key is the list of the texts, as
-- `salt_toml_string_array` reads it, when the fuel is enough for the lengths of the texts.
pub toml_string_array-emit_list :
    (strtoll : Str → ℤ) (strtol : Str → ℤ × Str) (f k : ℕ) (ks : Str) (xs : List Str)
    → AllKeyBytes (k ∷ ks)
    → length (k ∷ ks) ≤ 255
    → room xs ≤ f
    → (parse_document strtoll (suc (suc (suc (suc (suc f))))) [] end (emit_list (k ∷ ks) xs)
        ≡ done (line_of (k ∷ ks) xs) [])
      × (parse_document strtoll (suc (suc (suc (suc (suc f))))) [] end (emit_str_array (k ∷ ks) xs)
          ≡ done (line_of (k ∷ ks) xs) [])
      × (toml_string_array strtol (table (line_of (k ∷ ks) xs)) (k ∷ ks) ≡ some xs)
toml_string_array-emit_list strtoll strtol f k ks xs h short enough = (
  parse_document-emit_with strtoll quote_byte quote_byte-IsQuoting f k ks xs h enough,
  parse_document-emit_with strtoll escape_byte escape_byte-IsQuoting f k ks xs h enough,
  toml_string_array-line_of strtol k ks xs h short,
)
