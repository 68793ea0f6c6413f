-- ===== src/Toml/Values.antt =====
-- The values of TOML: `parse_scalar_token`, `parse_key_token`, `parse_array`, `parse_inline_table` and
-- `parse_value` of src/halite/src/toml.c.
pub mod Endless
use salt_os.Prelude.{
  ℕ, zero, suc, ◌+◌, ◌-◌, ◌*◌, ◌/◌, ◌%◌, ◌≤◌, ◌<◌, compare, Ordering, max, ◌≡◌, refl, sym, ap, ◌∙◌,
  subst, ◌≢◌, ◌↔◌, ◌⊎◌, inl, inr, ⊎_elim, Bool, true, false, not, ◌&&◌, ◌||◌, Option, none, some,
  List, [], ◌∷◌, ◌++◌, map, arith, ltb, leb, ◌==◌, ==_iff, if◌then◌else◌, &&_eq_true, Bool-cases,
  Option-cases, eq_of_iff, length, filter, any, length-append, mem-cons, mem-append, mem-concat,
  concat-ne_nil, not-mem-nil, mem-filter, Str, codes, str_eq, str_eq_iff, str_eq_refl, contains,
  contains-cons, contains-append, set_insert, set_of, contains-set_insert, contains-set_of, Memᴰ,
}
use salt_os.Prelude.Int.{ℤ}
use salt_os.Toml.Parsed.{
  Value, Items, Fields, string, int, bool, array, table, nil, cons, end, field, Parsed, done,
  failed, no_fuel, ◌>>=◌, array_push, table_set, skip_ws_inline, skip_ws_and_comments, starts, next,
}
use salt_os.Toml.Strings.{
  is_digit, basic_string, literal_string, three, drop_three, parse_multiline_basic,
  parse_multiline_literal,
}

-- The bytes that end a bare value.
abbrev pub ends_scalar : ℕ → Bool
ends_scalar c =
    c == b',' || c == b']' || c == b'}' || c == 10 || c == b'#' || c == 32 || c == 9 || c == 13

-- The longest head of a text whose bytes pass a test, and what is behind it.
unfoldable pub span : (ℕ → Bool) → Str → Str × Str
span p [] = ([], [])
span p (c ∷ s) = let rest = span p s in if p c then (c ∷ rest.0, rest.1) else ([], c ∷ s)

-- `for (i = start_i; tok[i]; i++)`
unfoldable pub all_digits : Str → Bool
all_digits [] = true
all_digits (c ∷ s) = let rest = all_digits s in if c == b'_' || is_digit c then rest else false

abbrev unsigned : Str → Str
unsigned [] = []
unsigned (c ∷ s) = if c == b'+' || c == b'-' then s else c ∷ s

-- `is_int`
abbrev pub is_int : Str → Bool
is_int tok = not (str_eq (unsigned tok) []) && all_digits (unsigned tok)

-- `clean`, which has room for 63 bytes.
unfoldable pub clean : ℕ → Str → Str
clean zero s = []
clean (suc n) [] = []
clean (suc n) (c ∷ s) =
    let kept = clean n s in let same = clean (suc n) s in if c == b'_' then same else c ∷ kept

-- `isalnum`, '_' and '-'
abbrev pub is_key_byte : ℕ → Bool
is_key_byte c =
    is_digit c || leb b'a' c && leb c b'z' || leb b'A' c && leb c b'Z' || c == b'_' || c == b'-'

abbrev pub bare_key : Str × Str → Parsed Str
bare_key ([], s) = failed
bare_key (c ∷ k, s) = done (c ∷ k) s

-- `parse_key_token`
unfoldable pub parse_key_at : ℕ → Str → Parsed Str
parse_key_at f [] = failed
parse_key_at f (c ∷ s) =
    if c == 34
    then basic_string f [] s
    else if c == 39
    then literal_string [] s
    else bare_key (span is_key_byte (c ∷ s))

abbrev pub parse_key_token : ℕ → Str → Parsed Str
parse_key_token f s = parse_key_at f (skip_ws_inline s)

-- `strtoll` in base 10.
module _ (strtoll : Str → ℤ) where
  -- The value of a bare token.
  unfoldable pub scalar : Str → Value
  scalar tok =
      if str_eq tok (codes "true")
      then bool true
      else if str_eq tok (codes "false")
      then bool false
      else if is_int tok
      then int (strtoll (clean 63 tok))
      else string tok

  -- `parse_scalar_token`
  unfoldable pub parse_scalar_token : Str → Parsed Value
  parse_scalar_token s =
      let (tok, rest) = span (λ c. not (ends_scalar c)) s in done (scalar tok) rest

  abbrev pub as_string : Parsed Str → Parsed Value
  as_string p = p >>= λ b. done (string b)

  -- Each call of `parse_value` and each round of a loop costs a unit of fuel.
  unfoldable mutual
    pub parse_value : ℕ → Str → Parsed Value
    parse_value zero s = no_fuel
    parse_value (suc f) s = value_at f (skip_ws_inline s)

    -- `parse_value` at a byte that is no blank.
    pub value_at : ℕ → Str → Parsed Value
    value_at zero s = no_fuel
    value_at (suc f) [] = failed
    value_at (suc f) (c ∷ s) =
        let items = array_items f nil s in
        let fields = inline_table f s in
        if c == 34
        then if three 34 (c ∷ s)
          then as_string (parse_multiline_basic f (next (next s)))
          else as_string (basic_string f [] s)
        else if c == 39
        then if three 39 (c ∷ s)
          then as_string (parse_multiline_literal (next (next s)))
          else as_string (literal_string [] s)
        else if c == b'['
        then items
        else if c == b'{'
        then fields
        else parse_scalar_token (c ∷ s)

    -- The loop of `parse_array`, behind the bracket.
    pub array_items : ℕ → Items → Str → Parsed Value
    array_items zero a s = no_fuel
    array_items (suc f) a s =
        let at = skip_ws_and_comments s in
        let more = parse_value f at >>= λ v rest.
        array_next f (array_push a v) (skip_ws_and_comments rest) in
        if str_eq at [] then failed else if starts b']' at then done (array a) (next at) else more

    -- What follows an item: neither a comma nor a bracket is asked for.
    pub array_next : ℕ → Items → Str → Parsed Value
    array_next zero a s = no_fuel
    array_next (suc f) a s =
        let comma = array_items f a (next s) in
        let again = array_items f a s in
        if starts b',' s then comma else if starts b']' s then done (array a) (next s) else again

    -- `parse_inline_table`, behind the brace.
    pub inline_table : ℕ → Str → Parsed Value
    inline_table zero s = no_fuel
    inline_table (suc f) s =
        let at = skip_ws_inline s in
        let fields = inline_fields f end at in
        if starts b'}' at then done (table end) (next at) else fields

    pub inline_fields : ℕ → Fields → Str → Parsed Value
    inline_fields zero t s = no_fuel
    inline_fields (suc f) t s =
        parse_key_token f s >>= λ key after_key. inline_field f t key (skip_ws_inline after_key)

    pub inline_field : ℕ → Fields → Str → Str → Parsed Value
    inline_field zero t key s = no_fuel
    inline_field (suc f) t key s =
        let value = parse_value f (skip_ws_inline (next s)) >>= λ v rest.
        inline_next f (table_set key v t) (skip_ws_inline rest) in
        if starts b'=' s then value else failed

    pub inline_next : ℕ → Fields → Str → Parsed Value
    inline_next zero t s = no_fuel
    inline_next (suc f) t s =
        let comma = inline_fields f t (next s) in
        if starts b',' s then comma else if starts b'}' s then done (table t) (next s) else failed
