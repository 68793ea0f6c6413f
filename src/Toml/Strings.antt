-- ===== src/Toml/Strings.antt =====
-- The strings of TOML: `append_utf8`, `parse_escape` and the four forms of src/halite/src/toml.c.
-- A 0 that an escape writes is a byte here, and ends the string in C.
use salt_os.Prelude.{
  ℕ, zero, suc, ◌+◌, ◌-◌, ◌*◌, ◌/◌, ◌%◌, ◌^◌, Bool, false, not, ◌&&◌, ◌||◌, Option, none, some, [],
  ◌∷◌, ◌++◌, ltb, leb, ◌==◌, if◌then◌else◌, Str,
}
use Prim.Native.Nat.{bit_or}
use salt_os.Toml.Parsed.{Parsed, done, failed, no_fuel, starts, next}

-- `isdigit`, `isxdigit`
abbrev pub is_digit : ℕ → Bool
is_digit c = leb b'0' c && leb c b'9'

abbrev pub is_xdigit : ℕ → Bool
is_xdigit c = is_digit c || leb b'a' c && leb c b'f' || leb b'A' c && leb c b'F'

-- `h <= '9' ? h - '0' : (tolower(h) - 'a' + 10)`
abbrev xdigit_value : ℕ → ℕ
xdigit_value h =
    if leb h b'9' then h - b'0' else if leb h b'F' then h - b'A' + 10 else h - b'a' + 10

-- `append_utf8`; a `char` keeps the low byte.
unfoldable pub utf8 : ℕ → Str
utf8 cp =
    if ltb cp 0x80
    then cp ∷ []
    else if ltb cp 0x800
    then bit_or 0xC0 (cp / 64) ∷ bit_or 0x80 (cp % 64) ∷ []
    else if ltb cp 0x10000
    then bit_or 0xE0 (cp / 4096) ∷ bit_or 0x80 (cp / 64 % 64) ∷ bit_or 0x80 (cp % 64) ∷ []
    else bit_or 0xF0 (cp / 262144) % 256
      ∷ bit_or 0x80 (cp / 4096 % 64)
      ∷ bit_or 0x80 (cp / 64 % 64)
      ∷ bit_or 0x80 (cp % 64)
      ∷ []

-- The digits of \u and \U; `cp` is a 32-bit number.
unfoldable pub hex_digits : ℕ → ℕ → Str → Option (ℕ × Str)
hex_digits zero cp s = some (cp, s)
hex_digits (suc n) cp [] = none
hex_digits (suc n) cp (h ∷ s) =
    let rest = hex_digits n ((cp * 16 + xdigit_value h) % 2 ^ 32) s in
    if is_xdigit h then rest else none

abbrev code_point : Option (ℕ × Str) → Option (Str × Str)
code_point none = none
code_point (some (cp, s)) = some (utf8 cp, s)

-- `parse_escape`, behind the backslash: what it appends, and the rest.
unfoldable pub parse_escape : Str → Option (Str × Str)
parse_escape [] = none
parse_escape (c ∷ s) =
    if c == b'b'
    then some (8 ∷ [], s)
    else if c == b't'
    then some (9 ∷ [], s)
    else if c == b'n'
    then some (10 ∷ [], s)
    else if c == b'f'
    then some (12 ∷ [], s)
    else if c == b'r'
    then some (13 ∷ [], s)
    else if c == 34 || c == 92
    then some (c ∷ [], s)
    else if c == b'u'
    then code_point (hex_digits 4 0 s)
    else if c == b'U'
    then code_point (hex_digits 8 0 s)
    else none

abbrev pub escaped : Option (Str × Str) → (Str → Str → Parsed Str) → Parsed Str
escaped none f = failed
escaped (some (out, s)) f = f out s

-- `parse_basic_string` behind its quote; `b` is the buffer.
unfoldable pub basic_string : ℕ → Str → Str → Parsed Str
basic_string zero b s = no_fuel
basic_string (suc f) b [] = failed
basic_string (suc f) b (c ∷ s) =
    let after_escape = escaped (parse_escape s) (λ out. basic_string f (b ++ out)) in
    let more = basic_string f (b ++ c ∷ []) s in
    if c == 34 then done b s else if c == 92 then after_escape else if c == 10 then failed else more

-- `parse_literal_string` behind its quote.
unfoldable pub literal_string : Str → Str → Parsed Str
literal_string b [] = failed
literal_string b (c ∷ s) =
    let more = literal_string (b ++ c ∷ []) s in
    if c == 39 then done b s else if c == 10 then failed else more

-- Three quotes at the head of a text.
unfoldable pub three : ℕ → Str → Bool
three q (a ∷ b ∷ c ∷ s) = a == q && b == q && c == q
three q _ = false

abbrev pub drop_three : Str → Str
drop_three s = next (next (next s))

-- The newline that may follow the three quotes.
abbrev drop_newline : Str → Str
drop_newline [] = []
drop_newline (c ∷ s) = if c == 10 then s else if c == 13 && starts 10 s then next s else c ∷ s

-- The blanks behind a backslash.
unfoldable pub skip_blanks : Str → Str
skip_blanks [] = []
skip_blanks (c ∷ s) =
    let rest = skip_blanks s in if c == 32 || c == 9 || c == 13 then rest else c ∷ s

unfoldable pub skip_spaces : Str → Str
skip_spaces [] = []
skip_spaces (c ∷ s) =
    let rest = skip_spaces s in if c == 32 || c == 9 || c == 13 || c == 10 then rest else c ∷ s

-- Three quotes end the text unless a fourth one follows.
abbrev closes : Str → Bool
closes s = three 34 s && not (starts 34 (drop_three s))

-- `parse_multiline_basic` behind its quotes. Of the two tests for its end the second, for quotes at
-- the end of the text, asks for two bytes that are left and a third, and is never true.
unfoldable pub multiline_basic : ℕ → Str → Str → Parsed Str
multiline_basic zero b s = no_fuel
multiline_basic (suc f) b [] = failed
multiline_basic (suc f) b (c ∷ s) =
    let folded = multiline_basic f b (skip_spaces (skip_blanks s)) in
    let after_escape = escaped (parse_escape s) (λ out. multiline_basic f (b ++ out)) in
    let more = multiline_basic f (b ++ c ∷ []) s in
    if closes (c ∷ s)
    then done b (drop_three (c ∷ s))
    else if c == 92
    then (if starts 10 (skip_blanks s) then folded else after_escape)
    else more

-- `parse_multiline_literal` behind its quotes.
unfoldable pub multiline_literal : Str → Str → Parsed Str
multiline_literal b [] = failed
multiline_literal b (c ∷ s) =
    let more = multiline_literal (b ++ c ∷ []) s in
    if three 39 (c ∷ s) then done b (drop_three (c ∷ s)) else more

abbrev pub parse_multiline_basic : ℕ → Str → Parsed Str
parse_multiline_basic f s = multiline_basic f [] (drop_newline s)

abbrev pub parse_multiline_literal : Str → Parsed Str
parse_multiline_literal s = multiline_literal [] (if starts 10 s then next s else s)
