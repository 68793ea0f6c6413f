-- ===== src/Toml/Quote.antt =====
-- What src/halite/src/repo.c and src/halite/src/pkg.c write as TOML: `toml_quote`, `toml_escape`,
-- `emit_list` and `emit_str_array`.
pub mod RoundTrip
pub mod Lists
pub mod Lines
use salt_os.Prelude.{
  ℕ, zero, suc, ◌+◌, ◌-◌, ◌*◌, ◌/◌, ◌%◌, ◌≤◌, ◌<◌, compare, Ordering, max, ◌≡◌, refl, sym, ap, ◌∙◌,
  subst, ◌≢◌, ◌↔◌, ◌⊎◌, inl, inr, ⊎_elim, Bool, true, false, not, ◌&&◌, ◌||◌, Option, none, some,
  List, [], ◌∷◌, ◌++◌, map, arith, ltb, leb, ◌==◌, ==_iff, if◌then◌else◌, &&_eq_true, Bool-cases,
  Option-cases, eq_of_iff, length, filter, any, length-append, mem-cons, mem-append, mem-concat,
  concat-ne_nil, not-mem-nil, mem-filter, Str, codes, str_eq, str_eq_iff, str_eq_refl, contains,
  contains-cons, contains-append, set_insert, set_of, contains-set_insert, contains-set_of, Memᴰ,
}

-- `toml_quote`, byte by byte.
unfoldable pub quote_byte : ℕ → Str
quote_byte c =
    if c == 34 || c == 92 then 92 ∷ c ∷ [] else if c == 10 then 92 ∷ b'n' ∷ [] else c ∷ []

unfoldable pub escape_byte : ℕ → Str
escape_byte c =
    if c == 34 || c == 92
    then 92 ∷ c ∷ []
    else if c == 10
    then 92 ∷ b'n' ∷ []
    else if c == 9
    then 92 ∷ b't' ∷ []
    else if c == 13
    then 92 ∷ b'r' ∷ []
    else c ∷ []

unfoldable pub each_byte : (ℕ → Str) → Str → Str
each_byte q [] = []
each_byte q (c ∷ s) = q c ++ each_byte q s

-- A text between quotes, each byte written by `q`.
unfoldable pub quoted : (ℕ → Str) → Str → Str
quoted q s = 34 ∷ (each_byte q s ++ 34 ∷ [])

abbrev pub toml_quote : Str → Str
toml_quote = quoted quote_byte

abbrev pub toml_escape : Str → Str
toml_escape = quoted escape_byte

-- The items of a list, each but the first behind a comma and a space.
unfoldable pub listed : (Str → Str) → List Str → Str
listed quote [] = []
listed quote (x ∷ []) = quote x
listed quote (x ∷ y ∷ xs) = quote x ++ (b',' ∷ 32 ∷ listed quote (y ∷ xs))

-- `emit_list` and `emit_str_array`, by their ways of quoting.
unfoldable pub emit_with : (Str → Str) → Str → List Str → Str
emit_with quote key l = key ++ (32 ∷ b'=' ∷ 32 ∷ b'[' ∷ (listed quote l ++ (b']' ∷ 10 ∷ [])))

abbrev pub emit_list : Str → List Str → Str
emit_list = emit_with toml_quote

abbrev pub emit_str_array : Str → List Str → Str
emit_str_array = emit_with toml_escape
