-- ===== src/Examples/Quoting.antt =====
-- Texts that are written and read as TOML.
use salt_os.Prelude.{
  ℕ, ◌+◌, ◌-◌, ◌*◌, ◌≤◌, ◌≡◌, refl, some, List, [], ◌∷◌, ◌++◌, arith, if◌then◌else◌, Str, codes,
}
use salt_os.Prelude.Int.{ℤ, pos}
use salt_os.Toml.Parsed.{string, table, end, done, no_fuel, nil}
use salt_os.Toml.Strings.{is_digit}
use salt_os.Toml.Values.{parse_value, array_items, span}
use salt_os.Toml.Values.Endless.{array_items-never_ends}
use salt_os.Toml.Document.{parse_document}
use salt_os.Toml.Query.{toml_string_array}
use salt_os.Toml.Quote.{toml_quote, toml_escape, emit_list, emit_str_array}
use salt_os.Toml.Quote.RoundTrip.{parse_value-toml_quote}
use salt_os.Toml.Quote.Lists.{room}
use salt_os.Toml.Quote.Lines.{
  AllKeyBytes, AllKeyBytes-nil, AllKeyBytes-cons, line_of, toml_string_array-emit_list,
}

abbrev digits_value : ℕ → Str → ℕ
digits_value n [] = n
digits_value n (c ∷ s) =
    let more = digits_value (n * 10 + (c - 48)) s in if is_digit c then more else n

abbrev to_int : Str → ℤ
to_int s = pos (digits_value 0 s)

abbrev pub to_index : Str → ℤ × Str
to_index s = (pos (digits_value 0 (span is_digit s).0), (span is_digit s).1)

-- A text with a quote, a backslash and a newline.
abbrev hard_text : Str
hard_text = b'a' ∷ 34 ∷ 92 ∷ 10 ∷ []

abbrev texts : List Str
texts = hard_text ∷ codes "libc" ∷ []

parse_value-toml_quote_example :
    (parse_value to_int 7 (toml_quote hard_text ++ codes ", ")
      ≡ done (string hard_text) (codes ", "))
    × (parse_value to_int 7 (toml_escape hard_text ++ codes ", ")
        ≡ done (string hard_text) (codes ", "))
parse_value-toml_quote_example =
    parse_value-toml_quote to_int 5 hard_text (codes ", ") (omega arith) refl

array_items-never_ends_example : array_items to_int 9 nil (codes "}]") ≡ no_fuel
array_items-never_ends_example = array_items-never_ends to_int 9 nil (codes "]")

deps-AllKeyBytes : AllKeyBytes (codes "deps")
deps-AllKeyBytes = AllKeyBytes-cons b'd' (codes "eps") refl (
    AllKeyBytes-cons b'e' (codes "ps") refl
      (AllKeyBytes-cons b'p' (codes "s") refl (AllKeyBytes-cons b's' [] refl AllKeyBytes-nil)))

enough : room texts ≤ 17
unfolding room
enough = omega arith

toml_string_array-emit_list_example :
    (parse_document to_int 22 [] end (emit_list (codes "deps") texts)
      ≡ done (line_of (codes "deps") texts) [])
    × (parse_document to_int 22 [] end (emit_str_array (codes "deps") texts)
        ≡ done (line_of (codes "deps") texts) [])
    × (toml_string_array to_index (table (line_of (codes "deps") texts)) (codes "deps")
        ≡ some texts)
toml_string_array-emit_list_example =
    toml_string_array-emit_list to_int to_index 17 b'd' (codes "eps") texts deps-AllKeyBytes
      (omega arith) enough
