-- ===== src/Toml/Parsed.antt =====
-- What a step of the parser of src/halite/src/toml.c returns, and what it parses.
use salt_os.Prelude.{
  ℕ, Bool, true, false, not, ◌&&◌, ◌||◌, Option, none, some, [], ◌∷◌, ◌==◌, if◌then◌else◌, Str,
  str_eq,
}
use salt_os.Prelude.Int.{ℤ}

-- `salt_toml`
mutual
  pub data Value : Type 0 where
    string : Str → Value
    int : ℤ → Value
    bool : Bool → Value
    array : Items → Value
    table : Fields → Value

  pub data Items : Type 0 where
    nil : Items
    cons : Value → Items → Items

  pub data Fields : Type 0 where
    end : Fields
    field : Str → Value → Fields → Fields

-- A result with the rest of the text; NULL; or too little fuel.
pub data Parsed (A : Type 0) : Type 0 where
  done : A → Str → Parsed A
  failed : Parsed A
  no_fuel : Parsed A

infixl 5 ◌>>=◌
abbrev pub ◌>>=◌ : {A B : Type 0} → Parsed A → (A → Str → Parsed B) → Parsed B
done a s >>= f = f a s
failed >>= f = failed
no_fuel >>= f = no_fuel

-- `array_push`
unfoldable pub array_push : Items → Value → Items
array_push nil v = cons v nil
array_push (cons w items) v = cons w (array_push items v)

-- `table_set`
unfoldable pub table_set : Str → Value → Fields → Fields
table_set key v end = field key v end
table_set key v (field k w t) =
    let rest = table_set key v t in if str_eq k key then field k v t else field k w rest

-- `table_get_mut`, `salt_toml_get` of a table.
unfoldable pub table_get : Str → Fields → Option Value
table_get key end = none
table_get key (field k w t) = let rest = table_get key t in if str_eq k key then some w else rest

-- `skip_ws_inline`
unfoldable pub skip_ws_inline : Str → Str
skip_ws_inline [] = []
skip_ws_inline (c ∷ s) = let rest = skip_ws_inline s in if c == 32 || c == 9 then rest else c ∷ s

-- `while (ps->p < ps->end && *ps->p != '\n') ps->p++;`
unfoldable pub skip_line : Str → Str
skip_line [] = []
skip_line (c ∷ s) = let rest = skip_line s in if c == 10 then c ∷ s else rest

-- `skip_ws_and_comments`; in a comment everything up to the newline goes.
unfoldable pub skip_from : Bool → Str → Str
skip_from comment [] = []
skip_from comment (c ∷ s) =
    let inside = skip_from true s in
    let outside = skip_from false s in
    if comment && not (c == 10)
    then inside
    else if c == 32 || c == 9 || c == 13 || c == 10
    then outside
    else if c == b'#'
    then inside
    else c ∷ s

abbrev pub skip_ws_and_comments : Str → Str
skip_ws_and_comments = skip_from false

-- `ps->p < ps->end && *ps->p == c`
abbrev pub starts : ℕ → Str → Bool
starts c [] = false
starts c (d ∷ s) = d == c

-- `ps->p++`
abbrev pub next : Str → Str
next [] = []
next (c ∷ s) = s
