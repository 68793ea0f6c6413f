-- ===== src/Toml/Query.antt =====
-- The queries of src/halite/src/toml.c: `salt_toml_get`, `salt_toml_path`, `salt_toml_array_at`, the
-- `salt_toml_as_` functions and `salt_toml_string_array`; `none` is NULL.
pub mod Fuel
use salt_os.Prelude.{
  ℕ, zero, suc, Option, none, some, List, [], ◌∷◌, ◌==◌, if◌then◌else◌, length, Str,
}
use salt_os.Prelude.Int.{ℤ, pos, negsuc}
use salt_os.Toml.Parsed.{
  Value, Items, string, int, bool, array, table, nil, cons, table_get, starts, next,
}

-- `salt_toml_get`
unfoldable pub toml_get : Value → Str → Option Value
toml_get (table t) key = table_get key t
toml_get (string s) key = none
toml_get (int i) key = none
toml_get (bool b) key = none
toml_get (array a) key = none

unfoldable pub item_at : Items → ℕ → Option Value
item_at nil i = none
item_at (cons v a) zero = some v
item_at (cons v a) (suc i) = item_at a i

-- `salt_toml_array_at`
unfoldable pub toml_array_at : Value → ℕ → Option Value
toml_array_at (array a) i = item_at a i
toml_array_at (string s) i = none
toml_array_at (int n) i = none
toml_array_at (bool b) i = none
toml_array_at (table t) i = none

-- The bytes of a part, 255 at most, and what is behind them.
unfoldable pub take_part : ℕ → Str → Str × Str
take_part zero p = ([], p)
take_part (suc n) [] = ([], [])
take_part (suc n) (c ∷ p) =
    let rest = take_part n p in if c == b'.' then ([], c ∷ p) else (c ∷ rest.0, rest.1)

abbrev pub skip_dot : Str → Str
skip_dot p = if starts b'.' p then next p else p

-- A part of a path that counts the items of an array from 1, as `strtol` reads it.
unfoldable pub at_index : ℤ × Str → Value → Option Value
at_index (pos (suc i), []) cur = toml_array_at cur i
at_index (pos (suc i), c ∷ s) cur = none
at_index (pos zero, s) cur = none
at_index (negsuc i, s) cur = none

-- The strings among the items of an array.
unfoldable pub strings_of : Items → List Str
strings_of nil = []
strings_of (cons (string s) a) = s ∷ strings_of a
strings_of (cons (int i) a) = strings_of a
strings_of (cons (bool b) a) = strings_of a
strings_of (cons (array b) a) = strings_of a
strings_of (cons (table t) a) = strings_of a

-- `salt_toml_string_array`; `none` is SALT_ERR_NOTFOUND.
unfoldable pub array_strings : Option Value → Option (List Str)
array_strings (some (array a)) = some (strings_of a)
array_strings (some (string s)) = none
array_strings (some (int i)) = none
array_strings (some (bool b)) = none
array_strings (some (table t)) = none
array_strings none = none

module _ (strtol : Str → ℤ × Str) where
  -- One step along a part.
  unfoldable pub path_step : Value → Str → Option Value
  path_step (array a) part = at_index (strtol part) (array a)
  path_step (string s) part = toml_get (string s) part
  path_step (int i) part = toml_get (int i) part
  path_step (bool b) part = toml_get (bool b) part
  path_step (table t) part = toml_get (table t) part

  -- The loop of `salt_toml_path`, which takes a byte of the path at least in each round.
  unfoldable pub path_loop : ℕ → Option Value → Str → Option Value
  path_loop n none p = none
  path_loop n (some cur) [] = some cur
  path_loop zero (some cur) (c ∷ p) = none
  path_loop (suc n) (some cur) (c ∷ p) =
      let (part, rest) = take_part 255 (c ∷ p) in path_loop n (path_step cur part) (skip_dot rest)

  -- `salt_toml_path`
  abbrev pub toml_path : Value → Str → Option Value
  toml_path root key = path_loop (length key) (some root) key

  abbrev pub toml_string_array : Value → Str → Option (List Str)
  toml_string_array root key = array_strings (toml_path root key)

-- `salt_toml_as_string`
unfoldable pub toml_as_string : Option Value → Option Str
toml_as_string (some (string s)) = some s
toml_as_string (some (int i)) = none
toml_as_string (some (bool b)) = none
toml_as_string (some (array a)) = none
toml_as_string (some (table t)) = none
toml_as_string none = none

-- `salt_toml_as_int`
unfoldable pub toml_as_int : Option Value → ℤ → ℤ
toml_as_int (some (int i)) fallback = i
toml_as_int (some (string s)) fallback = fallback
toml_as_int (some (bool b)) fallback = fallback
toml_as_int (some (array a)) fallback = fallback
toml_as_int (some (table t)) fallback = fallback
toml_as_int none fallback = fallback
