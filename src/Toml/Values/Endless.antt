-- ===== src/Toml/Values/Endless.antt =====
-- An array whose end is not found.
use salt_os.Prelude.{ℕ, zero, suc, ◌≡◌, refl, [], ◌∷◌, Str, str_eq}
use salt_os.Prelude.Int.{ℤ}
use salt_os.Toml.Parsed.{Items, no_fuel, array_push, skip_ws_inline, skip_from}
use salt_os.Toml.Values.{
  parse_value, value_at, array_items, array_next, parse_scalar_token, scalar, span,
}

module _ (strtoll : Str → ℤ) where
  -- A closing brace where an item of an array is expected is taken as a bare value of no bytes, and
  -- the loop of `parse_array` comes back to the same brace with one more item: no amount of fuel is
  -- enough, whatever the items so far and the rest of the text.
  pub array_items-never_ends :
      (f : ℕ) (a : Items) (s : Str) → array_items strtoll f a (b'}' ∷ s) ≡ no_fuel
  unfolding array_items array_next parse_value value_at skip_ws_inline skip_from str_eq
      parse_scalar_token span
  array_items-never_ends zero a s = refl
  array_items-never_ends (suc zero) a s = refl
  array_items-never_ends (suc (suc zero)) a s = refl
  array_items-never_ends (suc (suc (suc f))) a s =
      array_items-never_ends (suc f) (array_push a (scalar strtoll [])) s
