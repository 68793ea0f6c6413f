-- ===== src/Toml/Document.antt =====
-- Documents: `parse_dotted_path`, `descend_table` and `salt_toml_parse` of src/halite/src/toml.c.
use salt_os.Prelude.{
  ℕ, zero, suc, Bool, true, false, ◌&&◌, Option, none, some, List, [], ◌∷◌, ◌++◌, if◌then◌else◌,
  Str, str_eq,
}
use salt_os.Prelude.Int.{ℤ}
use salt_os.Toml.Parsed.{
  Value, Items, Fields, array, table, nil, cons, end, Parsed, done, failed, no_fuel, ◌>>=◌,
  array_push, table_set, table_get, skip_ws_inline, skip_ws_and_comments, skip_line, starts, next,
}
use salt_os.Toml.Values.{parse_key_token, parse_value}

-- `parse_dotted_path`
unfoldable mutual
  pub parse_dotted_path : ℕ → List Str → Str → Parsed (List Str)
  parse_dotted_path zero keys s = no_fuel
  parse_dotted_path (suc f) keys s =
      parse_key_token f s >>= λ k rest. dotted_next f (keys ++ k ∷ []) (skip_ws_inline rest)

  pub dotted_next : ℕ → List Str → Str → Parsed (List Str)
  dotted_next zero keys s = no_fuel
  dotted_next (suc f) keys s =
      let more = parse_dotted_path f keys (next s) in if starts b'.' s then more else done keys s

-- The last item of an array if it is a table, which is changed by `f`.
unfoldable pub in_last : (Fields → Option Fields) → Items → Option Items
in_last f nil = none
in_last f (cons (table t) nil) = elim (f t) [ none ↦ none | some u ↦ some (cons (table u) nil) ]
in_last f (cons v nil) = none
in_last f (cons v (cons w items)) = elim (in_last f (cons w items)) [
  | none ↦ none
  | some rest ↦ some (cons v rest)
]

abbrev pub put_table : Str → Fields → Option Fields → Option Fields
put_table k t none = none
put_table k t (some u) = some (table_set k (table u) t)

abbrev pub put_array : Str → Fields → Option Items → Option Fields
put_array k t none = none
put_array k t (some items) = some (table_set k (array items) t)

-- `descend_table` along keys to a table, which is then changed by `f`. A table that is missing is
-- made, an array stands for the last of its tables, and anything else is a conflict.
unfoldable pub descend : List Str → (Fields → Option Fields) → Fields → Option Fields
descend [] f t = f t
descend (k ∷ ks) f t = elim (table_get k t) [
  | none ↦ put_table k t (descend ks f end)
  | some (table u) ↦ put_table k t (descend ks f u)
  | some (array items) ↦ put_array k t (in_last (descend ks f) items)
  | some _ ↦ none
]

-- The last key of an array of tables: a new table is pushed.
unfoldable pub push_table : Str → Fields → Option Fields
push_table k t = elim (table_get k t) [
  | none ↦ some (table_set k (array (cons (table end) nil)) t)
  | some (array items) ↦ some (table_set k (array (array_push items (table end))) t)
  | some _ ↦ none
]

-- All keys but the last, and the last.
unfoldable pub all_but_last : Str → List Str → List Str
all_but_last k [] = []
all_but_last k (j ∷ ks) = k ∷ all_but_last j ks

unfoldable pub last_key : Str → List Str → Str
last_key k [] = k
last_key k (j ∷ ks) = last_key j ks

-- `descend_table` at a header.
unfoldable pub open_table : Bool → List Str → Fields → Option Fields
open_table aot [] t = some t
open_table true (k ∷ ks) t = descend (all_but_last k ks) (push_table (last_key k ks)) t
open_table false (k ∷ ks) t = descend (k ∷ ks) some t

-- A key and its value, below the current table.
unfoldable pub assign : List Str → List Str → Value → Fields → Option Fields
assign current [] v t = none
assign current (k ∷ ks) v t =
    descend (current ++ all_but_last k ks) (λ u. some (table_set (last_key k ks) v u)) t

abbrev pub closing : Bool → Str → Str
closing aot s =
    let one = if starts b']' s then next s else s in
    if aot && starts b']' one then next one else one

-- The comment that may follow a value.
abbrev pub after_value : Str → Str
after_value s = let at = skip_ws_inline s in if starts b'#' at then skip_line at else at

module _ (strtoll : Str → ℤ) where
  -- The loop of `salt_toml_parse`. The current table is the one at the keys `current`.
  unfoldable mutual
    pub parse_document : ℕ → List Str → Fields → Str → Parsed Fields
    parse_document zero current root s = no_fuel
    parse_document (suc f) current root s =
        let at = skip_ws_and_comments s in
        let header = parse_header f root (starts b'[' (next at)) (next at) in
        let line = parse_line f current root at in
        if str_eq at [] then done root [] else if starts b'[' at then header else line

    pub parse_header : ℕ → Fields → Bool → Str → Parsed Fields
    parse_header zero root aot s = no_fuel
    parse_header (suc f) root aot s =
        parse_dotted_path f [] (if aot then next s else s) >>= λ keys rest.
        elim (open_table aot keys root) [
          | none ↦ failed
          | some t ↦ parse_document f keys t (closing aot (skip_ws_inline rest))
        ]

    pub parse_line : ℕ → List Str → Fields → Str → Parsed Fields
    parse_line zero current root s = no_fuel
    parse_line (suc f) current root s = parse_dotted_path f [] s >>= λ keys rest.
        line_value f current root keys (skip_ws_inline rest)

    pub line_value : ℕ → List Str → Fields → List Str → Str → Parsed Fields
    line_value zero current root keys s = no_fuel
    line_value (suc f) current root keys s =
        let value = parse_value strtoll f (next s) >>= λ v rest. elim (assign current keys v root) [
          | none ↦ failed
          | some t ↦ parse_document f current t (after_value rest)
        ] in
        if starts b'=' s then value else failed
