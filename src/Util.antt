-- ===== src/Util.antt =====
-- Paths of src/halite/src/util.c: `salt_path_is_confined` and `salt_join_path`.
pub mod Rc
pub mod Components
pub mod Names
pub mod Confined
pub mod Join
use salt_os.Prelude.{
  ℕ, zero, suc, ◌+◌, ◌-◌, ◌*◌, ◌/◌, ◌%◌, ◌≤◌, ◌<◌, compare, Ordering, max, ◌≡◌, refl, sym, ap, ◌∙◌,
  subst, ◌≢◌, ◌↔◌, ◌⊎◌, inl, inr, ⊎_elim, Bool, true, false, not, ◌&&◌, ◌||◌, Option, none, some,
  List, [], ◌∷◌, ◌++◌, map, arith, ltb, leb, ◌==◌, ==_iff, if◌then◌else◌, &&_eq_true, Bool-cases,
  Option-cases, eq_of_iff, length, filter, any, length-append, mem-cons, mem-append, not-mem-nil,
  mem-filter, Str, codes, str_eq, str_eq_iff, str_eq_refl, contains, contains-cons, contains-append,
  Memᴰ,
}

-- `while (*q && *q != '/') q++;`: the bytes passed over, and the rest behind one '/'.
unfoldable pub until_slash : Str → Str
until_slash [] = []
until_slash (c ∷ s) = let rest = until_slash s in if c == b'/' then [] else c ∷ rest

unfoldable pub after_slash : Str → Str
after_slash [] = []
after_slash (c ∷ s) = let rest = after_slash s in if c == b'/' then s else rest

-- `n == 2 && p[0] == '.' && p[1] == '.'`
abbrev pub is_dot_dot : Str → Bool
is_dot_dot s = str_eq s (b'.' ∷ b'.' ∷ [])

-- `n > 0 && !(n == 1 && p[0] == '.')`
abbrev pub is_real : Str → Bool
is_real s = not (str_eq s []) && not (str_eq s (b'.' ∷ []))

-- The loop, on fuel; `none` means that the fuel ran out.
unfoldable pub confined_loop : ℕ → Bool → Str → Option Bool
confined_loop zero seen p = none
confined_loop (suc f) seen [] = some seen
confined_loop (suc f) seen (c ∷ s) =
    let comp = until_slash (c ∷ s) in
    let rest = confined_loop f (is_real comp || seen) (after_slash (c ∷ s)) in
    if is_dot_dot comp then some false else rest

abbrev pub or_false : Option Bool → Bool
or_false none = false
or_false (some b) = b

-- `salt_path_is_confined`
unfoldable pub path_is_confined : Str → Bool
path_is_confined [] = false
path_is_confined (c ∷ s) =
    if c == b'/' then false else or_false (confined_loop (suc (length (c ∷ s))) false (c ∷ s))

-- `a[la - 1] == '/'`
unfoldable pub ends_in_slash : Str → Bool
ends_in_slash [] = false
ends_in_slash (c ∷ []) = c == b'/'
ends_in_slash (c ∷ d ∷ s) = ends_in_slash (d ∷ s)

-- `while (*b == '/') b++;`
unfoldable pub strip_slashes : Str → Str
strip_slashes [] = []
strip_slashes (c ∷ s) = let rest = strip_slashes s in if c == b'/' then rest else c ∷ s

-- `salt_join_path`, at strings that are not NULL.
unfoldable pub join_path : Str → Str → Str
join_path [] b = b
join_path (c ∷ a) [] = c ∷ a
join_path (c ∷ a) (d ∷ b) =
    let rest = strip_slashes (d ∷ b) in
    if ends_in_slash (c ∷ a) then (c ∷ a) ++ rest else (c ∷ a) ++ (b'/' ∷ rest)
