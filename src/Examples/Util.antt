-- ===== src/Examples/Util.antt =====
-- Paths.
use salt_os.Prelude.{◌≡◌, refl, ◌≢◌, ◌↔◌, true, some, List, [], ◌∷◌, ◌++◌, Str, codes, str_eq, Memᴰ}
use salt_os.Util.{path_is_confined, confined_loop, until_slash, after_slash, join_path}
use salt_os.Util.Components.{split_slash, components}
use salt_os.Util.Confined.{walk, path_is_confined_iff, path_is_confined-walk}
use salt_os.Util.Join.{components-join_path}

abbrev nested : Str
nested = codes "usr//./bin/ed"

path_is_confined_iff_example : (path_is_confined nested ≡ true) ↔ (
    (nested ≢ [])
    × ((s : Str) → nested ≢ b'/' ∷ s)
    × ((part : Str) → Memᴰ part (split_slash nested) → part ≢ codes "..")
    × ((part : Str) × Memᴰ part (split_slash nested) × (part ≢ []) × (part ≢ codes ".")))
path_is_confined_iff_example = path_is_confined_iff nested

nested-confined : path_is_confined nested ≡ true
unfolding path_is_confined confined_loop until_slash after_slash str_eq
nested-confined = refl

path_is_confined-walk_example :
    (end : List Str) × (walk [] (split_slash nested) ≡ some end) × (end ≢ [])
path_is_confined-walk_example = path_is_confined-walk nested nested-confined

components-join_path_example :
    components (join_path (codes "/mnt/") nested) ≡ components (codes "/mnt/") ++ components nested
components-join_path_example = components-join_path (codes "/mnt/") nested
