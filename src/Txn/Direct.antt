-- ===== src/Txn/Direct.antt =====
-- Paths that do not pass through a symbolic link. The kernel follows a link in the directory part of
-- a path, and `confine_parent` of src/halite/src/tar.c lets it if the end is below the root; the
-- stores of Txn/Store know a location by the components of its path, and so they describe only the
-- transactions whose paths are direct.
use salt_os.Prelude.{◌≡◌, some, List, ◌∷◌, ◌++◌, Str, Memᴰ}
use salt_os.Txn.Store.{Loc, link, Files, get}
use salt_os.Txn.Extract.{TarEntry}
use salt_os.Txn.Changes.{place}

-- The first location is that of a directory above the second.
abbrev pub IsAbove : Loc → Loc → Type 0
IsAbove p l = (c : Str) × (rest : Loc) × (p ++ c ∷ rest ≡ l)

-- A link stands at the location.
abbrev pub IsLinkAt : Files → Loc → Type 0
IsLinkAt fs p = (target : Str) × (get p fs ≡ some (link target))

-- A payload makes a link at the location.
abbrev pub Links : List TarEntry → Loc → Type 0
Links es p = (e : TarEntry) × Memᴰ e es × (e.typeflag ≡ b'2') × (place e ≡ p)

-- No link is above the locations, neither in the root nor in the payloads.
abbrev pub AreDirect : Files → (List TarEntry → Type 0) → (Loc → Type 0) → Type 0
AreDirect root IsPayload Touched =
    (p l : Loc)
    → Touched l
    → IsAbove p l
    → (¬ IsLinkAt root p) × ((es : List TarEntry) → IsPayload es → ¬ Links es p)
