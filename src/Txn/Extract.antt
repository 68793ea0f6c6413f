-- ===== src/Txn/Extract.antt =====
-- The extraction of a payload: `salt_tar_extract` of src/halite/src/tar.c with its callback.
use salt_os.Prelude.{
  ℕ, Bool, true, false, not, ◌&&◌, ◌||◌, Option, none, some, List, [], ◌∷◌, ◌++◌, ◌==◌,
  if◌then◌else◌, Str, str_eq,
}
use salt_os.Util.Rc.{Rc, ok, err_io, err_format, then_ok}
use salt_os.Util.{path_is_confined}
use salt_os.Util.Components.{components}
use salt_os.Txn.Store.{Loc, Node, link, Files, get, unlink, write_file, symlink, mkdir_at}
use salt_os.Txn.{Kernel}

-- `salt_tar_entry`
pub record TarEntry : Type 0 where
  pub path : Str
  pub typeflag : ℕ
  pub mode : ℕ
  pub linkname : Str
  pub bytes : Str

-- What `salt_tar_read` finds in a payload: its entries, and the code with which it ends.
pub record Payload : Type 0 where
  pub entries : List TarEntry
  pub ends : Rc

-- `strip_dot_slash`: "./" at the head, and the slashes behind it, as often as they come.
unfoldable pub strip_from : Bool → Str → Str
strip_from slashes [] = []
strip_from slashes (c ∷ []) = if slashes && c == b'/' then [] else c ∷ []
strip_from slashes (c ∷ d ∷ s) =
    let one = strip_from true (d ∷ s) in
    let two = strip_from true s in
    if slashes && c == b'/' then one else if c == b'.' && d == b'/' then two else c ∷ d ∷ s

abbrev pub strip_dot_slash : Str → Str
strip_dot_slash = strip_from false

-- The directory of a location.
unfoldable pub parent : Loc → Loc
parent [] = []
parent (s ∷ []) = []
parent (s ∷ t ∷ l) = s ∷ parent (t ∷ l)

abbrev pub is_some {ℓ} : {A : Type ℓ} → Option A → Bool
is_some none = false
is_some (some a) = true

-- `S_ISLNK`
abbrev pub is_link : Option Node → Bool
is_link (some (link t)) = true
is_link _ = false

abbrev pub or_mode : ℕ → ℕ → ℕ
or_mode mode default = if mode == 0 then default else mode

module _ (k : Kernel) where
  -- `lstat(path) == 0`
  abbrev pub exists_at : Loc → Files → Bool
  exists_at l fs = is_some (get l fs) || k.is_dir l fs

  -- `existing_ancestor_within`: the longest part of a location that exists.
  unfoldable pub nearest : Loc → Loc → Loc → Files → Loc
  nearest best done [] fs = best
  nearest best done (s ∷ left) fs =
      let l = done ++ s ∷ [] in nearest (if exists_at l fs then l else best) l left fs

  -- `confine_parent`; the directories that it makes are not recorded.
  unfoldable pub confine_parent : Loc → Files → Rc
  confine_parent l fs =
      if not (k.within (nearest [] [] (parent l) fs) fs)
      then err_format
      else if not (k.root (mkdir_at (parent l)) fs)
      then err_io
      else if not (k.within (parent l) fs)
      then err_format
      else ok

  -- The entry itself: a directory, a symbolic link, or a file; other types do nothing.
  unfoldable pub extract_dir : Loc → Files → Rc × Files
  extract_dir l fs =
      if is_link (get l fs) && not (k.within l fs)
      then (err_format, fs)
      else if k.root (mkdir_at l) fs
      then (ok, fs)
      else (err_io, fs)

  unfoldable pub extract_link : TarEntry → Loc → Files → Rc × Files
  extract_link e l fs = symlink k.root e.linkname l (unlink k.root l fs)

  unfoldable pub extract_node : TarEntry → Loc → Files → Rc × Files
  extract_node e l fs =
      if e.typeflag == b'5'
      then extract_dir l fs
      else if e.typeflag == b'2'
      then extract_link e l fs
      else if e.typeflag == b'0' || e.typeflag == 0
      then write_file k.root l e.bytes (or_mode e.mode 420) fs
      else (ok, fs)

  -- `extract_cb`
  unfoldable pub extract_entry : TarEntry → Files → Rc × Files
  extract_entry e fs =
      let rel = strip_dot_slash e.path in
      if not (path_is_confined rel)
      then if e.typeflag == b'5' && (str_eq rel [] || str_eq rel (b'.' ∷ []))
        then (ok, fs)
        else (err_format, fs)
      else elim (confine_parent (components rel) fs) [
        | ok ↦ extract_node e (components rel) fs
        | rc ↦ (rc, fs)
      ]

  -- `salt_tar_read` calls the callback for each entry, and ends at the first error.
  unfoldable pub extract : List TarEntry → Rc → Files → Rc × Files
  extract [] ends fs = (ends, fs)
  extract (e ∷ es) ends fs = then_ok (extract_entry e fs) (extract es ends)
