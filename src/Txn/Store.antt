-- ===== src/Txn/Store.antt =====
-- The files of a root and of a transaction's backup, as the system calls of
-- src/halite/src/util.c and src/halite/src/txn.c see them. A store has what stands at each
-- location; a location is the list of the components of a path. Directories are not recorded:
-- what they decide is among the answers of the kernel, which is a parameter. Owners, times and
-- extended attributes are not recorded. The kernel follows a symbolic link in the directory part of a
-- path; here it is not followed, so that a store describes the files only for paths that pass through
-- no link. Txn/Direct says when they do not, and the theorems on transactions suppose it.
use salt_os.Prelude.{
  ℕ, zero, suc, ◌%◌, ◌≡◌, refl, ◌↔◌, Bool, true, false, ◌&&◌, Option, none, some, List, [], ◌∷◌,
  arith, if◌then◌else◌, Str, str_eq, str_eq_iff,
}
use salt_os.Util.Rc.{Rc, ok, err_io}

abbrev pub Loc : Type 0
Loc = List Str

-- A regular file with its permission bits and bytes, a symbolic link with its target, and a device,
-- FIFO or socket.
pub data Node : Type 0 where
  file : ℕ → Str → Node
  link : Str → Node
  special : Node

abbrev pub Files : Type 0
Files = List (Loc × Node)

unfoldable pub loc_eq : Loc → Loc → Bool
loc_eq [] [] = true
loc_eq (a ∷ s) (b ∷ t) = str_eq a b && loc_eq s t
loc_eq _ _ = false

pub loc_eq_iff : (s t : Loc) → (loc_eq s t ≡ true) ↔ (s ≡ t)
unfolding loc_eq
loc_eq_iff [] [] = (λ _. refl, λ _. refl)
loc_eq_iff [] (b ∷ t) = ground arith
loc_eq_iff (a ∷ s) [] = ground arith
loc_eq_iff (a ∷ s) (b ∷ t) = ground (arith, str_eq_iff a b, loc_eq_iff s t)

-- `lstat`
unfoldable pub get : Loc → Files → Option Node
get l [] = none
get l ((k, n) ∷ fs) = let rest = get l fs in if loc_eq k l then some n else rest

unfoldable pub del : Loc → Files → Files
del l [] = []
del l ((k, n) ∷ fs) = let rest = del l fs in if loc_eq k l then rest else (k, n) ∷ rest

abbrev pub put : Loc → Node → Files → Files
put l n fs = (l, n) ∷ del l fs

pub get-del : (k l : Loc) (fs : Files) → get k (del l fs) ≡ (if loc_eq l k then none else get k fs)
unfolding get del
get-del k l [] = ground arith
get-del k l ((j, n) ∷ fs) =
    ground (arith, get-del k l fs, loc_eq_iff j l, loc_eq_iff j k, loc_eq_iff l k)

pub get-put :
    (k l : Loc) (n : Node) (fs : Files)
    → get k (put l n fs) ≡ (if loc_eq l k then some n else get k fs)
unfolding get
get-put k l n fs = ground (arith, get-del k l fs)

-- The calls that can fail for reasons of their own.
pub data Call : Type 0 where
  unlink_at write_at symlink_at read_at readlink_at mkdir_at : Loc → Call

-- Whether a call completes, given what the store has.
abbrev pub Answers : Type 0
Answers = Call → Files → Bool

module _ (completes : Answers) where
  -- `unlink`, whose result the code does not read.
  unfoldable pub unlink : Loc → Files → Files
  unlink l fs = if completes (unlink_at l) fs then del l fs else fs

  -- `salt_write_file`: a temporary file is renamed over what stands there.
  unfoldable pub write_file : Loc → Str → ℕ → Files → Rc × Files
  write_file l bytes mode fs =
      if completes (write_at l) fs then (ok, put l (file mode bytes) fs) else (err_io, fs)

  -- `symlink`, which refuses to replace.
  unfoldable pub symlink : Str → Loc → Files → Rc × Files
  symlink target l fs = elim (get l fs) [
    | some n ↦ (err_io, fs)
    | none ↦ if completes (symlink_at l) fs then (ok, put l (link target) fs) else (err_io, fs)
  ]

-- `readlink` into a buffer of 1024 bytes, one of them for the final 0.
unfoldable pub readlink_bytes : ℕ → Str → Str
readlink_bytes zero s = []
readlink_bytes (suc k) [] = []
readlink_bytes (suc k) (c ∷ s) = c ∷ readlink_bytes k s

abbrev pub link_max : ℕ
link_max = 1023

-- Copies from one store, whose answers are `from`, to another, whose answers are `to`.
module _ (from to : Answers) where
  -- `salt_copy_file`: the bytes, and of the mode the bits in 0777.
  unfoldable pub copy_file : ℕ → Str → Loc → Files → Files → Rc × Files
  copy_file mode bytes l source dest =
      if from (read_at l) source then write_file to l bytes (mode % 512) dest else (err_io, dest)

  -- `readlink`, `unlink` of what the copy replaces, `symlink`.
  unfoldable pub copy_link : Str → Loc → Files → Files → Rc × Files
  copy_link target l source dest =
      if from (readlink_at l) source
      then symlink to (readlink_bytes link_max target) l (unlink to l dest)
      else (err_io, dest)

  -- What is copied of a node: nothing of one that is neither a file nor a link.
  unfoldable pub copy_node : Node → Loc → Files → Files → Rc × Files
  copy_node (file mode bytes) l source dest = copy_file mode bytes l source dest
  copy_node (link target) l source dest = copy_link target l source dest
  copy_node special l source dest = (ok, dest)
