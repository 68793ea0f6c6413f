-- ===== src/Txn.antt =====
-- The files of a transaction: `backup_file`, `append_added`, `restore_tree` and
-- `salt_txn_revert_files` of src/halite/src/txn.c.
pub mod Store
pub mod Extract
pub mod Archive
pub mod Copies
pub mod Saved
pub mod Changes
pub mod Direct
pub mod Reverted
pub mod Prepared
pub mod Cleared
pub mod Listed
pub mod Quiet
pub mod Rollback
pub mod Installed
use salt_os.Prelude.{
  ℕ, zero, suc, ◌+◌, ◌-◌, ◌*◌, ◌/◌, ◌%◌, ◌≤◌, ◌<◌, compare, Ordering, max, ◌≡◌, refl, sym, ap, ◌∙◌,
  subst, ◌≢◌, ◌↔◌, ◌⊎◌, inl, inr, ⊎_elim, Bool, true, false, not, ◌&&◌, ◌||◌, Option, none, some,
  List, [], ◌∷◌, ◌++◌, map, arith, ltb, leb, ◌==◌, ==_iff, if◌then◌else◌, &&_eq_true, Bool-cases,
  Option-cases, eq_of_iff, length, filter, any, length-append, mem-cons, mem-append, mem-concat,
  concat-ne_nil, not-mem-nil, mem-filter, Str, codes, str_eq, str_eq_iff, str_eq_refl, contains,
  contains-cons, contains-append, set_insert, set_of, contains-set_insert, contains-set_of, Memᴰ,
}
use salt_os.Util.Rc.{Rc, ok, err_io}
use salt_os.Util.{path_is_confined}
use salt_os.Util.Components.{components}
use salt_os.Txn.Store.{Loc, Node, Files, Answers, get, unlink, copy_node}

-- What the kernel answers: in the root and in the backup directory, when `added.list` is read and
-- written, whether a directory stands at a location, and what `salt_path_within_root` finds by
-- realpath.
pub record Kernel : Type 0 where
  pub root : Answers
  pub backup : Answers
  pub list_read : Str → Bool
  pub list_write : Option Str → Bool
  pub is_dir : Loc → Files → Bool
  pub within : Loc → Files → Bool

-- The root, the backup directory of the transaction, and its `added.list`, if there is one.
pub record Disk : Type 0 where
  pub root : Files
  pub saved : Files
  pub added : Option Str

-- The lines of a text: what follows the last newline is one only if it is not empty.
abbrev onto_line : ℕ → List Str → List Str
onto_line c [] = (c ∷ []) ∷ []
onto_line c (line ∷ lines) = (c ∷ line) ∷ lines

unfoldable pub lines_of : Str → List Str
lines_of [] = []
lines_of (c ∷ s) = let rest = lines_of s in if c == 10 then [] ∷ rest else onto_line c rest

abbrev pub text_of : Option Str → Str
text_of none = []
text_of (some text) = text

module _ (k : Kernel) where
  -- `salt_read_file` of `added.list`
  abbrev pub read_list : Option Str → Option Str
  read_list none = none
  read_list (some text) = if k.list_read text then some text else none

  -- `backup_file`
  unfoldable pub backup_file : Str → Disk → Rc × Disk
  backup_file path d = elim (get (components path) d.root) [
    | none ↦ (ok, d)
    | some n ↦
        let (rc, saved) = copy_node k.root k.backup n (components path) d.root d.saved in
        (rc, record d { saved = saved })
  ]

  -- `append_added`
  unfoldable pub append_added : Str → Disk → Rc × Disk
  append_added [] d = (ok, d)
  append_added (c ∷ s) d =
      if k.list_write d.added
      then (ok, record d { added = some (text_of (read_list d.added) ++ c ∷ s) })
      else (err_io, d)

  -- The loop over `added.list`.
  unfoldable pub unlink_lines : List Str → Files → Files
  unlink_lines [] fs = fs
  unlink_lines (line ∷ lines) fs =
      unlink_lines lines (if path_is_confined line then unlink k.root (components line) fs else fs)

  -- `restore_tree`: what is saved replaces what stands in the root. Failures are passed over.
  unfoldable pub restore_tree : Files → Files → Files → Files
  restore_tree [] saved fs = fs
  restore_tree ((l, n) ∷ left) saved fs =
      restore_tree left saved (copy_node k.backup k.root n l saved fs).1

  -- `salt_txn_revert_files`, which always returns SALT_OK.
  unfoldable pub revert_files : Disk → Disk
  revert_files d =
      let kept = unlink_lines (lines_of (text_of (read_list d.added))) d.root in
      record d { root = restore_tree d.saved d.saved kept }
