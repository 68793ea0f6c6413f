-- ===== src/Txn/Quiet.antt =====
-- Hooks that leave the files of the root alone.
use salt_os.Prelude.{◌≡◌, refl, Bool, Option, none, some, if◌then◌else◌, Str}
use salt_os.Util.Rc.{Rc}
use salt_os.Db.{Db}
use salt_os.Db.Rows.{HookKind, post_install, post_upgrade}
use salt_os.Db.Manifest.{pkg_hook}
use salt_os.Txn.Store.{Files}
use salt_os.Txn.{Kernel, Disk}
use salt_os.Txn.Archive.{Archive, HookCall, run_hook, run_hook_if, post_hook, remove_hook}

abbrev pub IsQuiet : (HookCall → Files → Rc × Files) → Type 0
IsQuiet hook = (c : HookCall) (fs : Files) → (hook c fs).1 ≡ fs

module _ (k : Kernel) (hook : HookCall → Files → Rc × Files) (quiet : IsQuiet hook) where
  run_hook_if-same :
      (call : Str → HookCall) (body : Option Str) (d : Disk)
      → (run_hook_if k hook call body d).1 ≡ d
  unfolding run_hook
  run_hook_if-same call none d = refl
  run_hook_if-same call (some b) d = λ j. record d { root = quiet (call b) d.root j }

  pub post_hook-same :
      (ar : Archive) (upgrade : Bool) (version : Option Str) (d : Disk)
      → (post_hook k hook ar upgrade version d).1 ≡ d
  unfolding post_hook
  post_hook-same ar upgrade version d =
      run_hook_if-same _ (ar.meta.hooks (if upgrade then post_upgrade else post_install)) d

  pub remove_hook-same :
      (kind : HookKind) (n : Str) (db : Db) (d : Disk) → (remove_hook k hook kind n db d).1 ≡ d
  unfolding remove_hook
  remove_hook-same kind n db d = run_hook_if-same _ (pkg_hook db n kind) d
