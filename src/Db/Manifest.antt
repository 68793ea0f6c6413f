-- ===== src/Db/Manifest.antt =====
-- What src/halite/src/db.c reads of one package: its manifest and its hooks.
use salt_os.Prelude.{
  ◌&&◌, Option, none, some, List, [], ◌∷◌, leb, ◌==◌, if◌then◌else◌, length, Str, str_eq,
}
use salt_os.Db.Rows.{HookKind, hook_name, ManifestEntry, FileRow, HookRow}
use salt_os.Db.{Db}

abbrev pub manifest_entry : FileRow → ManifestEntry
manifest_entry r = record {
  path = r.path;
  typeflag = if r.typeflag == 0 then b'0' else r.typeflag;
  mode = r.mode;
  size = r.size;
  sha256 = some r.sha256;
  linkname = some r.linkname;
}

-- ORDER BY length(path) DESC; the length in bytes, and equal lengths in the order of insertion.
unfoldable pub insert_longest : ManifestEntry → List ManifestEntry → List ManifestEntry
insert_longest e [] = e ∷ []
insert_longest e (f ∷ fs) =
    let rest = insert_longest e fs in
    if leb (length f.path) (length e.path) then e ∷ f ∷ fs else f ∷ rest

abbrev pub manifest_in : Str → List FileRow → List ManifestEntry
manifest_in name [] = []
manifest_in name (r ∷ rs) =
    let rest = manifest_in name rs in
    if str_eq r.name name then insert_longest (manifest_entry r) rest else rest

-- `salt_db_pkg_manifest`
unfoldable pub pkg_manifest : Db → Str → List ManifestEntry
unfolding insert_longest
pkg_manifest db name = manifest_in name db.files

abbrev hook_in : Str → Str → List HookRow → Option Str
hook_in name hook [] = none
hook_in name hook (r ∷ rs) =
    let rest = hook_in name hook rs in
    if str_eq r.name name && str_eq r.hook hook then some r.body else rest

-- `salt_db_pkg_hook`
unfoldable pub pkg_hook : Db → Str → HookKind → Option Str
pkg_hook db name kind = hook_in name (hook_name kind) db.hooks
