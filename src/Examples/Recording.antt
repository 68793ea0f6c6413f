-- ===== src/Examples/Recording.antt =====
-- A package is recorded and forgotten.
use salt_os.Prelude.{◌≡◌, refl, none, [], codes}
use salt_os.Util.Rc.{ok}
use salt_os.Db.Rows.{PkgMeta}
use salt_os.Db.Ops.{pkg_row, record_install}
use salt_os.Db.Ops.Record.{without, with_rows, record_install_lem}
use salt_os.Examples.{completing, editor, two_packages, artifact_of}

abbrev editor_meta : PkgMeta
editor_meta = (artifact_of editor).meta

record_install_lem_example : record_install completing editor_meta [] none none 9 6 two_packages ≡ (
  ok,
  with_rows editor_meta [] (pkg_row editor_meta none none 9 6) (without (codes "ed") two_packages),
)
record_install_lem_example =
    record_install_lem completing (λ s db. refl) editor_meta [] none none 9 6 two_packages
