-- ===== src/Examples/Linting.antt =====
-- A recipe whose source is pinned.
use salt_os.Prelude.{◌≡◌, ◌↔◌, false, some, [], codes}
use salt_os.Toml.Parsed.{Value, Fields, string, array, table, nil, cons, end, field}
use salt_os.Trust.{has_block, lint_common}
use salt_os.Trust.Admitted.{IsAdmissible, lint_common_iff}
use salt_os.Examples.{digest}
use salt_os.Examples.Quoting.{to_index}

abbrev source : Fields
source =
    field (codes "url") (string (codes "https://example.org/ed-1.tar.gz"))
      (field (codes "sha256") (string digest) end)

abbrev recipe : Value
recipe = table (
    field (codes "name") (string (codes "ed")) (
      field (codes "version") (string (codes "1.20")) (
        field (codes "arch") (array (cons (string (codes "x86_64")) nil)) (
          field (codes "license") (string (codes "GPL-3.0"))
            (field (codes "source") (table source) end)))))

lint_common_iff_example :
    (has_block (lint_common to_index (some (some recipe)) [] []).1 ≡ false) ↔ (
      (has_block [] ≡ false)
      × (t : Value) × (some (some recipe) ≡ some (some t))
      × IsAdmissible to_index t)
lint_common_iff_example = lint_common_iff to_index (some (some recipe)) [] []
