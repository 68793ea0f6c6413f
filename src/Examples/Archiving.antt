-- ===== src/Examples/Archiving.antt =====
-- The size of a file in a field of twelve bytes.
use salt_os.Prelude.{◌<◌, ◌≡◌, arith}
use salt_os.Tar.{pow_eight, octal, parse_octal}
use salt_os.Tar.Octal.{parse_octal-octal}

size_fits : 123456 < pow_eight 11
unfolding pow_eight
size_fits = omega arith

parse_octal-octal_example : parse_octal (octal 11 123456) ≡ 123456
parse_octal-octal_example = parse_octal-octal 11 123456 size_fits (omega arith)
