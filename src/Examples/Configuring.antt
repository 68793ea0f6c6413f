-- ===== src/Examples/Configuring.antt =====
-- A configuration for a whole disk.
use salt_os.Prelude.{
  ℕ, ◌/◌, ◌≤◌, ◌≡◌, refl, Bool, true, false, ◌&&◌, ◌||◌, Option, none, some, List, [], ◌∷◌, leb,
  ◌==◌, if◌then◌else◌, Str, codes, str_eq,
}
use salt_os.Setup.Members.{
  create_user, desktop, disk, filesystem, firmware, hostname, kernel, mode, network, password, shim,
  sudo, swap, username,
}
use salt_os.Setup.{Config, set_value, default_swap_mib, find_field, find_in, parse_bool}
use salt_os.Setup.Valid.{validate, tests, is_size, starts_with}
use salt_os.Setup.Valid.Sound.{IsInstallable, validate-IsInstallable}
use salt_os.Setup.Values.{IsAssigned, set_value-IsAssigned, default_swap_mib-bounds}
use salt_os.Setup.Cli.{CliOptions, parse_cli, valued_option, apply_option, has_equals}

abbrev texts_of : List (ℕ × Str) → ℕ → Str
texts_of [] k = []
texts_of ((x, v) ∷ more) k = let rest = texts_of more k in if k == x then v else rest

abbrev config : Config
config = record {
  texts = texts_of (
      (mode, codes "erase")
      ∷ (disk, codes "/dev/sda")
      ∷ (filesystem, codes "btrfs")
      ∷ (swap, codes "none")
      ∷ (desktop, codes "auto")
      ∷ (firmware, codes "auto")
      ∷ (shim, codes "auto")
      ∷ (network, codes "dhcp")
      ∷ (hostname, codes "salt-1")
      ∷ (username, codes "salt")
      ∷ (password, codes "secret")
      ∷ (kernel, codes "debian")
      ∷ []);
  flags = λ k. k == sudo || k == create_user;
  distro = codes "debian";
}

-- A reader of single digits stands for the one of the C library.
abbrev one_digit : Str → Option (Bool × Str)
one_digit [] = none
one_digit (c ∷ s) = if leb 48 c && leb c 57 then some (false, s) else none

valid : validate one_digit config false ≡ none
unfolding validate tests is_size starts_with str_eq
valid = refl

validate-IsInstallable_example : IsInstallable config false
validate-IsInstallable_example = validate-IsInstallable one_digit config false valid

abbrev no_sudo : Config
no_sudo = record config {
  flags = λ k. if k == sudo then false else (k == sudo || k == create_user);
}

assigned : set_value config (codes "user.sudo") (codes "no") ≡ some no_sudo
unfolding set_value find_field find_in parse_bool str_eq
assigned = refl

set_value-IsAssigned_example : IsAssigned (codes "user.sudo") (codes "no") config no_sudo
set_value-IsAssigned_example =
    set_value-IsAssigned config no_sudo (codes "user.sudo") (codes "no") assigned

default_swap_mib-bounds_example :
    (1024 ≤ default_swap_mib 4194304)
    × (default_swap_mib 4194304 ≤ 8192)
    × (1024 ≤ 4194304 / 1024 → 4194304 / 1024 ≤ 8192 → default_swap_mib 4194304 ≡ 4194304 / 1024)
default_swap_mib-bounds_example = default_swap_mib-bounds 4194304

abbrev no_options : CliOptions
no_options = record {
  from = [];
  profiles = [];
  sets = [];
  mnt = codes "/mnt/saltos-target";
  dump_config = false;
  yes = false;
  help = false;
}

abbrev two_options : CliOptions
two_options = record no_options { sets = codes "install.disk=/dev/sda" ∷ []; yes = true }

parsed :
    parse_cli (codes "--disk" ∷ codes "/dev/sda" ∷ codes "-y" ∷ []) no_options ≡ some two_options
unfolding parse_cli valued_option apply_option has_equals str_eq
parsed = refl
