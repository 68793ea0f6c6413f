-- ===== src/Setup/Valid.antt =====
-- `validate` and `parse_size_mib` of src/setup/config.cpp.
pub mod Sound
use salt_os.Prelude.{
  ℕ, zero, suc, ◌+◌, ◌-◌, ◌*◌, ◌/◌, ◌%◌, ◌≤◌, ◌<◌, compare, Ordering, max, ◌≡◌, refl, sym, ap, ◌∙◌,
  subst, ◌≢◌, ◌↔◌, ◌⊎◌, inl, inr, ⊎_elim, Bool, true, false, not, ◌&&◌, ◌||◌, Option, none, some,
  List, [], ◌∷◌, ◌++◌, map, arith, ltb, leb, ◌==◌, ==_iff, if◌then◌else◌, &&_eq_true, Bool-cases,
  Option-cases, eq_of_iff, length, filter, any, length-append, mem-cons, mem-append, mem-concat,
  concat-ne_nil, not-mem-nil, mem-filter, Str, codes, str_eq, str_eq_iff, str_eq_refl, contains,
  contains-cons, contains-append, set_insert, set_of, contains-set_insert, contains-set_of, Memᴰ,
}
use salt_os.Setup.Members.{
  create_user, desktop, disk, encrypt, filesystem, firmware, hostname, kernel, mode, network,
  passphrase, passphrase_file, password, password_hash, root_password, root_password_hash,
  root_size, shim, sudo, swap, swap_device, swap_size, target, username, wifi_ssid,
}
use salt_os.Setup.{Config, one_of}

abbrev pub is_digit : ℕ → Bool
is_digit c = leb 48 c && leb c 57

abbrev pub is_lower : ℕ → Bool
is_lower c = leb 97 c && leb c 122

abbrev pub is_upper : ℕ → Bool
is_upper c = leb 65 c && leb c 90

abbrev pub to_upper : ℕ → ℕ
to_upper c = if is_lower c then c - 32 else c

-- What `validate` complains of, in its order.
pub data SetupError : Type 0 where
  bad_mode bad_filesystem bad_swap bad_desktop bad_firmware bad_shim bad_network : SetupError
  no_target no_disk disk_no_device no_swap_device stray_swap_device no_admin no_stratum : SetupError
  no_hostname bad_hostname no_username username_root bad_username no_password : SetupError
  no_passphrase bad_swap_size bad_root_size stray_root_size no_ssid no_kernel : SetupError

-- The units of `parse_size_mib`, in upper case.
abbrev pub units : List Str
units =
    []
    ∷ codes "M"
    ∷ codes "MB"
    ∷ codes "MIB"
    ∷ codes "G"
    ∷ codes "GB"
    ∷ codes "GIB"
    ∷ codes "T"
    ∷ codes "TB"
    ∷ codes "TIB"
    ∷ codes "K"
    ∷ codes "KB"
    ∷ codes "KIB"
    ∷ []

abbrev pub is_unit : Option (Bool × Str) → Bool
is_unit none = false
is_unit (some (negative, end)) = not negative && one_of (map to_upper end) units

abbrev pub is_nil : Str → Bool
is_nil s = str_eq s []

unfoldable pub starts_with : Str → Str → Bool
starts_with [] s = true
starts_with (p ∷ ps) [] = false
starts_with (p ∷ ps) (c ∷ s) = let rest = starts_with ps s in p == c && rest

-- `strtod` gives whether the number is negative and what follows it, none if there is no number.
module _ (strtod : Str → Option (Bool × Str)) where
  -- Whether `parse_size_mib` returns true.
  unfoldable pub is_size : Str → Bool
  is_size input =
      let s = filter (λ c. not (c == 32) && not (c == 9)) input in
      not (is_nil s) && is_unit (strtod s)

  -- The tests of `validate` and their errors, in order.
  unfoldable pub tests : Config → Bool → List (Bool × SetupError)
  tests cfg interactive =
      let get = cfg.texts in
      let mounted = str_eq (get mode) (codes "mounted") in
      let swap_kind = get swap in
      let device_path = get disk in
      let name = get username in
      let size = get root_size in
      let device = get swap_device in
      let create = cfg.flags create_user in
      (not (one_of (get mode) (codes "erase" ∷ codes "alongside" ∷ codes "mounted" ∷ [])), bad_mode)
      ∷ (not (one_of (get filesystem) (codes "btrfs" ∷ codes "ext4" ∷ [])), bad_filesystem)
      ∷ (
        not (
            one_of swap_kind (codes "none" ∷ codes "file" ∷ codes "partition" ∷ codes "zram" ∷ [])),
        bad_swap,
      )
      ∷ (not (one_of (get desktop) (codes "auto" ∷ codes "keep" ∷ codes "none" ∷ [])), bad_desktop)
      ∷ (
        not (
            one_of (get firmware) (codes "auto" ∷ codes "uefi" ∷ codes "bios" ∷ codes "both" ∷ [])),
        bad_firmware,
      )
      ∷ (not (one_of (get shim) (codes "auto" ∷ codes "yes" ∷ codes "no" ∷ [])), bad_shim)
      ∷ (not (one_of (get network) (codes "dhcp" ∷ codes "wifi" ∷ codes "none" ∷ [])), bad_network)
      ∷ (mounted && is_nil (get target), no_target)
      ∷ (not mounted && is_nil device_path, no_disk)
      ∷ (not mounted && not (starts_with (codes "/dev/") device_path), disk_no_device)
      ∷ (mounted && (str_eq swap_kind (codes "partition") && is_nil device), no_swap_device)
      ∷ (
        not (is_nil device) && (not mounted || not (str_eq swap_kind (codes "partition"))),
        stray_swap_device,
      )
      ∷ (
        not (cfg.flags sudo) && (is_nil (get root_password) && is_nil (get root_password_hash)),
        no_admin,
      )
      ∷ (is_nil cfg.distro, no_stratum)
      ∷ (is_nil (get hostname), no_hostname)
      ∷ (
        any (λ c. not (is_digit c || is_lower c || is_upper c || (c == b'-' || c == b'.')))
            (get hostname),
        bad_hostname,
      )
      ∷ (create && is_nil name, no_username)
      ∷ (create && str_eq name (codes "root"), username_root)
      ∷ (
        create && any (λ c. not (is_lower c || is_digit c || (c == b'-' || c == b'_'))) name,
        bad_username,
      )
      ∷ (
        create && (not interactive && (is_nil (get password) && is_nil (get password_hash))),
        no_password,
      )
      ∷ (
        cfg.flags encrypt
            && (not mounted
                && (not interactive && (is_nil (get passphrase) && is_nil (get passphrase_file)))),
        no_passphrase,
      )
      ∷ (
        not (str_eq swap_kind (codes "none"))
            && (not (str_eq (get swap_size) (codes "auto")) && not (is_size (get swap_size))),
        bad_swap_size,
      )
      ∷ (not (is_nil size) && not (is_size size), bad_root_size)
      ∷ (not (is_nil size) && not (str_eq (get mode) (codes "alongside")), stray_root_size)
      ∷ (str_eq (get network) (codes "wifi") && is_nil (get wifi_ssid), no_ssid)
      ∷ (is_nil (get kernel), no_kernel)
      ∷ []

  abbrev pub first_error : List (Bool × SetupError) → Option SetupError
  first_error [] = none
  first_error ((holds, e) ∷ ts) = let rest = first_error ts in if holds then some e else rest

  -- `validate`: the first test that holds is the error; none is true.
  unfoldable pub validate : Config → Bool → Option SetupError
  validate cfg interactive = first_error (tests cfg interactive)
