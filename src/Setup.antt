-- ===== src/Setup.antt =====
-- The configuration of `salt-setup`: src/setup/config.cpp.
pub mod Members
pub mod Valid
pub mod Cli
pub mod Values
use salt_os.Prelude.{
  ℕ, zero, suc, ◌+◌, ◌-◌, ◌*◌, ◌/◌, ◌%◌, ◌≤◌, ◌<◌, compare, Ordering, max, ◌≡◌, refl, sym, ap, ◌∙◌,
  subst, ◌≢◌, ◌↔◌, ◌⊎◌, inl, inr, ⊎_elim, Bool, true, false, not, ◌&&◌, ◌||◌, Option, none, some,
  List, [], ◌∷◌, ◌++◌, map, arith, ltb, leb, ◌==◌, ==_iff, if◌then◌else◌, &&_eq_true, Bool-cases,
  Option-cases, eq_of_iff, length, filter, any, length-append, mem-cons, mem-append, mem-concat,
  concat-ne_nil, not-mem-nil, mem-filter, Str, codes, str_eq, str_eq_iff, str_eq_refl, contains,
  contains-cons, contains-append, set_insert, set_of, contains-set_insert, contains-set_of, Memᴰ,
}
use salt_os.Setup.Members.{
  autologin, cmdline, create_user, desktop, disk, encrypt, filesystem, firmware, hostname, kernel,
  keymap, locale, mode, network, os_prober, passphrase, passphrase_file, password, password_hash,
  root_password, root_password_hash, root_size, shell, shim, sudo, swap, swap_device, swap_size,
  target, timezone, username, wifi_psk, wifi_ssid, xkb_layout, xkb_variant,
}

-- `Kind`
pub data Kind : Type 0 where
  text flag : Kind

-- `Field`, with the member of `Config` that it points to.
pub record Field : Type 0 where
  pub key : Str
  pub kind : Kind
  pub secret : Bool
  pub member : ℕ

abbrev pub text_field : Str → ℕ → Field
text_field k m = record { key = k; kind = text; secret = false; member = m }

abbrev pub secret_field : Str → ℕ → Field
secret_field k m = record { key = k; kind = text; secret = true; member = m }

abbrev pub flag_field : Str → ℕ → Field
flag_field k m = record { key = k; kind = flag; secret = false; member = m }

-- `fields()`
abbrev pub fields : List Field
fields =
    text_field (codes "system.hostname") hostname
    ∷ text_field (codes "system.locale") locale
    ∷ text_field (codes "system.timezone") timezone
    ∷ text_field (codes "system.keymap") keymap
    ∷ text_field (codes "system.xkb_layout") xkb_layout
    ∷ text_field (codes "system.xkb_variant") xkb_variant
    ∷ text_field (codes "install.disk") disk
    ∷ text_field (codes "install.mode") mode
    ∷ text_field (codes "install.target") target
    ∷ text_field (codes "install.filesystem") filesystem
    ∷ flag_field (codes "install.encrypt") encrypt
    ∷ secret_field (codes "install.passphrase") passphrase
    ∷ text_field (codes "install.passphrase_file") passphrase_file
    ∷ text_field (codes "install.swap") swap
    ∷ text_field (codes "install.swap_size") swap_size
    ∷ text_field (codes "install.swap_device") swap_device
    ∷ text_field (codes "install.root_size") root_size
    ∷ text_field (codes "install.desktop") desktop
    ∷ text_field (codes "boot.firmware") firmware
    ∷ flag_field (codes "boot.os_prober") os_prober
    ∷ text_field (codes "boot.cmdline") cmdline
    ∷ text_field (codes "boot.shim") shim
    ∷ text_field (codes "user.name") username
    ∷ secret_field (codes "user.password") password
    ∷ secret_field (codes "user.password_hash") password_hash
    ∷ secret_field (codes "user.root_password") root_password
    ∷ secret_field (codes "user.root_password_hash") root_password_hash
    ∷ text_field (codes "user.shell") shell
    ∷ flag_field (codes "user.sudo") sudo
    ∷ flag_field (codes "user.autologin") autologin
    ∷ flag_field (codes "user.create") create_user
    ∷ text_field (codes "network.mode") network
    ∷ text_field (codes "network.wifi_ssid") wifi_ssid
    ∷ secret_field (codes "network.wifi_psk") wifi_psk
    ∷ text_field (codes "kernel.source") kernel
    ∷ []

-- `Config`: its strings and its truth values by their positions, and the name of the primary
-- stratum.
pub record Config : Type 0 where
  pub texts : ℕ → Str
  pub flags : ℕ → Bool
  pub distro : Str

unfoldable pub find_in : List Field → Str → Option Field
find_in [] key = none
find_in (f ∷ fs) key = let rest = find_in fs key in if str_eq key f.key then some f else rest

-- `find_field`
unfoldable pub find_field : Str → Option Field
find_field key = find_in fields key

abbrev pub one_of : Str → List Str → Bool
one_of v allowed = any (λ a. str_eq v a) allowed

-- `parse_bool`
unfoldable pub parse_bool : Str → Option Bool
parse_bool s =
    if one_of s (codes "true" ∷ codes "yes" ∷ codes "on" ∷ codes "1" ∷ codes "y" ∷ [])
    then some true
    else if one_of s (codes "false" ∷ codes "no" ∷ codes "off" ∷ codes "0" ∷ codes "n" ∷ [])
    then some false
    else none

abbrev pub set_text : Config → ℕ → Str → Config
set_text cfg member value = record cfg { texts = λ k. if k == member then value else cfg.texts k }

abbrev pub set_flag : Config → ℕ → Option Bool → Option Config
set_flag cfg member none = none
set_flag cfg member (some b) =
    some (record cfg { flags = λ k. if k == member then b else cfg.flags k })

abbrev pub set_field : Config → Option Field → Str → Option Config
set_field cfg none value = none
set_field cfg (some f) value = elim f.kind [
  | text ↦ some (set_text cfg f.member value)
  | flag ↦ set_flag cfg f.member (parse_bool value)
]

-- `set_value`; none is false with a message.
unfoldable pub set_value : Config → Str → Str → Option Config
set_value cfg dotted value =
    if str_eq dotted (codes "stratum.name") || str_eq dotted (codes "stratum")
    then some (record cfg { distro = value })
    else set_field cfg (find_field dotted) value

-- The number of `default_swap_size`, which prints it with an M behind it.
unfoldable pub default_swap_mib : ℕ → ℕ
default_swap_mib mem_kib =
    let mib = mem_kib / 1024 in
    let some_mib = if mib == 0 then 2048 else mib in
    let at_most = if ltb 8192 some_mib then 8192 else some_mib in
    if ltb at_most 1024 then 1024 else at_most
