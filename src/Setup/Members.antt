-- ===== src/Setup/Members.antt =====
-- The members of `Config` (src/setup/config.hpp) but `distro`, by their position in the class: a
-- pointer to a member says no more.
use salt_os.Prelude.{ℕ}

abbrev pub hostname : ℕ
hostname = 0

abbrev pub locale : ℕ
locale = 1

abbrev pub timezone : ℕ
timezone = 2

abbrev pub keymap : ℕ
keymap = 3

abbrev pub xkb_layout : ℕ
xkb_layout = 4

abbrev pub xkb_variant : ℕ
xkb_variant = 5

abbrev pub disk : ℕ
disk = 6

abbrev pub mode : ℕ
mode = 7

abbrev pub target : ℕ
target = 8

abbrev pub filesystem : ℕ
filesystem = 9

abbrev pub encrypt : ℕ
encrypt = 10

abbrev pub passphrase : ℕ
passphrase = 11

abbrev pub passphrase_file : ℕ
passphrase_file = 12

abbrev pub swap : ℕ
swap = 13

abbrev pub swap_size : ℕ
swap_size = 14

abbrev pub swap_device : ℕ
swap_device = 15

abbrev pub root_size : ℕ
root_size = 16

abbrev pub desktop : ℕ
desktop = 17

abbrev pub firmware : ℕ
firmware = 18

abbrev pub os_prober : ℕ
os_prober = 19

abbrev pub cmdline : ℕ
cmdline = 20

abbrev pub shim : ℕ
shim = 21

abbrev pub username : ℕ
username = 22

abbrev pub password : ℕ
password = 23

abbrev pub password_hash : ℕ
password_hash = 24

abbrev pub root_password : ℕ
root_password = 25

abbrev pub root_password_hash : ℕ
root_password_hash = 26

abbrev pub shell : ℕ
shell = 27

abbrev pub sudo : ℕ
sudo = 28

abbrev pub autologin : ℕ
autologin = 29

abbrev pub create_user : ℕ
create_user = 30

abbrev pub network : ℕ
network = 31

abbrev pub wifi_ssid : ℕ
wifi_ssid = 32

abbrev pub wifi_psk : ℕ
wifi_psk = 33

abbrev pub kernel : ℕ
kernel = 34
