-- ===== src/Setup/Valid/Sound.antt =====
-- What a configuration that `validate` accepts guarantees.
use salt_os.Prelude.{
  ◌≡◌, refl, ◌≢◌, ◌⊎◌, inl, inr, Bool, true, false, not, ◌&&◌, Option, none, some, List, [], ◌∷◌,
  arith, Bool-cases, Str, codes, str_eq, str_eq_iff,
}
use salt_os.Setup.Members.{
  password, password_hash, create_user, disk, encrypt, mode, passphrase, passphrase_file,
  root_password, root_password_hash, root_size, sudo, swap, swap_device, target, username,
}
use salt_os.Setup.{Config}
use salt_os.Setup.Valid.{SetupError, starts_with, tests, first_error, validate}

-- Root can log in with a password.
abbrev pub HasRootLogin : Config → Type 0
HasRootLogin cfg = (cfg.texts root_password ≢ []) ⊎ (cfg.texts root_password_hash ≢ [])

-- A user other than root is made who may use sudo and has a password, or is asked for one.
abbrev pub HasSudoer : Config → Bool → Type 0
HasSudoer cfg interactive =
    (cfg.flags create_user ≡ true)
    × (cfg.flags sudo ≡ true)
    × (cfg.texts username ≢ [])
    × (cfg.texts username ≢ codes "root")
    × ((interactive ≡ true) ⊎ ((cfg.texts password ≢ []) ⊎ (cfg.texts password_hash ≢ [])))

-- What a configuration is good for.
pub record IsInstallable (cfg : Config) (interactive : Bool) : Type 0 where
  pub admin :
      (cfg.flags create_user ≡ true) ⊎ (cfg.flags sudo ≡ false)
      → HasRootLogin cfg ⊎ HasSudoer cfg interactive
  pub target : cfg.texts mode ≡ codes "mounted" → cfg.texts target ≢ []
  pub device :
      cfg.texts mode ≢ codes "mounted" → starts_with (codes "/dev/") (cfg.texts disk) ≡ true
  pub not_root : cfg.flags create_user ≡ true → cfg.texts username ≢ codes "root"
  pub named : cfg.flags create_user ≡ true → cfg.texts username ≢ []
  pub unlocked :
      cfg.flags encrypt ≡ true
      → cfg.texts mode ≢ codes "mounted"
      → interactive ≡ false
      → cfg.texts passphrase ≡ []
      → cfg.texts passphrase_file ≢ []
  pub alongside : cfg.texts root_size ≢ [] → cfg.texts mode ≡ codes "alongside"
  pub swap_device :
      cfg.texts swap_device ≢ []
      → (cfg.texts mode ≡ codes "mounted") × (cfg.texts swap ≡ codes "partition")

some-none : {e : SetupError} → some e ≡ none → ⊥
some-none h = cc

-- Who administers the system, from the tests of the password of root and of the user.
administrator :
    (cfg : Config) (interactive : Bool)
    → (not (cfg.flags sudo)
        && (str_eq (cfg.texts root_password) [] && str_eq (cfg.texts root_password_hash) []))
      ≡ false
    → (cfg.flags create_user && str_eq (cfg.texts username) []) ≡ false
    → (cfg.flags create_user && str_eq (cfg.texts username) (codes "root")) ≡ false
    → (cfg.flags create_user
        && (not interactive
            && (str_eq (cfg.texts password) [] && str_eq (cfg.texts password_hash) [])))
      ≡ false
    → (cfg.flags create_user ≡ true) ⊎ (cfg.flags sudo ≡ false)
    → HasRootLogin cfg ⊎ HasSudoer cfg interactive
administrator cfg interactive a n r p k = elim (Bool-cases (cfg.flags sudo)) [
  | inr off ↦ inl (elim (Bool-cases (str_eq (cfg.texts root_password) [])) [
    | inr given ↦ inl (λ e. absurd (ground (arith, str_eq_iff (cfg.texts root_password) [])))
    | inl missing ↦ inr (λ e. absurd (ground (arith, str_eq_iff (cfg.texts root_password_hash) [])))
  ])
  | inl on ↦
      let made : cfg.flags create_user ≡ true = ground (arith, k) in
      inr (
        made,
        on,
        λ e. absurd (ground (arith, str_eq_iff (cfg.texts username) [])),
        λ e. absurd (ground (arith, str_eq_iff (cfg.texts username) (codes "root"))),
        elim (Bool-cases interactive) [
          | inl asked ↦ inl asked
          | inr quiet ↦ inr (elim (Bool-cases (str_eq (cfg.texts password) [])) [
            | inr given ↦ inl (λ e. absurd (ground (arith, str_eq_iff (cfg.texts password) [])))
            | inl missing ↦
                inr (λ e. absurd (ground (arith, str_eq_iff (cfg.texts password_hash) [])))
          ])
        ],
      )
]

module _ (strtod : Str → Option (Bool × Str)) where
  -- The tests from a position on are false.
  abbrev AllFalse : List (Bool × SetupError) → Type 0
  AllFalse [] = Unit
  AllFalse ((holds, e) ∷ ts) = (holds ≡ false) × AllFalse ts

  first_error-none : (ts : List (Bool × SetupError)) → first_error strtod ts ≡ none → AllFalse ts
  first_error-none [] h = tt
  first_error-none ((true, e) ∷ ts) h = absurd (some-none h)
  first_error-none ((false, e) ∷ ts) h = (refl, first_error-none ts h)

  -- A configuration that `validate` accepts names a device below /dev, or a target that is mounted
  -- already. If it has a user made or gives no sudo, root has a password, or the user may use sudo,
  -- is not root, and has a password or is asked for one. A disk that is to be encrypted without
  -- questions has a passphrase; a size of the root comes with the mode "alongside" only, and a swap
  -- device with a target that is mounted and a swap on a partition only.
  pub validate-IsInstallable :
      (cfg : Config) (interactive : Bool)
      → validate strtod cfg interactive ≡ none
      → IsInstallable cfg interactive
  unfolding validate tests
  validate-IsInstallable cfg interactive h =
      let get = cfg.texts in
      let chosen = get mode in
      let mounted = str_eq_iff chosen (codes "mounted") in
      let all = first_error-none (tests strtod cfg interactive) h in
      let target_on = all.1.1.1.1.1.1.1 in
      let device_on = target_on.1.1 in
      let stray_on = device_on.1.1 in
      let admin_on = stray_on.1 in
      let name_on = admin_on.1.1.1.1 in
      let root_on = name_on.1 in
      let phrase_on = root_on.1.1.1 in
      let size_on = phrase_on.1.1.1 in
      record {
        admin = administrator cfg interactive admin_on.0 name_on.0 root_on.0 root_on.1.1.0;
        target = λ m e. ground (arith, target_on.0, mounted, str_eq_iff (get target) []);
        device = λ m. ground (arith, device_on.0, mounted);
        not_root = λ c e. ground (arith, root_on.0, str_eq_iff (get username) (codes "root"));
        named = λ c e. ground (arith, name_on.0, str_eq_iff (get username) []);
        unlocked = λ e m i p q. ground (
          arith,
          phrase_on.0,
          mounted,
          str_eq_iff (get passphrase) [],
          str_eq_iff (get passphrase_file) [],
        );
        alongside = λ n. ground (
          arith,
          size_on.0,
          str_eq_iff (get root_size) [],
          str_eq_iff chosen (codes "alongside"),
        );
        swap_device = λ n. ground (
          arith,
          stray_on.0,
          mounted,
          str_eq_iff (get swap_device) [],
          str_eq_iff (get swap) (codes "partition"),
        );
      }
