-- ===== src/Setup/Cli/Sets.antt =====
-- What `parse_cli` collects as overrides.
use salt_os.Prelude.{
  ◌≡◌, refl, subst, inl, inr, true, ◌||◌, none, some, List, [], ◌∷◌, ◌++◌, Bool-cases, Option-cases,
  Str, codes, str_eq,
}
use salt_os.Setup.Cli.{
  CliOptions, has_equals, Valued, from_option, profile_option, set_option, disk_option, user_option,
  target_option, mnt_option, valued_option, apply_option, parse_cli,
}

abbrev pub AllAssign : List Str → Type 0
AllAssign [] = Unit
AllAssign (s ∷ ss) = (has_equals s ≡ true) × AllAssign ss

AllAssign-concat :
    (ss : List Str) (s : Str) → AllAssign ss → has_equals s ≡ true → AllAssign (ss ++ s ∷ [])
AllAssign-concat [] s h k = (k, tt)
AllAssign-concat (x ∷ ss) s h k = (h.0, AllAssign-concat ss s h.1 k)

some_eq {ℓ} : {A : Type ℓ} {x y : A} → some x ≡ some y → x ≡ y
some_eq h = cc

none-some {ℓ} : {A : Type ℓ} {x : A} → none ≡ some x → ⊥
none-some h = cc

apply_option-AllAssign :
    (v : Valued) (b : Str) (o o' : CliOptions)
    → AllAssign o.sets
    → apply_option v b o ≡ some o'
    → AllAssign o'.sets
unfolding apply_option has_equals
apply_option-AllAssign from_option b o o' h k = subst (λ r. AllAssign r.sets) (some_eq k) h
apply_option-AllAssign profile_option b o o' h k = subst (λ r. AllAssign r.sets) (some_eq k) h
apply_option-AllAssign set_option b o o' h k = elim (Bool-cases (has_equals b)) [
  | inl t ↦ subst (λ r. AllAssign r.sets) (some_eq (rw t at k)) (AllAssign-concat o.sets b h t)
  | inr f ↦ absurd (none-some (rw f at k))
]
apply_option-AllAssign disk_option b o o' h k =
    subst (λ r. AllAssign r.sets) (some_eq k)
      (AllAssign-concat o.sets (codes "install.disk=" ++ b) h refl)
apply_option-AllAssign user_option b o o' h k =
    subst (λ r. AllAssign r.sets) (some_eq k)
      (AllAssign-concat o.sets (codes "user.name=" ++ b) h refl)
apply_option-AllAssign target_option b o o' h k =
    subst (λ r. AllAssign r.sets) (some_eq k)
      (AllAssign-concat (o.sets ++ codes "install.mode=mounted" ∷ []) (codes "install.target=" ++ b)
        (AllAssign-concat o.sets (codes "install.mode=mounted") h refl) refl)
apply_option-AllAssign mnt_option b o o' h k = subst (λ r. AllAssign r.sets) (some_eq k) h

-- When the command line is accepted, each override that it adds has the form key=value, given that
-- those before it have.
pub parse_cli-AllAssign :
    (args : List Str) (o o' : CliOptions)
    → AllAssign o.sets
    → parse_cli args o ≡ some o'
    → AllAssign o'.sets
unfolding parse_cli
parse_cli-AllAssign [] o o' h k = subst (λ r. AllAssign r.sets) (some_eq k) h
parse_cli-AllAssign (a ∷ []) o o' h k =
    elim (Bool-cases (str_eq a (codes "--help") || str_eq a (codes "-h"))) [
      | inl t ↦ subst (λ r. AllAssign r.sets) (some_eq (rw t at k)) h
      | inr f ↦ elim (Option-cases (valued_option a)) [
        | inr (v, e) ↦ absurd (none-some (rw (f, e) at k))
        | inl e ↦ elim (Bool-cases (str_eq a (codes "--yes") || str_eq a (codes "-y"))) [
          | inl y ↦ subst (λ r. AllAssign r.sets) (some_eq (rw (f, e, y) at k)) h
          | inr y ↦ elim (Bool-cases (str_eq a (codes "--dump-config"))) [
            | inl d ↦ subst (λ r. AllAssign r.sets) (some_eq (rw (f, e, y, d) at k)) h
            | inr d ↦ absurd (none-some (rw (f, e, y, d) at k))
          ]
        ]
      ]
    ]
parse_cli-AllAssign (a ∷ b ∷ args) o o' h k =
    elim (Bool-cases (str_eq a (codes "--help") || str_eq a (codes "-h"))) [
      | inl t ↦ subst (λ r. AllAssign r.sets) (some_eq (rw t at k)) h
      | inr f ↦ elim (Option-cases (valued_option a)) [
        | inr (v, e) ↦ elim (Option-cases (apply_option v b o)) [
          | inl n ↦ absurd (none-some (rw (f, e, n) at k))
          | inr (o1, n) ↦
              parse_cli-AllAssign args o1 o' (apply_option-AllAssign v b o o1 h n)
                (rw (f, e, n) at k)
        ]
        | inl e ↦ elim (Bool-cases (str_eq a (codes "--yes") || str_eq a (codes "-y"))) [
          | inl y ↦
              parse_cli-AllAssign (b ∷ args) (record o { yes = true }) o' h (rw (f, e, y) at k)
          | inr y ↦ elim (Bool-cases (str_eq a (codes "--dump-config"))) [
            | inl d ↦
                parse_cli-AllAssign (b ∷ args) (record o { dump_config = true }) o' h
                  (rw (f, e, y, d) at k)
            | inr d ↦ absurd (none-some (rw (f, e, y, d) at k))
          ]
        ]
      ]
    ]
