-- ===== src/Trust/Admitted.antt =====
-- What a recipe has when the lint blocks nothing.
use salt_os.Prelude.{
  ℕ, ◌≡◌, refl, sym, ap, subst, ◌↔◌, ◌⊎◌, inl, inr, Bool, true, false, not, Option, none, some,
  List, [], ◌∷◌, Bool-cases, Str, codes, str_eq,
}
use salt_os.Prelude.Int.{ℤ}
use salt_os.Toml.Parsed.{Value}
use salt_os.Trust.{
  Severity, Finding, report, is_unknown_arch, has_block, is_hex64, is_absent, lacks_text, is_local,
  lint_archs, is_nil, lint_sha, lint_repro, text_at, archs_at, lint_recipe, lint_common,
}
use salt_os.Trust.Blocks.{
  no_block-append, no_block-each, no_block-report, clear-append, clear-warn, clear-block,
  clear-each,
}

-- A text that is there.
abbrev pub IsGiven : Option Str → Type 0
IsGiven v = (s : Str) × (v ≡ some s)

-- A text that is there and not empty.
abbrev pub IsFilled : Option Str → Type 0
IsFilled v = (c : ℕ) × (s : Str) × (v ≡ some (c ∷ s))

is_absent-IsGiven : (v : Option Str) → is_absent v ≡ false → IsGiven v
unfolding is_absent
is_absent-IsGiven none h = absurd cc
is_absent-IsGiven (some s) h = (s, refl)

lacks_text-IsFilled : (v : Option Str) → lacks_text v ≡ false → IsFilled v
unfolding lacks_text
lacks_text-IsFilled none h = absurd cc
lacks_text-IsFilled (some []) h = absurd cc
lacks_text-IsFilled (some (c ∷ s)) h = (c, s, refl)

-- A checksum of 64 hexadecimal digits, or a file of this machine without one.
abbrev pub IsPinned : Option Str → Option Str → Type 0
IsPinned url sha =
    ((s : Str) × (sha ≡ some s) × (is_hex64 s ≡ true))
    ⊎ ((lacks_text sha ≡ true) × (is_local url ≡ true))

not_eq_false : (b : Bool) → not b ≡ false → b ≡ true
not_eq_false true h = refl
not_eq_false false h = absurd cc

lint_sha-IsPinned : (url sha : Option Str) → has_block (lint_sha url sha) ≡ false → IsPinned url sha
unfolding lint_sha lacks_text
lint_sha-IsPinned url none h = inr (refl, not_eq_false _ (no_block-report _ _ _ h))
lint_sha-IsPinned url (some []) h = inr (refl, not_eq_false _ (no_block-report _ _ _ h))
lint_sha-IsPinned url (some (c ∷ s)) h = inl (c ∷ s, refl, not_eq_false _ (no_block-report _ _ _ h))

is_nil-cons : (l : List Str) → is_nil l ≡ false → (a : Str) × (more : List Str) × (l ≡ a ∷ more)
unfolding is_nil
is_nil-cons [] h = absurd cc
is_nil-cons (a ∷ more) h = (a, more, refl)

-- What a recipe must have.
abbrev pub IsAdmissible : (Str → ℤ × Str) → Value → Type 0
IsAdmissible strtol t =
    IsGiven (text_at strtol t (codes "name"))
    × IsGiven (text_at strtol t (codes "version"))
    × ((a : Str) × (more : List Str) × (archs_at strtol t ≡ a ∷ more))
    × IsFilled (text_at strtol t (codes "license"))
    × IsFilled (text_at strtol t (codes "source.url"))
    × IsPinned (text_at strtol t (codes "source.url")) (text_at strtol t (codes "source.sha256"))

module _ (strtol : Str → ℤ × Str) where
  lint_recipe-IsAdmissible :
      (t : Value) → has_block (lint_recipe strtol t) ≡ false → IsAdmissible strtol t
  unfolding lint_recipe
  lint_recipe-IsAdmissible t h =
      let clear = no_block-each _ h in
      (
        is_absent-IsGiven _ (no_block-report _ _ _ (clear 0)),
        is_absent-IsGiven _ (no_block-report _ _ _ (clear 1)),
        is_nil-cons _ (no_block-report _ _ _ (clear 3)),
        lacks_text-IsFilled _ (no_block-report _ _ _ (clear 5)),
        lacks_text-IsFilled _ (no_block-report _ _ _ (clear 6)),
        lint_sha-IsPinned _ _ (clear 7),
      )

clear-lint_archs : (archs : List Str) → has_block (lint_archs archs) ≡ false
unfolding lint_archs has_block
clear-lint_archs [] = refl
clear-lint_archs (a ∷ more) =
    clear-append (report (is_unknown_arch a) Severity.warn (codes "arch-unknown") a)
      (lint_archs more) (clear-warn (is_unknown_arch a) (codes "arch-unknown") a)
      (clear-lint_archs more)

clear-lint_repro : (status reason : Option Str) → has_block (lint_repro status reason) ≡ false
unfolding lint_repro
clear-lint_repro none reason = clear-warn _ _ _
clear-lint_repro (some status) reason = elim (Bool-cases (str_eq status (codes "unverified"))) [
  | inl y ↦ rw y (clear-warn _ _ _)
  | inr n ↦ rw n (clear-warn _ _ _)
]

IsGiven-present : (v : Option Str) → IsGiven v → is_absent v ≡ false
unfolding is_absent
IsGiven-present v (s, e) = rw e refl

IsFilled-present : (v : Option Str) → IsFilled v → lacks_text v ≡ false
unfolding lacks_text
IsFilled-present v (c, s, e) = rw e refl

is_hex64-cons : (s : Str) → is_hex64 s ≡ true → (c : ℕ) × (more : Str) × (s ≡ c ∷ more)
unfolding is_hex64
is_hex64-cons [] h = absurd cc
is_hex64-cons (c ∷ s) h = (c, s, refl)

clear-lint_sha : (url sha : Option Str) → IsPinned url sha → has_block (lint_sha url sha) ≡ false
unfolding lint_sha lacks_text
clear-lint_sha url none (inl (s, e, h)) = absurd cc
clear-lint_sha url none (inr (l, h)) = clear-block _ _ _ (ap not h)
clear-lint_sha url (some []) (inl (s, e, h)) = let filled = is_hex64-cons s h in absurd cc
clear-lint_sha url (some []) (inr (l, h)) = clear-block _ _ _ (ap not h)
clear-lint_sha url (some (c ∷ s)) (inl (s', e, h)) =
    let same : s' ≡ c ∷ s = cc in clear-block _ _ _ (rw (sym same, h) refl)
clear-lint_sha url (some (c ∷ s)) (inr (l, h)) = absurd cc

is_nil-cons_of : (l : List Str) (a : Str) (more : List Str) → l ≡ a ∷ more → is_nil l ≡ false
unfolding is_nil
is_nil-cons_of l a more e = rw e refl

module _ (strtol : Str → ℤ × Str) where
  lint_recipe-clear : (t : Value) → IsAdmissible strtol t → has_block (lint_recipe strtol t) ≡ false
  unfolding lint_recipe
  lint_recipe-clear t (name, version, (a, more, archs), license, url, sha) = clear-each _ (
    clear-block _ _ _ (IsGiven-present _ name),
    (
      clear-block _ _ _ (IsGiven-present _ version),
      (
        clear-warn _ _ _,
        (
          clear-block _ _ _ (is_nil-cons_of _ a more archs),
          (
            clear-lint_archs (archs_at strtol t),
            (
              clear-block _ _ _ (IsFilled-present _ license),
              (
                clear-block _ _ _ (IsFilled-present _ url),
                (clear-lint_sha _ _ sha, (clear-warn _ _ _, (clear-lint_repro _ _, tt))),
              ),
            ),
          ),
        ),
      ),
    ),
  )

  -- The lint of a recipe adds nothing that blocks to the findings before it exactly if the recipe
  -- evaluates, it has a name, a version, an architecture, a license and a URL of the source, and it
  -- pins the source by 64 hexadecimal digits, or the source is a file of the machine and the recipe
  -- has no checksum.
  pub lint_common_iff :
      (recipe : Option (Option Value)) (error : Str) (out : List Finding)
      → (has_block (lint_common strtol recipe error out).1 ≡ false)
        ↔ ((has_block out ≡ false) × (t : Value) × (recipe ≡ some (some t)) × IsAdmissible strtol t)
  unfolding lint_common has_block report
  lint_common_iff none error out =
      (λ h. let fails = (no_block-append out _ h).1 in absurd cc, λ (h, t, e, ad). absurd cc)
  lint_common_iff (some none) error out =
      (λ h. let fails = (no_block-append out _ h).1 in absurd cc, λ (h, t, e, ad). absurd cc)
  lint_common_iff (some (some t)) error out = (
    λ h.
        let both = no_block-append out (lint_recipe strtol t) h in
        (both.0, t, refl, lint_recipe-IsAdmissible strtol t both.1),
    λ (h, t', e, ad).
        let same : t' ≡ t = cc in
        clear-append out (lint_recipe strtol t) h
          (lint_recipe-clear t (subst (IsAdmissible strtol) same ad)),
  )
