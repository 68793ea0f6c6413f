-- ===== src/Trust/Blocks.antt =====
-- When the findings of checks block.
use salt_os.Prelude.{
  ℕ, zero, suc, ◌≡◌, refl, sym, ◌∙◌, inl, inr, Bool, true, false, ◌||◌, List, [], ◌∷◌, ◌++◌,
  Bool-cases, Str,
}
use salt_os.Trust.{Severity, Finding, report, is_block, has_block, in_order}

has_block-append : (a b : List Finding) → has_block (a ++ b) ≡ (has_block a || has_block b)
unfolding has_block
has_block-append [] b = refl
has_block-append (f ∷ a) b = elim (Bool-cases (is_block f.severity)) [
  | inl y ↦ rw y refl
  | inr n ↦ rw n (has_block-append a b)
]

or_eq_false : (x y : Bool) → (x || y) ≡ false → (x ≡ false) × (y ≡ false)
or_eq_false true y h = absurd cc
or_eq_false false y h = (refl, h)

-- Nothing blocks in the findings before, nor in those behind.
pub no_block-append :
    (a b : List Finding)
    → has_block (a ++ b) ≡ false
    → (has_block a ≡ false) × (has_block b ≡ false)
no_block-append a b h = or_eq_false (has_block a) (has_block b) (sym (has_block-append a b) ∙ h)

-- The findings of one check.
abbrev pub findings_at : ℕ → List (List Finding) → List Finding
findings_at n [] = []
findings_at zero (fs ∷ all) = fs
findings_at (suc n) (fs ∷ all) = findings_at n all

-- Nothing blocks in any of the checks.
pub no_block-each :
    (all : List (List Finding))
    → has_block (in_order all) ≡ false
    → (n : ℕ) → has_block (findings_at n all) ≡ false
unfolding in_order has_block
no_block-each [] h n = refl
no_block-each (fs ∷ all) h zero = (no_block-append fs (in_order all) h).0
no_block-each (fs ∷ all) h (suc n) = no_block-each all (no_block-append fs (in_order all) h).1 n

pub no_block-report :
    (b : Bool) (code message : Str)
    → has_block (report b Severity.block code message) ≡ false
    → b ≡ false
unfolding has_block report
no_block-report true code message h = absurd cc
no_block-report false code message h = refl

-- Nothing blocks in one check and the others.
pub clear-append :
    (a b : List Finding) → has_block a ≡ false → has_block b ≡ false → has_block (a ++ b) ≡ false
clear-append a b ha hb = has_block-append a b ∙ rw ha hb

pub clear-warn :
    (b : Bool) (code message : Str) → has_block (report b Severity.warn code message) ≡ false
unfolding has_block report
clear-warn true code message = refl
clear-warn false code message = refl

pub clear-block :
    (b : Bool) (code message : Str)
    → b ≡ false
    → has_block (report b Severity.block code message) ≡ false
unfolding has_block report
clear-block b code message h = rw h refl

-- Checks none of which blocks.
abbrev pub AllClear : List (List Finding) → Type 0
AllClear [] = Unit
AllClear (fs ∷ all) = (has_block fs ≡ false) × AllClear all

pub clear-each : (all : List (List Finding)) → AllClear all → has_block (in_order all) ≡ false
unfolding in_order has_block
clear-each [] h = refl
clear-each (fs ∷ all) (h, more) = clear-append fs (in_order all) h (clear-each all more)
