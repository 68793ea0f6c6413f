-- ===== src/Util/Rc.antt =====
-- The return codes of src/halite/include/salt/util.h.
use salt_os.Prelude.{◌≡◌, refl, sym, ap, ◌∙◌, ◌≢◌, ◌⊎◌, inl, inr, Bool, true, false}

pub data Rc : Type 0 where
  ok err err_io err_format err_notfound err_verify err_exists err_dep err_usage : Rc

-- `rc == SALT_OK`
abbrev pub succeeded : Rc → Bool
succeeded ok = true
succeeded _ = false

-- `if (rc == SALT_OK) rc = …`: a call that goes on from the state of the one before.
abbrev pub then_ok {ℓ} : {A : Type ℓ} → Rc × A → (A → Rc × A) → Rc × A
then_ok (ok, a) f = f a
then_ok (rc, a) f = (rc, a)

pub then_ok-cases {ℓ} :
    {A : Type ℓ} (rc : Rc) (a : A) (f : A → Rc × A)
    → ((rc ≡ ok) × (then_ok (rc, a) f ≡ f a)) ⊎ ((rc ≢ ok) × (then_ok (rc, a) f ≡ (rc, a)))
then_ok-cases ok a f = inl (refl, refl)
then_ok-cases err a f = inr (λ e. cc, refl)
then_ok-cases err_io a f = inr (λ e. cc, refl)
then_ok-cases err_format a f = inr (λ e. cc, refl)
then_ok-cases err_notfound a f = inr (λ e. cc, refl)
then_ok-cases err_verify a f = inr (λ e. cc, refl)
then_ok-cases err_exists a f = inr (λ e. cc, refl)
then_ok-cases err_dep a f = inr (λ e. cc, refl)
then_ok-cases err_usage a f = inr (λ e. cc, refl)

-- What holds at each step on the way holds where the steps end.
pub then_ok-elim {ℓ κ} :
    {A : Type ℓ} (P : A → Type κ) (rc : Rc) (a : A) (f : A → Rc × A)
    → P a
    → (rc ≡ ok → P (f a).1)
    → P (then_ok (rc, a) f).1
then_ok-elim P ok a f p q = q refl
then_ok-elim P err a f p q = p
then_ok-elim P err_io a f p q = p
then_ok-elim P err_format a f p q = p
then_ok-elim P err_notfound a f p q = p
then_ok-elim P err_verify a f p q = p
then_ok-elim P err_exists a f p q = p
then_ok-elim P err_dep a f p q = p
then_ok-elim P err_usage a f p q = p

-- A chain that succeeds succeeds at each step.
pub then_ok-ok {ℓ} :
    {A : Type ℓ} (rc : Rc) (a b : A) (f : A → Rc × A)
    → then_ok (rc, a) f ≡ (ok, b)
    → (rc ≡ ok) × (f a ≡ (ok, b))
then_ok-ok rc a b f h = elim (then_ok-cases rc a f) [
  | inl (r, e) ↦ (r, sym e ∙ h)
  | inr (n, e) ↦ absurd (n (ap (λ p. p.0) (sym e ∙ h)))
]
