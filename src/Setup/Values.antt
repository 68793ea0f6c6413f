-- ===== src/Setup/Values.antt =====
-- `set_value` and the default size of the swap (src/setup/config.cpp).
use salt_os.Prelude.{
  ℕ, suc, ◌/◌, ◌≤◌, ◌≡◌, refl, sym, ap, ◌∙◌, subst, ◌≢◌, ◌⊎◌, inl, inr, Bool, true, false, ◌&&◌,
  ◌||◌, none, some, List, [], ◌∷◌, arith, leb, ◌==◌, ==_iff, Bool-cases, Option-cases, mem-cons,
  not-mem-nil, Str, codes, str_eq, str_eq_iff, Memᴰ,
}
use salt_os.Setup.{
  Kind, text, flag, Field, fields, Config, find_in, find_field, parse_bool, set_field, set_value,
  default_swap_mib,
}

some_eq {ℓ} : {A : Type ℓ} {x y : A} → some x ≡ some y → x ≡ y
some_eq h = cc

none-some {ℓ} : {A : Type ℓ} {x : A} → none ≡ some x → ⊥
none-some h = cc

find_in-found :
    (fs : List Field) (k : Str) (f : Field) → find_in fs k ≡ some f → (f.key ≡ k) × Memᴰ f fs
unfolding find_in
find_in-found [] k f h = absurd (none-some h)
find_in-found (x ∷ xs) k f h = elim (Bool-cases (str_eq k x.key)) [
  | inl t ↦
      subst (λ y. (y.key ≡ k) × Memᴰ y (x ∷ xs)) (some_eq (rw t at h))
        (sym ((str_eq_iff k x.key).0 t), Memᴰ.head refl)
  | inr n ↦ let (e, m) = find_in-found xs k f (rw n at h) in (e, Memᴰ.tail m)
]

-- The fields point to members that come one after the other.
unfoldable rising : ℕ → List Field → Bool
rising n [] = true
rising n (f ∷ fs) = let rest = rising (suc f.member) fs in leb n f.member && rest

fields-rising : rising 0 fields ≡ true
unfolding rising
fields-rising = refl

rising-above : (n : ℕ) (fs : List Field) (g : Field) → rising n fs ≡ true → Memᴰ g fs → n ≤ g.member
unfolding rising
rising-above n [] g h m = absurd (not-mem-nil g m)
rising-above n (f ∷ fs) g h m = elim ((mem-cons g f fs).0 m) [
  | inl e ↦ let same : g.member ≡ f.member = ap (λ (x : Field). x.member) e in ground (arith, same)
  | inr k ↦ let later = rising-above (suc f.member) fs g (ground arith) k in ground (arith, later)
]

-- No two fields share a member.
rising-own :
    (n : ℕ) (fs : List Field) (f g : Field)
    → rising n fs ≡ true
    → Memᴰ f fs
    → Memᴰ g fs
    → f.member ≡ g.member
    → f ≡ g
unfolding rising
rising-own n [] f g h i j e = absurd (not-mem-nil f i)
rising-own n (x ∷ fs) f g h i j e = elim ((mem-cons f x fs).0 i) [
  | inl a ↦ elim ((mem-cons g x fs).0 j) [
    | inl b ↦ a ∙ sym b
    | inr b ↦
        let later = rising-above (suc x.member) fs g (ground arith) b in
        let same : f.member ≡ x.member = ap (λ (y : Field). y.member) a in absurd (omega arith)
  ]
  | inr a ↦ elim ((mem-cons g x fs).0 j) [
    | inl b ↦
        let later = rising-above (suc x.member) fs f (ground arith) a in
        let same : g.member ≡ x.member = ap (λ (y : Field). y.member) b in absurd (omega arith)
    | inr b ↦ rising-own (suc x.member) fs f g (ground arith) a b e
  ]
]

-- The value is stored in the member of a field, by its kind.
abbrev pub IsStored : Kind → ℕ → Str → Config → Config → Type 0
IsStored text m value cfg cfg' = (cfg'.texts m ≡ value) × (cfg'.flags m ≡ cfg.flags m)
IsStored flag m value cfg cfg' =
    (some (cfg'.flags m) ≡ parse_bool value) × (cfg'.texts m ≡ cfg.texts m)

abbrev pub is_stratum_key : Str → Bool
is_stratum_key key = str_eq key (codes "stratum.name") || str_eq key (codes "stratum")

-- What a successful assignment does: to the stratum, or to the field with the key.
abbrev pub IsAssigned : Str → Str → Config → Config → Type 0
IsAssigned key value cfg cfg' =
    ((is_stratum_key key ≡ true)
      × (cfg'.distro ≡ value)
      × ((m : ℕ) → (cfg'.texts m ≡ cfg.texts m) × (cfg'.flags m ≡ cfg.flags m)))
    ⊎ ((is_stratum_key key ≡ false)
        × (cfg'.distro ≡ cfg.distro)
        × ((f : Field) × Memᴰ f fields × (f.key ≡ key) × IsStored f.kind f.member value cfg cfg')
        × ((g : Field)
            → Memᴰ g fields
            → g.key ≢ key
            → (cfg'.texts g.member ≡ cfg.texts g.member)
              × (cfg'.flags g.member ≡ cfg.flags g.member)))

-- What `set_field` does to the member.
abbrev Sets : Kind → ℕ → Str → Config → Config → Type 0
Sets k m value cfg cfg' =
    (cfg'.distro ≡ cfg.distro)
    × IsStored k m value cfg cfg'
    × ((n : ℕ) → n ≢ m → (cfg'.texts n ≡ cfg.texts n) × (cfg'.flags n ≡ cfg.flags n))

set_field-Sets :
    (cfg cfg' : Config) (k : Kind) (key value : Str) (secret : Bool) (m : ℕ)
    → set_field cfg (some (record { key = key; kind = k; secret = secret; member = m })) value
      ≡ some cfg'
    → Sets k m value cfg cfg'
set_field-Sets cfg cfg' text key value secret m h =
    subst (Sets text m value cfg) (some_eq h)
      (refl, (ground (arith, ==_iff m m), refl), λ n d. (ground (arith, ==_iff n m, d), refl))
set_field-Sets cfg cfg' flag key value secret m h = elim (Option-cases (parse_bool value)) [
  | inl e ↦ absurd (none-some (rw e at h))
  | inr (b, e) ↦
      let own : (m == m) ≡ true = (==_iff m m).1 refl in
      subst (Sets flag m value cfg) (some_eq (rw e at h))
        (refl, (rw (own, e) refl, refl), λ n d. (refl, ground (arith, ==_iff n m, d)))
]

-- An assignment that is accepted sets the stratum under its two keys, and nothing else; under
-- another key it sets the member of the field with that key to the text, or to the truth value that
-- the text is read as, and neither the stratum nor the member of another field changes.
pub set_value-IsAssigned :
    (cfg cfg' : Config) (key value : Str)
    → set_value cfg key value ≡ some cfg'
    → IsAssigned key value cfg cfg'
unfolding set_value find_field
set_value-IsAssigned cfg cfg' key value h = elim (Bool-cases (is_stratum_key key)) [
  | inl t ↦
      let same : record cfg { distro = value } ≡ cfg' = some_eq (rw t at h) in
      inl (
        t,
        sym (ap (λ (c : Config). c.distro) same),
        λ m. (sym (ap (λ (c : Config). c.texts m) same), sym (ap (λ (c : Config). c.flags m) same)),
      )
  | inr n ↦ elim (Option-cases (find_in fields key)) [
    | inl e ↦ absurd (none-some (rw (n, e) at h))
    | inr (f, e) ↦
        let (k, at) = find_in-found fields key f e in
        let (same, stored, others) =
          set_field-Sets cfg cfg' f.kind f.key value f.secret f.member (rw (n, e) at h) in
        inr (
          n,
          same,
          (f, at, k, stored),
          λ g there other. others g.member (λ z.
              other
                (ap (λ (x : Field). x.key) (rising-own 0 fields g f fields-rising there at z) ∙ k)),
        )
  ]
]

-- The default swap is between 1 and 8 GiB, and within these bounds it is the size of the memory.
pub default_swap_mib-bounds :
    (mem_kib : ℕ)
    → (1024 ≤ default_swap_mib mem_kib)
      × (default_swap_mib mem_kib ≤ 8192)
      × (1024 ≤ mem_kib / 1024 → mem_kib / 1024 ≤ 8192 → default_swap_mib mem_kib ≡ mem_kib / 1024)
unfolding default_swap_mib
default_swap_mib-bounds mem_kib = (ground arith, ground arith, λ a b. ground arith)
