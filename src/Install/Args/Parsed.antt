-- ===== src/Install/Args/Parsed.antt =====
-- What is left of the arguments, and what a reference stands for.
use salt_os.Prelude.{
  ◌≡◌, refl, ap, subst, ◌≢◌, ◌⊎◌, inl, inr, true, false, ◌||◌, Option, none, some, List, [], ◌∷◌,
  ◌++◌, arith, ◌==◌, ==_iff, Bool-cases, Option-cases, Str, codes, str_eq, str_eq_iff,
}
use salt_os.Repo.{has_slash}
use salt_os.Install.Args.{
  TxnFlags, is_option, simple_flag, later_flag, keep_arg, parse_other, parse_txn_flags, PkgRef,
  split_first, ref_of, parse_pkgref,
}

abbrev pub NoOptions : List Str → Type 0
NoOptions [] = Unit
NoOptions (a ∷ more) = (is_option a ≡ false) × NoOptions more

some_eq {ℓ} : {A : Type ℓ} {x y : A} → some x ≡ some y → x ≡ y
some_eq h = cc

none-some {ℓ} : {A : Type ℓ} {x : A} → none ≡ some x → ⊥
none-some h = cc

keep_arg-NoOptions :
    (a : Str) (o : Option (List Str × TxnFlags)) (r : List Str × TxnFlags)
    → ((q : List Str × TxnFlags) → o ≡ some q → NoOptions q.0)
    → is_option a ≡ false
    → keep_arg a o ≡ some r
    → NoOptions r.0
keep_arg-NoOptions a none r h f k = absurd (none-some k)
keep_arg-NoOptions a (some q) r h f k = subst (λ p. NoOptions p.0) (some_eq k) (f, h q refl)

parse_other-NoOptions :
    (a : Str) (f : TxnFlags) (rest : TxnFlags → Option (List Str × TxnFlags))
    (r : List Str × TxnFlags)
    → ((g : TxnFlags) (q : List Str × TxnFlags) → rest g ≡ some q → NoOptions q.0)
    → parse_other a f rest ≡ some r
    → NoOptions r.0
unfolding parse_other
parse_other-NoOptions a f rest r h k = elim (Option-cases (later_flag a f)) [
  | inr (g, e) ↦ h g r (rw (e, parse_other) at k)
  | inl e ↦ elim (Bool-cases (is_option a)) [
    | inl t ↦ absurd (none-some (rw (e, t, parse_other) at k))
    | inr n ↦ keep_arg-NoOptions a (rest f) r (h f) n (rw (e, n, parse_other) at k)
  ]
]

-- The arguments that `parse_txn_flags` leaves are no options: none begins with a dash.
pub parse_txn_flags-NoOptions :
    (args : List Str) (f : TxnFlags) (r : List Str × TxnFlags)
    → parse_txn_flags args f ≡ some r
    → NoOptions r.0
unfolding parse_txn_flags
parse_txn_flags-NoOptions [] f r k = subst (λ p. NoOptions p.0) (some_eq k) tt
parse_txn_flags-NoOptions (a ∷ []) f r k = elim (Option-cases (simple_flag a f)) [
  | inr (g, e) ↦ subst (λ p. NoOptions p.0) (some_eq (rw (e, parse_txn_flags) at k)) tt
  | inl e ↦
      parse_other-NoOptions a f (λ g. some ([], g)) r
        (λ g q j. subst (λ p. NoOptions p.0) (some_eq j) tt) (rw (e, parse_txn_flags) at k)
]
parse_txn_flags-NoOptions (a ∷ b ∷ args) f r k = elim (Option-cases (simple_flag a f)) [
  | inr (g, e) ↦ parse_txn_flags-NoOptions (b ∷ args) g r (rw (e, parse_txn_flags) at k)
  | inl e ↦ elim (Bool-cases (str_eq a (codes "--lockfile"))) [
    | inl t ↦
        parse_txn_flags-NoOptions args (record f { locked = true; lockfile = b }) r
          (rw (e, t, parse_txn_flags) at k)
    | inr n ↦
        parse_other-NoOptions a f (parse_txn_flags (b ∷ args)) r
          (λ g q j. parse_txn_flags-NoOptions (b ∷ args) g q j) (rw (e, n, parse_txn_flags) at k)
  ]
]

split_first-some :
    (s : Str) (p : Str × Str)
    → split_first s ≡ some p
    → (s ≡ p.0 ++ b'/' ∷ p.1) × (has_slash p.0 ≡ false)
unfolding split_first
split_first-some [] p h = absurd (none-some h)
split_first-some (c ∷ s) p h = elim (Bool-cases (c == b'/')) [
  | inl t ↦
      subst (λ q. (c ∷ s ≡ q.0 ++ b'/' ∷ q.1) × (has_slash q.0 ≡ false)) (some_eq (rw t at h))
        (ap (λ d. d ∷ s) ((==_iff c b'/').0 t), refl)
  | inr n ↦ elim (Option-cases (split_first s)) [
    | inl e ↦ absurd (none-some (rw (n, e) at h))
    | inr (q, e) ↦
        let (a, b) = split_first-some s q e in
        subst (λ r. (c ∷ s ≡ r.0 ++ b'/' ∷ r.1) × (has_slash r.0 ≡ false))
          (some_eq (rw (n, e) at h)) (ap (λ l. c ∷ l) a, ground (arith, n, b))
  ]
]

-- A reference reads as a package of a stratum, stratum/package at the first slash, both parts
-- non-empty, or as a package that is named by the whole argument.
abbrev pub IsRef : Str → PkgRef → Type 0
IsRef arg r =
    ((r.foreign ≡ true)
      × (arg ≡ r.stratum ++ b'/' ∷ r.pkg)
      × (has_slash r.stratum ≡ false)
      × (r.stratum ≢ [])
      × (r.pkg ≢ []))
    ⊎ ((r.foreign ≡ false) × (r.pkg ≡ arg))

ne_nil : (s : Str) → str_eq s [] ≡ false → s ≢ []
ne_nil s h e = ground (arith, str_eq_iff s [])

ref_of-IsRef :
    (arg : Str) (o : Option (Str × Str))
    → ((p : Str × Str) → o ≡ some p → (arg ≡ p.0 ++ b'/' ∷ p.1) × (has_slash p.0 ≡ false))
    → IsRef arg (ref_of arg o)
ref_of-IsRef arg none h = inr (refl, refl)
ref_of-IsRef arg (some (s, p)) h = elim (Bool-cases (str_eq s [] || str_eq p [])) [
  | inl t ↦ rw t (inr (refl, refl))
  | inr n ↦
      let (a, b) = h (s, p) refl in
      rw n (inl (refl, a, b, ne_nil s (ground arith), ne_nil p (ground arith)))
]

-- `parse_pkgref` reads stratum/package at the first slash if both parts are non-empty, and
-- otherwise takes the whole argument as the name of a package.
pub parse_pkgref-IsRef : (arg : Str) → IsRef arg (parse_pkgref arg)
unfolding parse_pkgref
parse_pkgref-IsRef arg = ref_of-IsRef arg (split_first arg) (split_first-some arg)
