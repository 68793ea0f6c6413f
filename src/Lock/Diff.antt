-- ===== src/Lock/Diff.antt =====
-- `salt lock --check`: when `lock_diff` reports no difference.
use salt_os.Prelude.{
  ◌+◌, ◌≡◌, refl, sym, ap, ◌∙◌, subst, ◌↔◌, inl, inr, ⊎_elim, true, false, not, Option, none, some,
  List, [], ◌∷◌, map, arith, Bool-cases, length, filter, mem-cons, not-mem-nil, Str, str_eq,
  str_eq_iff, str_eq_refl, contains, Memᴰ,
}
use salt_os.Db.{Db, get_pkg}
use salt_os.Db.Rows.{PkgRow}
use salt_os.Lock.{LockEntry, ForeignPin, StratumLock}
use salt_os.Lock.Compare.{
  installed_names, LockCompare, same_version, same_sha256, add_compared, compare_entries,
  compare_lock, ForeignPkg, find_foreign, StratumCompare, other_digest, add_pin, compare_pins,
  compare_stratum, diffs, Query, listed,
}

-- The package of an entry is installed as it is pinned.
abbrev pub IsMet : Db → LockEntry → Type 0
IsMet db le =
    (p : PkgRow) × (get_pkg db le.name ≡ some p)
    × (same_version le p ≡ true)
    × (same_sha256 le p ≡ true)

-- The package of a pin is in the stratum as it is pinned.
abbrev pub IsPresent : List ForeignPkg → ForeignPin → Type 0
IsPresent live pin =
    (p : ForeignPkg) × (find_foreign live pin.name ≡ some p)
    × (pin.version ≡ p.version)
    × (other_digest pin.digest p.digest ≡ false)

some_eq {ℓ} : {A : Type ℓ} {x y : A} → some x ≡ some y → x ≡ y
some_eq h = cc

false-true : false ≡ true → ⊥
false-true h = cc

add_compared-IsMet :
    (le : LockEntry) (o : Option PkgRow) (c : LockCompare)
    → ((length (add_compared le o c).missing ≡ 0) × (length (add_compared le o c).changed ≡ 0)) ↔ (
        ((p : PkgRow) × (o ≡ some p) × (same_version le p ≡ true) × (same_sha256 le p ≡ true))
        × (length c.missing ≡ 0)
        × (length c.changed ≡ 0))
add_compared-IsMet le none c = (λ h. absurd (omega (arith, h.0)), λ h. cc h.0.1)
add_compared-IsMet le (some p) c = elim (Bool-cases (same_version le p)) [
  | inl v ↦ elim (Bool-cases (same_sha256 le p)) [
    | inl s ↦ rw (v, s) (λ h. ((p, refl, v, s), h.0, h.1), λ h. (h.1, h.2))
    | inr s ↦
        rw (v, s)
          (
            λ h. absurd (omega (arith, h.1)),
            λ h. absurd (false-true (sym s ∙ ap (same_sha256 le) (some_eq h.0.1) ∙ h.0.3)),
          )
  ]
  | inr v ↦ rw v (
    λ h. absurd (omega (arith, h.1)),
    λ h. absurd (false-true (sym v ∙ ap (same_version le) (some_eq h.0.1) ∙ h.0.2)),
  )
]

compare_entries-IsMet :
    (db : Db) (lock : List LockEntry)
    → ((length (compare_entries db lock).missing ≡ 0)
        × (length (compare_entries db lock).changed ≡ 0))
      ↔ ((le : LockEntry) → Memᴰ le lock → IsMet db le)
unfolding compare_entries
compare_entries-IsMet db [] = (λ h le m. absurd (not-mem-nil le m), λ h. (refl, refl))
compare_entries-IsMet db (le ∷ ls) =
    let one = add_compared-IsMet le (get_pkg db le.name) (compare_entries db ls) in
    let ih = compare_entries-IsMet db ls in
    (
      λ h x m.
          ⊎_elim (λ k. subst (IsMet db) (sym k) (one.0 h).0) (ih.0 ((one.0 h).1, (one.0 h).2) x)
            ((mem-cons x le ls).0 m),
      λ h. let (a, b) = ih.1 (λ x m. h x (Memᴰ.tail m)) in one.1 (h le (Memᴰ.head refl), a, b),
    )

add_pin-IsPresent :
    (pin : ForeignPin) (o : Option ForeignPkg) (c : StratumCompare)
    → ((length (add_pin pin o c).missing ≡ 0) × (length (add_pin pin o c).changed ≡ 0)) ↔ (
        ((p : ForeignPkg) × (o ≡ some p)
          × (pin.version ≡ p.version)
          × (other_digest pin.digest p.digest ≡ false))
        × (length c.missing ≡ 0)
        × (length c.changed ≡ 0))
add_pin-IsPresent pin none c = (λ h. absurd (omega (arith, h.0)), λ h. cc h.0.1)
add_pin-IsPresent pin (some p) c = elim (Bool-cases (str_eq pin.version p.version)) [
  | inl v ↦ elim (Bool-cases (other_digest pin.digest p.digest)) [
    | inl s ↦
        rw (v, s)
          (
            λ h. absurd (omega (arith, h.1)),
            λ h. absurd (
                false-true (
                  sym h.0.3
                  ∙ sym (ap (λ q. other_digest pin.digest q.digest) (some_eq h.0.1))
                  ∙ s)),
          )
    | inr s ↦
        rw (v, s)
          (λ h. ((p, refl, (str_eq_iff pin.version p.version).0 v, s), h.0, h.1), λ h. (h.1, h.2))
  ]
  | inr v ↦ rw v (
    λ h. absurd (omega (arith, h.1)),
    λ h. absurd (
        false-true (
          sym v
          ∙ (str_eq_iff pin.version p.version).1
              (h.0.2 ∙ sym (ap (λ q. q.version) (some_eq h.0.1))))),
  )
]

compare_pins-IsPresent :
    (live : List ForeignPkg) (pins : List ForeignPin)
    → ((length (compare_pins live pins).missing ≡ 0)
        × (length (compare_pins live pins).changed ≡ 0))
      ↔ ((pin : ForeignPin) → Memᴰ pin pins → IsPresent live pin)
unfolding compare_pins
compare_pins-IsPresent live [] = (λ h le m. absurd (not-mem-nil le m), λ h. (refl, refl))
compare_pins-IsPresent live (le ∷ ls) =
    let one = add_pin-IsPresent le (find_foreign live le.name) (compare_pins live ls) in
    let ih = compare_pins-IsPresent live ls in
    (
      λ h x m.
          ⊎_elim (λ k. subst (IsPresent live) (sym k) (one.0 h).0)
            (ih.0 ((one.0 h).1, (one.0 h).2) x) ((mem-cons x le ls).0 m),
      λ h. let (a, b) = ih.1 (λ x m. h x (Memᴰ.tail m)) in one.1 (h le (Memᴰ.head refl), a, b),
    )

-- The names that are not among others.
extra-none :
    (names known : List Str)
    → (length (filter (λ n. not (contains known n)) names) ≡ 0)
      ↔ ((n : Str) → contains names n ≡ true → contains known n ≡ true)
unfolding contains
extra-none [] known = (λ h n k. absurd (ground arith), λ h. refl)
extra-none (x ∷ xs) known = (
  λ h n k. ground (
    arith,
    λ (z : length (filter (λ n. not (contains known n)) xs) ≡ 0) (c : contains xs n ≡ true).
        (extra-none xs known).0 z n c,
    str_eq_iff x n,
    ap (contains known),
  ),
  λ h.
      let rest = (extra-none xs known).1 (λ n k. h n (ground (arith, str_eq_iff x n))) in
      ground (arith, h x, str_eq_refl x),
)

-- The lock's packages are installed as pinned, and no other is installed.
pub record IsLocked (db : Db) (lock : List LockEntry) : Type 0 where
  pub met : (le : LockEntry) → Memᴰ le lock → IsMet db le
  pub only :
      (n : Str)
      → contains (installed_names db) n ≡ true
      → contains (map (λ le. le.name) lock) n ≡ true

-- The pins of a stratum are there as pinned, and nothing else is.
pub record IsStratumLocked (sl : StratumLock) (live : List ForeignPkg) : Type 0 where
  pub present : (pin : ForeignPin) → Memᴰ pin sl.packages → IsPresent live pin
  pub only :
      (n : Str)
      → contains (map (λ p. p.name) live) n ≡ true
      → contains (map (λ p. p.name) sl.packages) n ≡ true

pub native_diffs-IsLocked :
    (db : Db) (lock : List LockEntry)
    → (length (compare_lock db lock).extra
          + length (compare_lock db lock).missing
          + length (compare_lock db lock).changed
        ≡ 0)
      ↔ IsLocked db lock
unfolding compare_lock
native_diffs-IsLocked db lock =
    let c = compare_entries-IsMet db lock in
    let x = extra-none (installed_names db) (map (λ le. le.name) lock) in
    (
      λ h. record { met = c.0 (omega arith, omega arith); only = x.0 (omega arith) },
      λ l. let (a, b) = c.1 l.met in omega (arith, a, b, x.1 l.only),
    )

pub stratum_diffs-IsStratumLocked :
    (sl : StratumLock) (live : List ForeignPkg)
    → (diffs (compare_stratum sl live) ≡ 0) ↔ IsStratumLocked sl live
unfolding compare_stratum
stratum_diffs-IsStratumLocked sl live =
    let c = compare_pins-IsPresent live sl.packages in
    let x = extra-none (map (λ p. p.name) live) (map (λ p. p.name) sl.packages) in
    (
      λ h. record { present = c.0 (omega arith, omega arith); only = x.0 (omega arith) },
      λ l. let (a, b) = c.1 l.present in omega (arith, a, b, x.1 l.only),
    )

-- A stratum is known, can be listed, and is as it is pinned.
abbrev pub StratumOk : (Str → Query) → StratumLock → Type 0
StratumOk query sl =
    (live : List ForeignPkg) × (query sl.name ≡ listed live) × IsStratumLocked sl live
