-- ===== src/Lock/Load.antt =====
-- What `lock_load` guarantees of the pins.
use salt_os.Prelude.{
  ℕ, suc, ◌≡◌, refl, sym, ap, ◌∙◌, subst, ◌≢◌, Bool, true, false, not, Option, none, some, List, [],
  ◌∷◌, map, arith, if◌then◌else◌, Str, str_eq, str_eq_iff, contains,
}
use salt_os.Repo.{sha256_hex_valid}
use salt_os.Db.Rows.{or_empty}
use salt_os.Lock.{
  LoadError, LockEntry, ForeignPin, StratumLock, Tables, absent, no_array, tables, NativeTable,
  PinTable, StratumTable, LockFile, Result, failed, loaded, cons_loaded, entry_of, pin_of,
  load_native, load_pins, load_packages, stratum_of, add_stratum, load_stratum, load_strata,
  load_natives, with_strata, lock_load, has_digest,
}

-- Each entry has a name that none before it has, a version and a valid digest.
abbrev pub Pinned : List Str → List LockEntry → Type 0
Pinned seen [] = Unit
Pinned seen (e ∷ es) =
    (e.name ≢ [])
    × (e.version ≢ [])
    × (sha256_hex_valid e.sha256 ≡ true)
    × (contains seen e.name ≡ false)
    × Pinned (e.name ∷ seen) es

abbrev pub PinnedPackages : List Str → List ForeignPin → Type 0
PinnedPackages seen [] = Unit
PinnedPackages seen (p ∷ ps) =
    (p.name ≢ [])
    × (p.version ≢ [])
    × (has_digest p.digest ≡ true)
    × (contains seen p.name ≡ false)
    × PinnedPackages (p.name ∷ seen) ps

abbrev pub PinnedStrata : List Str → List StratumLock → Type 0
PinnedStrata seen [] = Unit
PinnedStrata seen (s ∷ ss) =
    (s.name ≢ [])
    × (contains seen s.name ≡ false)
    × PinnedPackages [] s.packages
    × PinnedStrata (s.name ∷ seen) ss

not_failed {ℓ} : {A : Type 0} {C : Type ℓ} {e : LoadError} {x : A} → failed e ≡ loaded x → C
not_failed h = absurd (go h)
  where
    go : {A : Type 0} {e : LoadError} {x : A} → failed e ≡ loaded x → ⊥
    go h = cc

loaded_eq : {A : Type 0} {x y : A} → loaded x ≡ loaded y → y ≡ x
loaded_eq h = cc

ne_nil : (s : Str) → str_eq s [] ≡ false → s ≢ []
ne_nil s h e = ground (arith, str_eq_iff s [])

-- A test whose outcome true is an error.
passed :
    {A : Type 0} (b : Bool) (e : LoadError) (r : Result A) (x : A)
    → (if b then failed e else r) ≡ loaded x
    → (b ≡ false) × (r ≡ loaded x)
passed true e r x h = not_failed h
passed false e r x h = (refl, h)

cons_loaded-loaded :
    {A : Type 0} (a : A) (r : Result (List A)) (xs : List A)
    → cons_loaded a r ≡ loaded xs
    → (ys : List A) × (r ≡ loaded ys) × (xs ≡ a ∷ ys)
cons_loaded-loaded a (failed e) xs h = not_failed h
cons_loaded-loaded a (loaded ys) xs h = (ys, refl, cc)

load_native-Pinned :
    (i : ℕ) (seen : List Str) (ts : List NativeTable) (es : List LockEntry)
    → load_native i seen ts ≡ loaded es
    → (es ≡ map entry_of ts) × Pinned seen es
unfolding load_native
load_native-Pinned i seen [] es h = rw (loaded_eq h) (refl, tt)
load_native-Pinned i seen (t ∷ ts) es h =
    let e = entry_of t in
    let (a, h1) = passed (str_eq e.name []) _ _ es h in
    let (b, h2) = passed (str_eq e.version []) _ _ es h1 in
    let (c, h3) = passed (not (sha256_hex_valid e.sha256)) _ _ es h2 in
    let (d, h4) = passed (contains seen e.name) _ _ es h3 in
    let (ys, k, same) = cons_loaded-loaded e (load_native (suc i) (e.name ∷ seen) ts) es h4 in
    let (m, p) = load_native-Pinned (suc i) (e.name ∷ seen) ts ys k in
    (
      same ∙ ap (λ l. e ∷ l) m,
      subst (Pinned seen) (sym same) (ne_nil e.name a, ne_nil e.version b, ground arith, d, p),
    )

load_pins-PinnedPackages :
    (s : Str) (j : ℕ) (seen : List Str) (ts : List PinTable) (ps : List ForeignPin)
    → load_pins s j seen ts ≡ loaded ps
    → (ps ≡ map pin_of ts) × PinnedPackages seen ps
unfolding load_pins
load_pins-PinnedPackages s j seen [] ps h = rw (loaded_eq h) (refl, tt)
load_pins-PinnedPackages s j seen (t ∷ ts) ps h =
    let e = pin_of t in
    let (a, h1) = passed (str_eq e.name []) _ _ ps h in
    let (b, h2) = passed (str_eq e.version []) _ _ ps h1 in
    let (c, h3) = passed (not (has_digest e.digest)) _ _ ps h2 in
    let (d, h4) = passed (contains seen e.name) _ _ ps h3 in
    let (ys, k, same) = cons_loaded-loaded e (load_pins s (suc j) (e.name ∷ seen) ts) ps h4 in
    let (m, p) = load_pins-PinnedPackages s (suc j) (e.name ∷ seen) ts ys k in
    (
      same ∙ ap (λ l. e ∷ l) m,
      subst (PinnedPackages seen) (sym same)
          (ne_nil e.name a, ne_nil e.version b, ground arith, d, p),
    )

load_packages-PinnedPackages :
    (s : Str) (ts : Tables PinTable) (ps : List ForeignPin)
    → load_packages s ts ≡ loaded ps
    → PinnedPackages [] ps
unfolding load_packages
load_packages-PinnedPackages s absent ps h = rw (loaded_eq h) tt
load_packages-PinnedPackages s no_array ps h = not_failed h
load_packages-PinnedPackages s (tables ts) ps h = (load_pins-PinnedPackages s 0 [] ts ps h).1

add_stratum-loaded :
    (t : StratumTable) (r : Result (List ForeignPin)) (q : Result (List StratumLock))
    (ss : List StratumLock)
    → add_stratum t r q ≡ loaded ss
    → (pins : List ForeignPin) × (r ≡ loaded pins) × (cons_loaded (stratum_of t pins) q ≡ loaded ss)
add_stratum-loaded t (failed e) q ss h = not_failed h
add_stratum-loaded t (loaded pins) q ss h = (pins, refl, h)

load_stratum-PinnedStrata :
    (i : ℕ) (seen : List Str) (ts : List StratumTable) (ss : List StratumLock)
    → load_stratum i seen ts ≡ loaded ss
    → PinnedStrata seen ss
unfolding load_stratum
load_stratum-PinnedStrata i seen [] ss h = rw (loaded_eq h) tt
load_stratum-PinnedStrata i seen (t ∷ ts) ss h =
    let name = or_empty t.name in
    let (a, h1) = passed (str_eq name []) _ _ ss h in
    let (b, h2) = passed (contains seen name) _ _ ss h1 in
    let (pins, q, h3) =
      add_stratum-loaded t (load_packages name t.packages) (load_stratum (suc i) (name ∷ seen) ts)
        ss h2 in
    let (ys, k, same) =
      cons_loaded-loaded (stratum_of t pins) (load_stratum (suc i) (name ∷ seen) ts) ss h3 in
    subst (PinnedStrata seen) (sym same) (
      ne_nil name a,
      b,
      load_packages-PinnedPackages name t.packages pins q,
      load_stratum-PinnedStrata (suc i) (name ∷ seen) ts ys k,
    )

load_natives-Pinned :
    (ts : Tables NativeTable) (es : List LockEntry) → load_natives ts ≡ loaded es → Pinned [] es
unfolding load_natives
load_natives-Pinned absent es h = rw (loaded_eq h) tt
load_natives-Pinned no_array es h = not_failed h
load_natives-Pinned (tables ts) es h = (load_native-Pinned 0 [] ts es h).1

load_strata-PinnedStrata :
    (ts : Tables StratumTable) (ss : List StratumLock)
    → load_strata ts ≡ loaded ss
    → PinnedStrata [] ss
unfolding load_strata
load_strata-PinnedStrata absent ss h = rw (loaded_eq h) tt
load_strata-PinnedStrata no_array ss h = not_failed h
load_strata-PinnedStrata (tables ts) ss h = load_stratum-PinnedStrata 0 [] ts ss h

both_loaded :
    (a : Result (List LockEntry)) (b : Result (List StratumLock)) (es : List LockEntry)
    (ss : List StratumLock)
    → with_strata a b ≡ loaded (es, ss)
    → (a ≡ loaded es) × (b ≡ loaded ss)
both_loaded (failed e) b es ss h = not_failed h
both_loaded (loaded x) (failed e) es ss h = not_failed h
both_loaded (loaded x) (loaded y) es ss h =
    (ap (λ p. loaded (p.0)) (loaded_eq (sym h)), ap (λ p. loaded (p.1)) (loaded_eq (sym h)))

-- A lockfile that loads pins each package and each stratum once, each package of it to a version
-- and to a lowercase SHA-256 of 64 digits, and each package of a stratum once, to a version and to
-- a digest with a colon and something behind it.
pub lock_load-Pinned :
    (f : Option LockFile) (es : List LockEntry) (ss : List StratumLock)
    → lock_load f ≡ loaded (es, ss)
    → Pinned [] es × PinnedStrata [] ss
unfolding lock_load
lock_load-Pinned none es ss h = not_failed h
lock_load-Pinned (some f) es ss h =
    let (a, b) = both_loaded (load_natives f.native) (load_strata f.stratum) es ss h in
    (load_natives-Pinned f.native es a, load_strata-PinnedStrata f.stratum ss b)
