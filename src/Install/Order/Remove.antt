-- ===== src/Install/Order/Remove.antt =====
-- The order of removal of `native_remove`, and what a removal leaves.
use salt_os.Prelude.{
  ℕ, ◌<◌, ◌≡◌, refl, sym, ◌∙◌, ◌↔◌, inl, inr, true, false, some, List, [], ◌∷◌, arith, Bool-cases,
  any, mem-cons, not-mem-nil, mem-filter, Str, str_eq, str_eq_iff, contains, Memᴰ,
}
use salt_os.Db.{Db}
use salt_os.Db.Ops.{revdeps}
use salt_os.Install.Visit.{Visiting}
use salt_os.Install.Visit.Total.{ChildrenFirst, DistinctKeys, Inv, visit_roots_returns}
use salt_os.Install.Order.{same_name, revdeps_among, remove_order}

-- Each dependent that is removed too comes before, or is one of the names that came before.
abbrev pub DependentsFirst : Db → List Str → List Str → List Str → Type 0
DependentsFirst db set before [] = Unit
DependentsFirst db set before (n ∷ ns) =
    ((w : Str)
      → contains set w ≡ true
      → contains (revdeps db n) w ≡ true
      → contains before w ≡ true)
    × DependentsFirst db set (n ∷ before) ns

abbrev pub DistinctStrs : List Str → Type 0
DistinctStrs [] = Unit
DistinctStrs (x ∷ xs) = (contains xs x ≡ false) × DistinctStrs xs

-- A rank falls from each package to those that depend on it.
abbrev pub RankedDependents : Db → List Str → (Str → ℕ) → Type 0
RankedDependents db set rank =
    (n w : Str)
    → contains set n ≡ true
    → contains set w ≡ true
    → contains (revdeps db n) w ≡ true
    → rank w < rank n

pub record IsRemoveOrder (db : Db) (set out : List Str) : Type 0 where
  pub same : (x : Str) → (contains out x ≡ true) ↔ (contains set x ≡ true)
  pub distinct : DistinctStrs out
  pub first : (rank : Str → ℕ) → RankedDependents db set rank → DependentsFirst db set [] out

some_eq {ℓ} : {A : Type ℓ} {x y : A} → some x ≡ some y → x ≡ y
some_eq h = cc

mem_of_contains : (xs : List Str) (x : Str) → contains xs x ≡ true → Memᴰ x xs
unfolding contains
mem_of_contains [] x h = absurd (ground arith)
mem_of_contains (y ∷ ys) x h = elim (Bool-cases (str_eq y x)) [
  | inl t ↦ Memᴰ.head (sym ((str_eq_iff y x).0 t))
  | inr f ↦ Memᴰ.tail (mem_of_contains ys x (ground arith))
]

contains_of_mem : (xs : List Str) (x : Str) → Memᴰ x xs → contains xs x ≡ true
unfolding contains
contains_of_mem [] x m = absurd (not-mem-nil x m)
contains_of_mem (y ∷ ys) x m = ground (arith, mem-cons x y ys, contains_of_mem ys x, str_eq_iff y x)

has_key-contains : (xs : List Str) (x : Str) → any (λ y. str_eq y x) xs ≡ contains xs x
unfolding contains
has_key-contains [] x = refl
has_key-contains (y ∷ ys) x = ground (arith, has_key-contains ys x)

module _ (db : Db) (set : List Str) where
  child_lem :
      (n w : Str)
      → Memᴰ w (revdeps_among db set n)
        ↔ ((contains set w ≡ true) × (contains (revdeps db n) w ≡ true))
  child_lem n w = ground (
    arith,
    mem-filter (contains set) w (revdeps db n),
    contains_of_mem (revdeps db n) w,
    mem_of_contains (revdeps db n) w,
  )

  DistinctStrs-of :
      (xs : List Str) → DistinctKeys same_name (revdeps_among db set) xs → DistinctStrs xs
  DistinctStrs-of [] d = tt
  DistinctStrs-of (x ∷ xs) d = (ground (arith, has_key-contains xs x), DistinctStrs-of xs d.1)

  DependentsFirst-of :
      (before out : List Str)
      → ChildrenFirst same_name (revdeps_among db set) before out
      → DependentsFirst db set before out
  DependentsFirst-of before [] h = tt
  DependentsFirst-of before (n ∷ ns) h =
      (λ w c r. h.0 w ((child_lem n w).1 (c, r)), DependentsFirst-of (n ∷ before) ns h.1)

  Ordered : (Str → ℕ) → Visiting Str → Type 0
  Ordered rank st =
      Inv same_name (revdeps_among db set) rank (λ x. contains set x ≡ true) set (λ e p. p)
        (λ e c p m. ((child_lem e c).0 m).0) [] st

  remove_order_returns :
      (rank : Str → ℕ)
      → (st : Visiting Str) × (remove_order db set ≡ some st)
        × Ordered rank st
        × ((x : Str) → Memᴰ x set → any (λ y. str_eq y x) st.out ≡ true)
  unfolding remove_order Ordered
  remove_order_returns rank =
      visit_roots_returns same_name (revdeps_among db set) rank (λ x. contains set x ≡ true) set
        (λ e p. p) (λ e c p m. ((child_lem e c).0 m).0) set (λ e m. contains_of_mem set e m)

  -- The ordering ends with each package of the set once, and if a rank falls from each package to
  -- those of the set that depend on it, so that there is no cycle, then each comes after these.
  pub remove_order-IsRemoveOrder :
      (st : Visiting Str) × (remove_order db set ≡ some st) × IsRemoveOrder db set st.out
  unfolding Ordered
  remove_order-IsRemoveOrder =
      let (st, e, v, all) = remove_order_returns (λ x. 0) in
      (
        st,
        e,
        record {
          same = λ x. (
            λ h. v.members x (mem_of_contains st.out x h),
            λ h. ground (arith, has_key-contains st.out x, all x (mem_of_contains set x h)),
          );
          distinct = DistinctStrs-of st.out v.distinct;
          first = λ rank ranked.
              let (st2, e2, v2, all2) = remove_order_returns rank in
              let same : st2 ≡ st = some_eq (sym e2 ∙ e) in
              rw same at (
                DependentsFirst-of [] st2.out
                  (v2.first (λ n w p m. let (c, r) = (child_lem n w).0 m in ranked n w p c r)));
        },
      )
