-- ===== src/Install/Order/Deps.antt =====
-- `order_by_deps` puts the items in an order in which dependencies come first.
use salt_os.Prelude.{
  ℕ, ◌<◌, ◌≡◌, refl, sym, ap, ◌∙◌, inl, inr, ⊎_elim, true, none, some, List, [], ◌∷◌, map, arith,
  Bool-cases, Option-cases, mem-cons, not-mem-nil, Str, str_eq, str_eq_iff, contains, Memᴰ,
}
use salt_os.Repo.{RepoEntry}
use salt_os.Install.Visit.{Visiting}
use salt_os.Install.Visit.Total.{ChildrenFirst, Inv, visit_roots_returns}
use salt_os.Install.Resolve.Inv.{has_name, DistinctNames}
use salt_os.Install.Order.{find_last, found_in, entry_name, deps_among, order_by_deps}

some_eq {ℓ} : {A : Type ℓ} {x y : A} → some x ≡ some y → x ≡ y
some_eq h = cc

none-some {ℓ} : {A : Type ℓ} {x : A} → none ≡ some x → ⊥
none-some h = cc

find_last-some :
    (items : List RepoEntry) (x : Str) (e : RepoEntry)
    → find_last items x ≡ some e
    → Memᴰ e items × (e.name ≡ x)
unfolding find_last
find_last-some [] x e h = cc
find_last-some (i ∷ is) x e h = elim (Option-cases (find_last is x)) [
  | inl k ↦ elim (Bool-cases (str_eq i.name x)) [
    | inl t ↦
        let same : i ≡ e = some_eq (rw (k, t) at h) in
        (Memᴰ.head (sym same), ap (λ r. r.name) (sym same) ∙ (str_eq_iff i.name x).0 t)
    | inr f ↦ absurd (none-some (rw (k, f) at h))
  ]
  | inr (r, k) ↦ let (m, n) = find_last-some is x e (k ∙ (rw k at h)) in (Memᴰ.tail m, n)
]

find_last-has :
    (items : List RepoEntry) (x : Str)
    → has_name items x ≡ true
    → (e : RepoEntry) × (find_last items x ≡ some e)
unfolding find_last
find_last-has [] x h = cc
find_last-has (i ∷ is) x h = elim (Option-cases (find_last is x)) [
  | inl k ↦ elim (Bool-cases (str_eq i.name x)) [
    | inl t ↦ (i, rw (k, t) refl)
    | inr f ↦ let (e, c) = find_last-has is x (ground arith) in absurd (none-some (sym k ∙ c))
  ]
  | inr (r, k) ↦ (r, rw k refl)
]

found_in-mem :
    (items : List RepoEntry) (ds : List Str) (e : RepoEntry)
    → Memᴰ e (found_in items ds)
    → Memᴰ e items × (contains ds e.name ≡ true)
unfolding found_in contains
found_in-mem items [] e m = absurd (not-mem-nil e m)
found_in-mem items (d ∷ ds) e m = elim (Option-cases (find_last items d)) [
  | inl k ↦ let (i, c) = found_in-mem items ds e (rw (k, found_in) at m) in (i, ground arith)
  | inr (r, k) ↦
      ⊎_elim
        (λ same.
          let (i, n) = find_last-some items d r k in
          (rw same i, ground (arith, str_eq_iff d e.name, n, ap entry_name same)))
        (λ later. let (i, c) = found_in-mem items ds e later in (i, ground arith))
        ((mem-cons e r (found_in items ds)).0 (rw (k, found_in) at m))
]

found_in-has :
    (items : List RepoEntry) (ds : List Str) (d : Str)
    → contains ds d ≡ true
    → has_name items d ≡ true
    → (e : RepoEntry) × Memᴰ e (found_in items ds) × (e.name ≡ d)
unfolding found_in contains
found_in-has items [] d c h = absurd (ground arith)
found_in-has items (x ∷ ds) d c h = elim (Bool-cases (str_eq x d)) [
  | inl t ↦
      let same = (str_eq_iff x d).0 t in
      let (e, k) = find_last-has items x (rw same h) in
      rw (k, found_in) (e, Memᴰ.head refl, (find_last-some items x e k).1 ∙ same)
  | inr f ↦
      let (e, m, n) = found_in-has items ds d (ground arith) h in
      elim (Option-cases (find_last items x)) [
        | inl k ↦ rw (k, found_in) (e, m, n)
        | inr (r, k) ↦ rw (k, found_in) (e, Memᴰ.tail m, n)
      ]
]

-- Each dependency that is an item comes before, or is one of the names that came before.
abbrev pub DepsFirst : List RepoEntry → List Str → List RepoEntry → Type 0
DepsFirst items before [] = Unit
DepsFirst items before (e ∷ es) =
    ((d : Str) → contains e.deps d ≡ true → has_name items d ≡ true → contains before d ≡ true)
    × DepsFirst items (e.name ∷ before) es

-- A rank falls from each item to those that it depends on.
abbrev pub RankedDeps : List RepoEntry → (Str → ℕ) → Type 0
RankedDeps items rank =
    (e : RepoEntry) (d : Str)
    → Memᴰ e items
    → contains e.deps d ≡ true
    → has_name items d ≡ true
    → rank d < rank e.name

pub record IsDepOrder (items out : List RepoEntry) : Type 0 where
  pub members : (e : RepoEntry) → Memᴰ e out → Memᴰ e items
  pub complete : (e : RepoEntry) → Memᴰ e items → has_name out e.name ≡ true
  pub distinct : DistinctNames out
  pub first : (rank : Str → ℕ) → RankedDeps items rank → DepsFirst items [] out

named_has : (items : List RepoEntry) (e : RepoEntry) → Memᴰ e items → has_name items e.name ≡ true
named_has [] e m = absurd (not-mem-nil e m)
named_has (x ∷ es) e m =
    ground (arith, mem-cons e x es, named_has es e, str_eq_iff x.name e.name, ap entry_name)

DepsFirst-of :
    (items : List RepoEntry) (before : List Str) (out : List RepoEntry)
    → ChildrenFirst entry_name (deps_among items) before out
    → DepsFirst items before out
DepsFirst-of items before [] h = tt
DepsFirst-of items before (e ∷ es) h = (
  λ d c i.
      let (r, m, n) = found_in-has items e.deps d c i in
      ground (arith, h.0 r m, n, ap (contains before) n),
  DepsFirst-of items (e.name ∷ before) es h.1,
)

contains-names :
    (items : List RepoEntry) (e : RepoEntry)
    → Memᴰ e items
    → contains (map entry_name items) e.name ≡ true
unfolding contains
contains-names [] e m = absurd (not-mem-nil e m)
contains-names (x ∷ es) e m =
    ground (arith, mem-cons e x es, contains-names es e, str_eq_iff x.name e.name, ap entry_name)

module _ (items : List RepoEntry) (rank : Str → ℕ) where
  Ordered : Visiting RepoEntry → Type 0
  Ordered st =
      Inv entry_name (deps_among items) rank (λ e. Memᴰ e items) (map entry_name items)
        (contains-names items) (λ e c p m. (found_in-mem items e.deps c m).0) [] st

  order_by_deps_returns :
      (st : Visiting RepoEntry) × (order_by_deps items ≡ some st)
      × Ordered st
      × ((e : RepoEntry) → Memᴰ e items → has_name st.out e.name ≡ true)
  unfolding order_by_deps Ordered
  order_by_deps_returns =
      visit_roots_returns entry_name (deps_among items) rank (λ e. Memᴰ e items)
        (map entry_name items) (contains-names items) (λ e c p m. (found_in-mem items e.deps c m).0)
        items (λ e m. m)

-- The ordering ends. It puts out items only, one of each name, and if a rank falls from each item
-- to those that it depends on, so that there is no cycle, then each comes after the items that it
-- depends on.
pub order_by_deps-IsDepOrder :
    (items : List RepoEntry)
    → (st : Visiting RepoEntry) × (order_by_deps items ≡ some st) × IsDepOrder items st.out
unfolding Ordered
order_by_deps-IsDepOrder items =
    let (st, e, v, all) = order_by_deps_returns items (λ x. 0) in
    (
      st,
      e,
      record {
        members = v.members;
        complete = all;
        distinct = v.distinct;
        first = λ rank ranked.
            let (st2, e2, v2, all2) = order_by_deps_returns items rank in
            let same : st2 ≡ st = some_eq (sym e2 ∙ e) in
            rw same at (
              DepsFirst-of items [] st2.out (
                v2.first (λ p c m k.
                  let (i, d) = found_in-mem items p.deps c k in
                  ranked p c.name m d (named_has items c i))));
      },
    )
