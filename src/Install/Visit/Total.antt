-- ===== src/Install/Visit/Total.antt =====
-- `visit` ends, and what it has put out when it does.
use salt_os.Prelude.{
  ℕ, zero, suc, ◌<◌, ◌≡◌, refl, ap, ◌↔◌, ◌⊎◌, inl, inr, ⊎_elim, Bool, true, false, Option, some,
  List, [], ◌∷◌, ◌++◌, arith, Bool-cases, length, any, mem-cons, mem-concat, not-mem-nil, Str,
  str_eq, str_eq_iff, contains, contains-cons, Memᴰ,
}
use salt_os.Install.Visit.{Visiting, visit_first, push_back, visit_each, visit}
use salt_os.Install.Visit.Undone.{undone, undone-le, undone-lt, undone-nil}

module _ {A : Type 0} (key : A → Str) (children : A → List A) where
  abbrev pub has_key : List A → Str → Bool
  has_key es x = any (λ e. str_eq (key e) x) es

  abbrev pub DistinctKeys : List A → Type 0
  DistinctKeys [] = Unit
  DistinctKeys (e ∷ es) = (has_key es (key e) ≡ false) × DistinctKeys es

  -- Each child comes before its parent, or is one of the names that came before.
  abbrev pub ChildrenFirst : List Str → List A → Type 0
  ChildrenFirst before [] = Unit
  ChildrenFirst before (e ∷ es) =
      ((c : A) → Memᴰ c (children e) → contains before (key c) ≡ true)
      × ChildrenFirst (key e ∷ before) es

  has_key-concat :
      (es : List A) (e : A) (x : Str)
      → (has_key (es ++ e ∷ []) x ≡ true) ↔ ((has_key es x ≡ true) ⊎ (key e ≡ x))
  has_key-concat [] e x = ground (arith, str_eq_iff (key e) x)
  has_key-concat (y ∷ es) e x = ground (arith, has_key-concat es e x)

  DistinctKeys-concat :
      (es : List A) (e : A)
      → DistinctKeys es
      → has_key es (key e) ≡ false
      → DistinctKeys (es ++ e ∷ [])
  DistinctKeys-concat [] e d h = (refl, tt)
  DistinctKeys-concat (x ∷ es) e d h = (
    ground (arith, has_key-concat es e (key x), str_eq_iff (key x) (key e)),
    DistinctKeys-concat es e d.1 (ground arith),
  )

  ChildrenFirst-concat :
      (before : List Str) (es : List A) (e : A)
      → ChildrenFirst before es
      → ((c : A)
          → Memᴰ c (children e)
          → (contains before (key c) ≡ true) ⊎ (has_key es (key c) ≡ true))
      → ChildrenFirst before (es ++ e ∷ [])
  ChildrenFirst-concat before [] e d h = (λ c m. ground (arith, h c m), tt)
  ChildrenFirst-concat before (x ∷ es) e d h = (
    d.0,
    ChildrenFirst-concat (key x ∷ before) es e d.1 (λ c m.
        ground (arith, h c m, contains-cons (key x) (key c) before, str_eq_iff (key x) (key c))),
  )

  -- The elements that a visit may meet satisfy `P`, and `names` has their names.
  module _ (rank : Str → ℕ) (P : A → Type 0) (names : List Str)
      (listed : (e : A) → P e → contains names (key e) ≡ true)
      (closed : (e c : A) → P e → Memᴰ c (children e) → P c) where
    -- No name is its own descendant: the rank falls from parent to child.
    abbrev pub Ranked : Type 0
    Ranked = (e c : A) → P e → Memᴰ c (children e) → rank (key c) < rank (key e)

    pub record Inv (open_names : List Str) (st : Visiting A) : Type 0 where
      pub opened : (x : Str) → contains open_names x ≡ true → contains st.done x ≡ true
      pub put : (x : Str) → has_key st.out x ≡ true → contains st.done x ≡ true
      pub waiting : (x : Str) → has_key st.out x ≡ true → contains open_names x ≡ false
      pub settled :
          (x : Str)
          → contains st.done x ≡ true
          → contains open_names x ≡ false
          → has_key st.out x ≡ true
      pub distinct : DistinctKeys st.out
      pub members : (e : A) → Memᴰ e st.out → P e
      pub first : Ranked → ChildrenFirst [] st.out

    Inv-open :
        (open_names : List Str) (st : Visiting A) (name : Str)
        → contains st.done name ≡ false
        → Inv open_names st
        → Inv (name ∷ open_names) (record st { done = name ∷ st.done })
    unfolding contains
    Inv-open os st name fresh v = record {
      opened = λ x h. ground (arith, v.opened x);
      put = λ x h. ground (arith, v.put x);
      waiting = λ x h. ground (arith, v.put x, v.waiting x, str_eq_iff name x);
      settled = λ x d o. ground (arith, v.settled x);
      distinct = v.distinct;
      members = v.members;
      first = v.first;
    }

    -- The open names are above an element.
    abbrev Above : List Str → A → Type 0
    Above os e = Ranked → (x : Str) → contains os x ≡ true → rank (key e) < rank x

    Inv-close :
        (open_names : List Str) (st : Visiting A) (e : A)
        → contains open_names (key e) ≡ false
        → P e
        → Above open_names e
        → ((c : A) → Memᴰ c (children e) → contains st.done (key c) ≡ true)
        → Inv (key e ∷ open_names) st
        → Inv open_names (push_back e st)
    unfolding contains
    Inv-close os st e fresh p above met v = record {
      opened = λ x h. v.opened x (ground arith);
      put = λ x h.
          ground (arith, has_key-concat st.out e x, v.put x, v.opened x, str_eq_iff (key e) x);
      waiting = λ x h. ground (arith, has_key-concat st.out e x, v.waiting x, fresh);
      settled =
          λ x d o. ground (arith, has_key-concat st.out e x, v.settled x, str_eq_iff (key e) x);
      distinct =
          DistinctKeys-concat st.out e v.distinct
            (ground (arith, v.waiting (key e), str_eq_iff (key e) (key e)));
      members = λ x m. ⊎_elim (v.members x) (λ k. rw k p) ((mem-concat x e st.out).0 m);
      first = λ r. ChildrenFirst-concat [] st.out e (v.first r) (λ c m. inr (
          v.settled (key c) (met c m)
            (ground (arith, r e c p m, above r (key c), str_eq_iff (key e) (key c), ap rank))));
    }

    below :
        (os : List Str) (e c : A) → P e → Above os e → Memᴰ c (children e) → Above (key e ∷ os) c
    unfolding contains
    below os e c p above m r x h =
        ground (arith, r e c p m, above r x, str_eq_iff (key e) x, ap rank)

    pub record Grown (open_names : List Str) (st st' : Visiting A) : Type 0 where
      pub inv : Inv open_names st'
      pub grows : (x : Str) → contains st.done x ≡ true → contains st'.done x ≡ true

    visit_each_returns :
        (open_names : List Str) (n : ℕ) (rec : A → Visiting A → Option (Visiting A)) (cs : List A)
        (fits : A → Type 0)
        → ((c : A) (st : Visiting A)
            → fits c
            → undone names st.done < n
            → Inv open_names st
            → (st' : Visiting A) × (rec c st ≡ some st')
              × Grown open_names st st'
              × (contains st'.done (key c) ≡ true))
        → ((c : A) → Memᴰ c cs → fits c)
        → (st : Visiting A) → undone names st.done < n
        → Inv open_names st
        → (st' : Visiting A) × (visit_each key children rec cs st ≡ some st')
          × Grown open_names st st'
          × ((c : A) → Memᴰ c cs → contains st'.done (key c) ≡ true)
    unfolding visit_each
    visit_each_returns os n rec [] fits run fit st h v =
        (st, refl, record { inv = v; grows = λ x k. k }, λ c m. absurd (not-mem-nil c m))
    visit_each_returns os n rec (c ∷ cs) fits run fit st h v =
        let (st1, e1, g1, has) = run c st (fit c (Memᴰ.head refl)) h v in
        let (st2, e2, g2, all) =
          visit_each_returns os n rec cs fits run (λ x m. fit x (Memᴰ.tail m)) st1
            (omega (arith, undone-le names st.done st1.done g1.grows)) g1.inv in
        (
          st2,
          rw e1 e2,
          record { inv = g2.inv; grows = λ x p. g2.grows x (g1.grows x p) },
          λ x m. ⊎_elim (λ k. rw k (g2.grows (key c) has)) (all x) ((mem-cons x c cs).0 m),
        )

    visit_returns :
        (f : ℕ) (open_names : List Str) (e : A) (st : Visiting A)
        → P e
        → Above open_names e
        → undone names st.done < f
        → Inv open_names st
        → (st' : Visiting A) × (visit key children f e st ≡ some st')
          × Grown open_names st st'
          × (contains st'.done (key e) ≡ true)
    unfolding visit
    visit_returns zero os e st p above h v = absurd (omega arith)
    visit_returns (suc f) os e st p above h v = elim (Bool-cases (contains st.done (key e))) [
      | inl old ↦ rw old (st, refl, record { inv = v; grows = λ x k. k }, old)
      | inr fresh ↦
          let (st1, e1, g1, all) =
            visit_each_returns (key e ∷ os) f (visit key children f) (children e)
              (λ c. P c × Above (key e ∷ os) c)
              (λ c s fit u w. visit_returns f (key e ∷ os) c s fit.0 fit.1 u w)
              (λ c m. (closed e c p m, below os e c p above m))
              (record st { done = key e ∷ st.done })
              (omega (arith, undone-lt names st.done (key e) (listed e p) fresh))
              (Inv-open os st (key e) fresh v) in
          rw (fresh, e1)
            (
              push_back e st1,
              refl,
              record {
                inv = Inv-close os st1 e (ground (arith, v.opened (key e))) p above all g1.inv;
                grows = λ x k. g1.grows x ((contains-cons (key e) x st.done).1 (inr k));
              },
              g1.grows (key e) ((contains-cons (key e) (key e) st.done).1 (inl refl)),
            )
    ]

    no_names-Inv : Inv [] visit_first
    unfolding contains
    no_names-Inv = record {
      opened = λ x h. h;
      put = λ x h. h;
      waiting = λ x h. refl;
      settled = λ x h. absurd (ground arith);
      distinct = tt;
      members = λ e m. absurd (not-mem-nil e m);
      first = λ r. tt;
    }

    -- The visits of all roots return, with fuel for one call more than there are names.
    pub visit_roots_returns :
        (roots : List A)
        → ((e : A) → Memᴰ e roots → P e)
        → (st : Visiting A) × (visit_each key children
              (visit key children (suc (length names)))
              roots
              visit_first
            ≡ some st)
          × Inv [] st
          × ((e : A) → Memᴰ e roots → has_key st.out (key e) ≡ true)
    unfolding contains
    visit_roots_returns roots good =
        let (st, e, g, all) =
          visit_each_returns [] (suc (length names)) (visit key children (suc (length names))) roots
            P
            (λ c s fit u w.
              visit_returns (suc (length names)) [] c s fit (λ r x h. absurd (ground arith)) u w)
            good visit_first (omega (arith, undone-nil names)) no_names-Inv in
        (st, e, g.inv, λ x m. g.inv.settled (key x) (all x m) refl)
