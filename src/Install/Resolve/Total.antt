-- ===== src/Install/Resolve/Total.antt =====
-- `resolve` returns, and what it has collected when it does.
use salt_os.Prelude.{
  ℕ, zero, suc, ◌≤◌, ◌<◌, ◌≡◌, refl, subst, ◌⊎◌, inl, inr, Bool, true, false, not, Option, none,
  some, List, [], ◌∷◌, ◌++◌, arith, Bool-cases, length, filter, mem-cons, not-mem-nil, Str,
  str_eq_iff, contains, contains-cons, Memᴰ,
}
use salt_os.Repo.{RepoEntry, RepoIndex, index_find}
use salt_os.Repo.Newest.{IsNewest, index_find-IsNewest}
use salt_os.Db.{Db, is_installed}
use salt_os.Install.Resolve.{
  Resolving, not_resolving, problem_of, needed, deps_of, visit_deps, push_needed, visit_entry,
  resolve, resolve_each, resolve_all,
}
use salt_os.Install.Resolve.Inv.{Inv, Inv-open, Inv-problem, Inv-close, has_name, DistinctNames}

-- The entries of the index whose names are not seen yet.
unseen : List RepoEntry → List Str → ℕ
unseen items seen = length (filter (λ e. not (contains seen e.name)) items)

unseen-le :
    (items : List RepoEntry) (s t : List Str)
    → ((x : Str) → contains s x ≡ true → contains t x ≡ true)
    → unseen items t ≤ unseen items s
unfolding unseen
unseen-le [] s t h = omega arith
unseen-le (e ∷ es) s t h = ground (arith, h e.name, unseen-le es s t h)

unseen-lt :
    (items : List RepoEntry) (s : List Str) (e : RepoEntry)
    → Memᴰ e items
    → contains s e.name ≡ false
    → unseen items (e.name ∷ s) < unseen items s
unfolding unseen contains
unseen-lt [] s e m h = absurd (not-mem-nil e m)
unseen-lt (x ∷ xs) s e m h = ground (
  arith,
  mem-cons e x xs,
  unseen-lt xs s e,
  str_eq_iff e.name x.name,
  unseen-le xs s (e.name ∷ s) (λ y k. (contains-cons e.name y s).1 (inr k)),
)

module _ (idx : RepoIndex) (db : Db) (targets : List Str) (nodeps : Bool) where
  record Grown (open_names : List Str) (st st' : Resolving) : Type 0 where
    inv : Inv idx db targets nodeps open_names st'
    grows : (x : Str) → contains st.seen x ≡ true → contains st'.seen x ≡ true

  abbrev Returns : List Str → Str → Resolving → Option Resolving → Type 0
  Returns open_names name st r =
      (st' : Resolving) × (r ≡ some st') × Grown open_names st st' × (contains st'.seen name ≡ true)

  -- The loop over dependencies, given what the recursive call does.
  visit_deps-Returns :
      (open_names : List Str) (n : ℕ) (rec : Str → Str → Resolving → Option Resolving)
      → ((d by : Str) (st : Resolving)
          → unseen idx.items st.seen < n
          → Inv idx db targets nodeps open_names st
          → Returns open_names d st (rec d by st))
      → (name : Str) (ds : List Str) (st : Resolving) → unseen idx.items st.seen < n
      → Inv idx db targets nodeps open_names st
      → (st' : Resolving) × (visit_deps idx db targets nodeps rec name ds st ≡ some st')
        × Grown open_names st st'
        × ((d : Str)
            → contains ds d ≡ true
            → needed idx db targets nodeps d ≡ true
            → contains st'.seen d ≡ true)
  unfolding visit_deps contains
  visit_deps-Returns os n rec run name [] st h v =
      (st, refl, record { inv = v; grows = λ x k. k }, λ d k. cc)
  visit_deps-Returns os n rec run name (d ∷ ds) st h v =
      elim (Bool-cases (needed idx db targets nodeps d)) [
        | inl k ↦
            let (st1, e1, g1, has) = run d name st h v in
            let (st2, e2, g2, all) =
              visit_deps-Returns os n rec run name ds st1
                (omega (arith, unseen-le idx.items st.seen st1.seen g1.grows)) g1.inv in
            (
              st2,
              rw (k, e1) e2,
              record { inv = g2.inv; grows = λ x p. g2.grows x (g1.grows x p) },
              λ x c p. ground (arith, all x, g2.grows d has, str_eq_iff d x),
            )
        | inr k ↦
            let (st2, e2, g2, all) = visit_deps-Returns os n rec run name ds st h v in
            (st2, rw k e2, g2, λ x c p. ground (arith, all x, str_eq_iff d x))
      ]

  seen-push_needed :
      (name : Str) (e : RepoEntry) (st : Resolving)
      → (push_needed idx db targets nodeps name e st).seen ≡ st.seen
  seen-push_needed name e st = ground arith

  close_name :
      (open_names : List Str) (st : Resolving) (name : Str) (e : RepoEntry)
      → e.name ≡ name
      → contains open_names name ≡ false
      → IsNewest name idx.items e
      → ((d : Str)
          → contains (deps_of idx db targets nodeps e) d ≡ true
          → needed idx db targets nodeps d ≡ true
          → contains st.seen d ≡ true)
      → Inv idx db targets nodeps (name ∷ open_names) st
      → Inv idx db targets nodeps open_names (push_needed idx db targets nodeps name e st)
  close_name os st name e named fresh newest deps v =
      subst
        (λ n.
          contains os n ≡ false
          → IsNewest n idx.items e
          → Inv idx db targets nodeps (n ∷ os) st
          → Inv idx db targets nodeps os (push_needed idx db targets nodeps n e st))
        named (λ f w u. Inv-close idx db targets nodeps os st e f w deps u) fresh newest v

  -- What follows the search, given what the recursive call does.
  visit_entry-Returns :
      (open_names : List Str) (n : ℕ) (rec : Str → Str → Resolving → Option Resolving)
      (name by : Str) (st : Resolving) (o : Option RepoEntry)
      → ((d by : Str) (st : Resolving)
          → unseen idx.items st.seen < n
          → Inv idx db targets nodeps (name ∷ open_names) st
          → Returns (name ∷ open_names) d st (rec d by st))
      → index_find idx name ≡ o
      → unseen idx.items st.seen < suc n
      → contains st.seen name ≡ false
      → Inv idx db targets nodeps open_names st
      → Returns open_names name st
          (visit_entry idx db targets nodeps rec name by o (record st { seen = name ∷ st.seen }))
  visit_entry-Returns os n rec name by st none run found h fresh v = (
    record st { seen = name ∷ st.seen; problems = st.problems ++ problem_of name by ∷ [] },
    refl,
    record {
      inv =
          Inv-problem idx db targets nodeps os (record st { seen = name ∷ st.seen }) name
            (problem_of name by) (Inv-open idx db targets nodeps os st name fresh v);
      grows = λ x k. (contains-cons name x st.seen).1 (inr k);
    },
    (contains-cons name name st.seen).1 (inl refl),
  )
  visit_entry-Returns os n rec name by st (some e) run found h fresh v =
      let newest = index_find-IsNewest idx name e found in
      let opened = record st { seen = name ∷ st.seen } in
      let fewer : unseen idx.items (name ∷ st.seen) < unseen idx.items st.seen =
        rw newest.named at (unseen-lt idx.items st.seen e newest.member (rw newest.named fresh)) in
      let (st1, e1, g1, all) =
        visit_deps-Returns (name ∷ os) n rec run name (deps_of idx db targets nodeps e) opened
          (omega arith) (Inv-open idx db targets nodeps os st name fresh v) in
      (
        push_needed idx db targets nodeps name e st1,
        rw e1 refl,
        record {
          inv =
              close_name os st1 name e newest.named (ground (arith, v.opened name)) newest all
                g1.inv;
          grows = λ x k. ground (
            arith,
            seen-push_needed name e st1,
            g1.grows x ((contains-cons name x st.seen).1 (inr k)),
          );
        },
        ground (
          arith,
          seen-push_needed name e st1,
          g1.grows name ((contains-cons name name st.seen).1 (inl refl)),
        ),
      )

  resolve-Returns :
      (f : ℕ) (open_names : List Str) (name by : Str) (st : Resolving)
      → unseen idx.items st.seen < f
      → Inv idx db targets nodeps open_names st
      → Returns open_names name st (resolve idx db targets nodeps f name by st)
  unfolding resolve
  resolve-Returns zero os name by st h v = absurd (omega arith)
  resolve-Returns (suc f) os name by st h v = elim (Bool-cases (contains st.seen name)) [
    | inl old ↦ rw old (st, refl, record { inv = v; grows = λ x k. k }, old)
    | inr fresh ↦ rw fresh (
        visit_entry-Returns os f (resolve idx db targets nodeps f) name by st (index_find idx name)
          (resolve-Returns f (name ∷ os)) refl h fresh v)
  ]

  resolve_each_returns :
      (f : ℕ) (ts : List Str) (st : Resolving)
      → unseen idx.items st.seen < f
      → Inv idx db targets nodeps [] st
      → (st' : Resolving) × (resolve_each idx db targets nodeps f ts st ≡ some st')
        × Grown [] st st'
        × ((t : Str) → contains ts t ≡ true → contains st'.seen t ≡ true)
  unfolding resolve_each contains
  resolve_each_returns f [] st h v = (st, refl, record { inv = v; grows = λ x k. k }, λ t k. cc)
  resolve_each_returns f (t ∷ ts) st h v =
      let (st1, e1, g1, has) = resolve-Returns f [] t [] st h v in
      let (st2, e2, g2, all) =
        resolve_each_returns f ts st1 (omega (arith, unseen-le idx.items st.seen st1.seen g1.grows))
          g1.inv in
      (
        st2,
        rw e1 e2,
        record { inv = g2.inv; grows = λ x p. g2.grows x (g1.grows x p) },
        λ x c. ground (arith, all x, g2.grows t has, str_eq_iff t x),
      )

  -- `order`, when there are no problems: what it holds, and that it lacks nothing.
  pub record IsResolved (order : List RepoEntry) : Type 0 where
    pub newest : (e : RepoEntry) → Memᴰ e order → IsNewest e.name idx.items e
    pub need : (e : RepoEntry) → Memᴰ e order → needed idx db targets nodeps e.name ≡ true
    pub distinct : DistinctNames order
    pub wanted : (t : Str) → contains targets t ≡ true → has_name order t ≡ true
    pub closed :
        (e : RepoEntry) (d : Str)
        → Memᴰ e order
        → contains (deps_of idx db targets nodeps e) d ≡ true
        → (is_installed db d ≡ true) ⊎ (has_name order d ≡ true)

  not_resolving-Inv : Inv idx db targets nodeps [] not_resolving
  unfolding contains
  not_resolving-Inv = record {
    opened = λ x h. h;
    newest = λ e m. absurd (not-mem-nil e m);
    need = λ e m. absurd (not-mem-nil e m);
    listed = λ x h. h;
    waiting = λ x h. refl;
    distinct = tt;
    closed = λ e d m. absurd (not-mem-nil e m);
    settled = λ x p h. absurd (ground arith);
  }

  unseen-nil : (items : List RepoEntry) → unseen items [] ≤ length items
  unfolding unseen contains
  unseen-nil [] = omega arith
  unseen-nil (e ∷ es) = ground (arith, unseen-nil es)

  -- The resolution returns, within the fuel of two calls more than the index has entries. If it
  -- reports no problem, then its order has every target and, without --nodeps, with each entry
  -- every dependency that is not installed; it has no name twice, and consists of newest entries,
  -- each of them a target or not installed.
  pub resolve_all-IsResolved :
      (st : Resolving) × (resolve_all idx db targets nodeps ≡ some st)
      × (st.problems ≡ [] → IsResolved st.order)
  unfolding resolve_all needed contains
  resolve_all-IsResolved =
      let (st, e, g, all) =
        resolve_each_returns (suc (suc (length idx.items))) targets not_resolving
          (omega (arith, unseen-nil idx.items)) not_resolving-Inv in
      (
        st,
        e,
        λ p. record {
          newest = g.inv.newest;
          need = g.inv.need;
          distinct = g.inv.distinct;
          wanted = λ t k. g.inv.settled t p (all t k) refl (ground arith);
          closed = λ x d m k. elim (Bool-cases (is_installed db d)) [
            | inl i ↦ inl i
            | inr i ↦
                inr (g.inv.settled d p (g.inv.closed x d m k (ground arith)) refl (ground arith))
          ];
        },
      )
