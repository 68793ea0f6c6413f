-- ===== src/Install/Resolve/Inv.antt =====
-- What `resolve` keeps true of its containers, the names in progress being `open_names`.
use salt_os.Prelude.{
  ◌≡◌, refl, ◌↔◌, ◌⊎◌, inl, inr, ⊎_elim, Bool, true, false, List, [], ◌∷◌, ◌++◌, arith, Bool-cases,
  any, mem-cons, mem-concat, concat-ne_nil, not-mem-nil, Str, str_eq, str_eq_iff, contains, Memᴰ,
}
use salt_os.Repo.{RepoEntry, RepoIndex}
use salt_os.Repo.Newest.{IsNewest}
use salt_os.Db.{Db}
use salt_os.Install.Resolve.{ResolveProblem, Resolving, needed, deps_of, push_needed}

-- An entry of the name is in the list.
abbrev pub has_name : List RepoEntry → Str → Bool
has_name es x = any (λ e. str_eq e.name x) es

-- No two entries have one name.
abbrev pub DistinctNames : List RepoEntry → Type 0
DistinctNames [] = Unit
DistinctNames (e ∷ es) = (has_name es e.name ≡ false) × DistinctNames es

pub has_name-append :
    (es fs : List RepoEntry) (x : Str)
    → (has_name (es ++ fs) x ≡ true) ↔ ((has_name es x ≡ true) ⊎ (has_name fs x ≡ true))
has_name-append [] fs x = ground arith
has_name-append (e ∷ es) fs x = ground (arith, has_name-append es fs x)

pub has_name-concat :
    (es : List RepoEntry) (e : RepoEntry) (x : Str)
    → (has_name (es ++ e ∷ []) x ≡ true) ↔ ((has_name es x ≡ true) ⊎ (e.name ≡ x))
has_name-concat es e x = ground (arith, has_name-append es (e ∷ []) x, str_eq_iff e.name x)

pub has_name-mem : (es : List RepoEntry) (e : RepoEntry) → Memᴰ e es → has_name es e.name ≡ true
has_name-mem [] e m = absurd (not-mem-nil e m)
has_name-mem (x ∷ es) e m =
    ground (arith, mem-cons e x es, str_eq_iff x.name e.name, has_name-mem es e)

pub mem_of_has_name :
    (es : List RepoEntry) (x : Str)
    → has_name es x ≡ true
    → (e : RepoEntry) × Memᴰ e es × (e.name ≡ x)
mem_of_has_name [] x h = cc
mem_of_has_name (e ∷ es) x h = elim (Bool-cases (str_eq e.name x)) [
  | inl t ↦ (e, Memᴰ.head refl, (str_eq_iff e.name x).0 t)
  | inr f ↦ let (r, m, k) = mem_of_has_name es x (ground arith) in (r, Memᴰ.tail m, k)
]

pub DistinctNames-concat :
    (es : List RepoEntry) (e : RepoEntry)
    → DistinctNames es
    → has_name es e.name ≡ false
    → DistinctNames (es ++ e ∷ [])
DistinctNames-concat [] e d h = (refl, tt)
DistinctNames-concat (x ∷ es) e d h = (
  ground (arith, has_name-concat es e x.name, str_eq_iff x.name e.name),
  DistinctNames-concat es e d.1 (ground arith),
)

module _ (idx : RepoIndex) (db : Db) (targets : List Str) (nodeps : Bool) where
  pub record Inv (open_names : List Str) (st : Resolving) : Type 0 where
    pub opened : (x : Str) → contains open_names x ≡ true → contains st.seen x ≡ true
    pub newest : (e : RepoEntry) → Memᴰ e st.order → IsNewest e.name idx.items e
    pub need : (e : RepoEntry) → Memᴰ e st.order → needed idx db targets nodeps e.name ≡ true
    pub listed : (x : Str) → has_name st.order x ≡ true → contains st.seen x ≡ true
    pub waiting : (x : Str) → has_name st.order x ≡ true → contains open_names x ≡ false
    pub distinct : DistinctNames st.order
    pub closed :
        (e : RepoEntry) (d : Str)
        → Memᴰ e st.order
        → contains (deps_of idx db targets nodeps e) d ≡ true
        → needed idx db targets nodeps d ≡ true
        → contains st.seen d ≡ true
    pub settled :
        (x : Str)
        → st.problems ≡ []
        → contains st.seen x ≡ true
        → contains open_names x ≡ false
        → needed idx db targets nodeps x ≡ true
        → has_name st.order x ≡ true

  -- A name is marked as seen and opened.
  pub Inv-open :
      (open_names : List Str) (st : Resolving) (name : Str)
      → contains st.seen name ≡ false
      → Inv open_names st
      → Inv (name ∷ open_names) (record st { seen = name ∷ st.seen })
  unfolding contains
  Inv-open open_names st name fresh v = record {
    opened = λ x h. ground (arith, v.opened x);
    newest = v.newest;
    need = v.need;
    listed = λ x h. ground (arith, v.listed x);
    waiting = λ x h. ground (arith, v.listed x, v.waiting x, str_eq_iff name x);
    distinct = v.distinct;
    closed = λ e d m h n. ground (arith, v.closed e d m h n);
    settled = λ x p s o n. ground (arith, v.settled x p);
  }

  -- A name that the index lacks is closed with a problem.
  pub Inv-problem :
      (open_names : List Str) (st : Resolving) (name : Str) (p : ResolveProblem)
      → Inv (name ∷ open_names) st
      → Inv open_names (record st { problems = st.problems ++ p ∷ [] })
  unfolding contains
  Inv-problem open_names st name p v = record {
    opened = λ x h. v.opened x (ground arith);
    newest = v.newest;
    need = v.need;
    listed = v.listed;
    waiting = λ x h. ground (arith, v.waiting x);
    distinct = v.distinct;
    closed = v.closed;
    settled = λ x q. absurd (concat-ne_nil st.problems p q);
  }

  -- An entry whose needed dependencies are seen is closed.
  pub Inv-close :
      (open_names : List Str) (st : Resolving) (e : RepoEntry)
      → contains open_names e.name ≡ false
      → IsNewest e.name idx.items e
      → ((d : Str)
          → contains (deps_of idx db targets nodeps e) d ≡ true
          → needed idx db targets nodeps d ≡ true
          → contains st.seen d ≡ true)
      → Inv (e.name ∷ open_names) st
      → Inv open_names (push_needed idx db targets nodeps e.name e st)
  unfolding contains
  Inv-close open_names st e fresh newest deps v =
      elim (Bool-cases (needed idx db targets nodeps e.name)) [
        | inl n ↦ rw n (record {
          opened = λ x h. v.opened x (ground arith);
          newest = λ x m. ⊎_elim (v.newest x) (λ k. rw k newest) ((mem-concat x e st.order).0 m);
          need = λ x m. ⊎_elim (v.need x) (λ k. rw k n) ((mem-concat x e st.order).0 m);
          listed = λ x h.
              ground
                (arith, has_name-concat st.order e x, v.listed x, v.opened x, str_eq_iff e.name x);
          waiting = λ x h. ground (arith, has_name-concat st.order e x, v.waiting x, fresh);
          distinct =
              DistinctNames-concat st.order e v.distinct
                (ground (arith, v.waiting e.name, str_eq_iff e.name e.name));
          closed = λ x d m h k.
              ⊎_elim (λ i. v.closed x d i h k) (λ i. deps d (rw i at h) k)
                ((mem-concat x e st.order).0 m);
          settled = λ x p s o k.
              ground (arith, has_name-concat st.order e x, v.settled x p s, str_eq_iff e.name x);
        })
        | inr n ↦ rw n (record {
          opened = λ x h. v.opened x (ground arith);
          newest = v.newest;
          need = v.need;
          listed = v.listed;
          waiting = λ x h. ground (arith, v.waiting x);
          distinct = v.distinct;
          closed = v.closed;
          settled = λ x p s o k. ground (arith, v.settled x p s, str_eq_iff e.name x);
        })
      ]
