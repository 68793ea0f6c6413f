-- ===== src/Repo/Newest.antt =====
-- `salt_repo_index_find` returns the newest entry of a name.
use salt_os.Prelude.{
  ◌≡◌, refl, subst, ◌≢◌, ◌⊎◌, inl, inr, ⊎_elim, true, false, ◌&&◌, Option, none, some, List, [],
  ◌∷◌, arith, Bool-cases, not-mem-nil, Str, str_eq, str_eq_iff, Memᴰ,
}
use mathlib.Core.List.Memᴰ
use salt_os.Prelude.Int.{ℤ}
use salt_os.Repo.{RepoEntry, RepoIndex, is_newer, newer, pick_newest, find_from, index_find}
use salt_os.Repo.Vercmp.Order.{vercmp-flip, vercmp_self, vercmp_trans}

-- Nothing is newer than itself.
pub is_newer_irrefl : (v : Str) (r : ℤ) → is_newer v r v r ≡ false
unfolding is_newer
is_newer_irrefl v r = ground (arith, vercmp_self v)

-- Of two releases at most one is newer.
pub is_newer_asymm : (v w : Str) (r q : ℤ) → is_newer v r w q ≡ true → is_newer w q v r ≡ false
unfolding is_newer
is_newer_asymm v w r q h = ground (arith, vercmp-flip v w)

-- "Not newer" is transitive.
pub not_newer_trans :
    (u v w : Str) (p q r : ℤ)
    → is_newer u p v q ≡ false
    → is_newer v q w r ≡ false
    → is_newer u p w r ≡ false
unfolding is_newer
not_newer_trans u v w p q r h k = ground (
  arith,
  vercmp_trans u v w,
  vercmp_trans w v u,
  vercmp_trans v w u,
  vercmp_trans w u v,
  vercmp-flip u v,
  vercmp-flip v w,
  vercmp-flip u w,
)

-- `best` is an entry of the name, and no entry of the name in `es` is newer.
pub record IsNewest (name : Str) (es : List RepoEntry) (best : RepoEntry) : Type 0 where
  pub member : Memᴰ best es
  pub named : best.name ≡ name
  pub newest : (e : RepoEntry) → Memᴰ e es → e.name ≡ name → newer e best ≡ false

record Best (name : Str) (b : RepoEntry) (es : List RepoEntry) (r : RepoEntry) : Type 0 where
  named : r.name ≡ name
  kept : newer b r ≡ false
  newest : (e : RepoEntry) → Memᴰ e es → e.name ≡ name → newer e r ≡ false
  member : (r ≡ b) ⊎ Memᴰ r es

-- The loop behind a first entry of the name.
find_from-some :
    (name : Str) (b : RepoEntry) (es : List RepoEntry)
    → b.name ≡ name
    → (r : RepoEntry) × (find_from name (some b) es ≡ some r) × Best name b es r
unfolding find_from pick_newest
find_from-some name b [] h = (
  b,
  refl,
  record {
    named = h;
    kept = is_newer_irrefl b.version b.release;
    newest = λ e m. absurd (not-mem-nil e m);
    member = inl refl;
  },
)
find_from-some name b (e ∷ es) h = elim (Bool-cases (str_eq e.name name && newer e b)) [
  | inl t ↦
      let (r, eq, best) = find_from-some name e es (ground (arith, str_eq_iff e.name name)) in
      (
        r,
        ground (arith, str_eq_iff e.name name),
        record {
          named = best.named;
          kept =
              not_newer_trans b.version e.version r.version b.release e.release r.release
                (is_newer_asymm e.version b.version e.release b.release (ground arith)) best.kept;
          newest =
              λ x m k. ⊎_elim (λ i. rw i best.kept) (λ i. best.newest x i k) (Memᴰ.cases_cons m);
          member = inr (⊎_elim Memᴰ.head Memᴰ.tail best.member);
        },
      )
  | inr f ↦
      let (r, eq, best) = find_from-some name b es h in
      (
        r,
        ground (arith, str_eq_iff e.name name),
        record {
          named = best.named;
          kept = best.kept;
          newest = λ x m k.
              ⊎_elim
                (λ i.
                  not_newer_trans x.version b.version r.version x.release b.release r.release
                    (ground (arith, i, k, str_eq_iff e.name name)) best.kept)
                (λ i. best.newest x i k) (Memᴰ.cases_cons m);
          member = ⊎_elim inl (λ i. inr (Memᴰ.tail i)) best.member;
        },
      )
]

-- The two outcomes of a search for `name` in `es`.
pub data Search (name : Str) (es : List RepoEntry) : Option RepoEntry → Type 0 where
  absent : ((e : RepoEntry) → Memᴰ e es → e.name ≢ name) → Search name es none
  found : (r : RepoEntry) → IsNewest name es r → Search name es (some r)

IsNewest-cons_self :
    (name : Str) (b : RepoEntry) (es : List RepoEntry) (r : RepoEntry)
    → Best name b es r
    → IsNewest name (b ∷ es) r
IsNewest-cons_self name b es r best = record {
  member = ⊎_elim Memᴰ.head Memᴰ.tail best.member;
  named = best.named;
  newest = λ x m k. ⊎_elim (λ i. rw i best.kept) (λ i. best.newest x i k) (Memᴰ.cases_cons m);
}

Search-cons_ne :
    (name : Str) (e : RepoEntry) (es : List RepoEntry) {o : Option RepoEntry}
    → e.name ≢ name
    → Search name es o
    → Search name (e ∷ es) o
Search-cons_ne name e es h (absent nowhere) =
    absent
      (λ x m k. ⊎_elim (λ i. h (ground (arith, i, k))) (λ i. nowhere x i k) (Memᴰ.cases_cons m))
Search-cons_ne name e es h (found r n) = found r (record {
  member = Memᴰ.tail n.member;
  named = n.named;
  newest = λ x m k.
      ⊎_elim (λ i. absurd (h (ground (arith, i, k)))) (λ i. n.newest x i k) (Memᴰ.cases_cons m);
})

find_from-Search : (name : Str) (es : List RepoEntry) → Search name es (find_from name none es)
unfolding find_from pick_newest
find_from-Search name [] = absent (λ e m k. not-mem-nil e m)
find_from-Search name (e ∷ es) = elim (Bool-cases (str_eq e.name name)) [
  | inl t ↦
      let (r, eq, best) = find_from-some name e es ((str_eq_iff e.name name).0 t) in
      rw (t, eq) (found r (IsNewest-cons_self name e es r best))
  | inr f ↦
      rw f (
        Search-cons_ne name e es (ground (arith, str_eq_iff e.name name))
          (find_from-Search name es))
]

-- `salt_repo_index_find` returns NULL only if no entry has the name, and otherwise an entry of the
-- index with that name than which no entry with that name is newer.
pub index_find-Search : (idx : RepoIndex) (name : Str) → Search name idx.items (index_find idx name)
unfolding index_find
index_find-Search idx name = find_from-Search name idx.items

Search-some :
    {name : Str} {es : List RepoEntry} {o : Option RepoEntry} (r : RepoEntry)
    → Search name es o
    → o ≡ some r
    → IsNewest name es r
Search-some r (absent nowhere) e = cc
Search-some {name} {es} r (found s n) e = subst (IsNewest name es) (ground arith) n

pub index_find-IsNewest :
    (idx : RepoIndex) (name : Str) (e : RepoEntry)
    → index_find idx name ≡ some e
    → IsNewest name idx.items e
index_find-IsNewest idx name e h = Search-some e (index_find-Search idx name) h
