-- ===== src/Repo/Verify.antt =====
-- What `salt_repo_index_verify` accepts.
use salt_os.Prelude.{
  ℕ, suc, ◌≡◌, refl, ◌≢◌, ◌↔◌, inl, inr, ⊎_elim, true, false, none, List, [], ◌∷◌, arith,
  Option-cases, not-mem-nil, Str, codes, str_eq_iff, Memᴰ,
}
use mathlib.Core.List.Memᴰ
use salt_os.Util.{path_is_confined}
use salt_os.Util.Components.{split_slash}
use salt_os.Util.Confined.{path_is_confined-parts}
use salt_os.Repo.{
  RepoEntry, RepoIndex, sha256_hex_valid, has_slash, entry_problem, problems_from, index_verify,
}

-- An entry that can be fetched, checked and stored under its own name in the cache.
pub record IsSound (e : RepoEntry) : Type 0 where
  pub name : e.name ≢ []
  pub version : e.version ≢ []
  pub hashed : sha256_hex_valid e.sha256 ≡ true
  pub filename : e.filename ≢ []
  pub bare : has_slash e.filename ≡ false
  pub not_up : e.filename ≢ codes ".."

sha256_hex_valid-ne_nil : (s : Str) → sha256_hex_valid s ≡ true → s ≢ []
unfolding sha256_hex_valid
sha256_hex_valid-ne_nil s h e = ground arith

entry_problem-none : (i : ℕ) (e : RepoEntry) → (entry_problem i e ≡ none) ↔ IsSound e
unfolding entry_problem
entry_problem-none i e = (
  λ h. record {
    name = ground (arith, str_eq_iff e.name []);
    version = ground (arith, str_eq_iff e.version []);
    hashed = ground arith;
    filename = ground (arith, str_eq_iff e.filename []);
    bare = ground arith;
    not_up = ground (arith, str_eq_iff e.filename (codes ".."));
  },
  λ s. ground (
    arith,
    str_eq_iff e.name [],
    str_eq_iff e.version [],
    str_eq_iff e.filename [],
    str_eq_iff e.sha256 [],
    str_eq_iff e.filename (codes ".."),
    sha256_hex_valid-ne_nil e.sha256,
  ),
)

problems_from-nil :
    (i : ℕ) (es : List RepoEntry)
    → (problems_from i es ≡ []) ↔ ((e : RepoEntry) → Memᴰ e es → IsSound e)
unfolding problems_from
problems_from-nil i [] = (λ _ e m. absurd (not-mem-nil e m), λ _. refl)
problems_from-nil i (e ∷ es) = elim (Option-cases (entry_problem i e)) [
  | inl clean ↦
      rw (clean, problems_from)
        (
          λ h x m.
              ⊎_elim (λ k. rw k ((entry_problem-none i e).0 clean))
                ((problems_from-nil (suc i) es).0 h x) (Memᴰ.cases_cons m),
          λ all. (problems_from-nil (suc i) es).1 (λ x m. all x (Memᴰ.tail m)),
        )
  | inr (p, bad) ↦
      rw (bad, problems_from)
        (λ h. cc, λ all. cc (bad, (entry_problem-none i e).1 (all e (Memᴰ.head refl))))
]

-- An index passes verification exactly if each of its entries has a name, a version, a lowercase
-- SHA-256 of 64 digits, and a file name without a slash that is not "..".
pub index_verify-IsSound :
    (idx : RepoIndex) → (index_verify idx ≡ []) ↔ ((e : RepoEntry) → Memᴰ e idx.items → IsSound e)
unfolding index_verify
index_verify-IsSound idx = problems_from-nil 0 idx.items

-- A name without slashes is its own only component.
split_slash-bare : (s : Str) → has_slash s ≡ false → split_slash s ≡ s ∷ []
unfolding split_slash
split_slash-bare [] h = refl
split_slash-bare (c ∷ s) h = ground (arith, split_slash-bare s)

bare-confined :
    (s : Str)
    → s ≢ []
    → has_slash s ≡ false
    → s ≢ codes ".."
    → s ≢ codes "."
    → path_is_confined s ≡ true
bare-confined [] n b u d = absurd (n refl)
bare-confined (c ∷ s) n b u d =
    rw (path_is_confined-parts c s, split_slash-bare (c ∷ s) b)
      (ground (
        arith,
        str_eq_iff (c ∷ s) [],
        str_eq_iff (c ∷ s) (codes "."),
        str_eq_iff (c ∷ s) (codes ".."),
      ))

-- The file name of each entry of an index that passes verification is a confined path, unless it
-- is ".".
pub index_verify-confined :
    (idx : RepoIndex) (e : RepoEntry)
    → index_verify idx ≡ []
    → Memᴰ e idx.items
    → e.filename ≢ codes "."
    → path_is_confined e.filename ≡ true
index_verify-confined idx e clean m h =
    let s = (index_verify-IsSound idx).0 clean e m in
    bare-confined e.filename s.filename s.bare s.not_up h
