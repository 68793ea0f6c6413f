-- ===== src/Install/Update.antt =====
-- The targets of `salt update`: the first half of `do_install` in src/salt/cmd_install.cpp.
use salt_os.Prelude.{
  ◌≡◌, refl, inl, inr, ⊎_elim, Bool, true, false, Option, none, some, List, [], ◌∷◌, arith,
  if◌then◌else◌, Bool-cases, Str, contains, set_insert, contains-set_insert, Memᴰ,
}
use salt_os.Repo.{RepoEntry, RepoIndex, index_find, is_newer}
use salt_os.Repo.Newest.{IsNewest, index_find-IsNewest}
use salt_os.Db.Rows.{PkgRow}

-- `newer`: the newest entry of the package is strictly newer than what is installed.
abbrev pub has_newer : PkgRow → Option RepoEntry → Bool
has_newer p none = false
has_newer p (some e) = is_newer e.version e.release p.version p.release

-- The loop over the installed packages, which fills the set `targets`.
unfoldable pub update_targets : RepoIndex → List PkgRow → List Str
update_targets idx [] = []
update_targets idx (p ∷ ps) =
    let rest = update_targets idx ps in
    if has_newer p (index_find idx p.name) then set_insert p.name rest else rest

has_newer-IsNewest :
    (idx : RepoIndex) (p : PkgRow) (o : Option RepoEntry)
    → index_find idx p.name ≡ o
    → has_newer p o ≡ true
    → (e : RepoEntry) × IsNewest p.name idx.items e
      × (is_newer e.version e.release p.version p.release ≡ true)
has_newer-IsNewest idx p none k h = cc
has_newer-IsNewest idx p (some e) k h = (e, index_find-IsNewest idx p.name e k, h)

-- An update has as targets only names of installed packages of which the index has a strictly newer
-- release, the newest of that name: nothing is downgraded.
pub update_targets-newer :
    (idx : RepoIndex) (ps : List PkgRow) (x : Str)
    → contains (update_targets idx ps) x ≡ true
    → (p : PkgRow) × Memᴰ p ps
      × (p.name ≡ x)
      × ((e : RepoEntry) × IsNewest p.name idx.items e
          × (is_newer e.version e.release p.version p.release ≡ true))
unfolding update_targets contains
update_targets-newer idx [] x h = absurd (ground arith)
update_targets-newer idx (p ∷ ps) x h = elim (Bool-cases (has_newer p (index_find idx p.name))) [
  | inl t ↦
      ⊎_elim (λ k. (p, Memᴰ.head refl, k, has_newer-IsNewest idx p (index_find idx p.name) refl t))
        (λ k. let (q, m, n, w) = update_targets-newer idx ps x k in (q, Memᴰ.tail m, n, w))
        ((contains-set_insert p.name x (update_targets idx ps)).0 (rw t at h))
  | inr f ↦ let (q, m, n, w) = update_targets-newer idx ps x (rw f at h) in (q, Memᴰ.tail m, n, w)
]
