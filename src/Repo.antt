-- ===== src/Repo.antt =====
-- The repository index: src/halite/src/repo.c and src/halite/include/salt/repo.h.
pub mod Vercmp
pub mod Newest
pub mod Verify
use salt_os.Prelude.{
  ℕ, zero, suc, ◌+◌, ◌-◌, ◌*◌, ◌/◌, ◌%◌, ◌≤◌, ◌<◌, compare, Ordering, max, ◌≡◌, refl, sym, ap, ◌∙◌,
  subst, ◌≢◌, ◌↔◌, ◌⊎◌, inl, inr, ⊎_elim, Bool, true, false, not, ◌&&◌, ◌||◌, Option, none, some,
  List, [], ◌∷◌, ◌++◌, map, arith, ltb, leb, ◌==◌, ==_iff, if◌then◌else◌, &&_eq_true, Bool-cases,
  Option-cases, eq_of_iff, length, filter, any, length-append, mem-cons, mem-append, not-mem-nil,
  mem-filter, Str, codes, str_eq, str_eq_iff, str_eq_refl, contains, contains-cons, contains-append,
  Memᴰ,
}
use salt_os.Prelude.Int.{ℤ, lt_ℤ, eq_ℤ}
use salt_os.Repo.Vercmp.{vercmp}

-- `salt_repo_entry`; `url` may be NULL.
pub record RepoEntry : Type 0 where
  pub name : Str
  pub version : Str
  pub release : ℤ
  pub arch : Str
  pub filename : Str
  pub url : Option Str
  pub sha256 : Str
  pub size : ℕ
  pub summary : Str
  pub deps : List Str
  pub conflicts : List Str

-- `salt_repo_index`
pub record RepoIndex : Type 0 where
  pub items : List RepoEntry
  pub repo_name : Str
  pub arch : Str

-- The test by which an entry replaces the best so far, and by which a package is upgraded.
unfoldable pub is_newer : Str → ℤ → Str → ℤ → Bool
is_newer v r w q = elim (vercmp v w) [
  | Ordering.gt ↦ true
  | Ordering.eq ↦ lt_ℤ q r
  | Ordering.lt ↦ false
]

abbrev pub newer : RepoEntry → RepoEntry → Bool
newer e b = is_newer e.version e.release b.version b.release

-- One round of the loop in `salt_repo_index_find`.
unfoldable pub pick_newest : Str → Option RepoEntry → RepoEntry → Option RepoEntry
pick_newest name none e = if str_eq e.name name then some e else none
pick_newest name (some b) e =
    if str_eq e.name name then (if newer e b then some e else some b) else some b

unfoldable pub find_from : Str → Option RepoEntry → List RepoEntry → Option RepoEntry
find_from name best [] = best
find_from name best (e ∷ es) = find_from name (pick_newest name best e) es

-- `salt_repo_index_find`
unfoldable pub index_find : RepoIndex → Str → Option RepoEntry
unfolding find_from pick_newest
index_find idx name = find_from name none idx.items

unfoldable pub find_exact_from : Str → Str → ℤ → List RepoEntry → Option RepoEntry
find_exact_from name version release [] = none
find_exact_from name version release (e ∷ es) =
    let rest = find_exact_from name version release es in
    if str_eq e.name name && (str_eq e.version version && eq_ℤ e.release release)
    then some e
    else rest

-- `salt_repo_index_find_exact`, at a version that is not NULL.
unfoldable pub index_find_exact : RepoIndex → Str → Str → ℤ → Option RepoEntry
unfolding find_exact_from
index_find_exact idx name version release = find_exact_from name version release idx.items

-- `isxdigit(c) && !isupper(c)`
unfoldable pub is_lower_hex : ℕ → Bool
is_lower_hex c = (leb b'0' c && leb c b'9') || (leb b'a' c && leb c b'f')

abbrev pub all_lower_hex : Str → Bool
all_lower_hex [] = true
all_lower_hex (c ∷ s) = is_lower_hex c && all_lower_hex s

-- SALT_SHA256_HEXLEN
abbrev pub sha256_hexlen : ℕ
sha256_hexlen = 64

-- `salt_sha256_hex_valid`, at a string that is not NULL.
unfoldable pub sha256_hex_valid : Str → Bool
unfolding is_lower_hex
sha256_hex_valid hex = all_lower_hex hex && length hex == sha256_hexlen

-- `salt_repo_entry_hash_ok`
abbrev pub entry_hash_ok : RepoEntry → Bool
entry_hash_ok e = sha256_hex_valid e.sha256

-- What `salt_repo_index_verify` reports of an entry; the number is the entry's position.
pub data Problem : Type 0 where
  missing_name : ℕ → Problem
  missing_version missing_filename missing_sha256 : Str → Problem
  bad_sha256 bad_filename : Str → Str → Problem

-- `strchr(s, '/') != NULL`
abbrev pub has_slash : Str → Bool
has_slash = any (λ c. c == b'/')

-- The chain of tests in the body of the loop of `salt_repo_index_verify`.
unfoldable pub entry_problem : ℕ → RepoEntry → Option Problem
entry_problem i e =
    if str_eq e.name []
    then some (missing_name i)
    else if str_eq e.version []
    then some (missing_version e.name)
    else if str_eq e.filename []
    then some (missing_filename e.name)
    else if str_eq e.sha256 []
    then some (missing_sha256 e.name)
    else if not (sha256_hex_valid e.sha256)
    then some (bad_sha256 e.name e.sha256)
    else if has_slash e.filename || str_eq e.filename (b'.' ∷ b'.' ∷ [])
    then some (bad_filename e.name e.filename)
    else none

unfoldable pub problems_from : ℕ → List RepoEntry → List Problem
problems_from i [] = []
problems_from i (e ∷ es) =
    let rest = problems_from (suc i) es in
    elim (entry_problem i e) [ none ↦ rest | some p ↦ p ∷ rest ]

-- `salt_repo_index_verify`: the problems that it pushes; it returns SALT_OK if there are none.
unfoldable pub index_verify : RepoIndex → List Problem
unfolding problems_from entry_problem
index_verify idx = problems_from 0 idx.items
