-- ===== src/Gc/Named.antt =====
-- The names that the sweep of the cache spares.
use salt_os.Prelude.{
  ℕ, ◌≡◌, refl, ap, ◌∙◌, subst, ◌≢◌, ◌⊎◌, inl, inr, true, Option, none, some, List, [], ◌∷◌, map,
  ◌==◌, ==_iff, Bool-cases, mem-cons, not-mem-nil, Str, contains, contains-cons, contains-append,
  Memᴰ,
}
use salt_os.Db.{Db}
use salt_os.Db.Rows.{PkgRow}
use salt_os.Util.Names.{contains-mem, contains-map}
use salt_os.Gc.{id_in, add_name, add_names, add_snapshots, referenced}

add_name-keeps :
    (f : Str) (names : List Str) (x : Str)
    → contains names x ≡ true
    → contains (add_name f names) x ≡ true
unfolding add_name
add_name-keeps [] names x h = h
add_name-keeps (c ∷ s) names x h = elim (Bool-cases (contains names (c ∷ s))) [
  | inl y ↦ rw y h
  | inr n ↦ rw n ((contains-append names ((c ∷ s) ∷ []) x).1 (inl h))
]

add_name-adds : (f : Str) (names : List Str) → f ≢ [] → contains (add_name f names) f ≡ true
unfolding add_name
add_name-adds [] names n = absurd (n refl)
add_name-adds (c ∷ s) names n = elim (Bool-cases (contains names (c ∷ s))) [
  | inl y ↦ rw y y
  | inr k ↦ rw k (
      (contains-append names ((c ∷ s) ∷ []) (c ∷ s)).1
        (inr ((contains-cons (c ∷ s) (c ∷ s) []).1 (inl refl))))
]

add_names-keeps :
    (fs names : List Str) (x : Str)
    → contains names x ≡ true
    → contains (add_names fs names) x ≡ true
unfolding add_names
add_names-keeps [] names x h = h
add_names-keeps (f ∷ fs) names x h =
    add_names-keeps fs (add_name f names) x (add_name-keeps f names x h)

add_names-adds :
    (fs names : List Str) (x : Str) → x ≢ [] → Memᴰ x fs → contains (add_names fs names) x ≡ true
unfolding add_names
add_names-adds [] names x n m = absurd (not-mem-nil x m)
add_names-adds (f ∷ fs) names x n m = elim ((mem-cons x f fs).0 m) [
  | inl e ↦
      add_names-keeps fs (add_name f names) x
        (subst (λ y. contains (add_name y names) x ≡ true) e (add_name-adds x names n))
  | inr k ↦ add_names-adds fs (add_name f names) x n k
]

-- What one generation adds.
abbrev adding : Option (List Str) → List Str → List Str
adding b names = elim b [ none ↦ names | some fs ↦ add_names fs names ]

adding-keeps :
    (b : Option (List Str)) (names : List Str) (x : Str)
    → contains names x ≡ true
    → contains (adding b names) x ≡ true
adding-keeps none names x h = h
adding-keeps (some fs) names x h = add_names-keeps fs names x h

add_snapshots-keeps :
    (before : ℕ → Option (List Str)) (ids : List ℕ) (names : List Str) (x : Str)
    → contains names x ≡ true
    → contains (add_snapshots before ids names) x ≡ true
unfolding add_snapshots
add_snapshots-keeps before [] names x h = h
add_snapshots-keeps before (id ∷ ids) names x h =
    add_snapshots-keeps before ids (adding (before id) names) x (adding-keeps (before id) names x h)

add_snapshots-adds :
    (before : ℕ → Option (List Str)) (ids : List ℕ) (names : List Str) (x : Str) (id : ℕ)
    (fs : List Str)
    → x ≢ []
    → id_in ids id ≡ true
    → before id ≡ some fs
    → Memᴰ x fs
    → contains (add_snapshots before ids names) x ≡ true
unfolding add_snapshots id_in
add_snapshots-adds before [] names x id fs n h b m = absurd cc
add_snapshots-adds before (i ∷ ids) names x id fs n h b m = elim (Bool-cases (i == id)) [
  | inl e ↦
      let is : before i ≡ some fs = ap before ((==_iff i id).0 e) ∙ b in
      rw is (add_snapshots-keeps before ids (add_names fs names) x (add_names-adds fs names x n m))
  | inr k ↦ add_snapshots-adds before ids (adding (before i) names) x id fs n (rw k at h) b m
]

-- An installed package was installed from the file, or the snapshot of a generation names it.
abbrev pub IsNamed : (ℕ → Option (List Str)) → List ℕ → Db → Str → Type 0
IsNamed before ids db name =
    ((p : PkgRow) × Memᴰ p db.packages × (p.filename ≡ name))
    ⊎ ((id : ℕ) × (fs : List Str) × (id_in ids id ≡ true) × (before id ≡ some fs) × Memᴰ name fs)

pub IsNamed-referenced :
    (before : ℕ → Option (List Str)) (ids : List ℕ) (db : Db) (name : Str)
    → name ≢ []
    → IsNamed before ids db name
    → contains (referenced before ids db) name ≡ true
unfolding referenced
IsNamed-referenced before ids db name n (inl p) =
    let filenames = map (λ (r : PkgRow). r.filename) db.packages in
    add_snapshots-keeps before ids (add_names filenames []) name (
      add_names-adds filenames [] name n (
        (contains-mem filenames name).0
          ((contains-map (λ (r : PkgRow). r.filename) db.packages name).1 p)))
IsNamed-referenced before ids db name n (inr (id, fs, k, b, m)) =
    add_snapshots-adds before ids _ name id fs n k b m
