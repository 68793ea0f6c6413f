-- ===== src/Lock/Apply/Pins.antt =====
-- A plan for a lock installs what the lock pins, and nothing else.
use salt_os.Prelude.{
  ◌≡◌, refl, sym, ap, subst, ◌≢◌, ◌↔◌, ◌⊎◌, inl, inr, ⊎_elim, true, false, not, ◌&&◌, ◌||◌, Option,
  none, some, List, [], ◌∷◌, ◌++◌, map, arith, Bool-cases, Option-cases, filter, mem-cons,
  mem-append, not-mem-nil, Str, str_eq, str_eq_iff, contains, set_of, contains-set_of, Memᴰ,
}
use salt_os.Util.Names.{contains-map}
use salt_os.Prelude.Int.{ℤ, eq_ℤ}
use salt_os.Repo.{
  RepoEntry, RepoIndex, index_find_exact, find_exact_from, entry_hash_ok, sha256_hex_valid,
}
use salt_os.Db.{Db, get_pkg}
use salt_os.Db.Rows.{PkgRow}
use salt_os.Install.Checks.{NativePlan}
use salt_os.Install.Order.Deps.{order_by_deps-IsDepOrder}
use salt_os.Lock.{LockEntry}
use salt_os.Lock.Compare.{
  LockCompare, same_version, same_sha256, add_compared, compare_entries, compare_lock,
}
use salt_os.Lock.Apply.{
  changed_entry, wanted, pinned_entry, pinned_entries, PlanResult, refused, out_of_fuel, planned,
  ordered_plan, plan_without_index, lock_plan,
}

-- An entry of the index is the one that an entry of the lock pins, to the digest.
pub record IsPinned (idx : RepoIndex) (le : LockEntry) (e : RepoEntry) : Type 0 where
  pub indexed : Memᴰ e idx.items
  pub name : e.name ≡ le.name
  pub version : e.version ≡ le.version
  pub release : eq_ℤ e.release le.release ≡ true
  pub digest : e.sha256 ≡ le.sha256
  pub valid : sha256_hex_valid e.sha256 ≡ true

some_eq {ℓ} : {A : Type ℓ} {x y : A} → some x ≡ some y → x ≡ y
some_eq h = cc

none-some {ℓ} : {A : Type ℓ} {x : A} → none ≡ some x → ⊥
none-some h = cc

find_exact_from-some :
    (n v : Str) (r : ℤ) (es : List RepoEntry) (e : RepoEntry)
    → find_exact_from n v r es ≡ some e
    → (e.name ≡ n) × (e.version ≡ v) × (eq_ℤ e.release r ≡ true) × Memᴰ e es
unfolding find_exact_from
find_exact_from-some n v r [] e h = cc
find_exact_from-some n v r (x ∷ xs) e h =
    elim (Bool-cases (str_eq x.name n && (str_eq x.version v && eq_ℤ x.release r))) [
      | inl t ↦
          let same : x ≡ e = some_eq (rw t at h) in
          let (a, b, c) : (x.name ≡ n) × (x.version ≡ v) × (eq_ℤ x.release r ≡ true) =
            ground (arith, str_eq_iff x.name n, str_eq_iff x.version v) in
          subst (λ y. (y.name ≡ n) × (y.version ≡ v) × (eq_ℤ y.release r ≡ true) × Memᴰ y (x ∷ xs))
            same (a, b, c, Memᴰ.head refl)
      | inr f ↦
          let (a, b, c, m) = find_exact_from-some n v r xs e (rw f at h) in (a, b, c, Memᴰ.tail m)
    ]

pinned_entry-IsPinned :
    (idx : RepoIndex) (le : LockEntry) (e : RepoEntry)
    → pinned_entry idx le ≡ some e
    → IsPinned idx le e
unfolding pinned_entry index_find_exact
pinned_entry-IsPinned idx le e h =
    elim (Option-cases (find_exact_from le.name le.version le.release idx.items)) [
      | inl k ↦ absurd (none-some (rw (k, pinned_entry, index_find_exact) at h))
      | inr (x, k) ↦
          let (a, b, c, m) = find_exact_from-some le.name le.version le.release idx.items x k in
          elim (Bool-cases (not (entry_hash_ok x) || not (str_eq le.sha256 x.sha256))) [
            | inl t ↦ absurd (none-some (rw (k, t, pinned_entry, index_find_exact) at h))
            | inr f ↦
                subst (IsPinned idx le) (some_eq (rw (k, f, pinned_entry, index_find_exact) at h))
                  (record {
                    indexed = m;
                    name = a;
                    version = b;
                    release = c;
                    digest = ground (arith, str_eq_iff le.sha256 x.sha256);
                    valid = ground arith;
                  })
          ]
    ]

-- Each entry is one of the index, and pinned by an entry of the lock; without an index there is none.
abbrev pub AllPinned : Option RepoIndex → List LockEntry → List RepoEntry → Type 0
AllPinned none ls es = es ≡ []
AllPinned (some idx) ls es =
    (e : RepoEntry) → Memᴰ e es → (le : LockEntry) × Memᴰ le ls × IsPinned idx le e

pinned_entries-AllPinned :
    (idx : RepoIndex) (ls : List LockEntry) (es : List RepoEntry)
    → pinned_entries idx ls ≡ some es
    → AllPinned (some idx) ls es
unfolding pinned_entries
pinned_entries-AllPinned idx [] es h =
    subst (AllPinned (some idx) []) (some_eq h) (λ e m. absurd (not-mem-nil e m))
pinned_entries-AllPinned idx (le ∷ ls) es h = elim (Option-cases (pinned_entry idx le)) [
  | inl k ↦ absurd (none-some (rw (k, pinned_entries) at h))
  | inr (x, k) ↦ elim (Option-cases (pinned_entries idx ls)) [
    | inl j ↦ absurd (none-some (rw (k, j, pinned_entries) at h))
    | inr (xs, j) ↦
        subst (AllPinned (some idx) (le ∷ ls)) (some_eq (rw (k, j, pinned_entries) at h)) (λ e m.
          ⊎_elim
            (λ i. (
              le,
              Memᴰ.head refl,
              subst (IsPinned idx le) (sym i) (pinned_entry-IsPinned idx le x k),
            ))
            (λ i. let (l, n, p) = pinned_entries-AllPinned idx ls xs j e i in (l, Memᴰ.tail n, p))
            ((mem-cons e x xs).0 m))
  ]
]

mem-middle :
    (x le : LockEntry) (xs ys : List LockEntry)
    → Memᴰ x (xs ++ le ∷ ys)
    → (x ≡ le) ⊎ Memᴰ x (xs ++ ys)
mem-middle x le xs ys m =
    ⊎_elim (λ k. inr ((mem-append x xs ys).1 (inl k)))
      (λ k. ⊎_elim inl (λ j. inr ((mem-append x xs ys).1 (inr j))) ((mem-cons x le ys).0 k))
      ((mem-append x xs (le ∷ ys)).0 m)

mem-add_compared :
    (x le : LockEntry) (o : Option PkgRow) (c : LockCompare)
    → Memᴰ x (wanted (add_compared le o c))
    → (x ≡ le) ⊎ Memᴰ x (wanted c)
unfolding wanted
mem-add_compared x le none c m = (mem-cons x le (c.missing ++ map changed_entry c.changed)).0 m
mem-add_compared x le (some p) c m = elim (Bool-cases (same_version le p)) [
  | inl v ↦ elim (Bool-cases (same_sha256 le p)) [
    | inl s ↦ inr (rw (v, s) at m)
    | inr s ↦ mem-middle x le c.missing (map changed_entry c.changed) (rw (v, s) at m)
  ]
  | inr v ↦ mem-middle x le c.missing (map changed_entry c.changed) (rw v at m)
]

mem-wanted :
    (db : Db) (lock : List LockEntry) (x : LockEntry)
    → Memᴰ x (wanted (compare_entries db lock))
    → Memᴰ x lock
unfolding compare_entries wanted
mem-wanted db [] x m = m
mem-wanted db (le ∷ ls) x m =
    ⊎_elim Memᴰ.head (λ k. Memᴰ.tail (mem-wanted db ls x k))
      (mem-add_compared x le (get_pkg db le.name) (compare_entries db ls) m)

wanted-pinned :
    (db : Db) (lock : List LockEntry) (x : LockEntry)
    → Memᴰ x (wanted (compare_lock db lock))
    → Memᴰ x lock
unfolding compare_lock wanted
wanted-pinned db lock x m = mem-wanted db lock x m

-- A plan removes just the installed packages that no entry of the lock names.
abbrev pub RemovesStray : Db → List LockEntry → List Str → Type 0
RemovesStray db lock names =
    (n : Str)
    → (contains names n ≡ true) ↔ (
        ((p : PkgRow) × Memᴰ p db.packages × (p.name ≡ n))
        × ((le : LockEntry) → Memᴰ le lock → le.name ≢ n))

-- What is said of the plan of a result.
abbrev pub IsLockPlan : Option RepoIndex → Db → List LockEntry → PlanResult → Type 0
IsLockPlan idx db lock r =
    (r ≢ out_of_fuel)
    × ((plan : NativePlan)
        → r ≡ planned plan
        → AllPinned idx lock plan.install × RemovesStray db lock plan.remove)

planned_eq : {x y : NativePlan} → planned x ≡ planned y → x ≡ y
planned_eq h = cc

refused_planned : {x : NativePlan} → refused ≡ planned x → ⊥
refused_planned h = cc

contains-stray :
    (known xs : List Str) (n : Str)
    → (contains (filter (λ x. not (contains known x)) xs) n ≡ true)
      ↔ ((contains xs n ≡ true) × (contains known n ≡ false))
unfolding contains
contains-stray known [] n = ground arith
contains-stray known (x ∷ xs) n =
    ground (arith, contains-stray known xs n, str_eq_iff x n, λ (e : x ≡ n). ap (contains known) e)

extra-RemovesStray :
    (db : Db) (lock : List LockEntry) → RemovesStray db lock (compare_lock db lock).extra
unfolding compare_lock
extra-RemovesStray db lock n =
    let names = map (λ (r : PkgRow). r.name) db.packages in
    let known = map (λ (le : LockEntry). le.name) lock in
    let stray = contains-stray known (set_of names) n in
    let installed = contains-map (λ (r : PkgRow). r.name) db.packages n in
    let locked = contains-map (λ (le : LockEntry). le.name) lock n in
    (
      λ h.
          let (a, b) = stray.0 h in
          (
            installed.0 ((contains-set_of names n).0 a),
            λ le m e. absurd (ground (arith, b, locked.1 (le, m, e))),
          ),
      λ (p, free). stray.1 (
        (contains-set_of names n).1 (installed.1 p),
        elim (Bool-cases (contains known n)) [
          | inl t ↦ let (le, m, e) = locked.0 t in absurd (free le m e)
          | inr f ↦ f
        ],
      ),
    )

ordered_plan-IsLockPlan :
    (idx : RepoIndex) (db : Db) (extra : List Str) (lock : List LockEntry)
    (o : Option (List RepoEntry))
    → RemovesStray db lock extra
    → ((es : List RepoEntry) → o ≡ some es → AllPinned (some idx) lock es)
    → IsLockPlan (some idx) db lock (ordered_plan extra o)
ordered_plan-IsLockPlan idx db extra lock none strays h =
    (λ k. cc k, λ plan k. absurd (refused_planned k))
ordered_plan-IsLockPlan idx db extra lock (some es) strays h =
    let (st, e, d) = order_by_deps-IsDepOrder es in
    rw e (
      λ k. cc k,
      λ plan k.
          subst (λ p. AllPinned (some idx) lock p.install × RemovesStray db lock p.remove)
            (planned_eq k) (λ x m. h es refl x (d.members x m), strays),
    )

without_index-IsLockPlan :
    (db : Db) (lock : List LockEntry) (c : LockCompare)
    → RemovesStray db lock c.extra
    → IsLockPlan none db lock (plan_without_index c)
without_index-IsLockPlan db lock c strays = go (wanted c)
  where
    go :
        (ls : List LockEntry)
        → IsLockPlan none db lock (elim ls [
          | [] ↦ planned (record { remove = c.extra; install = [] })
          | le ∷ ls ↦ refused
        ])
    go [] = (
      λ k. cc k,
      λ plan k.
          subst (λ p. AllPinned none lock p.install × RemovesStray db lock p.remove) (planned_eq k)
            (refl, strays),
    )
    go (le ∷ ls) = (λ k. cc k, λ plan k. absurd (refused_planned k))

-- A plan for a lock is made within its fuel or refused. What it installs are entries of the index
-- that the lock pins, in name, version, release and SHA-256, and nothing without an index; what it
-- removes are just the installed packages that no entry of the lock names.
pub lock_plan-IsLockPlan :
    (idx : Option RepoIndex) (db : Db) (lock : List LockEntry)
    → IsLockPlan idx db lock (lock_plan idx db lock)
unfolding lock_plan wanted
lock_plan-IsLockPlan none db lock =
    without_index-IsLockPlan db lock (compare_lock db lock) (extra-RemovesStray db lock)
lock_plan-IsLockPlan (some idx) db lock =
    ordered_plan-IsLockPlan idx db (compare_lock db lock).extra lock
      (pinned_entries idx (wanted (compare_lock db lock))) (extra-RemovesStray db lock)
      (λ es k e m.
        let (le, n, p) = pinned_entries-AllPinned idx (wanted (compare_lock db lock)) es k e m in
        (le, wanted-pinned db lock le n, p))
