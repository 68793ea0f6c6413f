-- ===== src/Gc/Safe.antt =====
-- What the garbage collector leaves alone.
use salt_os.Prelude.{
  ℕ, ◌≡◌, refl, ap, ◌∙◌, ◌≢◌, inl, inr, Bool, true, false, not, ◌&&◌, ◌||◌, Option, none, some,
  List, [], ◌∷◌, map, arith, ◌==◌, ==_iff, Bool-cases, Option-cases, filter, any, Str, codes,
  str_eq, str_eq_iff, contains, Memᴰ,
}
use salt_os.Gc.Named.{IsNamed, IsNamed-referenced}
use salt_os.Util.Rc.{ok, succeeded}
use salt_os.Db.{Db, Stmt, with_status, with_snapshot, step, apply, allowed}
use salt_os.Db.Rows.{TxnRow}
use salt_os.Db.Ops.{txn_finish, txn_set_snapshot, deployments}
use salt_os.Gc.{
  Generations, remove_generation, had_snapshot, remove_snapshot, snapshot_name, delete_snapshot,
  GcOpts, GcReport, CacheFile, CacheDir, Machine, id_in, kept, referenced, prune_generation,
  prune_each, sweep_cache_dir, sweep_cache, gc_run, count_file,
}

-- The rows of a generation.
abbrev pub rows_of : ℕ → Db → List TxnRow
rows_of id db = filter (λ t. t.id == id) db.transactions

rows_status :
    (id x : ℕ) (s : Str) (ts : List TxnRow)
    → (x == id) ≡ false
    → filter (λ t. t.id == id) (map (with_status x s) ts) ≡ filter (λ t. t.id == id) ts
rows_status id x s [] h = refl
rows_status id x s (t ∷ ts) h = ground (arith, rows_status id x s ts h)

rows_snapshot :
    (id x : ℕ) (s : Str) (ts : List TxnRow)
    → (x == id) ≡ false
    → filter (λ t. t.id == id) (map (with_snapshot x s) ts) ≡ filter (λ t. t.id == id) ts
rows_snapshot id x s [] h = refl
rows_snapshot id x s (t ∷ ts) h = ground (arith, rows_snapshot id x s ts h)

other_id : (ids : List ℕ) (x id : ℕ) → id_in ids x ≡ false → id_in ids id ≡ true → (x == id) ≡ false
unfolding id_in
other_id [] x id f h = cc
other_id (i ∷ ids) x id f h = ground (arith, other_id ids x id)

none-some {ℓ} : {A : Type ℓ} {x : A} → none ≡ some x → ⊥
none-some h = cc

filter-other :
    (s name : Str) (xs : List Str)
    → s ≢ name
    → contains (filter (λ x. not (str_eq x s)) xs) name ≡ contains xs name
unfolding contains
filter-other s name [] n = refl
filter-other s name (x ∷ xs) n =
    ground (arith, filter-other s name xs n, str_eq_iff x s, str_eq_iff x name, str_eq_iff s name)

snapshot_name-own : (o : Option Str) (name : Str) → snapshot_name o ≡ some name → o ≡ some name
unfolding snapshot_name
snapshot_name-own none name h = absurd cc
snapshot_name-own (some []) name h = absurd cc
snapshot_name-own (some (c ∷ s)) name h = elim (Bool-cases (any (λ b. b == b'/') (c ∷ s))) [
  | inl y ↦ absurd (none-some (rw y at h))
  | inr n ↦ rw n at h
]

module _ (completes : Stmt → Db → Bool) (m : Machine) where
  had_snapshot-own :
      (d : TxnRow) (w : Generations) (name : Str)
      → had_snapshot completes m d w ≡ some name
      → d.snapshot ≡ some name
  unfolding had_snapshot
  had_snapshot-own d w name h = elim (Option-cases (snapshot_name d.snapshot)) [
    | inl e ↦ absurd (none-some (rw (e, had_snapshot) at h))
    | inr (s, e) ↦ elim (Bool-cases (m.use_btrfs && contains w.snapshots s)) [
      | inl y ↦ snapshot_name-own d.snapshot name (e ∙ rw (e, y, had_snapshot) at h)
      | inr n ↦ absurd (none-some (rw (e, n, had_snapshot) at h))
    ]
  ]

  finish-rows :
      (id x : ℕ) (s : Str) (db : Db)
      → (x == id) ≡ false
      → rows_of id (txn_finish completes x s db).1 ≡ rows_of id db
  unfolding txn_finish step apply allowed
  finish-rows id x s db h = ground (arith, rows_status id x s db.transactions h)

  snapshot-rows :
      (id x : ℕ) (s : Str) (db : Db)
      → (x == id) ≡ false
      → rows_of id (txn_set_snapshot completes x s db).1 ≡ rows_of id db
  unfolding txn_set_snapshot step apply allowed
  snapshot-rows id x s db h = ground (arith, rows_snapshot id x s db.transactions h)

  -- What a generation has: its rows, its state directory, and a snapshot.
  abbrev pub Same : ℕ → Str → Generations → Generations → Type 0
  Same id name w w' =
      (rows_of id w'.db ≡ rows_of id w.db)
      × (w'.dirs id ≡ w.dirs id)
      × (contains w'.snapshots name ≡ contains w.snapshots name)

  Same-trans :
      (id : ℕ) (name : Str) (u v w : Generations)
      → Same id name u v
      → Same id name v w
      → Same id name u w
  Same-trans id name u v w a b = (b.0 ∙ a.0, b.1 ∙ a.1, b.2 ∙ a.2)

  remove_generation-Same :
      (d : TxnRow) (w : Generations) (out : GcReport) (id : ℕ) (name : Str)
      → (d.id == id) ≡ false
      → Same id name w (remove_generation completes m d w out).1
  unfolding remove_generation
  remove_generation-Same d w out id name h =
      let other : (id == d.id) ≡ false = ground (arith, ==_iff id d.id, ==_iff d.id id) in
      let finished = (txn_finish completes d.id (codes "pruned") w.db).1 in
      elim (Bool-cases (m.removes_dir d.id)) [
        | inl y ↦
            rw (y, other)
              (
                snapshot-rows id d.id [] finished h ∙ finish-rows id d.id (codes "pruned") w.db h,
                refl,
                refl,
              )
        | inr n ↦ rw (n, other) (refl, refl, refl)
      ]

  remove_snapshot-Same :
      (o : Option Str) (d : TxnRow) (w : Generations) (out : GcReport) (id : ℕ) (name : Str)
      → (d.id == id) ≡ false
      → o ≢ some name
      → Same id name w (remove_snapshot completes m o d w out).1
  unfolding remove_snapshot
  remove_snapshot-Same none d w out id name h n = remove_generation-Same d w out id name h
  remove_snapshot-Same (some s) d w out id name h n = elim (Bool-cases (m.deletes_snapshot s)) [
    | inl y ↦ rw y (
        Same-trans id name w (delete_snapshot s w)
          (remove_generation completes m d (delete_snapshot s w) out).1
          (refl, refl, filter-other s name w.snapshots (λ e. n (ap some e)))
          (remove_generation-Same d (delete_snapshot s w) out id name h))
    | inr k ↦ rw k (refl, refl, refl)
  ]

  prune_generation-Same :
      (dry : Bool) (d : TxnRow) (w : Generations) (out : GcReport) (id : ℕ) (name : Str)
      → (d.id == id) ≡ false
      → d.snapshot ≢ some name
      → Same id name w (prune_generation completes m dry d w out).1
  unfolding prune_generation
  prune_generation-Same true d w out id name h n = (refl, refl, refl)
  prune_generation-Same false d w out id name h n =
      remove_snapshot-Same (had_snapshot completes m d w) d w out id name h
        (λ e. n (had_snapshot-own d w name e))

  prune_each-Same :
      (dry : Bool) (ids : List ℕ) (ds : List TxnRow) (w : Generations) (out : GcReport) (id : ℕ)
      (name : Str)
      → id_in ids id ≡ true
      → ((d : TxnRow) → Memᴰ d ds → d.snapshot ≡ some name → id_in ids d.id ≡ true)
      → Same id name w (prune_each completes m dry ids ds w out).1
  unfolding prune_each
  prune_each-Same dry ids [] w out id name h own = (refl, refl, refl)
  prune_each-Same dry ids (d ∷ ds) w out id name h own =
      let later = λ (x : TxnRow) (k : Memᴰ x ds). own x (Memᴰ.tail k) in
      let rest = prune_each-Same dry ids ds w out id name h later in
      elim (Bool-cases (str_eq d.status (codes "pruned") || id_in ids d.id)) [
        | inl k ↦ rw k rest
        | inr k ↦
            let r = prune_generation completes m dry d w out in
            let free : id_in ids d.id ≡ false = ground arith in
            let one =
              prune_generation-Same dry d w out id name (other_id ids d.id id free h)
                (λ e. absurd (ground (arith, free, own d (Memᴰ.head refl) e))) in
            rw k (elim (Bool-cases (succeeded r.0)) [
              | inl y ↦ rw y (
                  Same-trans id name w r.1 (prune_each completes m dry ids ds r.1 r.2).1 one
                    (prune_each-Same dry ids ds r.1 r.2 id name h later))
              | inr n ↦ rw n one
            ])
      ]

-- A generation that is kept stays as it is, whatever the database and the file system do: its rows
-- and its state directory are the same, and a snapshot that no generation has which is not kept is
-- there just if it was.
pub gc_run-kept :
    (completes : Stmt → Db → Bool) (m : Machine) (booted : Option ℕ) (meta_pinned : ℕ → Option Bool)
    (before : ℕ → Option (List Str)) (opts : GcOpts) (w : Generations) (cache : List CacheDir)
    (out : GcReport) (id : ℕ) (name : Str)
    → id_in (kept booted meta_pinned opts w.db) id ≡ true
    → ((d : TxnRow)
        → Memᴰ d (deployments w.db)
        → d.snapshot ≡ some name
        → id_in (kept booted meta_pinned opts w.db) d.id ≡ true)
    → Same completes m id name w
        (gc_run completes m booted meta_pinned before opts w cache out).world
unfolding gc_run
gc_run-kept completes m booted meta_pinned before opts w cache out id name h own =
    let ids = kept booted meta_pinned opts w.db in
    let r = prune_each completes m opts.dry_run ids (deployments w.db) w out in
    let one = prune_each-Same completes m opts.dry_run ids (deployments w.db) w out id name h own in
    elim (Bool-cases (succeeded r.0)) [ inl y ↦ rw y one | inr n ↦ rw n one ]

-- The files of a directory that have a name.
abbrev pub files_named : Str → CacheDir → List CacheFile
files_named name d = filter (λ f. str_eq f.name name) d.files

sweep_dir-named :
    (names : List Str) (name : Str)
    → contains names name ≡ true
    → (dry : Bool) (fs : List CacheFile) (out : GcReport)
    → filter (λ f. str_eq f.name name) (sweep_cache_dir (some names) dry fs out).1
      ≡ filter (λ f. str_eq f.name name) fs
unfolding sweep_cache_dir
sweep_dir-named names name h dry [] out = refl
sweep_dir-named names name h dry (f ∷ fs) out = ground (
  arith,
  h,
  str_eq_iff f.name name,
  λ (e : f.name ≡ name). ap (contains names) e,
  sweep_dir-named names name h dry fs out,
  sweep_dir-named names name h dry fs (count_file dry f out),
)

sweep_cache-named :
    (names : List Str) (name : Str)
    → contains names name ≡ true
    → (dry : Bool) (ds : List CacheDir) (out : GcReport)
    → map (files_named name) (sweep_cache (some names) dry ds out).1 ≡ map (files_named name) ds
unfolding sweep_cache
sweep_cache-named names name h dry [] out = refl
sweep_cache-named names name h dry (d ∷ ds) out =
    let here = files_named name d in
    let r = sweep_cache_dir (some names) dry d.files out in
    let one = sweep_dir-named names name h dry d.files out in
    elim (Bool-cases (str_eq d.name (codes "strata"))) [
      | inl k ↦ rw k (ap (λ l. here ∷ l) (sweep_cache-named names name h dry ds out))
      | inr k ↦ elim (Bool-cases (succeeded r.0)) [
        | inl y ↦ rw (k, y, one) (ap (λ l. here ∷ l) (sweep_cache-named names name h dry ds r.2))
        | inr n ↦ rw (k, n, one) refl
      ]
    ]

-- No cached file is removed whose name an installed package has, or the snapshot of a generation
-- that is kept: in each directory the files of that name are the same.
pub gc_run-referenced :
    (completes : Stmt → Db → Bool) (m : Machine) (booted : Option ℕ) (meta_pinned : ℕ → Option Bool)
    (before : ℕ → Option (List Str)) (opts : GcOpts) (w : Generations) (cache : List CacheDir)
    (out : GcReport) (name : Str)
    → name ≢ []
    → IsNamed before (kept booted meta_pinned opts w.db) w.db name
    → map (files_named name) (gc_run completes m booted meta_pinned before opts w cache out).cache
      ≡ map (files_named name) cache
unfolding gc_run
gc_run-referenced completes m booted meta_pinned before opts w cache out name n named =
    let ids = kept booted meta_pinned opts w.db in
    let names = referenced before ids w.db in
    let r = prune_each completes m opts.dry_run ids (deployments w.db) w out in
    let there = IsNamed-referenced before ids w.db name n named in
    elim (Bool-cases (succeeded r.0)) [
      | inl y ↦ rw y (sweep_cache-named names name there opts.dry_run cache r.2)
      | inr k ↦ rw k refl
    ]

-- A dry run prunes nothing.
prune_each-dry :
    (completes : Stmt → Db → Bool) (m : Machine) (ids : List ℕ) (ds : List TxnRow) (w : Generations)
    (out : GcReport)
    → ((prune_each completes m true ids ds w out).0 ≡ ok)
      × ((prune_each completes m true ids ds w out).1 ≡ w)
unfolding prune_each prune_generation
prune_each-dry completes m ids [] w out = (refl, refl)
prune_each-dry completes m ids (d ∷ ds) w out =
    elim (Bool-cases (str_eq d.status (codes "pruned") || id_in ids d.id)) [
      | inl k ↦ rw k (prune_each-dry completes m ids ds w out)
      | inr k ↦
          rw k (prune_each-dry completes m ids ds w (prune_generation completes m true d w out).2)
    ]

sweep_dir-dry :
    (keep : Option (List Str)) (fs : List CacheFile) (out : GcReport)
    → ((sweep_cache_dir keep true fs out).0 ≡ ok) × ((sweep_cache_dir keep true fs out).1 ≡ fs)
unfolding sweep_cache_dir
sweep_dir-dry keep [] out = (refl, refl)
sweep_dir-dry keep (f ∷ fs) out =
    ground (arith, sweep_dir-dry keep fs out, sweep_dir-dry keep fs (count_file true f out))

sweep_cache-dry :
    (keep : Option (List Str)) (ds : List CacheDir) (out : GcReport)
    → ((sweep_cache keep true ds out).0 ≡ ok) × ((sweep_cache keep true ds out).1 ≡ ds)
unfolding sweep_cache
sweep_cache-dry keep [] out = (refl, refl)
sweep_cache-dry keep (d ∷ ds) out =
    let r = sweep_cache_dir keep true d.files out in
    let (done, same) = sweep_dir-dry keep d.files out in
    elim (Bool-cases (str_eq d.name (codes "strata"))) [
      | inl k ↦ rw k (let (a, b) = sweep_cache-dry keep ds out in (a, ap (λ l. d ∷ l) b))
      | inr k ↦
          rw (k, done, same) (let (a, b) = sweep_cache-dry keep ds r.2 in (a, ap (λ l. d ∷ l) b))
    ]

when_dry :
    (completes : Stmt → Db → Bool) (m : Machine) (dry : Bool)
    → dry ≡ true
    → (ids : List ℕ) (ds : List TxnRow) (names : Option (List Str)) (cache : List CacheDir)
      (w : Generations) (out : GcReport)
    → ((prune_each completes m dry ids ds w out).0 ≡ ok)
      × ((prune_each completes m dry ids ds w out).1 ≡ w)
      × ((sweep_cache names dry cache (prune_each completes m dry ids ds w out).2).0 ≡ ok)
      × ((sweep_cache names dry cache (prune_each completes m dry ids ds w out).2).1 ≡ cache)
when_dry completes m dry h ids ds names cache w out = rw h (
    let (done, same) = prune_each-dry completes m ids ds w out in
    let (a, b) = sweep_cache-dry names cache (prune_each completes m true ids ds w out).2 in
    (done, same, a, b))

-- A dry run succeeds and changes neither the database, nor the generations, nor the cache.
pub gc_run-dry :
    (completes : Stmt → Db → Bool) (m : Machine) (booted : Option ℕ) (meta_pinned : ℕ → Option Bool)
    (before : ℕ → Option (List Str)) (opts : GcOpts) (w : Generations) (cache : List CacheDir)
    (out : GcReport)
    → opts.dry_run ≡ true
    → ((gc_run completes m booted meta_pinned before opts w cache out).rc ≡ ok)
      × ((gc_run completes m booted meta_pinned before opts w cache out).world ≡ w)
      × ((gc_run completes m booted meta_pinned before opts w cache out).cache ≡ cache)
unfolding gc_run
gc_run-dry completes m booted meta_pinned before opts w cache out dry =
    let ids = kept booted meta_pinned opts w.db in
    let (done, same, a, b) =
      when_dry completes m opts.dry_run dry ids (deployments w.db)
        (some (referenced before ids w.db)) cache w out in
    rw done (a, same, b)
