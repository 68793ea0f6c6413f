-- ===== src/Gc.antt =====
-- The garbage collector: src/halite/src/gc.c. Old generations are pruned, then the cached packages
-- that nothing refers to are removed.
pub mod Named
pub mod Safe
pub mod Done
use salt_os.Prelude.{
  ℕ, zero, suc, ◌+◌, ◌-◌, ◌*◌, ◌/◌, ◌%◌, ◌≤◌, ◌<◌, compare, Ordering, max, ◌≡◌, refl, sym, ap, ◌∙◌,
  subst, ◌≢◌, ◌↔◌, ◌⊎◌, inl, inr, ⊎_elim, Bool, true, false, not, ◌&&◌, ◌||◌, Option, none, some,
  List, [], ◌∷◌, ◌++◌, map, arith, ltb, leb, ◌==◌, ==_iff, if◌then◌else◌, &&_eq_true, Bool-cases,
  Option-cases, eq_of_iff, length, filter, any, length-append, mem-cons, mem-append, mem-concat,
  concat-ne_nil, not-mem-nil, mem-filter, Str, codes, str_eq, str_eq_iff, str_eq_refl, contains,
  contains-cons, contains-append, set_insert, set_of, contains-set_insert, contains-set_of, Memᴰ,
}
use salt_os.Util.Rc.{Rc, ok, err_io, succeeded}
use salt_os.Db.{Db, Stmt}
use salt_os.Db.Rows.{PkgRow, TxnRow}
use salt_os.Db.Ops.{txn_finish, txn_set_snapshot, deployments}

-- `salt_gc_opts`; `keep` below 1 is 1 as well as 0 is, so negative values are left out.
pub record GcOpts : Type 0 where
  pub keep : ℕ
  pub pinned : List ℕ
  pub dry_run : Bool

pub data GcNote : Type 0 where
  note_generation : Bool → ℕ → GcNote
  note_file : Bool → Str → GcNote

-- `salt_gc_report`, with the wrap-around of its `size_t` and `uint64_t`.
pub record GcReport : Type 0 where
  pub generations_removed : ℕ
  pub cache_files_removed : ℕ
  pub bytes_freed : ℕ
  pub actions : List GcNote

abbrev wrap : ℕ → ℕ
wrap n = n % 18446744073709551616

-- A file of a cache directory; `unlinks` says whether it can be removed.
pub record CacheFile : Type 0 where
  pub name : Str
  pub regular : Bool
  pub size : ℕ
  pub unlinks : Bool

-- A directory of the cache; one that cannot be opened has no files here.
pub record CacheDir : Type 0 where
  pub name : Str
  pub files : List CacheFile

-- The generations: the database, the files of each state directory, none for one that is missing,
-- and the names of the btrfs snapshots.
pub record Generations : Type 0 where
  pub db : Db
  pub dirs : ℕ → Option (List Str)
  pub snapshots : List Str

-- The parameters of the context, which deletions succeed, what a removal that fails leaves of a
-- state directory, and the sizes of these.
pub record Machine : Type 0 where
  pub use_btrfs : Bool
  pub deletes_snapshot : Str → Bool
  pub removes_dir : ℕ → Bool
  pub leaves : ℕ → Option (List Str)
  pub tree_bytes : ℕ → ℕ

-- `d->snapshot && d->snapshot[0] && strchr(d->snapshot, '/') == NULL`
unfoldable pub snapshot_name : Option Str → Option Str
snapshot_name none = none
snapshot_name (some []) = none
snapshot_name (some (c ∷ s)) = if any (λ b. b == b'/') (c ∷ s) then none else some (c ∷ s)

abbrev pub delete_snapshot : Str → Generations → Generations
delete_snapshot name w = record w { snapshots = filter (λ s. not (str_eq s name)) w.snapshots }

abbrev pub set_dir : ℕ → Option (List Str) → Generations → Generations
set_dir id files w = record w { dirs = λ i. if i == id then files else w.dirs i }

-- `id_in`
unfoldable pub id_in : List ℕ → ℕ → Bool
id_in [] id = false
id_in (x ∷ xs) id = let rest = id_in xs id in if x == id then true else rest

abbrev pub or_one : ℕ → ℕ
or_one n = if ltb n 1 then 1 else n

abbrev pub is_ok : TxnRow → Bool
is_ok d = str_eq d.status (codes "ok")

-- `booted` is none for -1; `meta_pinned` is what `salt_deploy_meta` reads, none if it fails.
module _ (booted : Option ℕ) (meta_pinned : ℕ → Option Bool) where
  abbrev pub is_booted : Option ℕ → ℕ → Bool
  is_booted none id = false
  is_booted (some b) id = id == b

  abbrev pub is_pinned : Option Bool → Bool
  is_pinned none = false
  is_pinned (some b) = b

  -- `keep_it`, for a deployment after `ok_seen` ones that are kept as "ok".
  abbrev pub keep_it : GcOpts → ℕ → ℕ → TxnRow → Bool
  keep_it opts newest ok_seen d =
      is_ok d && ltb ok_seen (or_one opts.keep)
      || (is_booted booted d.id || id_in opts.pinned d.id)
      || is_pinned (meta_pinned d.id)
      || str_eq d.status (codes "started") && d.id == newest

  -- The loop that fills `kept`.
  unfoldable pub kept_from : GcOpts → ℕ → ℕ → List TxnRow → List ℕ
  kept_from opts newest ok_seen [] = []
  kept_from opts newest ok_seen (d ∷ ds) =
      let rest =
        kept_from opts newest
          (if is_ok d && ltb ok_seen (or_one opts.keep) then suc ok_seen else ok_seen) ds in
      if keep_it opts newest ok_seen d then d.id ∷ rest else rest

  abbrev pub first_id : List TxnRow → ℕ
  first_id [] = 0
  first_id (d ∷ ds) = d.id

  unfoldable pub kept : GcOpts → Db → List ℕ
  kept opts db = kept_from opts (first_id (deployments db)) 0 (deployments db)

-- `if (f && f[0] && !contains) push`
unfoldable pub add_name : Str → List Str → List Str
add_name [] names = names
add_name (c ∷ s) names = if contains names (c ∷ s) then names else names ++ (c ∷ s) ∷ []

unfoldable pub add_names : List Str → List Str → List Str
add_names [] names = names
add_names (f ∷ fs) names = add_names fs (add_name f names)

-- The names that the snapshots of the kept generations add; `before` is what
-- `salt_db_snapshot_filenames` reads from the `db.before` of a generation, none if there is none.
unfoldable pub add_snapshots : (ℕ → Option (List Str)) → List ℕ → List Str → List Str
add_snapshots before [] names = names
add_snapshots before (id ∷ ids) names =
    add_snapshots before ids (elim (before id) [ none ↦ names | some fs ↦ add_names fs names ])

-- The names that are referenced; only which they are matters, not their order.
unfoldable pub referenced : (ℕ → Option (List Str)) → List ℕ → Db → List Str
referenced before ids db =
    add_snapshots before ids (add_names (map (λ r. r.filename) db.packages) [])

module _ (completes : Stmt → Db → Bool) (m : Machine) where
  abbrev count_generation : Bool → TxnRow → GcReport → GcReport
  count_generation dry d out = record out {
    generations_removed = wrap (suc out.generations_removed);
    bytes_freed = wrap (out.bytes_freed + m.tree_bytes d.id);
    actions = out.actions ++ note_generation dry d.id ∷ [];
  }

  -- `salt_remove_recursive` of the state directory, and the row.
  unfoldable pub remove_generation : TxnRow → Generations → GcReport → Rc × Generations × GcReport
  remove_generation d w out =
      if not (m.removes_dir d.id) then (err_io, set_dir d.id (m.leaves d.id) w, out) else (
        ok,
        record (set_dir d.id none w) {
          db =
              (txn_set_snapshot completes d.id []
                (txn_finish completes d.id (codes "pruned") w.db).1).1;
        },
        count_generation false d out,
      )

  -- The snapshot that is to be deleted: `had_snapshot`.
  unfoldable pub had_snapshot : TxnRow → Generations → Option Str
  had_snapshot d w = elim (snapshot_name d.snapshot) [
    | none ↦ none
    | some name ↦ if m.use_btrfs && contains w.snapshots name then some name else none
  ]

  unfoldable pub remove_snapshot :
      Option Str → TxnRow → Generations → GcReport → Rc × Generations × GcReport
  remove_snapshot none d w out = remove_generation d w out
  remove_snapshot (some name) d w out =
      if m.deletes_snapshot name
      then remove_generation d (delete_snapshot name w) out
      else (err_io, w, out)

  -- `prune_generation`
  unfoldable pub prune_generation :
      Bool → TxnRow → Generations → GcReport → Rc × Generations × GcReport
  prune_generation dry d w out =
      if dry
      then (ok, w, count_generation dry d out)
      else remove_snapshot (had_snapshot d w) d w out

  abbrev pub after_prune :
      Rc × Generations × GcReport
      → (Generations → GcReport → Rc × Generations × GcReport)
      → Rc × Generations × GcReport
  after_prune (rc, w, out) f = let rest = f w out in if succeeded rc then rest else (rc, w, out)

  -- The loop over the deployments.
  unfoldable pub prune_each :
      Bool → List ℕ → List TxnRow → Generations → GcReport → Rc × Generations × GcReport
  prune_each dry ids [] w out = (ok, w, out)
  prune_each dry ids (d ∷ ds) w out =
      let rest = prune_each dry ids ds w out in
      if str_eq d.status (codes "pruned") || id_in ids d.id
      then rest
      else after_prune (prune_generation dry d w out) (prune_each dry ids ds)

-- `keep && salt_strlist_contains(keep, name)`
abbrev pub is_kept_file : Option (List Str) → Str → Bool
is_kept_file none name = false
is_kept_file (some names) name = contains names name

abbrev pub count_file : Bool → CacheFile → GcReport → GcReport
count_file dry f out = record out {
  cache_files_removed = wrap (suc out.cache_files_removed);
  bytes_freed = wrap (out.bytes_freed + f.size);
  actions = out.actions ++ note_file dry f.name ∷ [];
}

abbrev pub with_file : CacheFile → Rc × List CacheFile × GcReport → Rc × List CacheFile × GcReport
with_file f r = (r.0, f ∷ r.1, r.2)

-- `sweep_cache_dir`: the files that stay.
unfoldable pub sweep_cache_dir :
    Option (List Str) → Bool → List CacheFile → GcReport → Rc × List CacheFile × GcReport
sweep_cache_dir keep dry [] out = (ok, [], out)
sweep_cache_dir keep dry (f ∷ fs) out =
    let skipped = with_file f (sweep_cache_dir keep dry fs out) in
    let counted = sweep_cache_dir keep dry fs (count_file dry f out) in
    if is_kept_file keep f.name || not f.regular
    then skipped
    else if not dry && not f.unlinks
    then (err_io, f ∷ fs, out)
    else if dry
    then with_file f counted
    else counted

abbrev pub with_dir :
    CacheDir
    → Rc × List CacheFile × GcReport
    → (GcReport → Rc × List CacheDir × GcReport)
    → List CacheDir
    → Rc × List CacheDir × GcReport
with_dir d (rc, fs, out) f ds =
    let r = f out in
    if succeeded rc
    then (r.0, record d { files = fs } ∷ r.1, r.2)
    else (rc, record d { files = fs } ∷ ds, out)

-- `sweep_cache`: the directories with the files that stay.
unfoldable pub sweep_cache :
    Option (List Str) → Bool → List CacheDir → GcReport → Rc × List CacheDir × GcReport
sweep_cache keep dry [] out = (ok, [], out)
sweep_cache keep dry (d ∷ ds) out =
    let rest = sweep_cache keep dry ds out in
    if str_eq d.name (codes "strata")
    then (rest.0, d ∷ rest.1, rest.2)
    else with_dir d (sweep_cache_dir keep dry d.files out) (sweep_cache keep dry ds) ds

pub record GcResult : Type 0 where
  pub rc : Rc
  pub world : Generations
  pub cache : List CacheDir
  pub report : GcReport

abbrev pub swept : Option (List Str) → Bool → List CacheDir → Rc × Generations × GcReport → GcResult
swept keep dry cache (rc, w, out) =
    let r = sweep_cache keep dry cache out in
    if succeeded rc
    then record { rc = r.0; world = w; cache = r.1; report = r.2 }
    else record { rc = rc; world = w; cache = cache; report = out }

-- `salt_gc_run`
unfoldable pub gc_run :
    (Stmt → Db → Bool)
    → Machine
    → Option ℕ
    → (ℕ → Option Bool)
    → (ℕ → Option (List Str))
    → GcOpts
    → Generations
    → List CacheDir
    → GcReport
    → GcResult
gc_run completes m booted meta_pinned before opts w cache out =
    let ids = kept booted meta_pinned opts w.db in
    swept (some (referenced before ids w.db)) opts.dry_run cache
      (prune_each completes m opts.dry_run ids (deployments w.db) w out)
