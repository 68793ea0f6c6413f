-- ===== src/Examples/Gc.antt =====
-- Runs of the garbage collector over four generations and a cache with two packages.
use salt_os.Prelude.{
  ℕ, max, ◌≡◌, refl, sym, subst, inl, inr, true, false, Option, none, some, List, [], ◌∷◌, map,
  ◌==◌, if◌then◌else◌, Str, codes, str_eq, contains, Memᴰ,
}
use mathlib.Core.List.Memᴰ
use salt_os.Util.Rc.{ok}
use salt_os.Db.{step, allowed, apply}
use salt_os.Db.Ops.{deployments, txn_set_snapshot, txn_finish}
use salt_os.Gc.Named.{IsNamed}
use salt_os.Gc.{
  Generations, remove_generation, remove_snapshot, had_snapshot, snapshot_name, GcOpts, GcReport,
  CacheDir, CacheFile, Machine, id_in, kept, kept_from, referenced, gc_run, prune_each,
  prune_generation, sweep_cache, sweep_cache_dir, add_snapshots, add_names, add_name,
}
use salt_os.Gc.Safe.{Same, files_named, gc_run-kept, gc_run-referenced, gc_run-dry}
use salt_os.Gc.Done.{first_oks, kept-first_oks, gc_run-pruned}
use salt_os.Examples.{completing, two_packages, generation}
use salt_os.Db.Rows.{TxnRow}

abbrev file : Str → CacheFile
file name = record { name = name; regular = true; size = 10; unlinks = true }

abbrev cached : List CacheDir
cached =
    record {
      name = codes "native";
      files = file (codes "ed.grain") ∷ file (codes "old.grain") ∷ [];
    }
    ∷ []

-- The removal of each state directory succeeds.
abbrev machine : Machine
machine = record {
  use_btrfs = true;
  deletes_snapshot = λ name. true;
  removes_dir = λ id. true;
  leaves = λ id. none;
  tree_bytes = λ id. 7;
}

abbrev world : Generations
world = record {
  db = two_packages;
  dirs = λ id. some (codes "db.before" ∷ []);
  snapshots = codes "txn-3" ∷ [];
}

abbrev keep_two : GcOpts
keep_two = record { keep = 2; pinned = []; dry_run = false }

abbrev keep_dry : GcOpts
keep_dry = record { keep = 1; pinned = 1 ∷ []; dry_run = true }

abbrev empty_report : GcReport
empty_report = record {
  generations_removed = 0;
  cache_files_removed = 0;
  bytes_freed = 0;
  actions = [];
}

third-kept : id_in (kept none (λ id. none) keep_two two_packages) 3 ≡ true
unfolding kept kept_from id_in deployments str_eq
third-kept = refl

-- Only the third generation has that snapshot.
abbrev third : TxnRow
third = record (generation 3 (codes "ok")) { snapshot = some (codes "txn-3") }

abbrev snapped : Generations
snapped = record world {
  db = record two_packages {
    transactions = generation 1 (codes "ok") ∷ third ∷ generation 4 (codes "ok") ∷ [];
  };
}

snapped-kept : id_in (kept none (λ id. none) keep_two snapped.db) 3 ≡ true
unfolding kept kept_from id_in deployments str_eq
snapped-kept = refl

bare : (d t : TxnRow) → d ≡ t → t.snapshot ≡ none → d.snapshot ≡ some (codes "txn-3") → ⊥
bare d t e n h = cc

only_third :
    (d : TxnRow)
    → Memᴰ d (deployments snapped.db)
    → d.snapshot ≡ some (codes "txn-3")
    → id_in (kept none (λ id. none) keep_two snapped.db) d.id ≡ true
unfolding deployments
only_third d m h = elim (Memᴰ.cases_cons m) [
  | inl e ↦ absurd (bare d (generation 4 (codes "ok")) e refl h)
  | inr k ↦ elim (Memᴰ.cases_cons k) [
    | inl e ↦
        subst (λ (t : TxnRow). id_in (kept none (λ id. none) keep_two snapped.db) t.id ≡ true)
          (sym e) snapped-kept
    | inr l ↦ absurd (bare d (generation 1 (codes "ok")) (Memᴰ.eq_of_singleton l) refl h)
  ]
]

gc_run-kept_example :
    Same completing machine 3
      (codes "txn-3")
      snapped
      (gc_run completing machine none
        (λ id. none)
        (λ id. none)
        keep_two
        snapped
        cached
        empty_report).world
gc_run-kept_example =
    gc_run-kept completing machine none (λ id. none) (λ id. none) keep_two snapped cached
      empty_report 3 (codes "txn-3") snapped-kept only_third

-- The snapshot of the third generation names a package that is not installed any more.
abbrev before : ℕ → Option (List Str)
before id = if id == 3 then some (codes "old.grain" ∷ []) else none

old-IsNamed :
    IsNamed before (kept none (λ id. none) keep_two two_packages) two_packages (codes "old.grain")
old-IsNamed = inr (3, codes "old.grain" ∷ [], third-kept, refl, Memᴰ.head refl)

gc_run-referenced_example :
    map
      (files_named (codes "old.grain"))
      (gc_run completing machine none (λ id. none) before keep_two world cached empty_report).cache
    ≡ map (files_named (codes "old.grain")) cached
gc_run-referenced_example =
    gc_run-referenced completing machine none (λ id. none) before keep_two world cached empty_report
      (codes "old.grain") (λ e. cc e) old-IsNamed

gc_run-dry_example :
    ((gc_run completing machine none
        (λ id. none)
        (λ id. none)
        keep_dry
        world
        cached
        empty_report).rc
      ≡ ok)
    × ((gc_run completing machine none
          (λ id. none)
          (λ id. none)
          keep_dry
          world
          cached
          empty_report).world
        ≡ world)
    × ((gc_run completing machine none
          (λ id. none)
          (λ id. none)
          keep_dry
          world
          cached
          empty_report).cache
        ≡ cached)
gc_run-dry_example =
    gc_run-dry completing machine none (λ id. none) (λ id. none) keep_dry world cached empty_report
      refl

newest_two : id_in (first_oks (max 1 2) (deployments two_packages)) 3 ≡ true
unfolding id_in deployments str_eq
newest_two = refl

kept-first_oks_example : id_in (kept none (λ id. none) keep_two two_packages) 3 ≡ true
kept-first_oks_example = kept-first_oks none (λ id. none) keep_two two_packages 3 newest_two

-- The first generation as the run leaves it.
abbrev pruned_first : TxnRow
pruned_first = record (generation 1 (codes "pruned")) { snapshot = some [] }

run_ok :
    (gc_run completing machine none (λ id. none) (λ id. none) keep_two world cached empty_report).rc
    ≡ ok
unfolding gc_run prune_each deployments str_eq id_in kept kept_from prune_generation
    remove_generation remove_snapshot had_snapshot snapshot_name sweep_cache sweep_cache_dir
    contains referenced add_snapshots add_names add_name
run_ok = refl

first_there :
    Memᴰ pruned_first
      (gc_run completing machine none
        (λ id. none)
        (λ id. none)
        keep_two
        world
        cached
        empty_report).world.db.transactions
unfolding gc_run prune_each deployments str_eq id_in kept kept_from prune_generation
    remove_generation remove_snapshot had_snapshot snapshot_name txn_set_snapshot step txn_finish
    sweep_cache sweep_cache_dir contains referenced add_snapshots add_names add_name allowed apply
first_there = Memᴰ.head refl

first_dropped : id_in (kept none (λ id. none) keep_two two_packages) 1 ≡ false
unfolding kept kept_from id_in deployments str_eq
first_dropped = refl

gc_run-pruned_example : pruned_first.status ≡ codes "pruned"
gc_run-pruned_example =
    gc_run-pruned completing (λ s db. refl) machine none (λ id. none) (λ id. none) keep_two world
      cached empty_report pruned_first refl run_ok first_there first_dropped
