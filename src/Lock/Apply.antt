-- ===== src/Lock/Apply.antt =====
-- The plan of `lock_apply` (src/salt/cmd_lock.cpp): what is installed and removed to meet a lock.
pub mod Pins
use salt_os.Prelude.{
  ℕ, zero, suc, ◌+◌, ◌-◌, ◌*◌, ◌/◌, ◌%◌, ◌≤◌, ◌<◌, compare, Ordering, max, ◌≡◌, refl, sym, ap, ◌∙◌,
  subst, ◌≢◌, ◌↔◌, ◌⊎◌, inl, inr, ⊎_elim, Bool, true, false, not, ◌&&◌, ◌||◌, Option, none, some,
  List, [], ◌∷◌, ◌++◌, map, arith, ltb, leb, ◌==◌, ==_iff, if◌then◌else◌, &&_eq_true, Bool-cases,
  Option-cases, eq_of_iff, length, filter, any, length-append, mem-cons, mem-append, mem-concat,
  concat-ne_nil, not-mem-nil, mem-filter, Str, codes, str_eq, str_eq_iff, str_eq_refl, contains,
  contains-cons, contains-append, set_insert, set_of, contains-set_insert, contains-set_of, Memᴰ,
}
use salt_os.Repo.{RepoEntry, RepoIndex, index_find_exact, entry_hash_ok}
use salt_os.Db.{Db}
use salt_os.Install.Visit.{Visiting}
use salt_os.Install.Checks.{NativePlan}
use salt_os.Install.Order.{order_by_deps}
use salt_os.Lock.{LockEntry}
use salt_os.Lock.Compare.{LockChange, other_version, other_sha256, LockCompare, compare_lock}

-- `ch.first`
abbrev pub changed_entry : LockChange → LockEntry
changed_entry (other_version le p) = le
changed_entry (other_sha256 le p) = le

-- `wanted`: what is missing, then what is changed.
unfoldable pub wanted : LockCompare → List LockEntry
wanted c = c.missing ++ map changed_entry c.changed

-- The entry of the index that an entry of the lock pins, digest included.
unfoldable pub pinned_entry : RepoIndex → LockEntry → Option RepoEntry
pinned_entry idx le = elim (index_find_exact idx le.name le.version le.release) [
  | none ↦ none
  | some e ↦ if not (entry_hash_ok e) || not (str_eq le.sha256 e.sha256) then none else some e
]

abbrev pub also : RepoEntry → Option (List RepoEntry) → Option (List RepoEntry)
also e none = none
also e (some es) = some (e ∷ es)

-- The loop over `wanted`; none is `ok == false` at its end.
unfoldable pub pinned_entries : RepoIndex → List LockEntry → Option (List RepoEntry)
pinned_entries idx [] = some []
pinned_entries idx (le ∷ ls) = elim (pinned_entry idx le) [
  | none ↦ none
  | some e ↦ also e (pinned_entries idx ls)
]

pub data PlanResult : Type 0 where
  refused out_of_fuel : PlanResult
  planned : NativePlan → PlanResult

abbrev pub plan_of : List Str → Option (Visiting RepoEntry) → PlanResult
plan_of extra none = out_of_fuel
plan_of extra (some st) = planned (record { remove = extra; install = st.out })

abbrev pub ordered_plan : List Str → Option (List RepoEntry) → PlanResult
ordered_plan extra none = refused
ordered_plan extra (some es) = plan_of extra (order_by_deps es)

abbrev pub plan_without_index : LockCompare → PlanResult
plan_without_index c = elim (wanted c) [
  | [] ↦ planned (record { remove = c.extra; install = [] })
  | le ∷ ls ↦ refused
]

-- The plan that `lock_apply` makes; without an index it is refused if anything is wanted.
unfoldable pub lock_plan : Option RepoIndex → Db → List LockEntry → PlanResult
lock_plan none db lock = plan_without_index (compare_lock db lock)
lock_plan (some idx) db lock =
    ordered_plan (compare_lock db lock).extra (pinned_entries idx (wanted (compare_lock db lock)))
