-- ===== src/Install/Order.antt =====
-- The orders of src/salt/cmd_install.cpp: `order_by_deps`, and the order and the cascade of
-- `native_remove`.
pub mod Deps
pub mod Scanned
pub mod Cascading
pub mod Remove
use salt_os.Prelude.{
  ℕ, zero, suc, ◌+◌, ◌-◌, ◌*◌, ◌/◌, ◌%◌, ◌≤◌, ◌<◌, compare, Ordering, max, ◌≡◌, refl, sym, ap, ◌∙◌,
  subst, ◌≢◌, ◌↔◌, ◌⊎◌, inl, inr, ⊎_elim, Bool, true, false, not, ◌&&◌, ◌||◌, Option, none, some,
  List, [], ◌∷◌, ◌++◌, map, arith, ltb, leb, ◌==◌, ==_iff, if◌then◌else◌, &&_eq_true, Bool-cases,
  Option-cases, eq_of_iff, length, filter, any, length-append, mem-cons, mem-append, mem-concat,
  concat-ne_nil, not-mem-nil, mem-filter, Str, codes, str_eq, str_eq_iff, str_eq_refl, contains,
  contains-cons, contains-append, set_insert, set_of, contains-set_insert, contains-set_of, Memᴰ,
}
use salt_os.Repo.{RepoEntry}
use salt_os.Db.{Db, is_installed}
use salt_os.Db.Ops.{revdeps}
use salt_os.Install.Visit.{Visiting, visit_first, visit_each, visit}

-- `byname[e->name] = e` for each item: the last one of a name stays.
unfoldable pub find_last : List RepoEntry → Str → Option RepoEntry
find_last [] x = none
find_last (e ∷ es) x = elim (find_last es x) [
  | none ↦ if str_eq e.name x then some e else none
  | some r ↦ some r
]

-- The dependencies of an item that are items.
unfoldable pub found_in : List RepoEntry → List Str → List RepoEntry
found_in items [] = []
found_in items (d ∷ ds) = elim (find_last items d) [
  | none ↦ found_in items ds
  | some e ↦ e ∷ found_in items ds
]

abbrev pub entry_name : RepoEntry → Str
entry_name e = e.name

abbrev pub deps_among : List RepoEntry → RepoEntry → List RepoEntry
deps_among items e = found_in items e.deps

-- `order_by_deps`; the fuel is one call more than there are items.
unfoldable pub order_by_deps : List RepoEntry → Option (Visiting RepoEntry)
order_by_deps items =
    visit_each entry_name (deps_among items)
      (visit entry_name (deps_among items) (suc (length (map entry_name items)))) items visit_first

abbrev pub same_name : Str → Str
same_name x = x

-- The dependents that are removed too.
abbrev pub revdeps_among : Db → List Str → Str → List Str
revdeps_among db set n = filter (contains set) (revdeps db n)

-- `for (auto &n : set) visit(n);` of `native_remove`, `set` being listed in its order.
unfoldable pub remove_order : Db → List Str → Option (Visiting Str)
remove_order db set =
    visit_each same_name (revdeps_among db set)
      (visit same_name (revdeps_among db set) (suc (length set))) set visit_first

-- The set and the stack of the cascade; the head of `work` is its back.
pub record Cascade : Type 0 where
  pub set : List Str
  pub work : List Str

-- The loop over the dependents of a name.
unfoldable pub cascade_scan : Db → List Str → Cascade → Cascade
cascade_scan db [] st = st
cascade_scan db (who ∷ ws) st = cascade_scan db ws (
    if not (contains st.set who) && is_installed db who
    then record { set = set_insert who st.set; work = who ∷ st.work }
    else st)

-- `while (!work.empty())`, on fuel; `none` means that the fuel ran out.
unfoldable pub cascade_loop : Db → ℕ → Cascade → Option (List Str)
cascade_loop db zero st = none
cascade_loop db (suc f) st = elim st.work [
  | [] ↦ some st.set
  | n ∷ ws ↦ cascade_loop db f (cascade_scan db (revdeps db n) (record st { work = ws }))
]

abbrev rev_onto : List Str → List Str → List Str
rev_onto [] ys = ys
rev_onto (x ∷ xs) ys = rev_onto xs (x ∷ ys)

-- The packages that `salt remove --cascade` removes; the fuel counts the arguments and the packages.
unfoldable pub cascade : Db → List Str → Option (List Str)
cascade db args =
    cascade_loop db (suc (length args + length db.packages))
      (record { set = set_of args; work = rev_onto args [] })
