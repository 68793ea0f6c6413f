-- ===== src/Install/Checks/Rows.antt =====
-- The queries of the checks, as tests of the rows.
use salt_os.Prelude.{
  ◌≡◌, ◌↔◌, Bool, true, ◌&&◌, List, [], ◌∷◌, arith, any, Str, str_eq, str_eq_iff, contains,
  contains-set_insert,
}
use salt_os.Db.Ops.{revdeps_in, conflicts_in}
use salt_os.Db.Rows.{DepRow, ConflictRow}

-- A row says that `who` conflicts with `x`.
unfoldable pub has_conflict : List ConflictRow → Str → Str → Bool
has_conflict rows who x = any (λ r. str_eq r.name who && str_eq r.conflict x) rows

-- A row says that `who` depends on `x`.
unfoldable pub has_dep : List DepRow → Str → Str → Bool
has_dep rows who x = any (λ r. str_eq r.name who && str_eq r.dep x) rows

pub contains-conflicts_in :
    (rows : List ConflictRow) (x who : Str)
    → (contains (conflicts_in x rows) who ≡ true) ↔ (has_conflict rows who x ≡ true)
unfolding has_conflict contains
contains-conflicts_in [] x who = ground arith
contains-conflicts_in (r ∷ rs) x who = ground (
  arith,
  contains-conflicts_in rs x who,
  contains-set_insert r.name who (conflicts_in x rs),
  str_eq_iff r.name who,
)

pub contains-revdeps_in :
    (rows : List DepRow) (x who : Str)
    → (contains (revdeps_in x rows) who ≡ true) ↔ (has_dep rows who x ≡ true)
unfolding has_dep contains
contains-revdeps_in [] x who = ground arith
contains-revdeps_in (r ∷ rs) x who = ground (
  arith,
  contains-revdeps_in rs x who,
  contains-set_insert r.name who (revdeps_in x rs),
  str_eq_iff r.name who,
)
