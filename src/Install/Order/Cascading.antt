-- ===== src/Install/Order/Cascading.antt =====
-- The cascade of `native_remove` ends with all that depends on the arguments.
use salt_os.Prelude.{
  ℕ, zero, suc, ◌+◌, ◌≤◌, ◌<◌, ◌≡◌, refl, sym, ap, ◌∙◌, subst, ◌↔◌, ◌⊎◌, inr, ⊎_elim, true, some,
  List, [], ◌∷◌, map, arith, length, Str, str_eq_iff, str_eq_refl, contains, set_of,
  contains-set_of,
}
use salt_os.Db.{Db, is_installed}
use salt_os.Db.Rows.{PkgRow}
use salt_os.Db.Ops.{revdeps}
use salt_os.Install.Visit.Undone.{undone, undone-le, undone-nil}
use salt_os.Install.Order.{Cascade, cascade_scan, cascade_loop, cascade, rev_onto}
use salt_os.Install.Order.Scanned.{pkg_names, cost, Scanned, cascade_scan_lem}

-- The set is closed under installed dependents.
unfoldable pub ClosedUnder : Db → List Str → Type 0
ClosedUnder db set =
    (x who : Str)
    → contains set x ≡ true
    → contains (revdeps db x) who ≡ true
    → is_installed db who ≡ true
    → contains set who ≡ true

-- It is closed but for the names that are still on the stack.
Pending : Db → Cascade → Type 0
Pending db st =
    (x who : Str)
    → contains st.set x ≡ true
    → contains (revdeps db x) who ≡ true
    → is_installed db who ≡ true
    → (contains st.set who ≡ true) ⊎ (contains st.work x ≡ true)

record Ended (db : Db) (Q : Str → Type 0) (before set : List Str) : Type 0 where
  closed : ClosedUnder db set
  grows : (x : Str) → contains before x ≡ true → contains set x ≡ true
  only : ((x : Str) → contains before x ≡ true → Q x) → (x : Str) → contains set x ≡ true → Q x

cascade_loop_returns :
    (db : Db) (Q : Str → Type 0)
    → ((x w : Str) → Q x → contains (revdeps db x) w ≡ true → is_installed db w ≡ true → Q w)
    → (f : ℕ) (s ws : List Str) → cost db (record { set = s; work = ws }) < f
    → ((x : Str) → contains s x ≡ true → Q x)
    → ((x : Str) → contains ws x ≡ true → contains s x ≡ true)
    → Pending db (record { set = s; work = ws })
    → (set : List Str) × (cascade_loop db f (record { set = s; work = ws }) ≡ some set)
      × Ended db Q s set
unfolding cascade_loop contains Pending ClosedUnder cost
cascade_loop_returns db Q q zero s ws h good listed p = absurd (omega arith)
cascade_loop_returns db Q q (suc f) s [] h good listed p = (
  s,
  refl,
  record { closed = λ x who c r i. ground (arith, p x who c r i); grows = λ x k. k; only = λ o. o },
)
cascade_loop_returns db Q q (suc f) s (n ∷ ws) h good listed p =
    let popped : Cascade = record { set = s; work = ws } in
    let next = cascade_scan db (revdeps db n) popped in
    let old : contains s n ≡ true = listed n (ground (arith, str_eq_refl n)) in
    let sc : Scanned db Q (revdeps db n) popped next =
      cascade_scan_lem db Q (revdeps db n) popped (λ w c i. q n w (good n old) c i) in
    let (set, e, r) =
      cascade_loop_returns db Q q f next.set next.work (omega (arith, sc.cheaper)) (sc.only good)
        (λ x k. ground (arith, sc.stacked x k, listed x, sc.grows x))
        (λ x who c k i.
          ⊎_elim
            (λ here. ground (
              arith,
              p x who here k i,
              str_eq_iff n x,
              sc.grows who,
              sc.waits x,
              λ (m : n ≡ x). sc.taken who (rw m k) i,
            ))
            (λ later. inr later) (sc.pending x c)) in
    (
      set,
      e,
      record {
        closed = r.closed;
        grows = λ x k. r.grows x (sc.grows x k);
        only = λ o. r.only (sc.only o);
      },
    )

length-rev_onto : (xs ys : List Str) → length (rev_onto xs ys) ≡ length xs + length ys
length-rev_onto [] ys = omega arith
length-rev_onto (x ∷ xs) ys = ground (arith, length-rev_onto xs (x ∷ ys))

contains-rev_onto :
    (xs ys : List Str) (s : Str)
    → (contains (rev_onto xs ys) s ≡ true) ↔ ((contains xs s ≡ true) ⊎ (contains ys s ≡ true))
unfolding contains
contains-rev_onto [] ys s = ground arith
contains-rev_onto (x ∷ xs) ys s = ground (arith, contains-rev_onto xs (x ∷ ys) s)

nil_has : (x : Str) → contains [] x ≡ true → ⊥
unfolding contains
nil_has x h = ground arith

length-pkg_names : (rows : List PkgRow) → length (map (λ r. r.name) rows) ≡ length rows
length-pkg_names [] = refl
length-pkg_names (r ∷ rs) = ap suc (length-pkg_names rs)

some_same {ℓ} : {A : Type ℓ} {x y : A} → some x ≡ some y → x ≡ y
some_same h = cc

undone-names : (db : Db) (s : List Str) → undone (pkg_names db) s ≤ length db.packages
undone-names db s = omega (
  arith,
  undone-le (pkg_names db) [] s (λ x h. absurd (nil_has x h)),
  undone-nil (pkg_names db),
  length-pkg_names db.packages,
)

-- The packages that a removal with `--cascade` takes.
pub record IsCascade (db : Db) (args set : List Str) : Type 1 where
  pub closed : ClosedUnder db set
  pub asked : (x : Str) → contains args x ≡ true → contains set x ≡ true
  pub least :
      (Q : Str → Type 0)
      → ((x : Str) → contains args x ≡ true → Q x)
      → ((x w : Str) → Q x → contains (revdeps db x) w ≡ true → is_installed db w ≡ true → Q w)
      → (x : Str) → contains set x ≡ true
      → Q x

cascade_returns :
    (db : Db) (args : List Str) (Q : Str → Type 0)
    → ((x w : Str) → Q x → contains (revdeps db x) w ≡ true → is_installed db w ≡ true → Q w)
    → ((x : Str) → contains args x ≡ true → Q x)
    → (set : List Str) × (cascade db args ≡ some set) × Ended db Q (set_of args) set
unfolding cascade cost Pending contains
cascade_returns db args Q q asked =
    cascade_loop_returns db Q q (suc (length args + length db.packages)) (set_of args)
      (rev_onto args []) (omega (arith, length-rev_onto args [], undone-names db (set_of args)))
      (λ x h. asked x ((contains-set_of args x).0 h))
      (λ x h. ground (arith, contains-set_of args x, contains-rev_onto args [] x))
      (λ x who h r i. ground (arith, contains-set_of args x, contains-rev_onto args [] x))

-- The cascade ends. Its set has the arguments and with each package its installed dependents, and
-- it is the least such set.
pub cascade-IsCascade :
    (db : Db) (args : List Str)
    → (set : List Str) × (cascade db args ≡ some set) × IsCascade db args set
cascade-IsCascade db args =
    let (set, e, r) = cascade_returns db args (λ x. Unit) (λ x w k c i. tt) (λ x c. tt) in
    (
      set,
      e,
      record {
        closed = r.closed;
        asked = λ x h. r.grows x ((contains-set_of args x).1 h);
        least = λ Q asked q x h.
            let (set2, e2, r2) = cascade_returns db args Q q asked in
            r2.only (λ y k. asked y ((contains-set_of args y).0 k)) x
              (subst (λ l. contains l x ≡ true) (some_same (sym e ∙ e2)) h);
      },
    )
