-- ===== src/Install/Order/Scanned.antt =====
-- What the scan of the dependents of one name does to the cascade of `native_remove`.
use salt_os.Prelude.{
  ℕ, ◌+◌, ◌≤◌, ◌<◌, ◌≡◌, refl, ◌∙◌, subst, ◌⊎◌, inl, inr, ⊎_elim, true, false, not, ◌&&◌, List, [],
  ◌∷◌, map, arith, Bool-cases, length, any, Str, str_eq, str_eq_iff, str_eq_refl, contains,
  contains-cons, set_insert, contains-set_insert,
}
use salt_os.Db.{Db, is_installed}
use salt_os.Db.Rows.{PkgRow}
use salt_os.Install.Visit.Undone.{undone, undone-le, undone-lt}
use salt_os.Install.Order.{Cascade, cascade_scan}

abbrev pub pkg_names : Db → List Str
pkg_names db = map (λ r. r.name) db.packages

pub contains-pkg_names :
    (rows : List PkgRow) (x : Str)
    → contains (map (λ r. r.name) rows) x ≡ any (λ r. str_eq r.name x) rows
unfolding contains
contains-pkg_names [] x = refl
contains-pkg_names (r ∷ rs) x = ground (arith, contains-pkg_names rs x)

pub undone-set_insert :
    (names s : List Str) (x : Str)
    → contains names x ≡ true
    → contains s x ≡ false
    → undone names (set_insert x s) < undone names s
undone-set_insert names s x m h = omega (
  arith,
  undone-lt names s x m h,
  undone-le names (x ∷ s) (set_insert x s)
      (λ y k. (contains-set_insert x y s).1 ((contains-cons x y s).0 k)),
)

-- The work that is left, and that may come.
unfoldable pub cost : Db → Cascade → ℕ
cost db st = length st.work + undone (pkg_names db) st.set

-- What the loop over the dependents of a name does.
pub record Scanned (db : Db) (Q : Str → Type 0) (ws : List Str) (st st' : Cascade) : Type 0 where
  pub cheaper : cost db st' ≤ cost db st
  pub grows : (x : Str) → contains st.set x ≡ true → contains st'.set x ≡ true
  pub waits : (x : Str) → contains st.work x ≡ true → contains st'.work x ≡ true
  pub pending :
      (x : Str)
      → contains st'.set x ≡ true
      → (contains st.set x ≡ true) ⊎ (contains st'.work x ≡ true)
  pub stacked :
      (x : Str)
      → contains st'.work x ≡ true
      → (contains st.work x ≡ true) ⊎ (contains st'.set x ≡ true)
  pub taken :
      (w : Str) → contains ws w ≡ true → is_installed db w ≡ true → contains st'.set w ≡ true
  pub only :
      ((x : Str) → contains st.set x ≡ true → Q x) → (x : Str) → contains st'.set x ≡ true → Q x

pub pushed :
    (db : Db) (Q : Str → Type 0) (who : Str) (ws : List Str) (st st' : Cascade)
    → ((w : Str) → contains (who ∷ ws) w ≡ true → is_installed db w ≡ true → Q w)
    → contains st.set who ≡ false
    → is_installed db who ≡ true
    → Scanned db Q ws (record { set = set_insert who st.set; work = who ∷ st.work }) st'
    → Scanned db Q (who ∷ ws) st st'
unfolding cost contains is_installed
pushed db Q who ws st st' q fresh there s = record {
  cheaper = omega (
    arith,
    s.cheaper,
    undone-set_insert (pkg_names db) st.set who (contains-pkg_names db.packages who ∙ there) fresh,
  );
  grows = λ x h. s.grows x ((contains-set_insert who x st.set).1 (inr h));
  waits = λ x h. s.waits x (ground arith);
  pending = λ x h.
      ground (arith, s.pending x h, contains-set_insert who x st.set, s.waits x, str_eq_iff who x);
  stacked = λ x h.
      ground
        (arith, s.stacked x h, s.grows who, contains-set_insert who who st.set, str_eq_iff who x);
  taken = λ w h i. ground (
    arith,
    λ (k : contains ws w ≡ true). s.taken w k i,
    s.grows who,
    s.grows w,
    contains-set_insert who who st.set,
    contains-set_insert who w st.set,
    str_eq_iff who w,
  );
  only = λ o. s.only (λ x h.
      ⊎_elim (λ k. subst Q k (q who (ground (arith, str_eq_refl who)) there)) (o x)
        ((contains-set_insert who x st.set).0 h));
}

pub skipped :
    (db : Db) (Q : Str → Type 0) (who : Str) (ws : List Str) (st st' : Cascade)
    → (is_installed db who ≡ true → contains st.set who ≡ true)
    → Scanned db Q ws st st'
    → Scanned db Q (who ∷ ws) st st'
unfolding contains
skipped db Q who ws st st' old s = record {
  cheaper = s.cheaper;
  grows = s.grows;
  waits = s.waits;
  pending = s.pending;
  stacked = s.stacked;
  taken = λ w h i.
      ground
        (arith, λ (k : contains ws w ≡ true). s.taken w k i, s.grows who, str_eq_iff who w, old);
  only = s.only;
}

pub cascade_scan_lem :
    (db : Db) (Q : Str → Type 0) (ws : List Str) (st : Cascade)
    → ((w : Str) → contains ws w ≡ true → is_installed db w ≡ true → Q w)
    → Scanned db Q ws st (cascade_scan db ws st)
unfolding cascade_scan contains
cascade_scan_lem db Q [] st q = record {
  cheaper = omega arith;
  grows = λ x h. h;
  waits = λ x h. h;
  pending = λ x h. inl h;
  stacked = λ x h. inl h;
  taken = λ w h. absurd (ground arith);
  only = λ o. o;
}
cascade_scan_lem db Q (who ∷ ws) st q =
    elim (Bool-cases (not (contains st.set who) && is_installed db who)) [
      | inl k ↦ rw k (
          pushed db Q who ws st
            (cascade_scan db ws (record { set = set_insert who st.set; work = who ∷ st.work })) q
            (ground arith) (ground arith)
            (cascade_scan_lem db Q ws (record { set = set_insert who st.set; work = who ∷ st.work })
              (λ w c. q w (ground (arith, str_eq_iff who w)))))
      | inr k ↦ rw k (
          skipped db Q who ws st (cascade_scan db ws st) (ground arith)
            (cascade_scan_lem db Q ws st (λ w c. q w (ground (arith, str_eq_iff who w)))))
    ]
