-- ===== src/Lock/Exit.antt =====
-- The exit code of `lock_diff`.
use salt_os.Prelude.{
  ℕ, suc, ◌+◌, ◌≡◌, refl, sym, ap, ◌∙◌, subst, ◌↔◌, ◌⊎◌, inl, inr, ⊎_elim, Option, none, some, List,
  [], ◌∷◌, arith, ==_iff, length, mem-cons, not-mem-nil, Str, Memᴰ,
}
use salt_os.Db.{Db}
use salt_os.Lock.{LockEntry, StratumLock, LockFile, Result, failed, loaded, lock_load}
use salt_os.Lock.Compare.{
  compare_lock, compare_stratum, ForeignPkg, diffs, Query, listed, unknown_stratum, not_listed,
  diff_strata, exit_code, diff_loaded, lock_diff,
}
use salt_os.Lock.Diff.{
  IsLocked, IsStratumLocked, StratumOk, native_diffs-IsLocked, stratum_diffs-IsStratumLocked,
}

Query-cases :
    (q : Query)
    → (q ≡ not_listed) ⊎ ((q ≡ unknown_stratum) ⊎ ((live : List ForeignPkg) × (q ≡ listed live)))
Query-cases not_listed = inl refl
Query-cases unknown_stratum = inr (inl refl)
Query-cases (listed live) = inr (inr (live, refl))

listed_eq : {x y : List ForeignPkg} → listed x ≡ listed y → x ≡ y
listed_eq h = cc

some_eq : {x y : ℕ} → some x ≡ some y → x ≡ y
some_eq h = cc

diff_strata-ok :
    (query : Str → Query) (ss : List StratumLock) (n : ℕ)
    → (diff_strata query ss n ≡ some 0)
      ↔ ((n ≡ 0) × ((sl : StratumLock) → Memᴰ sl ss → StratumOk query sl))
unfolding diff_strata
diff_strata-ok query [] n = (λ h. (some_eq h, λ sl m. absurd (not-mem-nil sl m)), λ h. ap some h.0)
diff_strata-ok query (sl ∷ ss) n = elim (Query-cases (query sl.name)) [
  | inl k ↦
      rw (k, diff_strata) (λ h. cc h, λ h. let (live, e, l) = h.1 sl (Memᴰ.head refl) in cc (k, e))
  | inr (inl k) ↦
      rw (k, diff_strata)
        (
          λ h. absurd (omega (arith, ((diff_strata-ok query ss (suc n)).0 h).0)),
          λ h. let (live, e, l) = h.1 sl (Memᴰ.head refl) in cc (k, e),
        )
  | inr (inr (live, k)) ↦
      let d = stratum_diffs-IsStratumLocked sl live in
      let ih = diff_strata-ok query ss (n + diffs (compare_stratum sl live)) in
      rw (k, diff_strata)
        (
          λ h. (
            omega (arith, (ih.0 h).0),
            λ x m.
                ⊎_elim
                  (λ e. subst (StratumOk query) (sym e) (live, k, d.0 (omega (arith, (ih.0 h).0))))
                  ((ih.0 h).1 x) ((mem-cons x sl ss).0 m),
          ),
          λ h.
              let (other, e, l) = h.1 sl (Memᴰ.head refl) in
              let same : other ≡ live = listed_eq (sym e ∙ k) in
              ih.1 (
                omega (arith, h.0, d.1 (subst (IsStratumLocked sl) same l)),
                λ x m. h.1 x (Memᴰ.tail m),
              ),
        )
]

exit_code-zero : (o : Option ℕ) → (exit_code o ≡ 0) ↔ (o ≡ some 0)
exit_code-zero none = (λ h. absurd (omega arith), λ h. cc h)
exit_code-zero (some n) = (λ h. ap some (ground (arith, ==_iff n 0)), λ h. rw (some_eq h) refl)

-- What the lock asks for, of the packages and of the strata.
abbrev pub IsInSync : Db → (Str → Query) → List LockEntry → List StratumLock → Type 0
IsInSync db query es ss = IsLocked db es × ((sl : StratumLock) → Memᴰ sl ss → StratumOk query sl)

loaded_pair : {x y : List LockEntry × List StratumLock} → loaded x ≡ loaded y → x ≡ y
loaded_pair h = cc

diff_loaded-zero :
    (db : Db) (query : Str → Query) (r : Result (List LockEntry × List StratumLock))
    → (diff_loaded db query r ≡ 0) ↔ (
        (es : List LockEntry) × (ss : List StratumLock) × (r ≡ loaded (es, ss))
        × IsInSync db query es ss)
diff_loaded-zero db query (failed e) = (λ h. absurd (omega arith), λ h. cc h.2)
diff_loaded-zero db query (loaded (es, ss)) =
    let c = compare_lock db es in
    let start = length c.extra + length c.missing + length c.changed in
    let x = exit_code-zero (diff_strata query ss start) in
    let s = diff_strata-ok query ss start in
    let n = native_diffs-IsLocked db es in
    (
      λ h. (es, ss, refl, (n.0 (s.0 (x.0 h)).0, (s.0 (x.0 h)).1)),
      λ (fs, ts, e, (a, b)).
          let same = loaded_pair e in
          x.1 (
            s.1 (
              n.1 (subst (IsLocked db) (ap (λ p. p.0) (sym same)) a),
              subst (λ l. (sl : StratumLock) → Memᴰ sl l → StratumOk query sl)
                  (ap (λ p. p.1) (sym same)) b,
            )),
    )

-- `lock_diff` exits with 0 exactly if the lockfile loads, each package that it pins is installed in
-- the pinned version with no other digest recorded, no other package is installed, and each
-- stratum that it pins can be listed and has the pinned packages and no others.
pub lock_diff-zero :
    (db : Db) (query : Str → Query) (f : Option LockFile)
    → (lock_diff db query f ≡ 0) ↔ (
        (es : List LockEntry) × (ss : List StratumLock) × (lock_load f ≡ loaded (es, ss))
        × IsInSync db query es ss)
unfolding lock_diff
lock_diff-zero db query f = diff_loaded-zero db query (lock_load f)
