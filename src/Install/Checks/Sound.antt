-- ===== src/Install/Checks/Sound.antt =====
-- What the checks of a plan establish.
use salt_os.Prelude.{
  ◌≡◌, refl, ap, ◌≢◌, ◌↔◌, ◌⊎◌, inl, inr, ⊎_elim, Bool, true, false, not, List, [], ◌∷◌, ◌++◌,
  arith, Bool-cases, filter, mem-cons, not-mem-nil, Str, str_eq, str_eq_iff, str_eq_refl, contains,
  set_of, contains-set_of, Memᴰ,
}
use salt_os.Repo.{RepoEntry}
use salt_os.Db.{Db, is_installed}
use salt_os.Db.Ops.{revdeps, conflicts_with}
use salt_os.Install.Resolve.Inv.{has_name}
use salt_os.Install.Checks.{
  NativePlan, is_leaving, is_gone, declared_conflicts, suffered_conflicts, entry_conflicts, is_nil,
  check_conflicts, dangling_of, dangling_in, check_dangling,
}
use salt_os.Install.Checks.Rows.{has_conflict, has_dep, contains-conflicts_in, contains-revdeps_in}

is_nil-append {ℓ} :
    {A : Type ℓ} (xs ys : List A)
    → (is_nil (xs ++ ys) ≡ true) ↔ ((is_nil xs ≡ true) × (is_nil ys ≡ true))
is_nil-append [] ys = ground arith
is_nil-append (x ∷ xs) ys = ground arith

-- An entry declares no conflict with what is installed together with it.
abbrev pub DeclaresNone : Db → NativePlan → Str → List Str → Type 0
DeclaresNone db plan name cs =
    (c : Str)
    → contains cs c ≡ true
    → c ≢ name
    → (has_name plan.install c ≡ false) × (is_installed db c ≡ true → is_leaving plan c ≡ true)

declared_conflicts_lem :
    (db : Db) (plan : NativePlan) (name : Str) (cs : List Str)
    → (is_nil (declared_conflicts db plan name cs) ≡ true) ↔ DeclaresNone db plan name cs
unfolding declared_conflicts contains
declared_conflicts_lem db plan name [] = (λ h c k. cc, λ h. refl)
declared_conflicts_lem db plan name (c ∷ cs) = (
  λ h x k n. ground (
    arith,
    str_eq_iff c name,
    str_eq_iff c x,
    λ (z : is_nil (declared_conflicts db plan name cs) ≡ true) (k : contains cs x ≡ true).
        (declared_conflicts_lem db plan name cs).0 z x k n,
    n,
  ),
  λ h.
      let rest =
        (declared_conflicts_lem db plan name cs).1
          (λ x k n. h x (ground (arith, str_eq_iff c x)) n) in
      ground (arith, str_eq_iff c name, str_eq_iff c c, h c),
)

-- No installed package that stays declares a conflict with an entry.
abbrev pub SuffersNone : Db → NativePlan → Str → Type 0
SuffersNone db plan name =
    (who : Str)
    → has_conflict db.conflicts who name ≡ true
    → (who ≡ name) ⊎ (is_leaving plan who ≡ true)

suffered_conflicts_lem :
    (plan : NativePlan) (name : Str) (ws : List Str)
    → (is_nil (suffered_conflicts plan name ws) ≡ true)
      ↔ ((who : Str) → contains ws who ≡ true → (who ≡ name) ⊎ (is_leaving plan who ≡ true))
unfolding suffered_conflicts contains
suffered_conflicts_lem plan name [] = (λ h c k. cc, λ h. refl)
suffered_conflicts_lem plan name (w ∷ ws) = (
  λ h x k. ground (
    arith,
    str_eq_iff w name,
    str_eq_iff w x,
    λ (z : is_nil (suffered_conflicts plan name ws) ≡ true) (k : contains ws x ≡ true).
        (suffered_conflicts_lem plan name ws).0 z x k,
  ),
  λ h.
      let rest =
        (suffered_conflicts_lem plan name ws).1 (λ x k. h x (ground (arith, str_eq_iff w x))) in
      ground (arith, str_eq_iff w name, str_eq_iff w w, h w),
)

abbrev pub ConflictFree : Db → NativePlan → List RepoEntry → Type 0
ConflictFree db plan es =
    (e : RepoEntry)
    → Memᴰ e es
    → DeclaresNone db plan e.name e.conflicts × SuffersNone db plan e.name

entry_conflicts_lem :
    (db : Db) (plan : NativePlan) (es : List RepoEntry)
    → (is_nil (entry_conflicts db plan es) ≡ true) ↔ ConflictFree db plan es
unfolding entry_conflicts conflicts_with
entry_conflicts_lem db plan [] = (λ h e m. absurd (not-mem-nil e m), λ h. refl)
entry_conflicts_lem db plan (x ∷ es) =
    let declared = declared_conflicts db plan x.name x.conflicts in
    let suffered = suffered_conflicts plan x.name (conflicts_with db x.name) in
    let rest = entry_conflicts db plan es in
    let split = is_nil-append declared (suffered ++ rest) in
    let split2 = is_nil-append suffered rest in
    let ih = entry_conflicts_lem db plan es in
    let d = declared_conflicts_lem db plan x.name x.conflicts in
    let s = suffered_conflicts_lem plan x.name (conflicts_with db x.name) in
    (
      λ h e m.
          ⊎_elim
            (λ k. rw k (
              (
                d.0 (split.0 h).0,
                λ who c.
                    s.0 (split2.0 (split.0 h).1).0 who
                      ((contains-conflicts_in db.conflicts x.name who).1 c),
              )))
            (λ k. ih.0 (split2.0 (split.0 h).1).1 e k) ((mem-cons e x es).0 m),
      λ h. split.1 (
        d.1 (h x (Memᴰ.head refl)).0,
        split2.1 (
          s.1 (λ who c.
              (h x (Memᴰ.head refl)).1 who ((contains-conflicts_in db.conflicts x.name who).0 c)),
          ih.1 (λ e m. h e (Memᴰ.tail m)),
        ),
      ),
    )

-- The plan passes the check of conflicts just if no entry of the plan declares a conflict with
-- another entry or with an installed package that stays, and no installed package that stays
-- declares a conflict with an entry, itself aside in both. Packages that both stay are not compared.
pub check_conflicts_iff :
    (db : Db) (plan : NativePlan)
    → (check_conflicts db plan ≡ true) ↔ ConflictFree db plan plan.install
unfolding check_conflicts
check_conflicts_iff db plan = entry_conflicts_lem db plan plan.install

dangling_of_lem :
    (db : Db) (plan : NativePlan) (n : Str) (ws : List Str)
    → (is_nil (dangling_of db plan n ws) ≡ true) ↔ (
        (who : Str)
        → contains ws who ≡ true
        → is_installed db who ≡ true
        → (is_gone plan who ≡ true) ⊎ (has_name plan.install who ≡ true))
unfolding dangling_of contains
dangling_of_lem db plan n [] = (λ h c k. cc, λ h. refl)
dangling_of_lem db plan n (w ∷ ws) = (
  λ h x k i. ground (
    arith,
    str_eq_iff w x,
    λ (z : is_nil (dangling_of db plan n ws) ≡ true) (k : contains ws x ≡ true).
        (dangling_of_lem db plan n ws).0 z x k i,
  ),
  λ h.
      let rest = (dangling_of_lem db plan n ws).1 (λ x k. h x (ground (arith, str_eq_iff w x))) in
      ground (arith, str_eq_iff w w, h w),
)

-- No package that stays as it is needs one that goes.
abbrev pub DanglingFree : Db → NativePlan → Type 0
DanglingFree db plan =
    (n who : Str)
    → is_gone plan n ≡ true
    → has_dep db.deps who n ≡ true
    → is_installed db who ≡ true
    → (is_gone plan who ≡ true) ⊎ (has_name plan.install who ≡ true)

dangling_in_lem :
    (db : Db) (plan : NativePlan) (ns : List Str)
    → (is_nil (dangling_in db plan ns) ≡ true) ↔ (
        (n who : Str)
        → contains ns n ≡ true
        → has_dep db.deps who n ≡ true
        → is_installed db who ≡ true
        → (is_gone plan who ≡ true) ⊎ (has_name plan.install who ≡ true))
unfolding dangling_in contains revdeps
dangling_in_lem db plan [] = (λ h n who k. cc, λ h. refl)
dangling_in_lem db plan (x ∷ ns) =
    let split = is_nil-append (dangling_of db plan x (revdeps db x)) (dangling_in db plan ns) in
    let ih = dangling_in_lem db plan ns in
    let d = dangling_of_lem db plan x (revdeps db x) in
    (
      λ h n who k c i. elim (Bool-cases (str_eq x n)) [
        | inl e ↦
            d.0 (split.0 h).0 who
              ((contains-revdeps_in db.deps x who).1 (rw ((str_eq_iff x n).0 e) c)) i
        | inr e ↦ ih.0 (split.0 h).1 n who (ground arith) c i
      ],
      λ h. split.1 (
        d.1 (λ who c i.
            h x who (rw (str_eq_refl x) refl) ((contains-revdeps_in db.deps x who).0 c) i),
        ih.1 (λ n who k c i. h n who (ground arith) c i),
      ),
    )

contains-filter :
    (p : Str → Bool) (xs : List Str) (x : Str)
    → (contains (filter p xs) x ≡ true) ↔ ((contains xs x ≡ true) × (p x ≡ true))
unfolding contains
contains-filter p [] x = ground arith
contains-filter p (y ∷ ys) x = ground (
  arith,
  contains-filter p ys x,
  str_eq_iff y x,
  λ (k : str_eq y x ≡ true). ap p ((str_eq_iff y x).0 k),
)

-- The plan passes the check of dependencies just if each installed package that needs a package
-- which goes, goes too or is installed anew.
pub check_dangling_iff :
    (db : Db) (plan : NativePlan) → (check_dangling db plan ≡ true) ↔ DanglingFree db plan
unfolding check_dangling is_gone
check_dangling_iff db plan =
    let keeps : Str → Bool = λ n. not (has_name plan.install n) in
    let d = dangling_in_lem db plan (filter keeps (set_of plan.remove)) in
    (
      λ h n who g. d.0 h n who (
          (contains-filter keeps (set_of plan.remove) n).1
            (ground (arith, contains-set_of plan.remove n))),
      λ h. d.1 (λ n who k. h n who (
          ground
            (arith, contains-set_of plan.remove n, contains-filter keeps (set_of plan.remove) n))),
    )
