-- ===== src/Install/Run/Owned.antt =====
-- Removals and installations of other packages add no files to a package.
use salt_os.Prelude.{
  ℕ, ◌≡◌, refl, sym, ap, ◌∙◌, subst, ◌≢◌, ◌↔◌, ◌⊎◌, inl, inr, ⊎_elim, Bool, true, false, ◌&&◌,
  Option, List, [], ◌∷◌, map, arith, leb, Bool-cases, length, mem-cons, mem-append, mem-concat,
  mem-filter, Str, str_eq, str_eq_iff, Memᴰ,
}
use mathlib.Core.List.Memᴰ
use salt_os.Db.Rows.{PkgMeta, ManifestEntry, PkgRow, FileRow}
use salt_os.Db.{
  Db, Stmt, delete_package, delete_files, delete_deps, delete_conflicts, delete_hooks,
  insert_package, insert_file, insert_dep, insert_conflict, insert_hook, insert_txn, update_status,
  update_snapshot, update_artifact, apply, allowed, step, steps,
}
use salt_os.Db.Ops.{
  record_install, record_remove, set_pkg_artifact, install_inserts, forget, done_rc, hook_rows,
  file_row, dep_row, conflict_row, pkg_row,
}
use salt_os.Db.Manifest.{manifest_entry, insert_longest, manifest_in, pkg_manifest}

-- The files of a package are among those that it had.
unfoldable pub Fewer : Str → Db → Db → Type 0
Fewer x db db' = (r : FileRow) → r.name ≡ x → Memᴰ r db'.files → Memᴰ r db.files

pub Fewer-refl : (x : Str) (db : Db) → Fewer x db db
unfolding Fewer
Fewer-refl x db r e m = m

pub Fewer-trans : (x : Str) (a b c : Db) → Fewer x a b → Fewer x b c → Fewer x a c
unfolding Fewer
Fewer-trans x a b c f g r e m = f r e (g r e m)

-- A statement that gives the package no file.
abbrev GivesNone : Str → Stmt → Type 0
GivesNone x (insert_file r) = r.name ≢ x
GivesNone x _ = Unit

apply-Fewer : (x : Str) (s : Stmt) (db : Db) → GivesNone x s → Fewer x db (apply s db)
unfolding Fewer apply
apply-Fewer x (delete_package n) db g r e m = m
apply-Fewer x (delete_files n) db g r e m = ((mem-filter _ r db.files).0 m).0
apply-Fewer x (delete_deps n) db g r e m = m
apply-Fewer x (delete_conflicts n) db g r e m = m
apply-Fewer x (delete_hooks n) db g r e m = m
apply-Fewer x (insert_package p) db g r e m = m
apply-Fewer x (insert_file p) db g r e m =
    ⊎_elim (λ i. i) (λ (q : r ≡ p). absurd (g (sym (ap (λ (y : FileRow). y.name) q) ∙ e)))
      ((mem-concat r p db.files).0 m)
apply-Fewer x (insert_dep p) db g r e m = m
apply-Fewer x (insert_conflict p) db g r e m = m
apply-Fewer x (insert_hook p) db g r e m = m
apply-Fewer x (insert_txn op t) db g r e m = m
apply-Fewer x (update_status id s) db g r e m = m
apply-Fewer x (update_snapshot id s) db g r e m = m
apply-Fewer x (update_artifact n f s) db g r e m = m

module _ (completes : Stmt → Db → Bool) (x : Str) where
  step-Fewer : (s : Stmt) (db : Db) → GivesNone x s → Fewer x db (step completes s db).1
  unfolding step
  step-Fewer s db g = elim (Bool-cases (completes s db && allowed s db)) [
    | inl t ↦ rw t (apply-Fewer x s db g)
    | inr f ↦ rw f (Fewer-refl x db)
  ]

  steps-Fewer :
      (ss : List Stmt) (db : Db)
      → ((s : Stmt) → Memᴰ s ss → GivesNone x s)
      → Fewer x db (steps completes ss db).1
  unfolding steps
  steps-Fewer [] db g = Fewer-refl x db
  steps-Fewer (s ∷ ss) db g =
      let first = step-Fewer s db (g s (Memᴰ.head refl)) in
      let mid = (step completes s db).1 in
      elim (Bool-cases (step completes s db).0) [
        | inl t ↦
            rw t (Fewer-trans x db mid _ first (steps-Fewer ss mid (λ y m. g y (Memᴰ.tail m))))
        | inr f ↦ rw f first
      ]

  then_step :
      (db mid : Db) (s : Stmt)
      → GivesNone x s
      → Fewer x db mid
      → Fewer x db (step completes s mid).1
  then_step db mid s g f = Fewer-trans x db mid _ f (step-Fewer s mid g)

  done_rc-same : (b : Bool) (db : Db) → (done_rc completes (b, db)).1 ≡ db
  done_rc-same true db = refl
  done_rc-same false db = refl

  pub record_remove-Fewer : (n : Str) (db : Db) → Fewer x db (record_remove completes n db).1
  unfolding record_remove
  record_remove-Fewer n db = subst (Fewer x db) (sym (done_rc-same _ _)) (
      then_step db _ (delete_package n) tt (
        then_step db _ (delete_hooks n) tt (
          then_step db _ (delete_conflicts n) tt (
            then_step db _ (delete_deps n) tt
              (then_step db db (delete_files n) tt (Fewer-refl x db))))))

  forget-Fewer : (n : Str) (db : Db) → Fewer x db (forget completes n db)
  forget-Fewer n db = then_step db _ (delete_hooks n) tt (
      then_step db _ (delete_conflicts n) tt (
        then_step db _ (delete_deps n) tt (
          then_step db _ (delete_files n) tt
            (then_step db db (delete_package n) tt (Fewer-refl x db)))))

  map-GivesNone {ℓ} :
      {A : Type ℓ} (f : A → Stmt) (xs : List A)
      → ((a : A) → GivesNone x (f a))
      → (s : Stmt) → Memᴰ s (map f xs)
      → GivesNone x s
  map-GivesNone f [] g s m = absurd (Memᴰ.not-nil m)
  map-GivesNone f (a ∷ xs) g s m =
      ⊎_elim (λ (e : s ≡ f a). rw e (g a)) (map-GivesNone f xs g s)
        ((mem-cons s (f a) (map f xs)).0 m)

  -- Everything that an installation inserts is of its package.
  inserts-GivesNone :
      (meta : PkgMeta) (manifest : List ManifestEntry) (row : PkgRow)
      → meta.name ≢ x
      → (s : Stmt) → Memᴰ s (install_inserts meta manifest row)
      → GivesNone x s
  inserts-GivesNone meta manifest row ne s m =
      ⊎_elim (map-GivesNone insert_hook (hook_rows meta) (λ _. tt) s)
        (λ m.
          ⊎_elim (λ (e : s ≡ insert_package row). rw e tt)
            (λ m.
              ⊎_elim (map-GivesNone (λ e. insert_file (file_row meta.name e)) manifest (λ _. ne) s)
                (λ m.
                  ⊎_elim
                    (map-GivesNone (λ d. insert_dep (dep_row meta.name d)) meta.deps (λ _. tt) s)
                    (map-GivesNone (λ c. insert_conflict (conflict_row meta.name c)) meta.conflicts
                      (λ _. tt) s)
                    ((mem-append s _ _).0 m))
                ((mem-append s _ _).0 m))
            ((mem-cons s _ _).0 m))
        ((mem-append s _ _).0 m)

  pub record_install-Fewer :
      (meta : PkgMeta) (manifest : List ManifestEntry) (repo sig : Option Str) (now id : ℕ)
      (db : Db)
      → meta.name ≢ x
      → Fewer x db (record_install completes meta manifest repo sig now id db).1
  unfolding record_install
  record_install-Fewer meta manifest repo sig now id db ne =
      Fewer-trans x db (forget completes meta.name db) _ (forget-Fewer meta.name db) (
        steps-Fewer (install_inserts meta manifest (pkg_row meta repo sig now id)) _
          (inserts-GivesNone meta manifest (pkg_row meta repo sig now id) ne))

  pub set_pkg_artifact-Fewer :
      (n : Str) (filename sha : Option Str) (db : Db)
      → Fewer x db (set_pkg_artifact completes n filename sha db).1
  unfolding set_pkg_artifact
  set_pkg_artifact-Fewer n filename sha db =
      subst (Fewer x db) (sym (done_rc-same _ _)) (then_step db db _ tt (Fewer-refl x db))

-- The manifest of the package, as the database gives it.
mem-insert_longest :
    (e f : ManifestEntry) (es : List ManifestEntry)
    → Memᴰ e (insert_longest f es) ↔ ((e ≡ f) ⊎ Memᴰ e es)
unfolding insert_longest
mem-insert_longest e f [] = mem-cons e f []
mem-insert_longest e f (g ∷ es) = elim (Bool-cases (leb (length g.path) (length f.path))) [
  | inl t ↦ rw t (mem-cons e f (g ∷ es))
  | inr n ↦ rw n (
      ground
        (arith, mem-insert_longest e f es, mem-cons e g (insert_longest f es), mem-cons e g es))
]

mem-manifest_in :
    (x : Str) (e : ManifestEntry) (rs : List FileRow)
    → Memᴰ e (manifest_in x rs)
      ↔ ((r : FileRow) × Memᴰ r rs × (r.name ≡ x) × (e ≡ manifest_entry r))
mem-manifest_in x e [] = (λ m. absurd (Memᴰ.not-nil m), λ h. absurd (Memᴰ.not-nil (h.1)))
mem-manifest_in x e (r ∷ rs) = elim (Bool-cases (str_eq r.name x)) [
  | inl t ↦ rw t (
    λ m.
        ⊎_elim (λ (q : e ≡ manifest_entry r). (r, Memᴰ.head refl, (str_eq_iff r.name x).0 t, q))
          (λ i. let h = (mem-manifest_in x e rs).0 i in (h.0, Memᴰ.tail h.1, h.2, h.3))
          ((mem-insert_longest e (manifest_entry r) (manifest_in x rs)).0 m),
    λ h. (mem-insert_longest e (manifest_entry r) (manifest_in x rs)).1 (
        ⊎_elim (λ (q : h.0 ≡ r). inl (h.3 ∙ ap manifest_entry q))
          (λ i. inr ((mem-manifest_in x e rs).1 (h.0, i, h.2, h.3))) ((mem-cons h.0 r rs).0 h.1)),
  )
  | inr f ↦ rw f (
    λ m. let h = (mem-manifest_in x e rs).0 m in (h.0, Memᴰ.tail h.1, h.2, h.3),
    λ h.
        ⊎_elim (λ (q : h.0 ≡ r). absurd (other f (ap (λ (y : FileRow). y.name) (sym q) ∙ h.2)))
          (λ i. (mem-manifest_in x e rs).1 (h.0, i, h.2, h.3)) ((mem-cons h.0 r rs).0 h.1),
  )
]
  where
    other : str_eq r.name x ≡ false → r.name ≢ x
    other f e = ground (arith, str_eq_iff r.name x)

pub pkg_manifest-Fewer :
    (x : Str) (db db' : Db)
    → Fewer x db db'
    → (e : ManifestEntry) → Memᴰ e (pkg_manifest db' x)
    → Memᴰ e (pkg_manifest db x)
unfolding pkg_manifest Fewer
pkg_manifest-Fewer x db db' f e m =
    let h = (mem-manifest_in x e db'.files).0 m in
    (mem-manifest_in x e db.files).1 (h.0, f h.0 h.2 h.1, h.2, h.3)
