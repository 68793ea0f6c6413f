-- ===== src/Gc/Done.antt =====
-- What the garbage collector keeps on purpose, and what it removes.
use salt_os.Prelude.{
  ℕ, suc, ◌+◌, ◌-◌, max, ◌≡◌, refl, sym, ap, ◌∙◌, subst, ◌⊎◌, inl, inr, ⊎_elim, Bool, true, false,
  not, ◌&&◌, ◌||◌, Option, none, some, List, [], ◌∷◌, map, arith, ltb, ◌==◌, ==_iff, if◌then◌else◌,
  Bool-cases, mem-cons, not-mem-nil, Str, codes, str_eq, str_eq_iff, Memᴰ,
}
use mathlib.Core.List.{reverse_aux}
use salt_os.Util.Rc.{
  Rc, ok, err, err_io, err_format, err_notfound, err_verify, err_exists, err_dep, err_usage,
  succeeded,
}
use salt_os.Db.{
  Db, Stmt, with_status, with_snapshot, update_status, update_snapshot, apply, allowed,
}
use salt_os.Db.Rows.{TxnRow}
use salt_os.Db.Ops.{txn_finish, txn_set_snapshot, deployments}
use salt_os.Db.Ops.Record.{step_lem}
use salt_os.Gc.{
  Generations, remove_generation, remove_snapshot, had_snapshot, delete_snapshot, GcOpts, GcReport,
  CacheDir, Machine, id_in, or_one, is_ok, kept_from, kept, referenced, prune_generation,
  prune_each, gc_run, swept,
}

-- The ids of the first `n` deployments that are "ok".
abbrev pub first_oks : ℕ → List TxnRow → List ℕ
first_oks n [] = []
first_oks n (d ∷ ds) =
    let now = d.id ∷ first_oks (n - 1) ds in
    let later = first_oks n ds in if is_ok d && ltb 0 n then now else later

kept_from-first_oks :
    (booted : Option ℕ) (meta_pinned : ℕ → Option Bool) (opts : GcOpts) (newest seen n : ℕ)
    (ds : List TxnRow) (id : ℕ)
    → seen + n ≡ or_one opts.keep
    → id_in (first_oks n ds) id ≡ true
    → id_in (kept_from booted meta_pinned opts newest seen ds) id ≡ true
unfolding kept_from id_in
kept_from-first_oks booted meta_pinned opts newest seen n [] id e h = cc
kept_from-first_oks booted meta_pinned opts newest seen n (d ∷ ds) id e h = ground (
  arith,
  kept_from-first_oks booted meta_pinned opts newest (suc seen) (n - 1) ds id,
  kept_from-first_oks booted meta_pinned opts newest seen n ds id,
)

-- The newest deployments that are "ok" are kept, as many as asked for, and at least one.
pub kept-first_oks :
    (booted : Option ℕ) (meta_pinned : ℕ → Option Bool) (opts : GcOpts) (db : Db) (id : ℕ)
    → id_in (first_oks (max 1 opts.keep) (deployments db)) id ≡ true
    → id_in (kept booted meta_pinned opts db) id ≡ true
unfolding kept
kept-first_oks booted meta_pinned opts db id h =
    kept_from-first_oks booted meta_pinned opts _ 0 (max 1 opts.keep) (deployments db) id
      (ground arith) h

mem-map {ℓ ℓ'} :
    {A : Type ℓ} {B : Type ℓ'} (f : A → B) (xs : List A) (y : B)
    → Memᴰ y (map f xs)
    → (x : A) × Memᴰ x xs × (y ≡ f x)
mem-map f [] y m = absurd (not-mem-nil y m)
mem-map f (x ∷ xs) y m =
    ⊎_elim (λ k. (x, Memᴰ.head refl, k))
      (λ k. let (z, n, e) = mem-map f xs y k in (z, Memᴰ.tail n, e))
      ((mem-cons y (f x) (map f xs)).0 m)

bad_rc : err_io ≡ ok → ⊥
bad_rc h = cc

mem-reverse_aux {ℓ} :
    {A : Type ℓ} (a : A) (xs ys : List A) → Memᴰ a xs ⊎ Memᴰ a ys → Memᴰ a (reverse_aux xs ys)
mem-reverse_aux a [] ys m = ⊎_elim (λ k. absurd (not-mem-nil a k)) (λ k. k) m
mem-reverse_aux a (x ∷ xs) ys m = mem-reverse_aux a xs (x ∷ ys) (
    ⊎_elim (λ k. ⊎_elim (λ e. inr (Memᴰ.head e)) (λ l. inl l) ((mem-cons a x xs).0 k))
      (λ k. inr (Memᴰ.tail k)) m)

-- A row after some prunings, and the row that it was.
record Aged (t t' : TxnRow) : Type 0 where
  id : t'.id ≡ t.id
  status : (t'.status ≡ t.status) ⊎ (t'.status ≡ codes "pruned")

-- The generation is one of those that the loop prunes.
abbrev is_due : List ℕ → List TxnRow → ℕ → Bool
is_due ids [] id = false
is_due ids (d ∷ ds) id =
    d.id == id && not (str_eq d.status (codes "pruned") || id_in ids d.id) || is_due ids ds id

pruned-Aged :
    (id : ℕ) (t : TxnRow)
    → Aged t (with_snapshot id [] (with_status id (codes "pruned") t))
      × ((t.id == id) ≡ true
          → (with_snapshot id [] (with_status id (codes "pruned") t)).status ≡ codes "pruned")
pruned-Aged id t = elim (Bool-cases (t.id == id)) [
  | inl k ↦ rw (k, k) (record { id = refl; status = inr refl }, λ h. refl)
  | inr k ↦ rw (k, k) (record { id = refl; status = inl refl }, λ h. absurd (ground arith))
]

Aged-trans : (t u v : TxnRow) → Aged t u → Aged u v → Aged t v
Aged-trans t u v a b = record { id = b.id ∙ a.id; status = ground (arith, a.status, b.status) }

due_lem :
    (ids : List ℕ) (ds : List TxnRow) (d t u v : TxnRow)
    → Aged t u
    → Aged u v
    → (is_due ids ds u.id ≡ true → v.status ≡ codes "pruned")
    → ((t.id == d.id) ≡ true → u.status ≡ codes "pruned")
    → is_due ids (d ∷ ds) t.id ≡ true
    → v.status ≡ codes "pruned"
due_lem ids ds d t u v a b later now due =
    ground (arith, a.id, b.status, ap (is_due ids ds) a.id, ==_iff t.id d.id, ==_iff d.id t.id)

succeeded_ok : (rc : Rc) → succeeded rc ≡ true → rc ≡ ok
succeeded_ok ok h = refl
succeeded_ok err h = cc
succeeded_ok err_io h = cc
succeeded_ok err_format h = cc
succeeded_ok err_notfound h = cc
succeeded_ok err_verify h = cc
succeeded_ok err_exists h = cc
succeeded_ok err_dep h = cc
succeeded_ok err_usage h = cc

failed_ok : (rc : Rc) → succeeded rc ≡ false → rc ≡ ok → ⊥
failed_ok rc h e = ground (arith, ap succeeded e)

module _ (completes : Stmt → Db → Bool) (engine : (s : Stmt) (db : Db) → completes s db ≡ true)
    (m : Machine) where
  pruned_rows : ℕ → List TxnRow → List TxnRow
  pruned_rows id ts = map (with_snapshot id []) (map (with_status id (codes "pruned")) ts)

  remove_generation-rows :
      (d : TxnRow) (w : Generations) (out : GcReport)
      → (remove_generation completes m d w out).0 ≡ ok
      → (remove_generation completes m d w out).1.db.transactions
        ≡ pruned_rows d.id w.db.transactions
  unfolding remove_generation txn_finish txn_set_snapshot allowed apply pruned_rows
  remove_generation-rows d w out h = elim (Bool-cases (m.removes_dir d.id)) [
    | inr n ↦ absurd (bad_rc (rw n at h))
    | inl y ↦
        rw
          (
            y,
            step_lem completes engine (update_status d.id (codes "pruned")) (λ x. refl),
            step_lem completes engine (update_snapshot d.id []) (λ x. refl),
          )
          refl
  ]

  remove_snapshot-rows :
      (o : Option Str) (d : TxnRow) (w : Generations) (out : GcReport)
      → (remove_snapshot completes m o d w out).0 ≡ ok
      → (remove_snapshot completes m o d w out).1.db.transactions
        ≡ pruned_rows d.id w.db.transactions
  unfolding remove_snapshot
  remove_snapshot-rows none d w out h = remove_generation-rows d w out h
  remove_snapshot-rows (some name) d w out h = elim (Bool-cases (m.deletes_snapshot name)) [
    | inl y ↦ rw y (remove_generation-rows d (delete_snapshot name w) out (rw y at h))
    | inr n ↦ absurd (bad_rc (rw n at h))
  ]

  prune_generation-rows :
      (d : TxnRow) (w : Generations) (out : GcReport)
      → (prune_generation completes m false d w out).0 ≡ ok
      → (prune_generation completes m false d w out).1.db.transactions
        ≡ pruned_rows d.id w.db.transactions
  unfolding prune_generation
  prune_generation-rows d w out h = remove_snapshot-rows (had_snapshot completes m d w) d w out h

  pruned_row :
      (id : ℕ) (ts : List TxnRow) (t' : TxnRow)
      → Memᴰ t' (pruned_rows id ts)
      → (t : TxnRow) × Memᴰ t ts × Aged t t' × ((t.id == id) ≡ true → t'.status ≡ codes "pruned")
  unfolding pruned_rows
  pruned_row id ts t' h =
      let (u, n, e) =
        mem-map (with_snapshot id []) (map (with_status id (codes "pruned")) ts) t' h in
      let (t, k, f) = mem-map (with_status id (codes "pruned")) ts u n in
      let same : with_snapshot id [] (with_status id (codes "pruned") t) ≡ t' =
        sym (e ∙ ap (with_snapshot id []) f) in
      let (a, b) = pruned-Aged id t in
      (
        t,
        k,
        subst (Aged t) same a,
        subst (λ r. (t.id == id) ≡ true → r.status ≡ codes "pruned") same b,
      )

  prune_each-pruned :
      (ids : List ℕ) (ds : List TxnRow) (w : Generations) (out : GcReport)
      → (prune_each completes m false ids ds w out).0 ≡ ok
      → (t' : TxnRow) → Memᴰ t' (prune_each completes m false ids ds w out).1.db.transactions
      → (t : TxnRow) × Memᴰ t w.db.transactions
        × Aged t t'
        × (is_due ids ds t.id ≡ true → t'.status ≡ codes "pruned")
  unfolding prune_each
  prune_each-pruned ids [] w out h t' k =
      (t', k, record { id = refl; status = inl refl }, λ d. absurd (ground arith))
  prune_each-pruned ids (d ∷ ds) w out h t' k =
      elim (Bool-cases (str_eq d.status (codes "pruned") || id_in ids d.id)) [
        | inl skip ↦
            let (t, n, a, b) = prune_each-pruned ids ds w out (rw skip at h) t' (rw skip at k) in
            (t, n, a, λ due. b (ground arith))
        | inr act ↦
            let r = prune_generation completes m false d w out in
            elim (Bool-cases (succeeded r.0)) [
              | inl y ↦
                  let (u, n, a, b) =
                    prune_each-pruned ids ds r.1 r.2 (rw (act, y) at h) t' (rw (act, y) at k) in
                  let (t, i, a2, b2) =
                    pruned_row d.id w.db.transactions u
                      (subst (Memᴰ u) (prune_generation-rows d w out (succeeded_ok r.0 y)) n) in
                  (t, i, Aged-trans t u t' a2 a, λ due. due_lem ids ds d t u t' a2 a b b2 due)
              | inr n ↦ absurd (failed_ok r.0 n (rw (act, n) at h))
            ]
      ]

  mem-is_due :
      (ids : List ℕ) (ds : List TxnRow) (t : TxnRow)
      → Memᴰ t ds
      → id_in ids t.id ≡ false
      → (t.status ≡ codes "pruned") ⊎ (is_due ids ds t.id ≡ true)
  mem-is_due ids [] t k f = absurd (not-mem-nil t k)
  mem-is_due ids (d ∷ ds) t k f = ground (
    arith,
    mem-cons t d ds,
    mem-is_due ids ds t,
    str_eq_iff t.status (codes "pruned"),
    λ (e : t ≡ d). ap (λ r. str_eq r.status (codes "pruned")) e,
    λ (e : t ≡ d). ap (λ r. id_in ids r.id) e,
    λ (e : t ≡ d). ap (λ r. r.id) e,
    f,
  )

  pruned_after :
      (ids : List ℕ) (dry : Bool)
      → dry ≡ false
      → (names : Option (List Str)) (w : Generations) (cache : List CacheDir) (out : GcReport)
        (t : TxnRow)
      → id_in ids t.id ≡ false
      → (swept names dry cache (prune_each completes m dry ids (deployments w.db) w out)).rc ≡ ok
      → Memᴰ t
          (swept names dry cache
            (prune_each completes m dry ids (deployments w.db) w out)).world.db.transactions
      → t.status ≡ codes "pruned"
  unfolding deployments
  pruned_after ids dry wet names w cache out t f done k =
      let r = prune_each completes m false ids (deployments w.db) w out in
      elim (Bool-cases (succeeded r.0)) [
        | inl y ↦
            let (u, n, a, b) =
              prune_each-pruned ids (deployments w.db) w out (succeeded_ok r.0 y) t
                (rw (wet, y) at k) in
            ⊎_elim (λ p. ⊎_elim (λ s. s ∙ p) (λ s. s) a.status) b
              (mem-is_due ids (deployments w.db) u (mem-reverse_aux u w.db.transactions [] (inl n))
                (ap (id_in ids) (sym a.id) ∙ f))
        | inr n ↦ absurd (failed_ok r.0 n (rw (wet, n) at done))
      ]

  -- When a run that is not dry succeeds, every generation that is not kept is marked as pruned,
  -- given that the database completes its statements.
  pub gc_run-pruned :
      (booted : Option ℕ) (meta_pinned : ℕ → Option Bool) (before : ℕ → Option (List Str))
      (opts : GcOpts) (w : Generations) (cache : List CacheDir) (out : GcReport) (t : TxnRow)
      → opts.dry_run ≡ false
      → (gc_run completes m booted meta_pinned before opts w cache out).rc ≡ ok
      → Memᴰ t (gc_run completes m booted meta_pinned before opts w cache out).world.db.transactions
      → id_in (kept booted meta_pinned opts w.db) t.id ≡ false
      → t.status ≡ codes "pruned"
  unfolding gc_run deployments
  gc_run-pruned booted meta_pinned before opts w cache out t wet done k f =
      let ids = kept booted meta_pinned opts w.db in
      pruned_after ids opts.dry_run wet (some (referenced before ids w.db)) w cache out t f done k
