-- ===== src/Install/Visit.antt =====
-- The depth-first `visit` that src/salt/cmd_install.cpp writes twice, in `order_by_deps` and in
-- `native_remove`: a name that is done is skipped; it is marked, its children are visited, and it
-- is put at the end.
pub mod Undone
pub mod Total
use salt_os.Prelude.{
  ℕ, zero, suc, ◌+◌, ◌-◌, ◌*◌, ◌/◌, ◌%◌, ◌≤◌, ◌<◌, compare, Ordering, max, ◌≡◌, refl, sym, ap, ◌∙◌,
  subst, ◌≢◌, ◌↔◌, ◌⊎◌, inl, inr, ⊎_elim, Bool, true, false, not, ◌&&◌, ◌||◌, Option, none, some,
  List, [], ◌∷◌, ◌++◌, map, arith, ltb, leb, ◌==◌, ==_iff, if◌then◌else◌, &&_eq_true, Bool-cases,
  Option-cases, eq_of_iff, length, filter, any, length-append, mem-cons, mem-append, mem-concat,
  concat-ne_nil, not-mem-nil, mem-filter, Str, codes, str_eq, str_eq_iff, str_eq_refl, contains,
  contains-cons, contains-append, set_insert, set_of, contains-set_insert, contains-set_of, Memᴰ,
}

pub record Visiting (A : Type 0) : Type 0 where
  pub done : List Str
  pub out : List A

abbrev pub visit_first : {A : Type 0} → Visiting A
visit_first = record { done = []; out = [] }

abbrev pub continue :
    {A : Type 0} → Option (Visiting A) → (Visiting A → Option (Visiting A)) → Option (Visiting A)
continue none f = none
continue (some st) f = f st

abbrev pub push_back : {A : Type 0} → A → Visiting A → Visiting A
push_back e st = record st { out = st.out ++ e ∷ [] }

module _ {A : Type 0} (key : A → Str) (children : A → List A) where
  unfoldable pub visit_each :
      (A → Visiting A → Option (Visiting A)) → List A → Visiting A → Option (Visiting A)
  visit_each rec [] st = some st
  visit_each rec (c ∷ cs) st = continue (rec c st) (visit_each rec cs)

  -- `visit`, on fuel; `none` means that the fuel ran out.
  unfoldable pub visit : ℕ → A → Visiting A → Option (Visiting A)
  visit zero e st = none
  visit (suc f) e st =
      let rest =
        continue (visit_each (visit f) (children e) (record st { done = key e ∷ st.done }))
          (λ st'. some (push_back e st')) in
      if contains st.done (key e) then some st else rest
