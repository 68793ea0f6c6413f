-- ===== src/Examples/Repo.antt =====
-- Versions and indices.
use salt_os.Prelude.{Ordering, ◌≡◌, refl, ◌≢◌, ◌↔◌, true, [], Str, codes, str_eq, Memᴰ}
use salt_os.Util.{path_is_confined}
use salt_os.Repo.{
  RepoEntry, index_find, index_verify, problems_from, entry_problem, sha256_hex_valid, is_lower_hex,
}
use salt_os.Repo.Verify.{IsSound, index_verify-IsSound, index_verify-confined}
use salt_os.Repo.Vercmp.{vercmp, vercmp_loop, skip_zeros, digit_run, after_run, runs_cmp}
use salt_os.Repo.Vercmp.Tokens.{tokens, tokens_cmp, flip}
use salt_os.Repo.Vercmp.Order.{vercmp-tokens, vercmp-antisym, vercmp_trans}
use salt_os.Repo.Newest.{Search, index_find-Search}
use salt_os.Examples.{index, editor}

abbrev v_old : Str
v_old = codes "1.9"

abbrev v_new : Str
v_new = codes "1.10"

abbrev v_zero : Str
v_zero = codes "1.010"

vercmp-tokens_example : vercmp v_old v_new ≡ tokens_cmp (tokens v_old) (tokens v_new)
vercmp-tokens_example = vercmp-tokens v_old v_new

vercmp-antisym_example :
    (vercmp v_zero v_new ≡ flip (vercmp v_new v_zero))
    × ((vercmp v_new v_zero ≡ Ordering.eq) ↔ (tokens v_new ≡ tokens v_zero))
vercmp-antisym_example = vercmp-antisym v_new v_zero

old-lt : vercmp v_old v_new ≡ Ordering.lt
unfolding vercmp vercmp_loop skip_zeros digit_run after_run runs_cmp
old-lt = refl

new-eq : vercmp v_new v_zero ≡ Ordering.eq
unfolding vercmp vercmp_loop skip_zeros digit_run after_run runs_cmp
new-eq = refl

old-new : vercmp v_old v_new ≢ Ordering.gt
old-new h = cc old-lt

new-zero : vercmp v_new v_zero ≢ Ordering.gt
new-zero h = cc new-eq

vercmp_trans_example : vercmp v_old v_zero ≢ Ordering.gt
vercmp_trans_example = vercmp_trans v_old v_new v_zero old-new new-zero

index_find-Search_example : Search (codes "lib") index.items (index_find index (codes "lib"))
index_find-Search_example = index_find-Search index (codes "lib")

index_verify-IsSound_example :
    (index_verify index ≡ []) ↔ ((e : RepoEntry) → Memᴰ e index.items → IsSound e)
index_verify-IsSound_example = index_verify-IsSound index

index_clean : index_verify index ≡ []
unfolding index_verify problems_from entry_problem str_eq sha256_hex_valid is_lower_hex
index_clean = refl

editor-bare : editor.filename ≢ codes "."
editor-bare h = cc h

index_verify-confined_example : path_is_confined editor.filename ≡ true
index_verify-confined_example =
    index_verify-confined index editor index_clean (Memᴰ.tail (Memᴰ.head refl)) editor-bare
