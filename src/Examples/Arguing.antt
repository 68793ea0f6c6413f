-- ===== src/Examples/Arguing.antt =====
-- Arguments, and the targets of an update.
use salt_os.Prelude.{◌≡◌, refl, true, false, some, codes, str_eq, contains, set_insert, Memᴰ}
use salt_os.Repo.{index_find, find_from, pick_newest, is_newer}
use salt_os.Repo.Newest.{IsNewest}
use salt_os.Repo.Vercmp.{vercmp, vercmp_loop, skip_zeros, digit_run, after_run, runs_cmp}
use salt_os.Repo.{RepoEntry}
use salt_os.Db.Rows.{PkgRow}
use salt_os.Install.Update.{update_targets, update_targets-newer}
use salt_os.Prelude.{Str, Option, none, false}
use salt_os.Util.Rc.{ok}
use salt_os.Repo.{entry_hash_ok, sha256_hex_valid, is_lower_hex}
use salt_os.Install.Fetch.{fetch_and_verify, is_cached, verify_file}
use salt_os.Install.Fetch.Verified.{IsVerified, fetch_and_verify-IsVerified}
use salt_os.Examples.{index, two_packages, editor, digest}

library_newer : contains (update_targets index two_packages.packages) (codes "lib") ≡ true
unfolding update_targets index_find find_from pick_newest is_newer vercmp vercmp_loop skip_zeros
    digit_run after_run runs_cmp str_eq contains set_insert
library_newer = refl

update_targets-newer_example :
    (p : PkgRow) × Memᴰ p two_packages.packages
    × (p.name ≡ codes "lib")
    × ((e : RepoEntry) × IsNewest p.name index.items e
        × (is_newer e.version e.release p.version p.release ≡ true))
update_targets-newer_example =
    update_targets-newer index two_packages.packages (codes "lib") library_newer

-- Every file has the digest of the examples.
abbrev one_digest : Str → Option Str
one_digest bytes = some digest

fetch_succeeds : (fetch_and_verify one_digest editor false none (some (codes "grain"))).rc ≡ ok
unfolding fetch_and_verify is_cached verify_file sha256_hex_valid is_lower_hex str_eq
fetch_succeeds = refl

fetch_and_verify-IsVerified_example :
    IsVerified one_digest editor
      (fetch_and_verify one_digest editor false none (some (codes "grain")))
    × (false ≡ false → entry_hash_ok editor ≡ true)
fetch_and_verify-IsVerified_example =
    fetch_and_verify-IsVerified one_digest editor false none (some (codes "grain")) fetch_succeeds
