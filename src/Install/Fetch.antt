-- ===== src/Install/Fetch.antt =====
-- `fetch_and_verify` of src/salt/cmd_install.cpp: a package reaches the cache with its digest
-- checked.
pub mod Verified
use salt_os.Prelude.{
  ℕ, zero, suc, ◌+◌, ◌-◌, ◌*◌, ◌/◌, ◌%◌, ◌≤◌, ◌<◌, compare, Ordering, max, ◌≡◌, refl, sym, ap, ◌∙◌,
  subst, ◌≢◌, ◌↔◌, ◌⊎◌, inl, inr, ⊎_elim, Bool, true, false, not, ◌&&◌, ◌||◌, Option, none, some,
  List, [], ◌∷◌, ◌++◌, map, arith, ltb, leb, ◌==◌, ==_iff, if◌then◌else◌, &&_eq_true, Bool-cases,
  Option-cases, eq_of_iff, length, filter, any, length-append, mem-cons, mem-append, mem-concat,
  concat-ne_nil, not-mem-nil, mem-filter, Str, codes, str_eq, str_eq_iff, str_eq_refl, contains,
  contains-cons, contains-append, set_insert, set_of, contains-set_insert, contains-set_of, Memᴰ,
}
use salt_os.Util.Rc.{Rc, ok, err_io, err_verify}
use salt_os.Repo.{RepoEntry, entry_hash_ok}

-- The return code, the file in the cache afterwards, and `sha_out`.
pub record Fetched : Type 0 where
  pub rc : Rc
  pub file : Option Str
  pub sha_out : Str

-- `digest` is `salt_sha256_file` on the bytes of a file, none if they cannot be read.
module _ (digest : Str → Option Str) where
  abbrev pub digest_is : Option Str → Str → Bool
  digest_is none sha = false
  digest_is (some hex) sha = str_eq hex sha

  -- `cached`
  unfoldable pub is_cached : RepoEntry → Option Str → Bool
  is_cached e none = false
  is_cached e (some bytes) = entry_hash_ok e && digest_is (digest bytes) e.sha256

  -- The tests of a file that is in the cache.
  unfoldable pub verify_file : RepoEntry → Str → Option Str → Fetched
  verify_file e bytes none = record { rc = err_io; file = some bytes; sha_out = [] }
  verify_file e bytes (some hex) =
      if entry_hash_ok e && not (str_eq hex e.sha256)
      then record { rc = err_verify; file = none; sha_out = [] }
      else record { rc = ok; file = some bytes; sha_out = hex }

  abbrev pub verify_fetched : RepoEntry → Option Str → Option Str → Fetched
  verify_fetched e file none = record { rc = err_io; file = file; sha_out = [] }
  verify_fetched e file (some bytes) = verify_file e bytes (digest bytes)

  abbrev pub verify_cached : RepoEntry → Option Str → Fetched
  verify_cached e none = record { rc = err_io; file = none; sha_out = [] }
  verify_cached e (some bytes) = verify_file e bytes (digest bytes)

  -- `fetch_and_verify`; `file` is what the cache has, `fetched` what the download gives, none if it
  -- fails, which leaves the cache as it is.
  unfoldable pub fetch_and_verify : RepoEntry → Bool → Option Str → Option Str → Fetched
  fetch_and_verify e allow_unverified file fetched =
      if not (entry_hash_ok e) && not allow_unverified
      then record { rc = err_verify; file = file; sha_out = [] }
      else if is_cached e file
      then verify_cached e file
      else verify_fetched e file fetched
