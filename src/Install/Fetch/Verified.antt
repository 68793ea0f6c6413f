-- ===== src/Install/Fetch/Verified.antt =====
-- What `fetch_and_verify` guarantees of the file in the cache.
use salt_os.Prelude.{
  ◌≡◌, refl, inl, inr, Bool, true, false, not, ◌&&◌, Option, none, some, arith, Bool-cases, Str,
  str_eq, str_eq_iff,
}
use salt_os.Util.Rc.{ok, err_io, err_verify}
use salt_os.Repo.{RepoEntry, entry_hash_ok}
use salt_os.Install.Fetch.{
  Fetched, is_cached, verify_file, verify_fetched, verify_cached, fetch_and_verify,
}

module _ (digest : Str → Option Str) where
  -- A file is in the cache, its digest is what is returned, and is what the index says if the index
  -- has a digest.
  pub record IsVerified (e : RepoEntry) (r : Fetched) : Type 0 where
    pub bytes : Str
    pub there : r.file ≡ some bytes
    pub hashed : digest bytes ≡ some r.sha_out
    pub matches : entry_hash_ok e ≡ true → r.sha_out ≡ e.sha256

  io_ok : err_io ≡ ok → ⊥
  io_ok h = cc

  verify_ok : err_verify ≡ ok → ⊥
  verify_ok h = cc

  verify_file-IsVerified :
      (e : RepoEntry) (bytes : Str) (d : Option Str)
      → digest bytes ≡ d
      → (verify_file digest e bytes d).rc ≡ ok
      → IsVerified e (verify_file digest e bytes d)
  unfolding verify_file
  verify_file-IsVerified e bytes none k h = absurd (io_ok h)
  verify_file-IsVerified e bytes (some hex) k h =
      elim (Bool-cases (entry_hash_ok e && not (str_eq hex e.sha256))) [
        | inl t ↦ absurd (verify_ok (rw t at h))
        | inr f ↦ rw f (record {
          bytes = bytes;
          there = refl;
          hashed = k;
          matches = λ v. ground (arith, str_eq_iff hex e.sha256);
        })
      ]

  verify_fetched-IsVerified :
      (e : RepoEntry) (file o : Option Str)
      → (verify_fetched digest e file o).rc ≡ ok
      → IsVerified e (verify_fetched digest e file o)
  verify_fetched-IsVerified e file none h = absurd (io_ok h)
  verify_fetched-IsVerified e file (some bytes) h =
      verify_file-IsVerified e bytes (digest bytes) refl h

  verify_cached-IsVerified :
      (e : RepoEntry) (file : Option Str)
      → (verify_cached digest e file).rc ≡ ok
      → IsVerified e (verify_cached digest e file)
  verify_cached-IsVerified e none h = absurd (io_ok h)
  verify_cached-IsVerified e (some bytes) h = verify_file-IsVerified e bytes (digest bytes) refl h

  -- When `fetch_and_verify` succeeds, the cache has a file whose SHA-256 is the one that is
  -- returned. It is the digest of the index if the index has a valid one, and unless unverified
  -- packages are allowed, the index has one.
  pub fetch_and_verify-IsVerified :
      (e : RepoEntry) (allow_unverified : Bool) (file fetched : Option Str)
      → (fetch_and_verify digest e allow_unverified file fetched).rc ≡ ok
      → IsVerified e (fetch_and_verify digest e allow_unverified file fetched)
        × (allow_unverified ≡ false → entry_hash_ok e ≡ true)
  unfolding fetch_and_verify
  fetch_and_verify-IsVerified e allow file fetched h =
      elim (Bool-cases (not (entry_hash_ok e) && not allow)) [
        | inl t ↦ absurd (verify_ok (rw t at h))
        | inr f ↦ elim (Bool-cases (is_cached digest e file)) [
          | inl c ↦
              rw (f, c)
                (verify_cached-IsVerified e file (rw (f, c) at h), λ a. ground (arith, f, a))
          | inr c ↦
              rw (f, c)
                (
                  verify_fetched-IsVerified e file fetched (rw (f, c) at h),
                  λ a. ground (arith, f, a),
                )
        ]
      ]
