-- ===== src/Examples/Locking.antt =====
-- A lockfile for the editor and its library.
use salt_os.Prelude.{◌≡◌, refl, ◌↔◌, none, some, List, [], ◌∷◌, ◌++◌, Str, codes, str_eq, contains}
use salt_os.Prelude.Int.{pos}
use salt_os.Repo.{sha256_hex_valid, is_lower_hex}
use salt_os.Lock.{
  LockEntry, StratumLock, tables, NativeTable, LockFile, loaded, lock_load, load_natives,
  load_native, load_strata, load_stratum, load_packages, load_pins, has_digest, strip_sha_prefix,
  strip_prefix,
}
use salt_os.Lock.Load.{Pinned, PinnedStrata, lock_load-Pinned}
use salt_os.Lock.Compare.{Query, listed, lock_diff}
use salt_os.Lock.Exit.{IsInSync, lock_diff-zero}
use salt_os.Lock.Apply.{lock_plan}
use salt_os.Lock.Apply.Pins.{IsLockPlan, lock_plan-IsLockPlan}
use salt_os.Examples.{index, digest, two_packages}

abbrev pin : Str → Str → NativeTable
pin name version = record {
  name = some name;
  version = some version;
  grain_sha256 = some (codes "sha256:" ++ digest);
  sha256 = none;
  release = pos 1;
  arch = none;
  repo = none;
  filename = none;
}

abbrev lockfile : LockFile
lockfile = record {
  native = tables (pin (codes "ed") (codes "1.2") ∷ pin (codes "lib") (codes "1.10") ∷ []);
  stratum = tables (
      record {
        name = some (codes "debian");
        family = none;
        package_manager = none;
        packages = tables (
            record {
              name = some (codes "nvim");
              version = some (codes "0.10");
              digest = some (codes "sha256:ab");
            }
            ∷ []);
      }
      ∷ []);
}

abbrev locked_entry : Str → Str → LockEntry
locked_entry name version = record {
  name = name;
  version = version;
  release = pos 1;
  arch = [];
  sha256 = digest;
  repo = codes "current";
  filename = [];
}

abbrev entries : List LockEntry
entries = locked_entry (codes "ed") (codes "1.2") ∷ locked_entry (codes "lib") (codes "1.10") ∷ []

abbrev strata : List StratumLock
strata =
    record {
      name = codes "debian";
      family = [];
      package_manager = [];
      packages =
          record { name = codes "nvim"; version = codes "0.10"; digest = codes "sha256:ab" } ∷ [];
    }
    ∷ []

loads : lock_load (some lockfile) ≡ loaded (entries, strata)
unfolding lock_load load_natives load_native load_strata load_stratum load_packages load_pins
    has_digest strip_sha_prefix strip_prefix sha256_hex_valid is_lower_hex str_eq contains
loads = refl

lock_load-Pinned_example : Pinned [] entries × PinnedStrata [] strata
lock_load-Pinned_example = lock_load-Pinned (some lockfile) entries strata loads

abbrev live : Str → Query
live name =
    listed (
      record { name = codes "nvim"; version = codes "0.10"; digest = some (codes "sha256:ab") }
      ∷ [])

lock_diff-zero_example : (lock_diff two_packages live (some lockfile) ≡ 0) ↔ (
    (es : List LockEntry) × (ss : List StratumLock) × (lock_load (some lockfile) ≡ loaded (es, ss))
    × IsInSync two_packages live es ss)
lock_diff-zero_example = lock_diff-zero two_packages live (some lockfile)

lock_plan-IsLockPlan_example :
    IsLockPlan (some index) two_packages entries (lock_plan (some index) two_packages entries)
lock_plan-IsLockPlan_example = lock_plan-IsLockPlan (some index) two_packages entries
