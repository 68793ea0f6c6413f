-- ===== src/Examples.antt =====
-- Inputs at which the theorems are applied.
mod Install
mod Recording
mod Gc
mod Repo
mod Quoting
mod Linting
mod Util
mod Archiving
mod Locking
mod Configuring
mod Arguing
mod Transacting
use salt_os.Prelude.{
  ℕ, zero, suc, ◌+◌, ◌-◌, ◌*◌, ◌/◌, ◌%◌, ◌≤◌, ◌<◌, compare, Ordering, max, ◌≡◌, refl, sym, ap, ◌∙◌,
  subst, ◌≢◌, ◌↔◌, ◌⊎◌, inl, inr, ⊎_elim, Bool, true, false, not, ◌&&◌, ◌||◌, Option, none, some,
  List, [], ◌∷◌, ◌++◌, map, arith, ltb, leb, ◌==◌, ==_iff, if◌then◌else◌, &&_eq_true, Bool-cases,
  Option-cases, eq_of_iff, length, filter, any, length-append, mem-cons, mem-append, mem-concat,
  concat-ne_nil, not-mem-nil, mem-filter, Str, codes, str_eq, str_eq_iff, str_eq_refl, contains,
  contains-cons, contains-append, set_insert, set_of, contains-set_insert, contains-set_of, Memᴰ,
}
use salt_os.Prelude.Int.{ℤ, pos}
use salt_os.Repo.{RepoEntry, RepoIndex}
use salt_os.Db.{Db, Stmt}
use salt_os.Db.Rows.{PkgMeta, PkgRow, DepRow, ConflictRow, TxnRow}
use salt_os.Install.Effect.{Artifact}

-- An engine that completes each statement.
abbrev pub completing : Stmt → Db → Bool
completing s db = true

abbrev pub digest : Str
digest = codes "00112233445566778899aabbccddeeff00112233445566778899aabbccddeeff"

abbrev pub entry : Str → Str → List Str → List Str → RepoEntry
entry name version deps conflicts = record {
  name = name;
  version = version;
  release = pos 1;
  arch = codes "x86_64";
  filename = name ++ codes ".grain";
  url = none;
  sha256 = digest;
  size = 10;
  summary = [];
  deps = deps;
  conflicts = conflicts;
}

-- An index with an editor that needs a library, in two versions, and a rival of the editor.
abbrev pub editor : RepoEntry
editor = entry (codes "ed") (codes "1.2") (codes "lib" ∷ []) (codes "vi" ∷ [])

abbrev pub library_old : RepoEntry
library_old = entry (codes "lib") (codes "1.9") [] []

abbrev pub library_new : RepoEntry
library_new = entry (codes "lib") (codes "1.10") [] []

abbrev pub rival : RepoEntry
rival = entry (codes "vi") (codes "9") [] []

abbrev pub index : RepoIndex
index = record {
  items = library_old ∷ editor ∷ library_new ∷ rival ∷ [];
  repo_name = codes "current";
  arch = codes "x86_64";
}

abbrev pub pkg : Str → Str → PkgRow
pkg name version = record {
  name = name;
  version = version;
  release = pos 1;
  arch = codes "x86_64";
  summary = [];
  license = [];
  repo = codes "current";
  sig_status = codes "signed";
  install_time = 5;
  txn_id = 1;
  filename = name ++ codes ".grain";
  sha256 = digest;
}

abbrev pub generation : ℕ → Str → TxnRow
generation id status = record {
  id = id;
  op = codes "install";
  status = status;
  time = 5;
  snapshot = none;
}

-- Nothing is installed.
abbrev pub no_packages : Db
no_packages = record {
  packages = [];
  files = [];
  deps = [];
  conflicts = [];
  hooks = [];
  transactions = [];
  next_id = 1;
}

-- The editor and its library are installed, by three generations.
abbrev pub two_packages : Db
two_packages = record {
  packages = pkg (codes "lib") (codes "1.9") ∷ pkg (codes "ed") (codes "1.2") ∷ [];
  files = [];
  deps = record { name = codes "ed"; dep = codes "lib" } ∷ [];
  conflicts = record { name = codes "ed"; conflict = codes "vi" } ∷ [];
  hooks = [];
  transactions =
      generation 1 (codes "ok")
      ∷ generation 2 (codes "failed")
      ∷ generation 3 (codes "ok")
      ∷ generation 4 (codes "ok")
      ∷ [];
  next_id = 5;
}

-- The archive that an entry describes.
abbrev pub artifact_of : RepoEntry → Artifact
artifact_of e = record {
  meta = record {
    name = e.name;
    version = e.version;
    release = e.release;
    arch = e.arch;
    summary = none;
    license = none;
    deps = e.deps;
    conflicts = e.conflicts;
    hooks = λ k. none;
  };
  manifest = [];
  sha256 = e.sha256;
  sig_status = codes "signed";
}
