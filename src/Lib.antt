-- ===== src/Lib.antt =====
-- Verification of saltOS, the package manager `salt` and its library halite.
--
-- A repository publishes an index of packages (src/halite/src/repo.c). `salt install`, `update` and
-- `remove` (src/salt/cmd_install.cpp) turn names into a plan: the newest entries and their
-- dependencies, or the packages that depend on the arguments. A plan is checked for conflicts and
-- for dependencies that it would break, and is then carried out against the package database
-- (src/halite/src/db.c). Each run is a generation; the garbage collector (src/halite/src/gc.c)
-- prunes old ones and the cached packages that nothing refers to. A transaction saves the files that
-- it changes, so that it can be turned back (src/halite/src/txn.c). Indices, metadata and lockfiles
-- are TOML, which the library writes and parses itself (src/halite/src/toml.c).
--
-- Files and sources:
--   Prelude          byte strings, Booleans, lists, integers, sets as sorted lists
--   Util             src/halite/src/util.c: salt_path_is_confined, salt_join_path; Util/Rc has the
--                    return codes, Util/Confined and Util/Join what the paths mean
--   Repo             src/halite/src/repo.c: salt_vercmp (Repo/Vercmp), salt_repo_index_find,
--                    salt_repo_index_find_exact, salt_repo_index_verify
--   Toml             src/halite/src/toml.c: the strings (Toml/Strings), the values (Toml/Values),
--                    the documents (Toml/Document) and the queries (Toml/Query); the quoting and
--                    the lists of src/halite/src/repo.c and src/halite/src/pkg.c (Toml/Quote)
--   Db               src/halite/src/db.c: the tables and the statements (Db), the rows (Db/Rows),
--                    the operations (Db/Ops), the tables that they leave (Db/Ops/Record),
--                    salt_db_pkg_manifest and salt_db_pkg_hook (Db/Manifest)
--   Install          src/salt/cmd_install.cpp: resolve (Install/Resolve), check_conflicts and
--                    check_dangling (Install/Checks), order_by_deps and native_remove
--                    (Install/Order), the effect of a plan on the database (Install/Effect),
--                    parse_txn_flags and parse_pkgref (Install/Args), the targets of an update
--                    (Install/Update), fetch_and_verify (Install/Fetch), install_one and
--                    native_transaction (Install/Run)
--   Txn              src/halite/src/txn.c: the store of files (Txn/Store), backup_file and
--                    restore_tree (Txn), the extraction of src/halite/src/tar.c (Txn/Extract),
--                    salt_install_archive and salt_remove_pkg (Txn/Archive),
--                    salt_txn_revert_files and salt_rollback_last (Txn/Rollback); the others prove
--                    that whatever a transaction changes is saved first
--   Trust            src/halite/src/trust.c: lint_common, on the value to which Lua evaluates a recipe
--   Gc               src/halite/src/gc.c: salt_gc_run over the generations, which are the database,
--                    the state directories and the snapshots, and over the cache
--   Lock             src/salt/cmd_lock.cpp: lock_load (Lock), compare_lock, compare_stratum and
--                    lock_diff (Lock/Compare), the plan of lock_apply (Lock/Apply)
--   Setup            src/setup/config.cpp: set_value (Setup), the members of Config
--                    (Setup/Members), validate (Setup/Valid), parse_cli (Setup/Cli)
--   Tar              src/halite/src/tar.c: octal and parse_octal
--   Examples         inputs at which the theorems are applied
--
-- Strings are lists of bytes without the final 0. A table is a list of rows in the order of
-- insertion; SQLite is a parameter that says which statements complete, and a theorem that needs
-- all of them to complete says so. A `std::set` is a list with the test `contains`, and where its
-- order matters the sorted list `set_insert` builds. File access, /proc and the digests of files
-- are inputs of the definitions that use them.
--
-- Fuel: `salt_vercmp` and `salt_path_is_confined` have one round for each byte and one more;
-- `resolve` one call for each entry of the index, one for a name that it lacks, and the first; the
-- depth-first searches one call more than there are names; the cascade one round for each
-- argument and each package and one more. The theorems state results, so these are enough.
--
-- The parser of TOML takes a unit of fuel for each call and each round of a loop. It has results,
-- the failures that the source reports, and one of its own for too little fuel. The texts that the
-- library writes take fuel by their lengths; there are others for which none is enough.
--
-- The files of a root are a list of nodes by location, a location being a list of components;
-- directories are not recorded, and are made where they are missing; owners and times are not either.
-- Locations are compared by their components: a path whose directory part has a symbolic link, which
-- the kernel follows, leads elsewhere, and the theorems on transactions are about paths that have
-- none, in the root and in the payloads (Txn/Direct). What the kernel says to a
-- write, a removal, a copy or a link is a parameter, and so are the hooks, which are programs; a
-- theorem about a rollback has one kernel for the transaction and one for the way back. What the
-- deployments do after a success is a parameter too. What the cache has for an entry is an input for
-- each entry, so a file that two entries name is not shared between their downloads.
-- `Install/Effect` has the database calls of a plan without its files, and `Install/Run/Recorded`
-- compares them with `transact`, the loops of `native_transaction` with files and hooks.
--
-- A lockfile pins packages; `salt lock diff` compares it with the system, and `salt install
-- --locked` makes a plan from it. Its TOML tables are records of what is read from them.
-- `salt-setup` assembles a configuration and validates it; `strtod` is a parameter, as `strtol` and
-- `strtoll` are for TOML.
--
-- Not modelled: the transport of downloads, the opening and building of archives, deployments, the
-- management of strata, the trust database, the dispatch of commands and the installation of a
-- system, which are calls of the kernel or of other programs or are still to be done, and the
-- libraries that halite calls.
mod Prelude
pub mod Util
pub mod Repo
pub mod Db
pub mod Install
pub mod Gc
pub mod Examples
pub mod Lock
pub mod Setup
pub mod Tar
pub mod Txn
pub mod Toml
pub mod Trust
