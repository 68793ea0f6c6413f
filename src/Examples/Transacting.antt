-- ===== src/Examples/Transacting.antt =====
-- An update whose payload is broken off behind its first file, which is turned back.
use salt_os.Prelude.{
  ℕ, ◌≡◌, refl, sym, ap, ◌∙◌, subst, inl, inr, ⊎_elim, true, false, none, some, [], ◌∷◌, ◌++◌,
  arith, ◌==◌, if◌then◌else◌, mem-cons, Str, codes, str_eq, set_of, Memᴰ,
}
use mathlib.Core.List.Memᴰ
use salt_os.Util.Rc.{Rc, ok, err_format}
use salt_os.Util.{path_is_confined, confined_loop, until_slash, after_slash}
use salt_os.Util.Components.{components, split_slash}
use salt_os.Db.{is_installed, get_pkg, step, apply, allowed}
use salt_os.Db.Ops.{txn_new, txn_finish, txn_set_snapshot, owner, conflicts_with}
use salt_os.Db.Rows.{ManifestEntry}
use salt_os.Db.Manifest.{pkg_manifest, insert_longest}
use salt_os.Txn.Store.{Loc, file, Files, get, del, loc_eq, copy_node, copy_file, write_file}
use salt_os.Txn.{Kernel, backup_file, append_added}
use salt_os.Txn.Extract.{
  TarEntry, extract, extract_entry, extract_node, confine_parent, nearest, parent, strip_from,
  strip_dot_slash,
}
use salt_os.Txn.Archive.{
  Archive, System, prepare, prepare_entry, manifest_is_confined, extract_payload, install_files,
  install_archive,
}
use salt_os.Txn.Saved.{IsPlainAt}
use salt_os.Txn.Copies.{IsPlain}
use salt_os.Txn.Prepared.{loc}
use salt_os.Txn.Listed.{IsPlaceOf}
use salt_os.Txn.Changes.{place}
use salt_os.Install.Args.{TxnFlags}
use salt_os.Install.Checks.{
  NativePlan, check_conflicts, check_dangling, entry_conflicts, declared_conflicts,
  suffered_conflicts, dangling_in,
}
use salt_os.Install.Fetch.{fetch_and_verify, is_cached, verify_file}
use salt_os.Repo.{sha256_hex_valid, is_lower_hex}
use salt_os.Install.Run.{
  Env, opened, install_opened, install_one, remove_each, install_each, transact, conclude, run_txn,
  begin_txn, all_fetched, native_transaction,
}
use salt_os.Install.Run.Going.{Unpacks, Apart, IsArchiveOf}
use salt_os.Install.Run.Atomic.{IsTouched, NoTrace, Reversible, native_transaction-NoTrace}
use salt_os.Db.Rows.{TxnRow}
use salt_os.Db.{Db}
use salt_os.Txn.Direct.{IsLinkAt, Links}
use salt_os.Txn.Store.{link}
use salt_os.Install.Run.Removing.{OldPlace}
use salt_os.Txn.Rollback.{StateDir, Host}
use salt_os.Install.Run.Undone.{begun, state_dir, ended}
use salt_os.Examples.{completing, library_new, two_packages, artifact_of, digest}

abbrev willing : Kernel
willing = record {
  root = λ c fs. true;
  backup = λ c fs. true;
  list_read = λ text. true;
  list_write = λ text. true;
  is_dir = λ l fs. false;
  within = λ l fs. true;
}

abbrev so_path : Str
so_path = codes "so"

abbrev so_entry : ManifestEntry
so_entry = record {
  path = so_path;
  typeflag = b'0';
  mode = 420;
  size = 3;
  sha256 = none;
  linkname = none;
}

-- The payload has the file and then ends with a code.
abbrev library_ending : Rc → Archive
library_ending rc = record {
  meta = (artifact_of library_new).meta;
  manifest = so_entry ∷ [];
  payload = record {
    entries =
        record {
          path = codes "./so";
          typeflag = b'0';
          mode = 420;
          linkname = [];
          bytes = codes "new";
        }
        ∷ [];
    ends = rc;
  };
}

abbrev env_ending : Rc → Env
env_ending rc = record {
  kernel = willing;
  back = willing;
  hook = λ c fs. (ok, fs);
  completes = completing;
  begins = λ db. true;
  commits = λ db. true;
  rolls_back = λ db. true;
  snapshot = λ id. some (codes "txn-7");
  digest = λ bytes. some digest;
  cached = λ e. none;
  downloaded = λ e. some (codes "grain");
  open_archive = λ bytes. some (library_ending rc);
  arch = codes "x86_64";
  repo = codes "current";
  signed_ok = true;
  confirmed = true;
  now = 9;
  post_txn = λ s. s;
}

abbrev env : Env
env = env_ending err_format

abbrev flags : TxnFlags
flags = record {
  allow_unverified = false;
  download_only = false;
  locked = false;
  cascade = false;
  nodeps = false;
  dry_run = false;
  lockfile = [];
}

abbrev plan : NativePlan
plan = record { remove = []; install = library_new ∷ [] }

abbrev old_root : Files
old_root = (codes "so" ∷ [], file 420 (codes "old")) ∷ []

abbrev system : System
system = record { db = two_packages; disk = record { root = old_root; saved = []; added = none } }

exit_code : (native_transaction env flags plan (codes "update") system).0 ≡ 1
unfolding native_transaction check_conflicts entry_conflicts declared_conflicts suffered_conflicts
    conflicts_with str_eq check_dangling dangling_in set_of all_fetched fetch_and_verify
    sha256_hex_valid is_lower_hex is_cached verify_file begin_txn run_txn txn_new step apply allowed
    txn_set_snapshot txn_finish transact remove_each install_each install_one install_opened
    install_archive manifest_is_confined path_is_confined confined_loop until_slash after_slash
    install_files is_installed get_pkg pkg_manifest insert_longest prepare prepare_entry owner
    split_slash get backup_file copy_node copy_file write_file del append_added extract_payload
    extract extract_entry strip_from confine_parent nearest parent extract_node conclude loc_eq
exit_code = refl

-- The place of the file.
so_loc : components so_path ≡ codes "so" ∷ []
unfolding split_slash str_eq
so_loc = refl

payload_loc : components (strip_dot_slash (codes "./so")) ≡ codes "so" ∷ []
unfolding split_slash str_eq strip_from
payload_loc = refl

no_old : pkg_manifest two_packages (codes "lib") ≡ []
unfolding pkg_manifest
no_old = refl

some_injective {ℓ} : {A : Type ℓ} {x y : A} → some x ≡ some y → x ≡ y
some_injective h = cc

not_old : (l : Loc) → IsPlaceOf (pkg_manifest two_packages (codes "lib")) l → ⊥
not_old l (m, i, e) = Memᴰ.not-nil (subst (λ es. Memᴰ m es) no_old i.0)

so_plain : (l : Loc) → IsPlaceOf (so_entry ∷ []) l → IsPlainAt old_root l
unfolding get IsPlain loc_eq str_eq
so_plain l (m, i, e) n g =
    let at : l ≡ codes "so" ∷ [] = sym e ∙ ap loc (Memᴰ.eq_of_singleton i.0) ∙ so_loc in
    let is : some (file 420 (codes "old")) ≡ some n = subst (λ j. get j old_root ≡ some n) at g in
    subst IsPlain (some_injective is) (omega arith)

no_newline : (p : Str) → p ≡ so_path → ¬ Memᴰ 10 p
no_newline p e m =
    ⊎_elim (λ (h : ◌≡◌ {A = ℕ} 10 115). absurd (omega arith))
      (λ r. absurd (omega (arith, Memᴰ.eq_of_singleton r)))
      ((mem-cons 10 115 (111 ∷ [])).0 (subst (Memᴰ 10) e m))

is_open : (rc : Rc) → opened (env_ending rc) flags library_new ≡ some (library_ending rc)
unfolding fetch_and_verify sha256_hex_valid is_lower_hex is_cached verify_file str_eq
is_open rc = refl

library-Unpacks : (rc : Rc) → Unpacks old_root two_packages willing (library_ending rc)
library-Unpacks rc = record {
  lines = λ e i. no_newline e.path (ap (λ (x : ManifestEntry). x.path) (Memᴰ.eq_of_singleton i.0));
  plain = so_plain;
  free = λ l root i. refl;
  covered = λ l (e, i, w, at). (
    so_entry,
    (Memᴰ.head refl, refl),
    so_loc ∙ sym payload_loc ∙ ap place (sym (Memᴰ.eq_of_singleton i)) ∙ at,
  );
  old_plain = λ l i. absurd (not_old l i);
  spelled = λ e m i. absurd (not_old (loc e) (e, i, refl));
}

-- A path of one component is below no directory.
one_component : (p : Loc) (c x : Str) (rest : Loc) → p ++ c ∷ rest ≡ x ∷ [] → p ≡ []
one_component [] c x rest e = refl
one_component (a ∷ []) c x rest e = absurd cc
one_component (a ∷ b ∷ p) c x rest e = absurd cc

no_link : (p : Loc) → p ≡ [] → ¬ IsLinkAt old_root p
unfolding get loc_eq
no_link p e (t, g) =
    let root : get [] old_root ≡ some (link t) = subst (λ q. get q old_root ≡ some (link t)) e g in
    absurd cc

no-Links : (rc : Rc) (p : Loc) → p ≡ [] → ¬ Links (library_ending rc).payload.entries p
no-Links rc p n (e, i, w, at) =
    let plain : e.typeflag ≡ 48 = ap (λ (x : TarEntry). x.typeflag) (Memᴰ.eq_of_singleton i) in
    absurd (omega (arith, plain, w))

only_library :
    (rc : Rc) (ar : Archive)
    → IsArchiveOf old_root two_packages willing (opened (env_ending rc) flags) plan.install ar
    → ar ≡ library_ending rc
only_library rc ar (x, m, o) =
    let at : x ≡ library_new = Memᴰ.eq_of_singleton m in
    some_injective (sym o ∙ ap (opened (env_ending rc) flags) at ∙ is_open rc)

touched_place :
    (rc : Rc) (l : Loc) → IsTouched (env_ending rc) flags plan system l → l ≡ codes "so" ∷ []
touched_place rc l (inl (n, m, o)) = absurd (Memᴰ.not-nil m)
touched_place rc l (inr (ar, a, inl o)) =
    let (m, i, e) = subst (λ (x : Archive). IsPlaceOf x.manifest l) (only_library rc ar a) o in
    sym e ∙ ap loc (Memᴰ.eq_of_singleton i.0) ∙ so_loc
touched_place rc l (inr (ar, a, inr o)) = absurd (
    not_old l
      (subst (λ (x : Archive). OldPlace two_packages x.meta.name l) (only_library rc ar a) o))

update-Reversible : (rc : Rc) → Reversible (env_ending rc) flags plan system
update-Reversible rc = record {
  direct = λ p l t (c, rest, e).
      let top = one_component p c (codes "so") rest (e ∙ touched_place rc l t) in
      (
        no_link p top,
        λ es (ar, a, same) links. no-Links rc p top (
            subst (λ (x : Archive). Links x.payload.entries p) (only_library rc ar a)
              (subst (λ ys. Links ys p) (sym same) links)),
      );
  quiet = λ c fs. refl;
  readable = λ text. refl;
  back = record { root = λ c fs. refl; backup = λ c fs. refl; list_read = λ text. refl };
  rolls_back = λ db. refl;
  removable = λ n m. absurd (Memᴰ.not-nil m);
  installable = (
    λ ar h.
        subst
          (λ a.
            Unpacks old_root two_packages willing a
            × ((b : Archive)
                → IsArchiveOf old_root two_packages willing (opened (env_ending rc) flags) [] b
                → Apart old_root two_packages willing a b))
          (some_injective (sym (is_open rc) ∙ h))
          (library-Unpacks rc, λ b i. absurd (Memᴰ.not-nil i.1)),
    tt,
  );
}

native_transaction-NoTrace_example :
    NoTrace system (native_transaction env flags plan (codes "update") system).1
native_transaction-NoTrace_example =
    native_transaction-NoTrace env flags plan system (update-Reversible err_format) (codes "update")
      (λ h. absurd (omega (arith, sym exit_code ∙ h)))

-- The update with a payload that is whole, and what it leaves.
abbrev whole : Env
whole = env_ending ok

abbrev before : System
before = begun whole flags plan system (update-Reversible ok) 5

abbrev last_txn : TxnRow
last_txn = record {
  id = 5;
  op = codes "update";
  status = codes "ok";
  time = 9;
  snapshot = some (codes "txn-7");
}

-- The database that the update leaves.
abbrev updated : Db
updated = (native_transaction whole flags plan (codes "update") system).1.db

-- The state directory of the fifth transaction, and no other.
abbrev dirs : ℕ → StateDir
dirs n =
    if n == 5
    then state_dir whole flags plan system (update-Reversible ok) 5
    else record { before = none; saved = []; added = none }

abbrev machine : Host
machine = record {
  db = updated;
  root = (ended whole flags plan system (update-Reversible ok) 5).disk.root;
}
