-- ===== src/Trust.antt =====
-- The lint of recipes in src/halite/src/trust.c: `lint_common`. Lua evaluates a recipe, so its value
-- is an input.
pub mod Blocks
pub mod Admitted
use salt_os.Prelude.{
  ℕ, zero, suc, ◌+◌, ◌-◌, ◌*◌, ◌/◌, ◌%◌, ◌≤◌, ◌<◌, compare, Ordering, max, ◌≡◌, refl, sym, ap, ◌∙◌,
  subst, ◌≢◌, ◌↔◌, ◌⊎◌, inl, inr, ⊎_elim, Bool, true, false, not, ◌&&◌, ◌||◌, Option, none, some,
  List, [], ◌∷◌, ◌++◌, map, arith, ltb, leb, ◌==◌, ==_iff, if◌then◌else◌, &&_eq_true, Bool-cases,
  Option-cases, eq_of_iff, length, filter, any, length-append, mem-cons, mem-append, mem-concat,
  concat-ne_nil, not-mem-nil, mem-filter, Str, codes, str_eq, str_eq_iff, str_eq_refl, contains,
  contains-cons, contains-append, set_insert, set_of, contains-set_insert, contains-set_of, Memᴰ,
}
use salt_os.Prelude.Int.{ℤ, pos, negsuc}
use salt_os.Util.Rc.{Rc, ok, err_format, err_notfound}
use salt_os.Toml.Parsed.{Value}
use salt_os.Toml.Strings.{is_xdigit}
use salt_os.Toml.Query.{toml_path, toml_as_string, toml_as_int, array_strings}

-- `salt_risk_severity`
pub data Severity : Type 0 where
  info warn block : Severity

-- `salt_finding`
pub record Finding : Type 0 where
  severity : Severity
  code : Str
  message : Str

-- `salt_findings_push` under a condition.
unfoldable pub report : Bool → Severity → Str → Str → List Finding
report b severity code message =
    if b then record { severity = severity; code = code; message = message } ∷ [] else []

abbrev pub is_block : Severity → Bool
is_block info = false
is_block warn = false
is_block block = true

-- `salt_findings_has_block`
unfoldable pub has_block : List Finding → Bool
has_block [] = false
has_block (f ∷ fs) = is_block f.severity || has_block fs

-- The findings of one check after the other.
unfoldable pub in_order : List (List Finding) → List Finding
in_order [] = []
in_order (fs ∷ more) = fs ++ in_order more

unfoldable pub all_xdigits : Str → Bool
all_xdigits [] = true
all_xdigits (c ∷ s) = is_xdigit c && all_xdigits s

-- `is_hex64`
unfoldable pub is_hex64 : Str → Bool
is_hex64 s = length s == 64 && all_xdigits s

unfoldable pub is_absent : Option Str → Bool
is_absent none = true
is_absent (some s) = false

-- `!s || !s[0]`
unfoldable pub lacks_text : Option Str → Bool
lacks_text none = true
lacks_text (some []) = true
lacks_text (some (c ∷ s)) = false

-- `salt_toml_int(t, "release", 0) < 1`
abbrev below_one : ℤ → Bool
below_one (pos n) = ltb n 1
below_one (negsuc n) = true

-- `strncmp(url ? url : "", "file://", 7) == 0`
unfoldable begins : Str → Str → Bool
begins [] s = true
begins (c ∷ p) [] = false
begins (c ∷ p) (d ∷ s) = c == d && begins p s

unfoldable pub is_local : Option Str → Bool
unfolding begins
is_local none = false
is_local (some url) = begins (codes "file://") url

abbrev pub is_unknown_arch : Str → Bool
is_unknown_arch a = not (str_eq a (codes "x86_64")) && not (str_eq a (codes "aarch64"))

unfoldable pub lint_archs : List Str → List Finding
lint_archs [] = []
lint_archs (a ∷ more) =
    report (is_unknown_arch a) Severity.warn (codes "arch-unknown") a ++ lint_archs more

unfoldable pub listed_archs : Option (List Str) → List Str
listed_archs none = []
listed_archs (some archs) = archs

unfoldable pub is_nil : List Str → Bool
is_nil [] = true
is_nil (a ∷ more) = false

-- The checksum of the source.
unfoldable pub lint_sha : Option Str → Option Str → List Finding
lint_sha url none =
    report (not (is_local url)) Severity.block (codes "source-sha") (codes "missing source.sha256")
lint_sha url (some []) =
    report (not (is_local url)) Severity.block (codes "source-sha") (codes "missing source.sha256")
lint_sha url (some (c ∷ sha)) =
    report (not (is_hex64 (c ∷ sha))) Severity.block (codes "source-sha-fmt")
      (codes "source.sha256 is not a 64 hex digit checksum")

-- The status of the reproducibility and the reason for it.
unfoldable pub lint_repro : Option Str → Option Str → List Finding
lint_repro none reason =
    report true Severity.warn (codes "repro") (codes "missing reproducibility.status")
lint_repro (some status) reason =
    if str_eq status (codes "unverified")
    then report (lacks_text reason) Severity.warn (codes "repro-reason")
        (codes "unverified reproducibility needs a reason")
    else report (not (str_eq status (codes "verified"))) Severity.warn (codes "repro-status")
        (codes "unknown reproducibility.status")

module _ (strtol : Str → ℤ × Str) where
  -- `salt_toml_string` with NULL for a text that is missing.
  abbrev pub text_at : Value → Str → Option Str
  text_at t key = toml_as_string (toml_path strtol t key)

  abbrev pub archs_at : Value → List Str
  archs_at t = listed_archs (array_strings (toml_path strtol t (codes "arch")))

  abbrev has_none : Option Value → Bool
  has_none none = true
  has_none (some v) = false

  -- What is found in a recipe that evaluates, in order.
  unfoldable pub lint_recipe : Value → List Finding
  lint_recipe t = in_order (
      report (is_absent (text_at t (codes "name"))) Severity.block (codes "name")
        (codes "missing name")
      ∷ report (is_absent (text_at t (codes "version"))) Severity.block (codes "version")
          (codes "missing version")
      ∷ report (below_one (toml_as_int (toml_path strtol t (codes "release")) (pos 0)))
          Severity.warn (codes "release") (codes "release should be >= 1")
      ∷ report (is_nil (archs_at t)) Severity.block (codes "arch") (codes "no arch declared")
      ∷ lint_archs (archs_at t)
      ∷ report (lacks_text (text_at t (codes "license"))) Severity.block (codes "license")
          (codes "missing license")
      ∷ report (lacks_text (text_at t (codes "source.url"))) Severity.block (codes "source-url")
          (codes "missing source.url")
      ∷ lint_sha (text_at t (codes "source.url")) (text_at t (codes "source.sha256"))
      ∷ report (has_none (toml_path strtol t (codes "build.deps"))) Severity.warn
          (codes "build-deps") (codes "no build deps declared")
      ∷ lint_repro (text_at t (codes "reproducibility.status"))
          (text_at t (codes "reproducibility.reason"))
      ∷ [])

  -- `lint_common`: the file may be missing, and may not evaluate, with the message `error`.
  unfoldable pub lint_common : Option (Option Value) → Str → List Finding → Rc × List Finding
  lint_common none error out = (
    err_notfound,
    out ++ report true Severity.block (codes "no-recipe") (codes "recipe.lua not found"),
  )
  lint_common (some none) error out =
      (err_format, out ++ report true Severity.block (codes "parse") error)
  lint_common (some (some t)) error out = (ok, out ++ lint_recipe t)
