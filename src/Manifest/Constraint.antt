-- ===== src/Manifest/Constraint.antt =====
-- The constraints of a skill on installed binaries: `validateCliConstraintShape`,
-- `normalizeSemver` and `CrossCheckRequiresCli` (internal/manifest/validate.go). The semver
-- package is a parameter. An error is a value; the source prints the same data in its text.
pub mod CrossCheck
use Prim.Native.Char.{code}
use Prim.Native.String.{◌++◌ as ◌<>◌}
use gcplane.Base.{
  ℕ, String, Bool, true, false, ◌&&◌, ◌||◌, Option, none, some, List, [], ◌∷◌, ◌++◌, ◌==◌, nat_eq,
  if◌then◌else◌,
}
use gcplane.Base.Dict
use gcplane.Base.Dict.{Dict}
use gcplane.Base.Text.{trim_space}
use gcplane.Spec.{Value, string, Fields, end, field, get, as_object}

-- What `validateCliConstraintShape` rejects.
pub data ShapeError : Type 0 where
  empty unsupported missing_version : ShapeError
  invalid_version : String → ShapeError

-- golang.org/x/mod/semver: `IsValid(v)`, and `Compare(v, w) < 0`.
pub record Semver : Type 0 where
  pub is_valid : String → Bool
  pub is_older : String → String → Bool

-- `strings.ContainsAny` for a set of characters, given by their codes.
unfoldable pub contains_any : List ℕ → String → Bool
contains_any codes String.[] = false
contains_any codes (String.◌∷◌ c s) = is_member codes (code c) || contains_any codes s
  where
    is_member : List ℕ → ℕ → Bool
    is_member [] c = false
    is_member (d ∷ ds) c = nat_eq d c || is_member ds c

-- `strings.HasPrefix(s, ">=")`, with the rest of the text.
unfoldable pub after_at_least : String → Option String
after_at_least (String.◌∷◌ c (String.◌∷◌ d s)) =
    if nat_eq (code c) b'>' && nat_eq (code d) b'=' then some s else none
after_at_least _ = none

-- `strings.TrimPrefix(s, ">=")`
unfoldable pub trim_at_least : String → String
unfolding after_at_least
trim_at_least s = elim (after_at_least s) [ none ↦ s | some rest ↦ rest ]

unfoldable pub starts_with_v : String → Bool
starts_with_v String.[] = false
starts_with_v (String.◌∷◌ c s) = nat_eq (code c) b'v' || nat_eq (code c) b'V'

-- `normalizeSemver`
unfoldable pub normalize_semver : String → String
unfolding trim_space starts_with_v
normalize_semver s =
    let t = trim_space s in if t == "" then t else if starts_with_v t then t else "v" <> t

-- How `CrossCheckRequiresCli` ends with an error.
pub data CrossError : Type 0 where
  not_text : String → CrossError
  bad_shape : String → ShapeError → CrossError
  too_old : String → String → String → CrossError

-- What one constraint of shape `>=X.Y` comes to: a binary that is not registered, one that is
-- too old, or one that satisfies it.
pub data Finding : Type 0 where
  satisfied unregistered : Finding
  failed : CrossError → Finding

-- `spec.requires.cli`, empty where it is not a map.
abbrev pub cli_of : Option Fields → Fields
unfolding get
cli_of none = end
cli_of (some reqs) = fields_of (as_object (get reqs "cli"))
  where
    fields_of : Option Fields → Fields
    fields_of none = end
    fields_of (some cli) = cli

-- `want`
unfoldable pub wanted : String → String
unfolding normalize_semver trim_space trim_at_least
wanted constraint = normalize_semver (trim_space (trim_at_least (trim_space constraint)))

module _ (semver : Semver) where
  unfoldable pub version_error : Option String → Option ShapeError
  unfolding trim_space normalize_semver
  version_error none = some unsupported
  version_error (some s) =
      let rest = trim_space s in
      if rest == ""
      then some missing_version
      else if semver.is_valid (normalize_semver rest)
      then none
      else some (invalid_version rest)

  -- `validateCliConstraintShape`: `none` for nil.
  unfoldable pub validate_cli_constraint_shape : String → Option ShapeError
  unfolding trim_space contains_any after_at_least version_error
  validate_cli_constraint_shape text =
      let s = trim_space text in
      if s == ""
      then some empty
      else if contains_any (b'^' ∷ b'~' ∷ []) s
      then some unsupported
      else if contains_any (b',' ∷ []) s
      then some unsupported
      else version_error (after_at_least s)

  unfoldable pub compare_installed : String → String → Option String → Finding
  unfolding wanted normalize_semver
  compare_installed binary constraint none = unregistered
  compare_installed binary constraint (some got) =
      if semver.is_older (normalize_semver got) (wanted constraint)
      then failed (too_old binary got constraint)
      else satisfied

  unfoldable pub check_binary : Dict String → String → Value → Finding
  unfolding validate_cli_constraint_shape compare_installed Dict.get
  check_binary installed binary (string constraint) =
      elim (validate_cli_constraint_shape constraint) [
        | some e ↦ failed (bad_shape binary e)
        | none ↦ compare_installed binary constraint (Dict.get installed binary)
      ]
  check_binary installed binary _ = failed (not_text binary)

  -- The loop over the constraints, in the order in which the map is visited. The result is the
  -- binaries that were warned about and the error.
  unfoldable pub cross_check_from :
      Dict String → List String → Fields → List String × Option CrossError
  unfolding check_binary
  cross_check_from installed warnings end = (warnings, none)
  cross_check_from installed warnings (field binary raw cli) =
      elim (check_binary installed binary raw) [
        | satisfied ↦ cross_check_from installed warnings cli
        | unregistered ↦ cross_check_from installed (warnings ++ binary ∷ []) cli
        | failed e ↦ (warnings, some e)
      ]

  -- `CrossCheckRequiresCli`
  unfoldable pub cross_check_requires_cli : Fields → Dict String → List String × Option CrossError
  unfolding cross_check_from get
  cross_check_requires_cli spec installed =
      cross_check_from installed [] (cli_of (as_object (get spec "requires")))
