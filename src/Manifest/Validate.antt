-- ===== src/Manifest/Validate.antt =====
-- `Validate` of internal/manifest/validate.go. An error is a value here; the source prints the
-- same data in its text.
pub mod Acceptance
use Prim.Native.Char.{code}
use Prim.Native.String.{◌++◌ as ◌<>◌}
use gcplane.Base.{
  ℕ, suc, ◌+◌, String, Bool, true, false, not, ◌&&◌, ◌||◌, Option, none, some, List, [], ◌∷◌, ◌++◌,
  ◌==◌, map, leb, nat_eq, contains, if◌then◌else◌,
}
use gcplane.Spec.{Fields}
use gcplane.Manifest.Kind.{ResourceKind, skill, system_config, valid_kinds}
use gcplane.Manifest.Resource.{Resource, Manifest}
use gcplane.Manifest.Constraint.{Semver}
use gcplane.Manifest.SkillSpec.{SkillError, validate_skill_spec}
use gcplane.Manifest.References.{ReferenceError, validate_references}

-- `[a-z0-9]`, by a character's code.
unfoldable pub is_lower_or_digit : ℕ → Bool
is_lower_or_digit c = (leb b'a' c && leb c b'z') || (leb b'0' c && leb c b'9')

-- The rest of a match of `keyRe`: characters of `[a-z0-9-]`, the last no hyphen. The Boolean
-- tells whether the text may end here.
unfoldable pub key_rest : Bool → String → Bool
unfolding is_lower_or_digit
key_rest may_end String.[] = may_end
key_rest may_end (String.◌∷◌ c s) =
    (is_lower_or_digit (code c) || nat_eq (code c) b'-') && key_rest (is_lower_or_digit (code c)) s

-- `keyRe.MatchString`
unfoldable pub matches_key : String → Bool
unfolding key_rest is_lower_or_digit
matches_key String.[] = false
matches_key (String.◌∷◌ c s) = is_lower_or_digit (code c) && key_rest true s

-- `[a-zA-Z0-9._-]`
unfoldable pub is_sys_config_char : ℕ → Bool
unfolding is_lower_or_digit
is_sys_config_char c =
    is_lower_or_digit c
    || (leb b'A' c && leb c b'Z')
    || nat_eq c b'.'
    || nat_eq c b'_'
    || nat_eq c b'-'

-- How many characters a text has, and whether each is of the class.
abbrev text_length : String → ℕ
text_length String.[] = 0
text_length (String.◌∷◌ c s) = suc (text_length s)

unfoldable pub sys_config_chars : String → Bool
unfolding is_sys_config_char
sys_config_chars String.[] = true
sys_config_chars (String.◌∷◌ c s) = is_sys_config_char (code c) && sys_config_chars s

-- `sysConfigKeyRe.MatchString`
unfoldable pub matches_sys_config_key : String → Bool
unfolding sys_config_chars
matches_sys_config_key s = sys_config_chars s && leb 1 (text_length s) && leb (text_length s) 100

-- What is wrong with one resource.
pub data Defect : Type 0 where
  unknown_kind : Defect
  name_required bad_sys_config_name bad_name : Defect
  duplicate_resource : String → Defect
  spec_required : Defect
  bad_skill : SkillError → Defect

-- What is wrong with a manifest.
pub data ValidationError : Type 0 where
  unsupported_api_version : String → ValidationError
  unsupported_kind : String → ValidationError
  in_resource : ℕ → Defect → ValidationError
  in_reference : ReferenceError → ValidationError

-- An error where a test fails.
abbrev pub require {ℓ} : {A : Type ℓ} → Bool → A → List A
require true e = []
require false e = e ∷ []

-- The branches on the name.
unfoldable pub check_resource_name : ResourceKind → String → List Defect
unfolding matches_key matches_sys_config_key
check_resource_name kind name =
    if name == ""
    then name_required ∷ []
    else if kind == system_config
    then require (matches_sys_config_key name) bad_sys_config_name
    else require (matches_key name) bad_name

-- `uid`
unfoldable pub uid : Resource → String
uid r = r.kind <> "/" <> r.name

abbrev pub is_given : Option Fields → Bool
is_given none = false
is_given (some spec) = true

module _ (semver : Semver) (pack_dir : String → Option String) where
  -- The loop's body, given the uids before.
  unfoldable pub check_resource : List String → Resource → List Defect
  unfolding check_resource_name contains uid validate_skill_spec
  check_resource seen r =
      require (contains valid_kinds r.kind) unknown_kind
      ++ check_resource_name r.kind r.name
      ++ require (not (contains seen (uid r))) (duplicate_resource (uid r))
      ++ require (is_given r.spec) spec_required
      ++ (if r.kind == skill
          then map bad_skill (validate_skill_spec semver pack_dir r.spec)
          else [])

  unfoldable pub check_resources : ℕ → List String → List Resource → List ValidationError
  unfolding check_resource uid
  check_resources i seen [] = []
  check_resources i seen (r ∷ rs) =
      map (in_resource i) (check_resource seen r) ++ check_resources (i + 1) (uid r ∷ seen) rs

  -- `Validate`
  unfoldable pub validate : Manifest → List ValidationError
  unfolding check_resources validate_references
  validate m =
      require (m.api_version == "gcplane.io/v1") (unsupported_api_version m.api_version)
      ++ require (m.kind == "Manifest") (unsupported_kind m.kind)
      ++ check_resources 0 [] m.resources
      ++ map in_reference (validate_references m.resources)
