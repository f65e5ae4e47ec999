-- ===== src/Manifest/SkillSpec.antt =====
-- The checks of a Skill's spec: `validateSkillSpec` (internal/manifest/validate.go). Packing the
-- source directory (internal/skillpkg) reads files, and is a parameter.
use gcplane.Base.{
  ℕ, ◌+◌, String, ◌||◌, Option, none, some, List, [], ◌∷◌, ◌++◌, ◌==◌, contains, if◌then◌else◌,
}
use gcplane.Spec.{Value, null, string, slice, Items, nil, item, Fields, end, field, get, as_object}
use gcplane.Manifest.Constraint.{Semver, ShapeError, validate_cli_constraint_shape, cli_of}
use gcplane.Manifest.References.{spec_str}

pub data SkillError : Type 0 where
  bad_choice : String → String → SkillError
  tags_not_list : SkillError
  tag_not_text : ℕ → SkillError
  duplicate_tag : String → SkillError
  bad_source_dir : String → String → SkillError
  cli_not_text : String → SkillError
  bad_cli : String → ShapeError → SkillError

-- `skillVisibilityValues`
abbrev pub skill_visibility_values : List String
skill_visibility_values = "private" ∷ "internal" ∷ "public" ∷ "tenant" ∷ []

-- `skillStatusValues`
abbrev pub skill_status_values : List String
skill_status_values = "active" ∷ "archived" ∷ "deleted" ∷ "draft" ∷ []

-- A field that is given and not empty must be one of the values.
unfoldable pub check_choice : String → List String → Fields → List SkillError
unfolding spec_str contains
check_choice key values spec =
    let v = spec_str spec key in if v == "" || contains values v then [] else bad_choice key v ∷ []

-- The loop over the tags; `seen` holds those before.
unfoldable pub check_tags_from : ℕ → List String → Items → List SkillError
unfolding contains
check_tags_from i seen nil = []
check_tags_from i seen (item (string s) xs) =
    let rest = check_tags_from (i + 1) (s ∷ seen) xs in
    if contains seen s then duplicate_tag s ∷ rest else rest
check_tags_from i seen (item v xs) = tag_not_text i ∷ check_tags_from (i + 1) seen xs

unfoldable pub check_tags : Option Value → List SkillError
unfolding check_tags_from
check_tags none = []
check_tags (some null) = []
check_tags (some (slice xs)) = check_tags_from 0 [] xs
check_tags (some v) = tags_not_list ∷ []

-- `skillpkg.PackDir`, of which the check uses the error only.
unfoldable pub check_source_dir : (String → Option String) → String → List SkillError
check_source_dir pack_dir dir =
    if dir == "" then [] else elim (pack_dir dir) [ none ↦ [] | some e ↦ bad_source_dir dir e ∷ [] ]

module _ (semver : Semver) where
  unfoldable pub check_cli : Fields → List SkillError
  unfolding validate_cli_constraint_shape
  check_cli end = []
  check_cli (field binary (string constraint) cli) =
      let rest = check_cli cli in
      elim (validate_cli_constraint_shape semver constraint) [
        | none ↦ rest
        | some e ↦ bad_cli binary e ∷ rest
      ]
  check_cli (field binary raw cli) = cli_not_text binary ∷ check_cli cli

  -- `validateSkillSpec`
  unfoldable pub validate_skill_spec : (String → Option String) → Option Fields → List SkillError
  unfolding check_choice check_tags check_source_dir check_cli get spec_str
  validate_skill_spec pack_dir none = []
  validate_skill_spec pack_dir (some spec) =
      check_choice "visibility" skill_visibility_values spec
      ++ check_choice "status" skill_status_values spec
      ++ check_tags (get spec "tags")
      ++ check_source_dir pack_dir (spec_str spec "sourceDir")
      ++ check_cli (cli_of (as_object (get spec "requires")))
