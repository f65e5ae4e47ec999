-- ===== src/Tests/Manifests.antt =====
-- The manifest theorems at concrete data.
use gcplane.Base.{
  String, true, not, ◌&&◌, ◌≡◌, refl, ◌↔◌, Option, none, some, [], ◌∷◌, ◌==◌, all, contains,
}
use gcplane.Base.Dict
use gcplane.Base.Dict.{Dict}
use gcplane.Base.Text.{trim_space}
use gcplane.Spec.{Fields, end, field, string, object, get, as_object}
use gcplane.Manifest.Kind.{agent}
use gcplane.Manifest.References.{
  validate_references, spec_str, indexed, check_name, check_field, problems_of,
}
use gcplane.Manifest.References.Soundness.{is_linked, validate_references_iff}
use gcplane.Manifest.Constraint.{
  Semver, CrossError, cross_check_requires_cli, validate_cli_constraint_shape, wanted,
  normalize_semver, cli_of, contains_any, after_at_least, version_error, trim_at_least,
  starts_with_v,
}
use gcplane.Manifest.Constraint.CrossCheck.{
  missing, cross_check_requires_cli_accepts, cross_check_requires_cli_refuses,
}
use gcplane.Manifest.Validate.{
  validate, check_resources, check_resource, check_resource_name, uid, matches_key, key_rest,
  is_lower_or_digit,
}
use gcplane.Manifest.Validate.Acceptance.{is_valid, validate_iff}
use gcplane.Reconciler.Engine.{reconcile}
use gcplane.Reconciler.Engine.Coverage.{count_changes}
use gcplane.Reconciler.Engine.Validated.{reconcile_validated}
use gcplane.Tests.Memory.{runtime, memory}
use gcplane.Tests.Engine.{manifest, rows, real_opts}

-- A version is valid if it is not empty, and versions are compared as texts of one digit.
abbrev semver : Semver
semver = record { is_valid = λ v. not (v == ""); is_older = λ v w. v == "v1" && w == "v2" }

abbrev pack_dir : String → Option String
pack_dir dir = none

abbrev skill_spec : Fields
skill_spec =
    field "requires"
      (object
        (field "cli" (object (field "gh" (string ">=2") (field "jq" (string ">=1") end))) end))
      end

abbrev installed : Dict String
installed = ("gh", "2") ∷ []

-- A version that the constraint on gh rejects.
abbrev old : Dict String
old = ("gh", "1") ∷ []

validate_references_iff_example :
    (validate_references manifest.resources ≡ [])
    ↔ (all (is_linked manifest.resources) manifest.resources ≡ true)
validate_references_iff_example = validate_references_iff manifest.resources

validate_iff_example :
    (validate semver pack_dir manifest ≡ []) ↔ (is_valid semver pack_dir manifest ≡ true)
validate_iff_example = validate_iff semver pack_dir manifest

cross_check_requires_cli_accepts_example :
    cross_check_requires_cli semver skill_spec installed
    ≡ (missing semver installed (cli_of (as_object (get skill_spec "requires"))), none)
unfolding validate_cli_constraint_shape wanted normalize_semver contains_any after_at_least
    version_error trim_at_least starts_with_v trim_space Dict.get get
cross_check_requires_cli_accepts_example =
    cross_check_requires_cli_accepts semver installed skill_spec refl

cross_check_requires_cli_refuses_example :
    (e : CrossError) × ((cross_check_requires_cli semver skill_spec old).1 ≡ some e)
unfolding validate_cli_constraint_shape wanted normalize_semver contains_any after_at_least
    version_error trim_at_least starts_with_v trim_space Dict.get get
cross_check_requires_cli_refuses_example =
    cross_check_requires_cli_refuses semver old skill_spec refl

accepted : validate semver pack_dir manifest ≡ []
unfolding validate check_resources check_resource check_resource_name uid matches_key key_rest
    is_lower_or_digit validate_references problems_of check_field check_name spec_str indexed
    contains get
accepted = refl

one_warning : cross_check_requires_cli semver skill_spec installed ≡ ("jq" ∷ [], none)
unfolding cross_check_requires_cli validate_cli_constraint_shape wanted normalize_semver
    contains_any after_at_least version_error trim_at_least starts_with_v trim_space Dict.get get
one_warning = refl

reconcile_validated_example :
    count_changes agent "bot" (reconcile runtime memory manifest real_opts rows).plan.changes ≡ 1
reconcile_validated_example =
    reconcile_validated semver pack_dir runtime memory manifest real_opts rows agent "bot" accepted
      refl
