-- ===== src/Manifest/Validate/Acceptance.antt =====
-- Which manifests `Validate` accepts.
use gcplane.Base.{
  ℕ, ◌+◌, String, Bool, true, false, ◌&&◌, not, ◌≡◌, refl, sym, Option, List, [], ◌∷◌, ◌==◌, map,
  all, contains, if◌then◌else◌, ◌↔◌, eq_iff, arith,
}
use gcplane.Manifest.Kind.{ResourceKind, skill, system_config, valid_kinds}
use gcplane.Manifest.Resource.{Resource, Manifest}
use gcplane.Manifest.Constraint.{Semver}
use gcplane.Manifest.SkillSpec.{validate_skill_spec}
use gcplane.Manifest.References.Soundness.{
  is_linked, is_empty, is_empty_iff, is_empty-append, is_empty-map, is_empty-validate_references,
}
use gcplane.Manifest.Validate.{
  matches_key, matches_sys_config_key, check_resource_name, require, uid, is_given, check_resource,
  check_resources, validate, in_resource,
}

-- A name that fits the kind.
abbrev pub is_name : ResourceKind → String → Bool
is_name kind name =
    not (name == "")
    && (if kind == system_config then matches_sys_config_key name else matches_key name)

-- No two resources have the same kind and name, written `kind/name`.
abbrev pub are_distinct : List Resource → Bool
are_distinct [] = true
are_distinct (r ∷ rs) = not (contains (map uid rs) (uid r)) && are_distinct rs

module _ (semver : Semver) (pack_dir : String → Option String) where
  -- What `Validate` asks of each resource alone.
  abbrev pub is_well_formed : Resource → Bool
  is_well_formed r =
      contains valid_kinds r.kind
      && is_name r.kind r.name
      && is_given r.spec
      && (if r.kind == skill then is_empty (validate_skill_spec semver pack_dir r.spec) else true)

  -- What it asks of a manifest.
  abbrev pub is_valid : Manifest → Bool
  is_valid m =
      m.api_version == "gcplane.io/v1"
      && m.kind == "Manifest"
      && all is_well_formed m.resources
      && are_distinct m.resources
      && all (is_linked m.resources) m.resources

is_empty-require : {A : Type 0} (b : Bool) (e : A) → is_empty (require b e) ≡ b
is_empty-require true e = refl
is_empty-require false e = refl

is_empty-check_resource_name :
    (kind : ResourceKind) (name : String)
    → is_empty (check_resource_name kind name) ≡ is_name kind name
unfolding check_resource_name
is_empty-check_resource_name kind name = ground arith

-- A text that is none of a list's is none of them in either order.
is_fresh : List String → List Resource → Bool
is_fresh seen rs = all (λ r. not (contains seen (uid r))) rs

is_fresh-nil : (rs : List Resource) → is_fresh [] rs ≡ true
unfolding is_fresh contains
is_fresh-nil [] = refl
is_fresh-nil (r ∷ rs) = is_fresh-nil rs

is_fresh-cons :
    (rs : List Resource) (u : String) (seen : List String)
    → is_fresh (u ∷ seen) rs ≡ (not (contains (map uid rs) u) && is_fresh seen rs)
unfolding is_fresh contains
is_fresh-cons [] u seen = refl
is_fresh-cons (r ∷ rs) u seen =
    ground (arith, is_fresh-cons rs u seen, eq_iff u (uid r), eq_iff (uid r) u)

is_empty-skill_part :
    {A B : Type 0} (b : Bool) (f : A → B) (xs : List A)
    → is_empty (if b then map f xs else []) ≡ (if b then is_empty xs else true)
is_empty-skill_part true f xs = is_empty-map f xs
is_empty-skill_part false f xs = refl

put_last : (a b c d e : Bool) → (a && b && c && d && e) ≡ (a && b && d && e && c)
put_last a b c d e = ground arith

flatten : (a b c d e : Bool) → (a && b && (c && d && true) && e) ≡ (a && b && c && d && e)
flatten a b c d e = ground arith

pair_up : (a b c d e f : Bool) → (a && b && (c && d && (e && f))) ≡ (a && c && (e && d) && (b && f))
pair_up a b c d e f = ground arith

module _ (semver : Semver) (pack_dir : String → Option String) where
  is_empty-check_resource :
      (seen : List String) (r : Resource)
      → is_empty (check_resource semver pack_dir seen r)
        ≡ (is_well_formed semver pack_dir r && not (contains seen (uid r)))
  unfolding check_resource
  is_empty-check_resource seen r =
      simp (is_empty-append, is_empty-require, is_empty-check_resource_name, is_empty-skill_part)
        (put_last (contains valid_kinds r.kind) (is_name r.kind r.name)
          (not (contains seen (uid r))) (is_given r.spec)
          (if r.kind == skill then is_empty (validate_skill_spec semver pack_dir r.spec) else true))

  is_empty-check_resources :
      (rs : List Resource) (i : ℕ) (seen : List String)
      → is_empty (check_resources semver pack_dir i seen rs)
        ≡ (all (is_well_formed semver pack_dir) rs && are_distinct rs && is_fresh seen rs)
  unfolding check_resources is_fresh
  is_empty-check_resources [] i seen = refl
  is_empty-check_resources (r ∷ rs) i seen =
      rw
        (
          is_empty-append (map (in_resource i) (check_resource semver pack_dir seen r))
              (check_resources semver pack_dir (i + 1) (uid r ∷ seen) rs),
          is_empty-map (in_resource i) (check_resource semver pack_dir seen r),
          is_empty-check_resource seen r,
          is_empty-check_resources rs (i + 1) (uid r ∷ seen),
          is_fresh-cons rs (uid r) seen,
        )
        (pair_up (is_well_formed semver pack_dir r) (not (contains seen (uid r)))
          (all (is_well_formed semver pack_dir) rs) (are_distinct rs)
          (not (contains (map uid rs) (uid r))) (is_fresh seen rs))

  is_empty-validate :
      (m : Manifest) → is_empty (validate semver pack_dir m) ≡ is_valid semver pack_dir m
  unfolding validate
  is_empty-validate m =
      simp
        (
          is_empty-append, is_empty-map, is_empty-require, is_empty-check_resources,
          is_empty-validate_references, is_fresh-nil,
        )
        (flatten (m.api_version == "gcplane.io/v1") (m.kind == "Manifest")
          (all (is_well_formed semver pack_dir) m.resources) (are_distinct m.resources)
          (all (is_linked m.resources) m.resources))

  -- Validate reports no error exactly for the manifests with the supported version and kind, in
  -- which each resource is well formed by itself, no two have the same kind and name, and each
  -- checked reference is to a declared resource: the provider of an agent, the agent of a channel, a
  -- cron job or a CLI grant, the binary of a CLI grant, the agents granted an MCP server, the lead and
  -- the members of a team, and the two agents of a link. The agents that a skill or a workstation
  -- names are not checked.
  pub validate_iff :
      (m : Manifest) → (validate semver pack_dir m ≡ []) ↔ (is_valid semver pack_dir m ≡ true)
  unfolding validate
  validate_iff m = rw (sym (is_empty-validate m)) (is_empty_iff _)

last_three :
    (a b c d e : Bool) → (a && b && c && d && e) ≡ true → (c ≡ true) × (d ≡ true) × (e ≡ true)
last_three a b c d e h = ground arith

-- What acceptance says of the resources.
pub validate-parts :
    (semver : Semver) (pack_dir : String → Option String) (m : Manifest)
    → validate semver pack_dir m ≡ []
    → (all (is_well_formed semver pack_dir) m.resources ≡ true)
      × (are_distinct m.resources ≡ true)
      × (all (is_linked m.resources) m.resources ≡ true)
validate-parts semver pack_dir m accepted =
    last_three (m.api_version == "gcplane.io/v1") (m.kind == "Manifest")
      (all (is_well_formed semver pack_dir) m.resources) (are_distinct m.resources)
      (all (is_linked m.resources) m.resources) ((validate_iff semver pack_dir m).0 accepted)
