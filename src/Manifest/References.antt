-- ===== src/Manifest/References.antt =====
-- The cross-resource references of a manifest (internal/manifest/validate_refs.go). An error is a
-- value here; the source prints the same data in its text.
pub mod Soundness
pub mod Precedence
use gcplane.Base.{
  ℕ, ◌+◌, String, Bool, true, false, ◌&&◌, ◌||◌, Option, none, some, List, [], ◌∷◌, ◌++◌, ◌==◌, map,
  if◌then◌else◌,
}
use gcplane.Base.Text.{split_dashes}
use gcplane.Spec.{
  Value, string, slice, Items, nil, item, Fields, get, as_string, as_object, as_slice,
}
use gcplane.Manifest.Kind.{
  ResourceKind, agent, provider, channel, cron_job, mcp_server, secure_cli, secure_cli_grant,
  agent_team, agent_link,
}
use gcplane.Manifest.Resource.{Resource, spec_fields}
use gcplane.Manifest.WriteOnly.{text_or_empty}

-- `splitAgentLinkName`: `none` for its error.
unfoldable pub split_agent_link_name : String → Option (String × String)
split_agent_link_name name = elim (split_dashes name) [
  | a ∷ b ∷ [] ↦ if a == "" || b == "" then none else some (a, b)
  | _ ↦ none
]

-- `specStr`
unfoldable pub spec_str : Fields → String → String
unfolding get
spec_str spec key = text_or_empty (as_string (get spec key))

-- The texts among the items, in their order.
unfoldable pub texts : Items → List String
texts nil = []
texts (item (string s) xs) = s ∷ texts xs
texts (item v xs) = texts xs

abbrev pub texts_of : Option Items → List String
unfolding texts
texts_of none = []
texts_of (some xs) = texts xs

-- `specStrSlice`
unfoldable pub spec_str_slice : Fields → String → List String
unfolding get texts
spec_str_slice spec key = texts_of (as_slice (get spec key))

abbrev pub slice_of : Option Fields → String → List String
unfolding spec_str_slice
slice_of none key = []
slice_of (some fs) key = spec_str_slice fs key

-- What is wrong with one resource: a reference to something that is not declared (its place, the
-- kind and the name), a malformed link name, or a field that disagrees with the link's name.
pub data Problem : Type 0 where
  undeclared : String → ResourceKind → String → Problem
  bad_link_name : Problem
  mismatch : String → String → String → Problem

pub record ReferenceError : Type 0 where
  pub index : ℕ
  pub kind : ResourceKind
  pub name : String
  pub problem : Problem

-- `index[kind][name]`
unfoldable pub indexed : List Resource → ResourceKind → String → Bool
indexed [] kind name = false
indexed (r ∷ rs) kind name = (r.kind == kind && r.name == name) || indexed rs kind name

module _ (resources : List Resource) where
  -- An error where the name is not in the index.
  unfoldable pub check_name : String → ResourceKind → String → List Problem
  check_name place kind name =
      if indexed resources kind name then [] else undeclared place kind name ∷ []

  -- The check of a field that names one resource, if it is not empty.
  unfoldable pub check_field : String → ResourceKind → Fields → List Problem
  unfolding check_name spec_str
  check_field field kind spec =
      let ref = spec_str spec field in if ref == "" then [] else check_name field kind ref

  -- The check of a list of agents.
  unfoldable pub check_agents : String → List String → List Problem
  unfolding check_name
  check_agents place [] = []
  check_agents place (name ∷ names) = check_name place agent name ++ check_agents place names

  -- A field of a link that is given must repeat its half of the name.
  unfoldable pub check_half : String → String → String → List Problem
  check_half field value half =
      if value == "" || value == half then [] else mismatch field value half ∷ []

  unfoldable pub check_link : Option (String × String) → Fields → List Problem
  unfolding check_half check_name spec_str
  check_link none spec = bad_link_name ∷ []
  check_link (some (source, target)) spec =
      check_half "sourceAgent" (spec_str spec "sourceAgent") source
      ++ check_half "targetAgent" (spec_str spec "targetAgent") target
      ++ check_name "sourceAgent" agent source
      ++ check_name "targetAgent" agent target

  -- The `switch` on the kind.
  unfoldable pub problems_of : ResourceKind → String → Fields → List Problem
  unfolding check_field check_agents check_link split_agent_link_name
  problems_of kind name spec =
      if kind == agent
      then check_field "provider" provider spec
      else if kind == channel
      then check_field "agentKey" agent spec
      else if kind == cron_job
      then check_field "agentKey" agent spec
      else if kind == mcp_server
      then check_agents "grants" (slice_of (as_object (get spec "grants")) "agents")
      else if kind == secure_cli_grant
      then check_field "agentKey" agent spec ++ check_field "binaryName" secure_cli spec
      else if kind == agent_team
      then check_field "lead" agent spec ++ check_agents "members" (spec_str_slice spec "members")
      else if kind == agent_link
      then check_link (split_agent_link_name name) spec
      else []

  reference_error : ℕ → Resource → Problem → ReferenceError
  reference_error i r p = record { index = i; kind = r.kind; name = r.name; problem = p }

  -- The loop over the resources.
  unfoldable pub reference_errors : ℕ → List Resource → List ReferenceError
  unfolding problems_of reference_error
  reference_errors i [] = []
  reference_errors i (r ∷ rs) =
      map (λ p. reference_error i r p) (problems_of r.kind r.name (spec_fields r.spec))
      ++ reference_errors (i + 1) rs

-- `validateReferences`
unfoldable pub validate_references : List Resource → List ReferenceError
unfolding reference_errors
validate_references resources = reference_errors resources 0 resources
