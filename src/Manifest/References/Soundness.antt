-- ===== src/Manifest/References/Soundness.antt =====
-- The references of a resource, read off a table, and what the validator finds of them.
use mathlib.Core.Path.{subst}
use gcplane.Base.{
  ℕ, ◌+◌, String, Bool, true, false, ◌&&◌, ◌||◌, ◌≡◌, refl, sym, Option, none, some, List, [], ◌∷◌,
  ◌++◌, ◌==◌, map, all, if◌then◌else◌, Bool-cases, inl, inr, ◌↔◌, eq_iff, arith,
}
use gcplane.Spec.{Fields, get, as_object}
use gcplane.Manifest.Kind.{
  ResourceKind, agent, provider, channel, cron_job, mcp_server, secure_cli, secure_cli_grant,
  agent_team, agent_link,
}
use gcplane.Manifest.Resource.{Resource, spec_fields}
use gcplane.Manifest.References.{
  split_agent_link_name, spec_str, spec_str_slice, slice_of, indexed, check_name, check_field,
  check_agents, check_half, check_link, problems_of, reference_error, reference_errors,
  validate_references,
}

-- A reference: the kind and the name of what is referred to.
abbrev pub Reference : Type 0
Reference = ResourceKind × String

-- The fields that name one resource: the kind that has the field, the field, and the kind it names.
abbrev pub field_table : List (ResourceKind × String × ResourceKind)
field_table =
    (agent, "provider", provider)
    ∷ (channel, "agentKey", agent)
    ∷ (cron_job, "agentKey", agent)
    ∷ (secure_cli_grant, "agentKey", agent)
    ∷ (secure_cli_grant, "binaryName", secure_cli)
    ∷ (agent_team, "lead", agent)
    ∷ []

abbrev pub named : ResourceKind → String → List Reference
named kind name = if name == "" then [] else (kind, name) ∷ []

abbrev pub field_references :
    List (ResourceKind × String × ResourceKind) → ResourceKind → Fields → List Reference
field_references [] kind spec = []
field_references ((owner, field, target) ∷ rows) kind spec =
    let rest = field_references rows kind spec in
    if kind == owner then named target (spec_str spec field) ++ rest else rest

-- The lists of agents: the grants of an MCP server, and the members of a team.
abbrev pub agent_names : ResourceKind → Fields → List String
agent_names kind spec =
    if kind == mcp_server
    then slice_of (as_object (get spec "grants")) "agents"
    else if kind == agent_team
    then spec_str_slice spec "members"
    else []

abbrev pub halves : Option (String × String) → List Reference
halves none = []
halves (some (a, b)) = (agent, a) ∷ (agent, b) ∷ []

-- The references of a resource of a kind that the validator checks, by name and spec.
abbrev pub references : ResourceKind → String → Fields → List Reference
references kind name spec =
    field_references field_table kind spec
    ++ map (λ n. (agent, n)) (agent_names kind spec)
    ++ (if kind == agent_link then halves (split_agent_link_name name) else [])

abbrev agrees : String → String → Bool
agrees value half = value == "" || value == half

abbrev halves_agree : Option (String × String) → Fields → Bool
halves_agree none spec = false
halves_agree (some (a, b)) spec =
    agrees (spec_str spec "sourceAgent") a && agrees (spec_str spec "targetAgent") b

-- A link's name splits in two, and the fields that repeat its halves do.
abbrev pub link_agrees : ResourceKind → String → Fields → Bool
link_agrees kind name spec =
    if kind == agent_link then halves_agree (split_agent_link_name name) spec else true

module _ (resources : List Resource) where
  -- Whether a reference is to a resource that the manifest declares.
  abbrev pub is_declared : Reference → Bool
  is_declared (kind, name) = indexed resources kind name

  -- Whether everything that a resource refers to is declared, and a link agrees with its name.
  abbrev pub is_linked : Resource → Bool
  is_linked r =
      all is_declared (references r.kind r.name (spec_fields r.spec))
      && link_agrees r.kind r.name (spec_fields r.spec)

abbrev pub is_empty {ℓ} : {A : Type ℓ} → List A → Bool
is_empty [] = true
is_empty (x ∷ xs) = false

pub is_empty_iff {ℓ} : {A : Type ℓ} (xs : List A) → (xs ≡ []) ↔ (is_empty xs ≡ true)
is_empty_iff xs = ground arith

pub is_empty-append {ℓ} :
    {A : Type ℓ} (xs ys : List A) → is_empty (xs ++ ys) ≡ (is_empty xs && is_empty ys)
is_empty-append [] ys = refl
is_empty-append (x ∷ xs) ys = refl

pub is_empty-map {ℓ} : {A B : Type ℓ} (f : A → B) (xs : List A) → is_empty (map f xs) ≡ is_empty xs
is_empty-map f [] = refl
is_empty-map f (x ∷ xs) = refl

and_true : (b : Bool) → (b && true) ≡ b
and_true b = ground arith

all-append {ℓ} :
    {A : Type ℓ} (p : A → Bool) (xs ys : List A) → all p (xs ++ ys) ≡ (all p xs && all p ys)
all-append p [] ys = refl
all-append p (x ∷ xs) ys = ground (arith, all-append p xs ys)

module _ (resources : List Resource) where
  is_empty-check_name :
      (place : String) (kind : ResourceKind) (name : String)
      → is_empty (check_name resources place kind name) ≡ indexed resources kind name
  unfolding check_name
  is_empty-check_name place kind name = ground arith

  is_empty-check_field :
      (field : String) (kind : ResourceKind) (spec : Fields)
      → is_empty (check_field resources field kind spec)
        ≡ all (is_declared resources) (named kind (spec_str spec field))
  unfolding check_field check_name
  is_empty-check_field field kind spec = ground arith

  is_empty-check_agents :
      (place : String) (names : List String)
      → is_empty (check_agents resources place names)
        ≡ all (is_declared resources) (map (λ n. (agent, n)) names)
  unfolding check_agents
  is_empty-check_agents place [] = refl
  is_empty-check_agents place (n ∷ names) = rw (
    is_empty-append (check_name resources place agent n) (check_agents resources place names),
    is_empty-check_name place agent n,
    is_empty-check_agents place names,
  )

  is_empty-check_link :
      (split : Option (String × String)) (spec : Fields)
      → is_empty (check_link resources split spec)
        ≡ (all (is_declared resources) (halves split) && halves_agree split spec)
  unfolding check_link check_half check_name
  is_empty-check_link none spec = refl
  is_empty-check_link (some (a, b)) spec = ground arith

  -- The equation that the kinds' lemmas prove.
  abbrev Reported : ResourceKind → String → Fields → Type 0
  Reported kind name spec =
      is_empty (problems_of resources kind name spec)
      ≡ (all (is_declared resources) (references kind name spec) && link_agrees kind name spec)

  ruleset reports = (
    is_empty-check_field, is_empty-check_agents, is_empty-check_link, is_empty-append, all-append,
    and_true,
  )

  agent-Reported : (name : String) (spec : Fields) → Reported agent name spec
  unfolding problems_of
  agent-Reported name spec = simp reports

  channel-Reported : (name : String) (spec : Fields) → Reported channel name spec
  unfolding problems_of
  channel-Reported name spec = simp reports

  cron_job-Reported : (name : String) (spec : Fields) → Reported cron_job name spec
  unfolding problems_of
  cron_job-Reported name spec = simp reports

  mcp_server-Reported : (name : String) (spec : Fields) → Reported mcp_server name spec
  unfolding problems_of
  mcp_server-Reported name spec = simp reports

  secure_cli_grant-Reported : (name : String) (spec : Fields) → Reported secure_cli_grant name spec
  unfolding problems_of
  secure_cli_grant-Reported name spec = simp reports

  agent_team-Reported : (name : String) (spec : Fields) → Reported agent_team name spec
  unfolding problems_of
  agent_team-Reported name spec = simp reports

  agent_link-Reported : (name : String) (spec : Fields) → Reported agent_link name spec
  unfolding problems_of
  agent_link-Reported name spec = simp reports

  other-Reported :
      (kind name : String) (spec : Fields)
      → (kind == agent) ≡ false
      → (kind == channel) ≡ false
      → (kind == cron_job) ≡ false
      → (kind == mcp_server) ≡ false
      → (kind == secure_cli_grant) ≡ false
      → (kind == agent_team) ≡ false
      → (kind == agent_link) ≡ false
      → Reported kind name spec
  unfolding problems_of
  other-Reported kind name spec a c j m g t l = rw (a, c, j, m, g, t, l) refl

  at_kind :
      (kind owner name : String) (spec : Fields)
      → (kind == owner) ≡ true
      → Reported owner name spec
      → Reported kind name spec
  at_kind kind owner name spec e h =
      subst (λ k. Reported k name spec) (sym ((eq_iff kind owner).0 e)) h

  problems_of-Reported : (kind name : String) (spec : Fields) → Reported kind name spec
  problems_of-Reported kind name spec = elim (Bool-cases (kind == agent)) [
    | inl e ↦ at_kind kind agent name spec e (agent-Reported name spec)
    | inr a ↦ elim (Bool-cases (kind == channel)) [
      | inl e ↦ at_kind kind channel name spec e (channel-Reported name spec)
      | inr c ↦ elim (Bool-cases (kind == cron_job)) [
        | inl e ↦ at_kind kind cron_job name spec e (cron_job-Reported name spec)
        | inr j ↦ elim (Bool-cases (kind == mcp_server)) [
          | inl e ↦ at_kind kind mcp_server name spec e (mcp_server-Reported name spec)
          | inr m ↦ elim (Bool-cases (kind == secure_cli_grant)) [
            | inl e ↦
                at_kind kind secure_cli_grant name spec e (secure_cli_grant-Reported name spec)
            | inr g ↦ elim (Bool-cases (kind == agent_team)) [
              | inl e ↦ at_kind kind agent_team name spec e (agent_team-Reported name spec)
              | inr t ↦ elim (Bool-cases (kind == agent_link)) [
                | inl e ↦ at_kind kind agent_link name spec e (agent_link-Reported name spec)
                | inr l ↦ other-Reported kind name spec a c j m g t l
              ]
            ]
          ]
        ]
      ]
    ]
  ]

  is_empty-reference_errors :
      (rs : List Resource) (i : ℕ)
      → is_empty (reference_errors resources i rs) ≡ all (is_linked resources) rs
  unfolding reference_errors
  is_empty-reference_errors [] i = refl
  is_empty-reference_errors (r ∷ rs) i = rw (
    is_empty-append
        (map (reference_error resources i r)
          (problems_of resources r.kind r.name (spec_fields r.spec)))
        (reference_errors resources (i + 1) rs),
    is_empty-map (reference_error resources i r)
        (problems_of resources r.kind r.name (spec_fields r.spec)),
    problems_of-Reported r.kind r.name (spec_fields r.spec),
    is_empty-reference_errors rs (i + 1),
  )

pub is_empty-validate_references :
    (resources : List Resource)
    → is_empty (validate_references resources) ≡ all (is_linked resources) resources
unfolding validate_references
is_empty-validate_references resources = is_empty-reference_errors resources resources 0

-- The validator reports no reference error exactly when the manifest declares the provider of each
-- agent, the agent of each channel, cron job and CLI grant, the binary of each CLI grant, the agents
-- granted each MCP server, the lead and the members of each team and the two agents of each link,
-- where they are given, and each link's name splits in two halves that its fields repeat where they
-- are given. The agents that a skill or a workstation names are not checked.
pub validate_references_iff :
    (resources : List Resource)
    → (validate_references resources ≡ []) ↔ (all (is_linked resources) resources ≡ true)
unfolding validate_references
validate_references_iff resources =
    rw (sym (is_empty-reference_errors resources resources 0)) (is_empty_iff _)
