-- ===== src/Manifest/References/Precedence.antt =====
-- The references and the order in which kinds are applied and deleted.
use gcplane.Base.{String, Bool, true, false, ◌≡◌, List, [], ◌∷◌, ◌==◌, map, contains, if◌then◌else◌}
use gcplane.Spec.{Fields, get, as_object}
use gcplane.Manifest.Kind.{
  ResourceKind, agent, mcp_server, mcp_credentials, skill, skill_config, workstation, apply_order,
}
use gcplane.Manifest.Order.{delete_order}
use gcplane.Manifest.References.{spec_str_slice, slice_of}
use gcplane.Manifest.References.Soundness.{Reference}

-- Whether the first kind stands in the order, and the second after it.
abbrev pub precedes : List ResourceKind → ResourceKind → ResourceKind → Bool
unfolding contains
precedes [] k l = false
precedes (j ∷ js) k l = if j == k then contains js l else precedes js k l

-- A reference from a kind goes to a kind that is applied before it and deleted after it.
abbrev pub IsOrdered : ResourceKind → Reference → Type 0
IsOrdered owner (target, name) =
    (precedes apply_order target owner ≡ true) × (precedes delete_order owner target ≡ true)

-- The claim for a pair of kinds, without the name.
abbrev Ordered : ResourceKind → ResourceKind → Type 0
Ordered owner target = IsOrdered owner (target, "")

-- Each row of a table goes to an earlier kind.
abbrev RowsOrdered : List (ResourceKind × String × ResourceKind) → Type 0
RowsOrdered [] = Unit
RowsOrdered ((owner, field, target) ∷ rows) = Ordered owner target × RowsOrdered rows

-- What the provider looks up for a resource beside the references that the validator checks: the
-- agents that a skill or a workstation is for, the server of its credentials and the skill of its
-- configuration, by the resource's own name.
abbrev pub unchecked_references : ResourceKind → String → Fields → List Reference
unchecked_references kind name spec =
    if kind == skill
    then map (λ n. (agent, n)) (slice_of (as_object (get spec "grants")) "agents")
    else if kind == workstation
    then map (λ n. (agent, n)) (spec_str_slice spec "agents")
    else if kind == mcp_credentials
    then (mcp_server, name) ∷ []
    else if kind == skill_config
    then (skill, name) ∷ []
    else []
