-- ===== src/Manifest/WriteOnly.antt =====
-- The fields that a manifest declares and the backend never returns
-- (internal/manifest/field_config.go), and the annotations that steer the reconciler
-- (internal/manifest/annotations.go).
use gcplane.Base.{
  String, Bool, Option, none, some, List, [], ◌∷◌, ◌==◌, filter, map, not, contains, if◌then◌else◌,
  or_empty,
}
use gcplane.Base.Dict
use gcplane.Base.Dict.{Dict}
use gcplane.Base.Text.{split, trim_space}
use gcplane.Manifest.Kind.{
  ResourceKind, tenant, provider, agent, channel, cron_job, mcp_server, skill, agent_team,
  builtin_tool_config, skill_config, system_config, mcp_credentials, secure_cli, secure_cli_grant,
  agent_link, workstation,
}

-- `writeOnlyFields`
abbrev write_only_table : Dict (List String)
write_only_table =
    (tenant, [])
    ∷ (provider, "apiKey" ∷ [])
    ∷ (
      agent,
      "contextFiles" ∷ "systemPrompt" ∷ "toolsConfig" ∷ "sandboxConfig" ∷ "subagentsConfig"
          ∷ "memoryConfig" ∷ "compactionConfig" ∷ "contextPruning" ∷ "otherConfig"
          ∷ "reasoningConfig" ∷ "workspaceSharing" ∷ "chatgptOauthRouting" ∷ "shellDenyGroups"
          ∷ "kgDedupConfig" ∷ [],
    )
    ∷ (channel, "agentKey" ∷ "credentials" ∷ "config" ∷ [])
    ∷ (mcp_server, "grants" ∷ "headers" ∷ [])
    ∷ (cron_job, "agentKey" ∷ "message" ∷ [])
    ∷ (agent_team, "lead" ∷ "members" ∷ "displayName" ∷ [])
    ∷ (skill, "sourceDir" ∷ "version" ∷ [])
    ∷ (builtin_tool_config, [])
    ∷ (skill_config, [])
    ∷ (system_config, [])
    ∷ (mcp_credentials, "credentials" ∷ [])
    ∷ (secure_cli, "env" ∷ [])
    ∷ (secure_cli_grant, "agentKey" ∷ "binaryName" ∷ [])
    ∷ (agent_link, "sourceAgent" ∷ "targetAgent" ∷ "settings" ∷ [])
    ∷ (
      workstation,
      "privateKey" ∷ "knownHostsFingerprint" ∷ "host" ∷ "port" ∷ "user" ∷ "connectTimeoutSec"
          ∷ "allowlist" ∷ "agents" ∷ [],
    )
    ∷ []

-- `WriteOnlyFields`: nil for a kind that the table lacks.
unfoldable pub write_only_fields : ResourceKind → List String
unfolding Dict.get
write_only_fields kind = or_empty (Dict.get write_only_table kind)

-- `SupportsWriteOnlyHash`
unfoldable pub supports_write_only_hash : ResourceKind → Bool
unfolding contains
supports_write_only_hash kind = contains (cron_job ∷ provider ∷ agent ∷ []) kind

abbrev pub annotation_ignore_write_only : String
annotation_ignore_write_only = "gcplane.io/ignore-write-only"

abbrev pub annotation_ignore_fields : String
annotation_ignore_fields = "gcplane.io/ignore-fields"

abbrev pub annotation_sync_policy : String
annotation_sync_policy = "gcplane.io/sync-policy"

abbrev pub sync_policy_ignore : String
sync_policy_ignore = "Ignore"

-- Reading a `map[string]string`: the empty text where the key is missing.
abbrev pub text_or_empty : Option String → String
text_or_empty none = ""
text_or_empty (some s) = s

-- `ParseIgnoreFields`
unfoldable pub parse_ignore_fields : Dict String → List String
unfolding Dict.get split trim_space
parse_ignore_fields annotations =
    let val = text_or_empty (Dict.get annotations annotation_ignore_fields) in
    if val == "" then [] else filter (λ f. not (f == "")) (map trim_space (split b',' val))
