-- ===== src/Manifest/Kind.antt =====
-- `ResourceKind` and its constants (internal/manifest/types.go, internal/manifest/validate.go). A
-- kind is a text in the source too: a manifest may name a kind that is none of the constants.
use gcplane.Base.{String, List, [], ◌∷◌}

abbrev pub ResourceKind : Type 0
ResourceKind = String

abbrev pub tenant : ResourceKind
tenant = "Tenant"

abbrev pub provider : ResourceKind
provider = "Provider"

abbrev pub agent : ResourceKind
agent = "Agent"

abbrev pub channel : ResourceKind
channel = "Channel"

abbrev pub cron_job : ResourceKind
cron_job = "CronJob"

abbrev pub mcp_server : ResourceKind
mcp_server = "MCPServer"

abbrev pub skill : ResourceKind
skill = "Skill"

abbrev pub agent_team : ResourceKind
agent_team = "AgentTeam"

abbrev pub builtin_tool_config : ResourceKind
builtin_tool_config = "BuiltinToolConfig"

abbrev pub skill_config : ResourceKind
skill_config = "SkillConfig"

abbrev pub mcp_credentials : ResourceKind
mcp_credentials = "MCPCredentials"

abbrev pub system_config : ResourceKind
system_config = "SystemConfig"

abbrev pub secure_cli : ResourceKind
secure_cli = "SecureCLI"

abbrev pub secure_cli_grant : ResourceKind
secure_cli_grant = "SecureCLIGrant"

abbrev pub agent_link : ResourceKind
agent_link = "AgentLink"

abbrev pub workstation : ResourceKind
workstation = "Workstation"

-- `validKinds`
abbrev pub valid_kinds : List ResourceKind
valid_kinds =
    tenant ∷ provider ∷ agent ∷ channel ∷ cron_job ∷ mcp_server ∷ skill ∷ agent_team
    ∷ builtin_tool_config ∷ skill_config ∷ system_config ∷ mcp_credentials ∷ secure_cli
    ∷ secure_cli_grant ∷ agent_link ∷ workstation ∷ []

-- `ApplyOrder`
unfoldable pub apply_order : List ResourceKind
apply_order =
    tenant ∷ provider ∷ agent ∷ skill ∷ builtin_tool_config ∷ skill_config ∷ system_config
    ∷ mcp_server ∷ mcp_credentials ∷ channel ∷ cron_job ∷ secure_cli ∷ secure_cli_grant ∷ agent_team
    ∷ agent_link ∷ workstation ∷ []
