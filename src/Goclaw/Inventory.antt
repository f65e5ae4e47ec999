-- ===== src/Goclaw/Inventory.antt =====
-- The listing of every kind: `ListAll` of internal/provider/goclaw/provider.go.
use Prim.Native.String.{◌++◌ as ◌<>◌}
use gcplane.Base.{List, [], ◌∷◌, ◌==◌, if◌then◌else◌, contains}
use gcplane.Manifest.Kind.{
  ResourceKind, tenant, provider, agent, channel, mcp_server, skill, cron_job, agent_team,
  builtin_tool_config, skill_config, mcp_credentials, system_config, secure_cli, secure_cli_grant,
  agent_link, workstation,
}
use gcplane.Reconciler.Types.{ResourceInfo}
use gcplane.Goclaw.Io.{plain, Env, Goclaw, pure, fail}
use gcplane.Goclaw.Listing.{
  list_all_tenants, list_all_providers, list_all_agents, list_all_channels, list_all_mcp_servers,
  list_all_skills, list_all_cron_jobs, list_all_teams, list_all_secure_clis, list_all_agent_links,
  list_all_workstations,
}

module _ (E : Env) where
  -- `ListAll`; configurations and child resources are not listed.
  unfoldable pub list_all : ResourceKind → Goclaw E (List ResourceInfo)
  unfolding contains list_all_tenants list_all_providers list_all_agents list_all_channels
      list_all_mcp_servers list_all_skills list_all_cron_jobs list_all_teams list_all_secure_clis
      list_all_agent_links list_all_workstations
  list_all kind =
      if kind == tenant
      then list_all_tenants E
      else if kind == provider
      then list_all_providers E
      else if kind == agent
      then list_all_agents E
      else if kind == channel
      then list_all_channels E
      else if kind == mcp_server
      then list_all_mcp_servers E
      else if kind == skill
      then list_all_skills E
      else if kind == cron_job
      then list_all_cron_jobs E
      else if kind == agent_team
      then list_all_teams E
      else if kind == secure_cli
      then list_all_secure_clis E
      else if kind == agent_link
      then list_all_agent_links E
      else if kind == workstation
      then list_all_workstations E
      else if contains
          (builtin_tool_config ∷ skill_config ∷ system_config ∷ mcp_credentials ∷ secure_cli_grant
            ∷ [])
          kind
      then pure []
      else fail (plain ("list not implemented for kind " <> kind))
