-- ===== src/Goclaw/Dispatch.antt =====
-- Four of the provider's operations (internal/provider/goclaw/provider.go); its ListAll stands in
-- Goclaw/Inventory. The handlers of
-- skills are a parameter.
pub mod Idempotence
use Prim.Native.String.{◌++◌ as ◌<>◌}
use gcplane.Base.{
  String, Bool, true, false, ◌&&◌, not, Option, none, some, List, [], ◌==◌, if◌then◌else◌, contains,
  ◌∷◌,
}
use gcplane.Spec.{Value, string, Fields, put}
use gcplane.Manifest.Kind.{
  ResourceKind, tenant, provider, agent, channel, mcp_server, skill, cron_job, agent_team,
  builtin_tool_config, skill_config, mcp_credentials, system_config, secure_cli, secure_cli_grant,
  agent_link, workstation,
}
use gcplane.Reconciler.Types.{ResourceInfo}
use gcplane.Goclaw.Io.{Error, plain, Env, State, Outcome, Goclaw, pure, fail, ◌>>=◌}
use gcplane.Goclaw.Tenants.{
  resolve_tenant_uuid, observe_tenant, create_tenant, update_tenant, delete_tenant,
}
use gcplane.Goclaw.Resources.{
  observe_provider, create_provider, update_provider, delete_provider, observe_agent, create_agent,
  update_agent, delete_agent, observe_channel_instance, create_channel_instance,
  update_channel_instance, delete_channel_instance,
}
use gcplane.Goclaw.Sockets.{
  observe_cron_job, create_cron_job, update_cron_job, delete_cron_job, observe_team, create_team,
  update_team, delete_team,
}
use gcplane.Goclaw.Links.{
  observe_agent_link, create_agent_link, update_agent_link, delete_agent_link,
}
use gcplane.Goclaw.Cli.{
  observe_secure_cli, create_secure_cli, update_secure_cli, delete_secure_cli,
  observe_secure_cli_grant, create_secure_cli_grant, update_secure_cli_grant,
  delete_secure_cli_grant,
}
use gcplane.Goclaw.Configs.{
  observe_builtin_tool_config, observe_skill_config, observe_system_config,
  create_builtin_tool_config, create_skill_config, create_system_config, update_builtin_tool_config,
  update_skill_config, update_system_config, delete_builtin_tool_config, delete_skill_config,
  delete_system_config,
}
use gcplane.Goclaw.Workstations.{
  observe_workstation, create_workstation, update_workstation, delete_workstation,
}
use gcplane.Goclaw.Servers.{
  observe_mcp_server, observe_mcp_credentials, create_mcp_server, create_mcp_credentials,
  update_mcp_server, update_mcp_credentials, delete_mcp_server, delete_mcp_credentials,
}

-- The kind whose handlers are the parameter.
unfoldable pub is_other : ResourceKind → Bool
is_other kind = kind == skill

pub record Handlers (E : Env) : Type 0 where
  pub observe : ResourceKind → String → Goclaw E (Option Fields)
  pub create : ResourceKind → String → Fields → Goclaw E (Unit {0})
  pub update : ResourceKind → String → Fields → Goclaw E (Unit {0})
  pub delete : ResourceKind → String → Goclaw E (Unit {0})

module _ (E : Env) (others : Handlers E) where
  abbrev unsupported : {A : Type 0} → String → ResourceKind → Goclaw E A
  unsupported operation kind = fail (plain (operation <> " not implemented for kind " <> kind))

  -- `Observe`
  unfoldable pub observe : ResourceKind → String → Goclaw E (Option Fields)
  unfolding is_other observe_workstation observe_mcp_server observe_builtin_tool_config
      observe_skill_config observe_mcp_credentials observe_system_config observe_tenant
      observe_provider observe_agent observe_channel_instance observe_cron_job observe_team
      observe_secure_cli observe_secure_cli_grant observe_agent_link
  observe kind key =
      if kind == tenant
      then observe_tenant E key
      else if kind == provider
      then observe_provider E key
      else if kind == agent
      then observe_agent E key
      else if kind == channel
      then observe_channel_instance E key
      else if kind == cron_job
      then observe_cron_job E key
      else if kind == agent_team
      then observe_team E key
      else if kind == secure_cli
      then observe_secure_cli E key
      else if kind == secure_cli_grant
      then observe_secure_cli_grant E key
      else if kind == agent_link
      then observe_agent_link E key
      else if kind == mcp_server
      then observe_mcp_server E key
      else if kind == builtin_tool_config
      then observe_builtin_tool_config E key
      else if kind == skill_config
      then observe_skill_config E key
      else if kind == mcp_credentials
      then observe_mcp_credentials E key
      else if kind == system_config
      then observe_system_config E key
      else if kind == workstation
      then observe_workstation E key
      else if is_other kind
      then others.observe kind key
      else unsupported "observe" kind

  -- The `switch` of `Create`.
  unfoldable pub create_handler : ResourceKind → String → Fields → Goclaw E (Unit {0})
  unfolding is_other create_workstation create_mcp_server create_builtin_tool_config
      create_skill_config create_mcp_credentials create_system_config create_tenant create_provider
      create_agent create_channel_instance create_cron_job create_team create_secure_cli
      create_secure_cli_grant create_agent_link
  create_handler kind key spec =
      if kind == tenant
      then create_tenant E key spec
      else if kind == provider
      then create_provider E key spec
      else if kind == agent
      then create_agent E key spec
      else if kind == channel
      then create_channel_instance E key spec
      else if kind == cron_job
      then create_cron_job E key spec
      else if kind == agent_team
      then create_team E key spec
      else if kind == secure_cli
      then create_secure_cli E key spec
      else if kind == secure_cli_grant
      then create_secure_cli_grant E key spec
      else if kind == agent_link
      then create_agent_link E key spec
      else if kind == mcp_server
      then create_mcp_server E key spec
      else if kind == builtin_tool_config
      then create_builtin_tool_config E key spec
      else if kind == skill_config
      then create_skill_config E key spec
      else if kind == mcp_credentials
      then create_mcp_credentials E key spec
      else if kind == system_config
      then create_system_config E key spec
      else if kind == workstation
      then create_workstation E key spec
      else if is_other kind
      then others.create kind key spec
      else unsupported "create" kind

  -- `Create`; in the source the tenant's id stays in the caller's map.
  unfoldable pub create : ResourceKind → String → Fields → Goclaw E (Unit {0})
  unfolding create_handler resolve_tenant_uuid put
  create kind key spec =
      if not (E.config.tenant_id == "") && not (kind == tenant)
      then (resolve_tenant_uuid E >>= λ uuid.
          create_handler kind key (put spec "tenantId" (string uuid)))
      else create_handler kind key spec

  -- `Update`
  unfoldable pub update : ResourceKind → String → Fields → Goclaw E (Unit {0})
  unfolding is_other update_workstation update_mcp_server update_builtin_tool_config
      update_skill_config update_mcp_credentials update_system_config update_tenant update_provider
      update_agent update_channel_instance update_cron_job update_team update_secure_cli
      update_secure_cli_grant update_agent_link
  update kind key spec =
      if kind == tenant
      then update_tenant E key spec
      else if kind == provider
      then update_provider E key spec
      else if kind == agent
      then update_agent E key spec
      else if kind == channel
      then update_channel_instance E key spec
      else if kind == cron_job
      then update_cron_job E key spec
      else if kind == agent_team
      then update_team E key spec
      else if kind == secure_cli
      then update_secure_cli E key spec
      else if kind == secure_cli_grant
      then update_secure_cli_grant E key spec
      else if kind == agent_link
      then update_agent_link E key spec
      else if kind == mcp_server
      then update_mcp_server E key spec
      else if kind == builtin_tool_config
      then update_builtin_tool_config E key spec
      else if kind == skill_config
      then update_skill_config E key spec
      else if kind == mcp_credentials
      then update_mcp_credentials E key spec
      else if kind == system_config
      then update_system_config E key spec
      else if kind == workstation
      then update_workstation E key spec
      else if is_other kind
      then others.update kind key spec
      else unsupported "update" kind

  -- `Delete`
  unfoldable pub delete : ResourceKind → String → Goclaw E (Unit {0})
  unfolding is_other delete_workstation delete_mcp_server delete_builtin_tool_config
      delete_skill_config delete_mcp_credentials delete_system_config delete_tenant delete_provider
      delete_agent delete_channel_instance delete_cron_job delete_team delete_secure_cli
      delete_secure_cli_grant delete_agent_link
  delete kind key =
      if kind == tenant
      then delete_tenant E key
      else if kind == provider
      then delete_provider E key
      else if kind == agent
      then delete_agent E key
      else if kind == channel
      then delete_channel_instance E key
      else if kind == cron_job
      then delete_cron_job E key
      else if kind == agent_team
      then delete_team E key
      else if kind == secure_cli
      then delete_secure_cli E key
      else if kind == secure_cli_grant
      then delete_secure_cli_grant E key
      else if kind == agent_link
      then delete_agent_link E key
      else if kind == mcp_server
      then delete_mcp_server E key
      else if kind == builtin_tool_config
      then delete_builtin_tool_config E key
      else if kind == skill_config
      then delete_skill_config E key
      else if kind == mcp_credentials
      then delete_mcp_credentials E key
      else if kind == system_config
      then delete_system_config E key
      else if kind == workstation
      then delete_workstation E key
      else if is_other kind
      then others.delete kind key
      else unsupported "delete" kind
