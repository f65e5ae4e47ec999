-- ===== src/Goclaw/Listing/Scoped.antt =====
-- What a scoped provider lists.
use gcplane.Base.{
  String, true, false, none, some, List, [], ◌∷◌, ◌==◌, ◌≡◌, refl, sym, ap, ◌∙◌, filter, map,
  if◌then◌else◌,
}
use gcplane.Spec.{Fields, field, end, bool}
use gcplane.Manifest.Kind.{
  ResourceKind, provider, agent, channel, mcp_server, skill, cron_job, agent_team, secure_cli,
}
use gcplane.Reconciler.Types.{ResourceInfo}
use gcplane.Goclaw.Io.{
  Env, value, failed, Goclaw, pure, ◌>>=◌, ◌>>◌, wrapping, bind-value, bind-failed,
}
use gcplane.Goclaw.Tenants.{matches_tenant, get_list}
use gcplane.Goclaw.Tenants.Scope.{belongs, resolved, matches_tenant-resolved}
use gcplane.Goclaw.Tenants.Keeping.{Kept, Keeps, get_list-Keeps, connected_list-Keeps}
use gcplane.Goclaw.Sockets.{ensure_ws, ws_list}
use gcplane.Goclaw.Listing.{
  info, skill_info, ours, infos, list_all_providers, list_all_agents, list_all_channels,
  list_all_mcp_servers, list_all_skills, list_all_cron_jobs, list_all_teams, list_all_secure_clis,
}
use gcplane.Goclaw.Inventory.{list_all}

-- The kinds whose listing is filtered by the tenant.
pub data IsScoped : ResourceKind → Type 0 where
  providers : IsScoped provider
  agents : IsScoped agent
  channels : IsScoped channel
  mcp_servers : IsScoped mcp_server
  skills : IsScoped skill
  cron_jobs : IsScoped cron_job
  teams : IsScoped agent_team
  secure_clis : IsScoped secure_cli

-- What the listing of such a kind shows of a resource.
abbrev pub entry : {kind : ResourceKind} → IsScoped kind → Fields → ResourceInfo
entry providers = info provider "name"
entry agents = info agent "agent_key"
entry channels = info channel "name"
entry mcp_servers = info mcp_server "name"
entry skills = skill_info
entry cron_jobs = info cron_job "name"
entry teams = info agent_team "name"
entry secure_clis = info secure_cli "binary_name"

module _ (E : Env) where
  -- Where GoClaw answers with all resources of such a kind.
  abbrev pub answered : {kind : ResourceKind} → IsScoped kind → Goclaw E (List Fields)
  answered providers =
      get_list E "/v1/providers" "list providers" "parse providers response" "providers"
  answered agents = get_list E "/v1/agents" "list agents" "parse agents response" "agents"
  answered channels =
      get_list E "/v1/channels/instances" "list channel instances"
        "parse channel instances response" "instances"
  answered mcp_servers =
      get_list E "/v1/mcp/servers" "list mcp servers" "parse mcp servers response" "servers"
  answered skills = get_list E "/v1/skills" "list skills" "parse skills response" "skills"
  answered cron_jobs =
      wrapping "ws connect for cron" (ensure_ws E)
      >> ws_list E "cron.list" (some (field "includeDisabled" (bool true) end)) "jobs"
  answered teams =
      wrapping "ws connect for teams" (ensure_ws E) >> ws_list E "teams.list" none "teams"
  answered secure_clis =
      get_list E "/v1/cli-credentials" "list cli-credentials" "parse cli-credentials response"
        "items"

  ours-resolved :
      (w : E.transport.World) (uuid : String) (rs : List Fields)
      → (E.config.tenant_id == "") ≡ false
      → (uuid == "") ≡ false
      → ours E rs (resolved E w uuid) ≡ (value (filter (belongs uuid) rs), resolved E w uuid)
  unfolding ours
  ours-resolved w uuid [] scoped some_id = refl
  ours-resolved w uuid (r ∷ rs) scoped some_id =
      bind-value (matches_tenant E r)
        (λ own. ours E rs >>= λ rest. pure (if own then r ∷ rest else rest)) (resolved E w uuid)
        (resolved E w uuid) (belongs uuid r) (matches_tenant-resolved E w uuid r scoped some_id)
      ∙ bind-value (ours E rs) (λ rest. pure (if belongs uuid r then r ∷ rest else rest))
          (resolved E w uuid) (resolved E w uuid) (filter (belongs uuid) rs)
          (ours-resolved w uuid rs scoped some_id)

  infos-resolved :
      (m : Goclaw E (List Fields)) (f : Fields → ResourceInfo) (w : E.transport.World)
      (uuid : String)
      → Keeps E m
      → (E.config.tenant_id == "") ≡ false
      → (uuid == "") ≡ false
      → (m >>= infos E f) (resolved E w uuid)
        ≡ (m >>= λ rs. pure (map f (filter (belongs uuid) rs))) (resolved E w uuid)
  unfolding infos
  infos-resolved m f w uuid keeps scoped some_id = go (keeps w uuid)
    where
      go :
          Kept E m w uuid
          → (m >>= infos E f) (resolved E w uuid)
            ≡ (m >>= λ rs. pure (map f (filter (belongs uuid) rs))) (resolved E w uuid)
      go (value rs, v, ran) =
          bind-value m (infos E f) (resolved E w uuid) (resolved E v uuid) rs ran
          ∙ bind-value (ours E rs) (λ kept. pure (map f kept)) (resolved E v uuid)
              (resolved E v uuid) (filter (belongs uuid) rs)
              (ours-resolved v uuid rs scoped some_id)
          ∙ sym (
              bind-value m (λ rs. pure (map f (filter (belongs uuid) rs))) (resolved E w uuid)
                (resolved E v uuid) rs ran)
      go (failed e, v, ran) =
          bind-failed m (infos E f) (resolved E w uuid) (resolved E v uuid) e ran
          ∙ sym (
              bind-failed m (λ rs. pure (map f (filter (belongs uuid) rs))) (resolved E w uuid)
                (resolved E v uuid) e ran)

  answered-Keeps : {kind : ResourceKind} (h : IsScoped kind) → Keeps E (answered h)
  answered-Keeps providers =
      get_list-Keeps E "/v1/providers" "list providers" "parse providers response" "providers"
  answered-Keeps agents =
      get_list-Keeps E "/v1/agents" "list agents" "parse agents response" "agents"
  answered-Keeps channels =
      get_list-Keeps E "/v1/channels/instances" "list channel instances"
        "parse channel instances response" "instances"
  answered-Keeps mcp_servers =
      get_list-Keeps E "/v1/mcp/servers" "list mcp servers" "parse mcp servers response" "servers"
  answered-Keeps skills =
      get_list-Keeps E "/v1/skills" "list skills" "parse skills response" "skills"
  answered-Keeps cron_jobs =
      connected_list-Keeps E "ws connect for cron" "cron.list"
        (some (field "includeDisabled" (bool true) end)) "jobs"
  answered-Keeps teams = connected_list-Keeps E "ws connect for teams" "teams.list" none "teams"
  answered-Keeps secure_clis =
      get_list-Keeps E "/v1/cli-credentials" "list cli-credentials" "parse cli-credentials response"
        "items"

  list_all-infos :
      {kind : ResourceKind} (h : IsScoped kind)
      → list_all E kind ≡ (answered h >>= infos E (entry h))
  unfolding list_all list_all_providers list_all_agents list_all_channels list_all_mcp_servers
      list_all_skills list_all_cron_jobs list_all_teams list_all_secure_clis
  list_all-infos providers = refl
  list_all-infos agents = refl
  list_all-infos channels = refl
  list_all-infos mcp_servers = refl
  list_all-infos skills = refl
  list_all-infos cron_jobs = refl
  list_all-infos teams = refl
  list_all-infos secure_clis = refl

  -- A provider of a tenant whose id is stored lists, of providers, agents, channels, MCP servers,
  -- skills, cron jobs, teams and CLI binaries, exactly those resources of GoClaw's answer that carry
  -- no tenant or this one, in their order; where the answer is an error, so is the listing.
  pub list_all-resolved :
      {kind : ResourceKind} (h : IsScoped kind) (w : E.transport.World) (uuid : String)
      → (E.config.tenant_id == "") ≡ false
      → (uuid == "") ≡ false
      → list_all E kind (resolved E w uuid)
        ≡ (answered h >>= λ rs. pure (map (entry h) (filter (belongs uuid) rs))) (resolved E w uuid)
  list_all-resolved h w uuid scoped some_id =
      ap (λ m. m (resolved E w uuid)) (list_all-infos h)
      ∙ infos-resolved (answered h) (entry h) w uuid (answered-Keeps h) scoped some_id
