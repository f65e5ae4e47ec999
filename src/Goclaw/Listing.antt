-- ===== src/Goclaw/Listing.antt =====
-- The listings for pruning (internal/provider/goclaw/list_all.go).
pub mod Scoped
use Prim.Native.String.{◌++◌ as ◌<>◌}
use gcplane.Base.{
  String, Bool, true, false, ◌||◌, not, Option, none, some, List, [], ◌∷◌, ◌++◌, ◌==◌, map,
  if◌then◌else◌,
}
use gcplane.Base.Dict
use gcplane.Base.Dict.{Dict}
use gcplane.Spec.{Value, bool, Fields, end, field}
use gcplane.Manifest.Kind.{
  ResourceKind, tenant, provider, agent, channel, mcp_server, skill, cron_job, agent_team,
  secure_cli, agent_link, workstation,
}
use gcplane.Reconciler.Types.{ResourceInfo}
use gcplane.Goclaw.Io.{
  Error, plain, wrap, Env, State, Outcome, value, failed, Goclaw, pure, fail, ◌>>=◌, ◌>>◌, wrapping,
  of_result,
}
use gcplane.Goclaw.Helpers.{translate_result, str_val, bool_val}
use gcplane.Goclaw.Tenants.{get_list, matches_tenant}
use gcplane.Goclaw.Sockets.{ensure_ws, ws_call, ws_list}
use gcplane.Goclaw.Links.{link_query}

-- The entry of a resource whose name stands in a field.
unfoldable pub info : ResourceKind → String → Fields → ResourceInfo
unfolding str_val
info kind name r = record {
  kind = kind;
  name = str_val r name;
  created_by = str_val r "created_by";
  source = "";
  is_system = false;
}

unfoldable pub skill_info : Fields → ResourceInfo
unfolding str_val bool_val
skill_info s = record {
  kind = skill;
  name = str_val s "slug";
  created_by = str_val s "created_by";
  source = str_val s "source";
  is_system = bool_val s "is_system";
}

unfoldable pub workstation_info : Fields → ResourceInfo
unfolding str_val
workstation_info w = record {
  kind = workstation;
  name = str_val w "workstationKey";
  created_by = str_val w "createdBy";
  source = "";
  is_system = false;
}

module _ (E : Env) where
  -- The resources of the tenant.
  unfoldable pub ours : List Fields → Goclaw E (List Fields)
  unfolding matches_tenant
  ours [] = pure []
  ours (r ∷ rs) =
      matches_tenant E r >>= λ own. ours rs >>= λ rest. pure (if own then r ∷ rest else rest)

  unfoldable pub infos : (Fields → ResourceInfo) → List Fields → Goclaw E (List ResourceInfo)
  unfolding ours
  infos f rs = ours rs >>= λ kept. pure (map f kept)

  unfoldable pub list_all_providers : Goclaw E (List ResourceInfo)
  unfolding get_list infos info
  list_all_providers =
      get_list E "/v1/providers" "list providers" "parse providers response" "providers"
      >>= infos (info provider "name")

  unfoldable pub list_all_agents : Goclaw E (List ResourceInfo)
  unfolding get_list infos info
  list_all_agents =
      get_list E "/v1/agents" "list agents" "parse agents response" "agents"
      >>= infos (info agent "agent_key")

  unfoldable pub list_all_channels : Goclaw E (List ResourceInfo)
  unfolding get_list infos info
  list_all_channels =
      get_list E "/v1/channels/instances" "list channel instances"
        "parse channel instances response" "instances"
      >>= infos (info channel "name")

  unfoldable pub list_all_mcp_servers : Goclaw E (List ResourceInfo)
  unfolding get_list infos info
  list_all_mcp_servers =
      get_list E "/v1/mcp/servers" "list mcp servers" "parse mcp servers response" "servers"
      >>= infos (info mcp_server "name")

  unfoldable pub list_all_skills : Goclaw E (List ResourceInfo)
  unfolding get_list infos skill_info
  list_all_skills =
      get_list E "/v1/skills" "list skills" "parse skills response" "skills" >>= infos skill_info

  unfoldable pub list_all_cron_jobs : Goclaw E (List ResourceInfo)
  unfolding ensure_ws ws_list infos info
  list_all_cron_jobs =
      wrapping "ws connect for cron" (ensure_ws E)
      >> ws_list E "cron.list" (some (field "includeDisabled" (bool true) end)) "jobs"
      >>= infos (info cron_job "name")

  unfoldable pub list_all_teams : Goclaw E (List ResourceInfo)
  unfolding ensure_ws ws_list infos info
  list_all_teams =
      wrapping "ws connect for teams" (ensure_ws E)
      >> ws_list E "teams.list" none "teams"
      >>= infos (info agent_team "name")

  unfoldable pub list_all_secure_clis : Goclaw E (List ResourceInfo)
  unfolding get_list infos info
  list_all_secure_clis =
      get_list E "/v1/cli-credentials" "list cli-credentials" "parse cli-credentials response"
        "items"
      >>= infos (info secure_cli "binary_name")

  unfoldable pub list_all_workstations : Goclaw E (List ResourceInfo)
  unfolding ensure_ws ws_list workstation_info
  list_all_workstations =
      wrapping "ws connect for workstations" (ensure_ws E)
      >> ws_list E "workstations.list" none "workstations"
      >>= λ ws. pure (map workstation_info ws)

  unfoldable pub list_all_tenants : Goclaw E (List ResourceInfo)
  unfolding get_list info
  list_all_tenants =
      get_list E "/v1/tenants" "list tenants" "parse tenants response" "tenants" >>= λ ts.
      pure (map (info tenant "slug") ts)

  -- The agents that have an id and a key, and the map from ids to keys.
  unfoldable pub sources : List Fields → List (String × String)
  unfolding str_val
  sources [] = []
  sources (a ∷ agents) =
      let rest = sources agents in
      let id = str_val a "id" in
      let key = str_val a "agent_key" in if id == "" || key == "" then rest else (id, key) ∷ rest

  unfoldable pub key_by_id : List (String × String) → Dict String → Dict String
  unfolding Dict.put
  key_by_id [] keys = keys
  key_by_id ((id, key) ∷ rest) keys = key_by_id rest (Dict.put keys id key)

  -- The key of a link's target, from the agents or else from the answer; empty if neither has it.
  unfoldable pub target_key : Dict String → Fields → String
  unfolding str_val Dict.get
  target_key keys camel = elim (Dict.get keys (str_val camel "targetAgentId")) [
    | none ↦ str_val camel "targetAgentKey"
    | some key ↦ if key == "" then str_val camel "targetAgentKey" else key
  ]

  unfoldable pub link_infos : Dict String → String → List Fields → List ResourceInfo
  unfolding translate_result str_val target_key
  link_infos keys source_key [] = []
  link_infos keys source_key (link ∷ links) =
      let rest = link_infos keys source_key links in
      let camel = translate_result E.unicode link in
      let target = target_key keys camel in
      let entry : ResourceInfo = record {
        kind = agent_link;
        name = source_key <> "--" <> target;
        created_by = str_val camel "createdBy";
        source = "";
        is_system = false;
      } in
      if not (str_val camel "teamId" == "") || target == "" then rest else entry ∷ rest

  unfoldable pub links_of_sources :
      Dict String → List (String × String) → Goclaw E (List ResourceInfo)
  unfolding ws_call link_infos
  links_of_sources keys [] = pure []
  links_of_sources keys ((id, key) ∷ rest) =
      ws_call E ("agents.links.list for " <> key) "agents.links.list" (some (link_query id))
      >>= λ payload.
          of_result "parse agents.links.list response" (E.transport.decode "links" payload)
          >>= λ links.
              links_of_sources keys rest >>= λ others. pure (link_infos keys key links ++ others)

  unfoldable pub list_all_agent_links : Goclaw E (List ResourceInfo)
  unfolding ensure_ws get_list ours sources key_by_id links_of_sources
  list_all_agent_links = do
    wrapping "ws connect for agent links" (ensure_ws E)
    agents ← get_list E "/v1/agents" "list agents" "parse agents response" "agents" >>= ours
    let from = sources agents
    links_of_sources (key_by_id from []) from
