-- ===== src/Goclaw/Servers.antt =====
-- MCP servers with their grants, and their credentials (internal/provider/goclaw/mcp_servers.go and
-- mcp_credentials.go).
pub mod Grants
use Prim.Native.String.{◌++◌ as ◌<>◌}
use gcplane.Base.{
  String, not, Option, none, some, List, [], ◌∷◌, ◌++◌, ◌==◌, filter, contains, if◌then◌else◌,
}
use gcplane.Base.Dict
use gcplane.Base.Dict.{Dict}
use gcplane.Spec.{string, strings, slice, object, Fields, end, field, get, put, as_object}
use gcplane.Manifest.References.{texts}
use gcplane.Goclaw.Io.{
  plain, wrap, is_not_found, Env, value, failed, Goclaw, pure, fail, ◌>>=◌, ◌>>◌, wrapping, attempt,
}
use gcplane.Goclaw.Http
use gcplane.Goclaw.Helpers.{translate_spec, translate_result, strip_internal, without, str_val}
use gcplane.Goclaw.Tenants.{get_list, id_of, found, put_at, find_resource, resolve_agent_id}
use gcplane.Goclaw.Resources.{delete_at}
use gcplane.Goclaw.Configs.{find_named_id}

-- `extractGrantAgents`
unfoldable pub extract_grant_agents : Fields → List String
unfolding get texts
extract_grant_agents spec = elim (as_object (get spec "grants")) [
  | none ↦ []
  | some grants ↦ elim (get grants "agents") [
    | some (strings names) ↦ names
    | some (slice items) ↦ texts items
    | _ ↦ []
  ]
]

-- A set of ids, filled one by one.
unfoldable pub add_id : List String → String → List String
unfolding contains
add_id ids id = if contains ids id then ids else ids ++ id ∷ []

unfoldable pub granted_ids : List String → List Fields → List String
unfolding str_val add_id
granted_ids ids [] = ids
granted_ids ids (g ∷ gs) =
    let id = str_val g "agent_id" in granted_ids (if id == "" then ids else add_id ids id) gs

-- The ids that one set has and another has not.
unfoldable pub lacking : List String → List String → List String
unfolding contains
lacking wanted present = filter (λ id. not (contains present id)) wanted

unfoldable pub id_to_key : Dict String → List Fields → Dict String
unfolding str_val Dict.put
id_to_key keys [] = keys
id_to_key keys (a ∷ agents) =
    let id = str_val a "id" in
    id_to_key (if id == "" then keys else Dict.put keys id (str_val a "agent_key")) agents

unfoldable pub grant_keys : Dict String → List Fields → List String
unfolding str_val Dict.get
grant_keys keys [] = []
grant_keys keys (g ∷ gs) =
    let rest = grant_keys keys gs in
    elim (Dict.get keys (str_val g "agent_id")) [
      | none ↦ rest
      | some key ↦ if key == "" then rest else key ∷ rest
    ]

module _ (E : Env) where
  unfoldable pub resolve_mcp_server_id : String → Goclaw E String
  unfolding get_list find_named_id
  resolve_mcp_server_id name =
      get_list E "/v1/mcp/servers" "list mcp servers" "parse mcp servers response" "servers"
      >>= λ servers. elim (find_named_id "name" name servers) [
        | some id ↦ pure id
        | none ↦ fail (plain ("mcp server " <> E.quoted name <> " not found"))
      ]

  unfoldable pub list_mcp_grants : String → Goclaw E (List Fields)
  unfolding get_list
  list_mcp_grants server_id =
      get_list E ("/v1/mcp/servers/" <> server_id <> "/grants")
        ("list mcp grants for server " <> server_id) "parse mcp grants response" "grants"

  unfoldable pub keys_of_grants : List Fields → Goclaw E (List String)
  unfolding get_list id_to_key grant_keys
  keys_of_grants [] = pure []
  keys_of_grants (g ∷ gs) =
      get_list E "/v1/agents" "list agents for grant resolution" "parse agents response" "agents"
      >>= λ agents. pure (grant_keys (id_to_key [] agents) (g ∷ gs))

  unfoldable pub list_mcp_grant_agent_keys : String → Goclaw E (List String)
  unfolding list_mcp_grants keys_of_grants
  list_mcp_grant_agent_keys server_id = list_mcp_grants server_id >>= keys_of_grants

  -- The grants are left out where they cannot be listed.
  unfoldable pub with_grants : String → Fields → Goclaw E (Option Fields)
  unfolding list_mcp_grant_agent_keys put
  with_grants server_id result =
      if server_id == ""
      then pure (some result)
      else (attempt (list_mcp_grant_agent_keys server_id) >>= λ o. elim o [
        | failed _ ↦ pure (some result)
        | value keys ↦
            pure (some (put result "grants" (object (field "agents" (strings keys) end))))
      ])

  unfoldable pub observe_mcp_server : String → Goclaw E (Option Fields)
  unfolding get_list find_resource str_val translate_result strip_internal with_grants
  observe_mcp_server key =
      get_list E "/v1/mcp/servers" "list mcp servers" "parse mcp servers response" "servers"
      >>= λ servers. find_resource E "name" key servers >>= λ r. elim r [
        | none ↦ pure none
        | some s ↦ with_grants (str_val s "id") (translate_result E.unicode (strip_internal s))
      ]

  unfoldable pub desired_ids : List String → List String → Goclaw E (List String)
  unfolding resolve_agent_id add_id
  desired_ids ids [] = pure ids
  desired_ids ids (key ∷ keys) =
      wrapping ("resolve agent " <> E.quoted key) (resolve_agent_id E key) >>= λ id.
      desired_ids (add_id ids id) keys

  unfoldable pub grant_all : String → String → List String → Goclaw E (Unit {0})
  grant_all server_name server_id [] = pure tt
  grant_all server_name server_id (id ∷ ids) =
      wrapping ("grant agent " <> id <> " to mcp server " <> server_name) (
        Http.post E ("/v1/mcp/servers/" <> server_id <> "/grants/agent")
          (some (field "agent_id" (string id) end)))
      >> grant_all server_name server_id ids

  unfoldable pub revoke_all : String → String → List String → Goclaw E (Unit {0})
  unfolding is_not_found
  revoke_all server_name server_id [] = pure tt
  revoke_all server_name server_id (id ∷ ids) =
      attempt (Http.delete E ("/v1/mcp/servers/" <> server_id <> "/grants/agent/" <> id)) >>= λ o.
      elim o [
        | value _ ↦ revoke_all server_name server_id ids
        | failed e ↦
            if is_not_found e.sentinel
            then revoke_all server_name server_id ids
            else fail (wrap ("revoke agent " <> id <> " from mcp server " <> server_name) e)
      ]

  -- The two loops at the end of `applyMCPGrants`.
  unfoldable pub settle_grants : String → String → List String → List String → Goclaw E (Unit {0})
  unfolding grant_all revoke_all lacking
  settle_grants server_name server_id current wanted =
      grant_all server_name server_id (lacking wanted current)
      >> revoke_all server_name server_id (lacking current wanted)

  unfoldable pub apply_mcp_grants : String → List String → Goclaw E (Unit {0})
  unfolding resolve_mcp_server_id list_mcp_grants granted_ids desired_ids settle_grants
  apply_mcp_grants server_name agents = do
    server_id ← resolve_mcp_server_id server_name
    grants ← list_mcp_grants server_id
    let current = granted_ids [] grants
    wanted ← desired_ids [] agents
    settle_grants server_name server_id current wanted

  unfoldable pub grants_if_any : String → List String → Goclaw E (Unit {0})
  unfolding apply_mcp_grants
  grants_if_any key [] = pure tt
  grants_if_any key (a ∷ agents) =
      wrapping ("apply grants for mcp server " <> key) (apply_mcp_grants key (a ∷ agents))

  unfoldable pub create_mcp_server : String → Fields → Goclaw E (Unit {0})
  unfolding translate_spec put without grants_if_any extract_grant_agents
  create_mcp_server key spec =
      let body = without (put (translate_spec E.unicode spec) "name" (string key)) "grants" in
      wrapping ("create mcp server " <> key) (Http.post E "/v1/mcp/servers" (some body))
      >> grants_if_any key (extract_grant_agents spec)

  unfoldable pub update_mcp_server : String → Fields → Goclaw E (Unit {0})
  unfolding observe_mcp_server found id_of put_at translate_spec without apply_mcp_grants
      extract_grant_agents
  update_mcp_server key spec = do
    current ← observe_mcp_server key >>= found E ("mcp server " <> key)
    id ← id_of E ("mcp server " <> key) current
    put_at E ("mcp server " <> key) id ("/v1/mcp/servers/" <> id)
        (some (without (translate_spec E.unicode spec) "grants"))
    apply_mcp_grants key (extract_grant_agents spec)

  unfoldable pub delete_mcp_server : String → Goclaw E (Unit {0})
  unfolding observe_mcp_server delete_at
  delete_mcp_server key =
      observe_mcp_server key >>= delete_at E ("mcp server " <> key) "/v1/mcp/servers/"

  -- Whatever keeps the server from being resolved counts as absence.
  unfoldable pub observe_mcp_credentials : String → Goclaw E (Option Fields)
  unfolding resolve_mcp_server_id
  observe_mcp_credentials key = attempt (resolve_mcp_server_id key) >>= λ o. elim o [
    | failed _ ↦ pure none
    | value _ ↦ pure (some (field "serverName" (string key) end))
  ]

  unfoldable pub create_mcp_credentials : String → Fields → Goclaw E (Unit {0})
  unfolding resolve_mcp_server_id translate_spec
  create_mcp_credentials key spec = resolve_mcp_server_id key >>= λ id.
      wrapping ("set mcp credentials " <> key) (
        Http.put_json E ("/v1/mcp/servers/" <> id <> "/user-credentials")
          (some (translate_spec E.unicode spec)))
      >> pure tt

  unfoldable pub update_mcp_credentials : String → Fields → Goclaw E (Unit {0})
  unfolding create_mcp_credentials
  update_mcp_credentials key spec = create_mcp_credentials key spec

  unfoldable pub delete_mcp_credentials : String → Goclaw E (Unit {0})
  unfolding resolve_mcp_server_id
  delete_mcp_credentials key = resolve_mcp_server_id key >>= λ id.
      Http.delete E ("/v1/mcp/servers/" <> id <> "/user-credentials")
