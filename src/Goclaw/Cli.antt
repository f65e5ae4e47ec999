-- ===== src/Goclaw/Cli.antt =====
-- Secure CLI binaries and their grants (internal/provider/goclaw/secure_cli.go and
-- secure_cli_grants.go).
use Prim.Native.String.{◌++◌ as ◌<>◌}
use gcplane.Base.{String, ◌||◌, Option, none, some, List, [], ◌∷◌, ◌==◌, if◌then◌else◌}
use gcplane.Base.Text.{cut_dashes}
use gcplane.Spec.{string, Fields, put}
use gcplane.Goclaw.Io.{
  plain, Env, value, failed, Goclaw, pure, fail, ◌>>=◌, ◌>>◌, wrapping, attempt,
}
use gcplane.Goclaw.Http
use gcplane.Goclaw.Helpers.{translate_spec, translate_result, strip_internal, without, str_val}
use gcplane.Goclaw.Tenants.{
  get_list, id_of, found, put_at, find_resource, matches_tenant, resolve_agent_id,
}
use gcplane.Goclaw.Resources.{delete_at}

-- `strings.Cut(name, "--")` with two non-empty halves.
unfoldable pub parse_grant_name : String → Option (String × String)
unfolding cut_dashes
parse_grant_name name = elim (cut_dashes name) [
  | none ↦ none
  | some halves ↦ if halves.0 == "" || halves.1 == "" then none else some halves
]

module _ (E : Env) where
  unfoldable pub observe_secure_cli : String → Goclaw E (Option Fields)
  unfolding get_list find_resource translate_result strip_internal without
  observe_secure_cli key =
      get_list E "/v1/cli-credentials" "list cli-credentials" "parse cli-credentials response"
        "items"
      >>= λ rs. find_resource E "binary_name" key rs >>= λ r. elim r [
        | none ↦ pure none
        | some cli ↦ pure (
            some (
              translate_result E.unicode
                (strip_internal (without (without cli "env_keys") "encrypted_env"))))
      ]

  unfoldable pub create_secure_cli : String → Fields → Goclaw E (Unit {0})
  unfolding translate_spec put
  create_secure_cli key spec =
      let body = put (translate_spec E.unicode spec) "binary_name" (string key) in
      wrapping ("create cli-credential " <> key) (Http.post E "/v1/cli-credentials" (some body))
      >> pure tt

  unfoldable pub update_secure_cli : String → Fields → Goclaw E (Unit {0})
  unfolding observe_secure_cli found id_of put_at translate_spec
  update_secure_cli key spec = do
    current ← observe_secure_cli key >>= found E ("cli-credential " <> key)
    id ← id_of E ("cli-credential " <> key) current
    put_at E ("cli-credential " <> key) id ("/v1/cli-credentials/" <> id)
        (some (translate_spec E.unicode spec))

  unfoldable pub delete_secure_cli : String → Goclaw E (Unit {0})
  unfolding observe_secure_cli delete_at
  delete_secure_cli key =
      observe_secure_cli key >>= delete_at E ("cli-credential " <> key) "/v1/cli-credentials/"

  -- The id of the first binary of the tenant with the name and an id.
  unfoldable pub find_secure_cli_id : String → List Fields → Goclaw E (Option String)
  unfolding str_val matches_tenant
  find_secure_cli_id name [] = pure none
  find_secure_cli_id name (r ∷ rs) =
      let rest = find_secure_cli_id name rs in
      let id = str_val r "id" in
      let checked = matches_tenant E r >>= λ ours.
      if ours then if id == "" then rest else pure (some id) else rest in
      if str_val r "binary_name" == name then checked else rest

  unfoldable pub resolve_secure_cli_id : String → Goclaw E String
  unfolding get_list find_secure_cli_id
  resolve_secure_cli_id name =
      get_list E "/v1/cli-credentials" "list cli-credentials" "parse cli-credentials response"
        "items"
      >>= λ rs. find_secure_cli_id name rs >>= λ id. elim id [
        | some i ↦ pure i
        | none ↦ fail (plain ("cli-credential " <> E.quoted name <> " not found"))
      ]

  unfoldable pub parsed_grant : String → Goclaw E (String × String)
  unfolding parse_grant_name
  parsed_grant name = elim (parse_grant_name name) [
    | some halves ↦ pure halves
    | none ↦
        fail (
          plain
            ("invalid grant name " <> E.quoted name <> ": expected format binaryName--agentKey"))
  ]

  unfoldable pub find_grant : String → List Fields → Option Fields
  unfolding str_val
  find_grant agent_id [] = none
  find_grant agent_id (g ∷ gs) =
      if str_val g "agent_id" == agent_id then some g else find_grant agent_id gs

  unfoldable pub observe_secure_cli_grant : String → Goclaw E (Option Fields)
  unfolding parsed_grant resolve_secure_cli_id resolve_agent_id get_list find_grant translate_result
      strip_internal without
  observe_secure_cli_grant key = do
    names ← parsed_grant key
    binary_id ← wrapping ("grant " <> key) (resolve_secure_cli_id names.0)
    agent_id ← wrapping ("grant " <> key) (resolve_agent_id E names.1)
    gs ←
        get_list E ("/v1/cli-credentials/" <> binary_id <> "/agent-grants")
          ("list grants for " <> names.0) "parse grants response" "grants"
    elim (find_grant agent_id gs) [
      | none ↦ pure none
      | some g ↦ pure (
          some (
            translate_result E.unicode
              (strip_internal (without (without g "binary_id") "agent_id"))))
    ]

  unfoldable pub grant_body : Fields → Fields
  unfolding translate_spec without
  grant_body spec = without (without (translate_spec E.unicode spec) "binary_name") "agent_key"

  unfoldable pub create_secure_cli_grant : String → Fields → Goclaw E (Unit {0})
  unfolding parsed_grant resolve_secure_cli_id resolve_agent_id grant_body put
  create_secure_cli_grant key spec = do
    names ← parsed_grant key
    binary_id ← wrapping ("grant " <> key) (resolve_secure_cli_id names.0)
    agent_id ← wrapping ("grant " <> key) (resolve_agent_id E names.1)
    wrapping ("create grant " <> key) (
        Http.post E ("/v1/cli-credentials/" <> binary_id <> "/agent-grants")
          (some (put (grant_body spec) "agent_id" (string agent_id))))
    pure tt

  unfoldable pub update_secure_cli_grant : String → Fields → Goclaw E (Unit {0})
  unfolding parsed_grant resolve_secure_cli_id observe_secure_cli_grant found id_of grant_body
  update_secure_cli_grant key spec = do
    names ← parsed_grant key
    binary_id ← wrapping ("grant " <> key) (resolve_secure_cli_id names.0)
    current ← observe_secure_cli_grant key >>= found E ("grant " <> key)
    id ← id_of E ("grant " <> key) current
    Http.put_json E ("/v1/cli-credentials/" <> binary_id <> "/agent-grants/" <> id)
        (some (grant_body spec))
    pure tt

  -- Whatever keeps the binary from being resolved counts as the grant's absence.
  unfoldable pub delete_secure_cli_grant : String → Goclaw E (Unit {0})
  unfolding parsed_grant resolve_secure_cli_id observe_secure_cli_grant delete_at
  delete_secure_cli_grant key = parsed_grant key >>= λ names.
      attempt (resolve_secure_cli_id names.0) >>= λ o. elim o [
        | failed e ↦ pure tt
        | value binary_id ↦
            observe_secure_cli_grant key
            >>= delete_at E ("grant " <> key)
                ("/v1/cli-credentials/" <> binary_id <> "/agent-grants/")
      ]
