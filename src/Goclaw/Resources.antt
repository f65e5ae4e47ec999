-- ===== src/Goclaw/Resources.antt =====
-- Providers, agents and channel instances over HTTP (internal/provider/goclaw/providers.go,
-- agents.go, channels.go and their deletions in delete.go).
use Prim.Native.String.{◌++◌ as ◌<>◌}
use gcplane.Base.{String, Option, none, some}
use gcplane.Spec.{string, Items, item, Fields, get, put, as_string, as_slice}
use gcplane.Goclaw.Io.{
  plain, wrap, not_found, Env, value, failed, Goclaw, pure, fail, ◌>>=◌, ◌>>◌, wrapping, attempt,
}
use gcplane.Goclaw.Http
use gcplane.Goclaw.Helpers.{translate_spec, translate_result, strip_internal, without}
use gcplane.Goclaw.Tenants.{
  get_list, id_of, found, put_at, find_resource, resolve_agent_id, translated,
}

module _ (E : Env) where
  -- `if current == nil { return nil }`, the id and the DELETE.
  unfoldable pub delete_at : String → String → Option Fields → Goclaw E (Unit {0})
  unfolding id_of
  delete_at label path none = pure tt
  delete_at label path (some current) = id_of E label current >>= λ id. Http.delete E (path <> id)

  unfoldable pub observe_provider : String → Goclaw E (Option Fields)
  unfolding get_list find_resource translate_result strip_internal
  observe_provider key =
      get_list E "/v1/providers" "list providers" "parse providers response" "providers" >>= λ rs.
      find_resource E "name" key rs >>= λ r. pure (translated E r)

  unfoldable pub create_provider : String → Fields → Goclaw E (Unit {0})
  unfolding translate_spec put
  create_provider key spec =
      let body = put (translate_spec E.unicode spec) "name" (string key) in
      wrapping ("create provider " <> key) (Http.post E "/v1/providers" (some body)) >> pure tt

  unfoldable pub update_provider : String → Fields → Goclaw E (Unit {0})
  unfolding observe_provider found id_of put_at translate_spec put
  update_provider key spec = do
    current ← observe_provider key >>= found E ("provider " <> key)
    id ← id_of E ("provider " <> key) current
    put_at E ("provider " <> key) id ("/v1/providers/" <> id)
        (some (put (translate_spec E.unicode spec) "name" (string key)))

  unfoldable pub delete_provider : String → Goclaw E (Unit {0})
  unfolding observe_provider delete_at
  delete_provider key = observe_provider key >>= delete_at ("provider " <> key) "/v1/providers/"

  unfoldable pub verify_provider : String → Goclaw E (Unit {0})
  unfolding observe_provider id_of
  verify_provider key =
      let label = "verify provider " <> key in
      wrapping label (observe_provider key) >>= λ current. elim current [
        | none ↦
            fail (wrap label (record { sentinel = some not_found; text = "resource not found" }))
        | some r ↦ id_of E label r >>= λ id.
            Http.post E ("/v1/providers/" <> id <> "/verify") none >> pure tt
      ]

  unfoldable pub observe_agent : String → Goclaw E (Option Fields)
  unfolding get_list find_resource translate_result strip_internal
  observe_agent key =
      get_list E "/v1/agents" "list agents" "parse agents response" "agents" >>= λ rs.
      find_resource E "agent_key" key rs >>= λ r. pure (translated E r)

  -- `syncAgentContextFiles`; the upload itself is the connection's.
  unfoldable pub sync_agent_context_files : String → Items → Goclaw E (Unit {0})
  unfolding observe_agent id_of
  sync_agent_context_files key files = observe_agent key >>= λ current. elim current [
    | none ↦ fail (plain ("agent " <> key <> " not found"))
    | some a ↦ id_of E ("agent " <> key) a >>= λ id. λ s.
        let uploaded = E.transport.sync_context_files s.world id files in
        let after = record s { world = uploaded.1 } in
        elim uploaded.0 [ none ↦ (value tt, after) | some e ↦ (failed e, after) ]
  ]

  -- A failed upload is only logged.
  unfoldable pub sync_if_any : String → Option Items → Goclaw E (Unit {0})
  unfolding sync_agent_context_files
  sync_if_any key (some (item v vs)) = attempt (sync_agent_context_files key (item v vs)) >> pure tt
  sync_if_any key _ = pure tt

  unfoldable pub create_agent : String → Fields → Goclaw E (Unit {0})
  unfolding get put without translate_spec sync_if_any
  create_agent key spec =
      let body =
        without (put (translate_spec E.unicode spec) "agent_key" (string key)) "context_files" in
      wrapping ("create agent " <> key) (Http.post E "/v1/agents" (some body))
      >> sync_if_any key (as_slice (get spec "contextFiles"))

  unfoldable pub update_agent : String → Fields → Goclaw E (Unit {0})
  unfolding observe_agent found id_of put_at get without translate_spec sync_if_any
  update_agent key spec = do
    current ← observe_agent key >>= found E ("agent " <> key)
    id ← id_of E ("agent " <> key) current
    put_at E ("agent " <> key) id ("/v1/agents/" <> id)
        (some (without (translate_spec E.unicode spec) "context_files"))
    sync_if_any key (as_slice (get spec "contextFiles"))

  unfoldable pub delete_agent : String → Goclaw E (Unit {0})
  unfolding observe_agent delete_at
  delete_agent key = observe_agent key >>= delete_at ("agent " <> key) "/v1/agents/"

  unfoldable pub observe_channel_instance : String → Goclaw E (Option Fields)
  unfolding get_list find_resource translate_result strip_internal without
  observe_channel_instance key =
      get_list E "/v1/channels/instances" "list channel instances"
        "parse channel instances response" "instances"
      >>= λ rs. find_resource E "name" key rs >>= λ r. elim r [
        | none ↦ pure none
        | some inst ↦
            pure (some (translate_result E.unicode (strip_internal (without inst "agent_id"))))
      ]

  -- The manifest's agent key becomes the agent's id, under the given names.
  unfoldable pub with_agent_id : String → String → String → Fields → Goclaw E Fields
  unfolding get put without resolve_agent_id
  with_agent_id label key_name id_name body = elim (as_string (get body key_name)) [
    | none ↦ pure body
    | some agent_key ↦ wrapping label (resolve_agent_id E agent_key) >>= λ id.
        pure (without (put body id_name (string id)) key_name)
  ]

  unfoldable pub create_channel_instance : String → Fields → Goclaw E (Unit {0})
  unfolding with_agent_id translate_spec put
  create_channel_instance key spec = do
    body ←
        with_agent_id ("channel " <> key) "agent_key" "agent_id"
          (put (translate_spec E.unicode spec) "name" (string key))
    wrapping ("create channel instance " <> key) (Http.post E "/v1/channels/instances" (some body))
    pure tt

  unfoldable pub update_channel_instance : String → Fields → Goclaw E (Unit {0})
  unfolding observe_channel_instance found id_of with_agent_id translate_spec put_at
  update_channel_instance key spec = do
    current ← observe_channel_instance key >>= found E ("channel instance " <> key)
    id ← id_of E ("channel instance " <> key) current
    body ← with_agent_id ("channel " <> key) "agent_key" "agent_id" (translate_spec E.unicode spec)
    put_at E ("channel instance " <> key) id ("/v1/channels/instances/" <> id) (some body)

  unfoldable pub delete_channel_instance : String → Goclaw E (Unit {0})
  unfolding observe_channel_instance delete_at
  delete_channel_instance key =
      observe_channel_instance key
      >>= delete_at ("channel instance " <> key) "/v1/channels/instances/"
