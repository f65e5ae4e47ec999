-- ===== src/Goclaw/Tenants.antt =====
-- Tenants (internal/provider/goclaw/tenants.go) and the scope of a provider: matchesTenant and
-- resolveAgentID of helpers.go, resolveTenantUUID of provider.go.
pub mod Scope
pub mod Keeping
use Prim.Native.String.{◌++◌ as ◌<>◌}
use gcplane.Base.{
  String, Bool, true, false, ◌||◌, ◌&&◌, Option, none, some, List, [], ◌∷◌, ◌==◌, if◌then◌else◌,
}
use gcplane.Spec.{Value, string, Fields, get, put, as_string}
use gcplane.Goclaw.Io.{
  Error, plain, wrap, is_not_found, Env, State, Outcome, value, failed, Goclaw, pure, fail, ◌>>=◌,
  ◌>>◌, wrapping, of_result, attempt,
}
use gcplane.Goclaw.Http
use gcplane.Goclaw.Helpers.{translate_spec, translate_result, strip_internal, str_val}

module _ (E : Env) where
  -- A GET whose answer holds a list under a name.
  unfoldable pub get_list : String → String → String → String → Goclaw E (List Fields)
  get_list path label parsed name =
      wrapping label (Http.get E path) >>= λ body. of_result parsed (E.transport.decode name body)

  -- `id, ok := current["id"].(string)`
  unfoldable pub id_of : String → Fields → Goclaw E String
  unfolding get
  id_of label current = elim (as_string (get current "id")) [
    | some id ↦ pure id
    | none ↦ fail (plain (label <> ": missing id"))
  ]

  -- `if current == nil { return fmt.Errorf("… not found for update") }`
  unfoldable pub found : String → Option Fields → Goclaw E Fields
  found label (some current) = pure current
  found label none = fail (plain (label <> " not found for update"))

  -- A PUT with the further text that an answer "not found" gets.
  unfoldable pub put_at : String → String → String → Option Fields → Goclaw E (Unit {0})
  unfolding is_not_found
  put_at label id path body = attempt (Http.put_json E path body) >>= λ o. elim o [
    | value _ ↦ pure tt
    | failed e ↦
        fail
          (if is_not_found e.sentinel then wrap (label <> " (id=" <> id <> ") not found") e else e)
  ]

  unfoldable pub find_slug : String → List Fields → Option Fields
  unfolding str_val
  find_slug key [] = none
  find_slug key (t ∷ ts) = if str_val t "slug" == key then some t else find_slug key ts

  abbrev pub translated : Option Fields → Option Fields
  unfolding translate_result strip_internal
  translated none = none
  translated (some t) = some (translate_result E.unicode (strip_internal t))

  unfoldable pub observe_tenant : String → Goclaw E (Option Fields)
  unfolding get_list find_slug translate_result strip_internal
  observe_tenant key =
      get_list "/v1/tenants" "list tenants" "parse tenants response" "tenants" >>= λ ts.
      pure (translated (find_slug key ts))

  unfoldable pub create_tenant : String → Fields → Goclaw E (Unit {0})
  unfolding translate_spec put
  create_tenant key spec =
      wrapping ("create tenant " <> key)
        (Http.post E "/v1/tenants" (some (put (translate_spec E.unicode spec) "slug" (string key))))
      >> pure tt

  unfoldable pub update_tenant : String → Fields → Goclaw E (Unit {0})
  unfolding observe_tenant found id_of put_at translate_spec
  update_tenant key spec = do
    current ← observe_tenant key >>= found ("tenant " <> key)
    id ← id_of ("tenant " <> key) current
    put_at ("tenant " <> key) id ("/v1/tenants/" <> id) (some (translate_spec E.unicode spec))

  unfoldable pub delete_tenant_at : String → Option Fields → Goclaw E (Unit {0})
  unfolding get
  delete_tenant_at key none = pure tt
  delete_tenant_at key (some t) = elim (as_string (get t "id")) [
    | some id ↦ Http.delete E ("/v1/tenants/" <> id)
    | none ↦ fail (plain ("tenant " <> key <> ": missing id for delete"))
  ]

  unfoldable pub delete_tenant : String → Goclaw E (Unit {0})
  unfolding observe_tenant delete_tenant_at
  delete_tenant key = observe_tenant key >>= delete_tenant_at key

  -- What `tenantOnce` runs: the id of the tenant's slug, or the error to store.
  unfoldable pub lookup_tenant : Goclaw E String
  unfolding observe_tenant get
  lookup_tenant =
      let slug = E.config.tenant_id in
      let name = "tenant " <> E.quoted slug in
      wrapping ("resolve tenant UUID for " <> E.quoted slug) (observe_tenant slug) >>= λ tenant.
      elim tenant [
        | none ↦ fail (plain (name <> " not found"))
        | some t ↦ elim (as_string (get t "id")) [
          | some id ↦ pure id
          | none ↦ fail (plain (name <> ": missing id"))
        ]
      ]

  -- What `resolveTenantUUID` returns of what is stored.
  unfoldable pub stored_uuid : Goclaw E String
  stored_uuid s = elim s.tenant_err [ some e ↦ (failed e, s) | none ↦ (value s.tenant_uuid, s) ]

  unfoldable pub once_tenant : Goclaw E (Unit {0})
  unfolding lookup_tenant
  once_tenant s = if s.tenant_done then (value tt, s) else elim (lookup_tenant s).0 [
    | value id ↦ (value tt, record (lookup_tenant s).1 { tenant_done = true; tenant_uuid = id })
    | failed e ↦ (value tt, record (lookup_tenant s).1 { tenant_done = true; tenant_err = some e })
  ]

  unfoldable pub resolve_tenant_uuid : Goclaw E String
  unfolding once_tenant stored_uuid
  resolve_tenant_uuid = if E.config.tenant_id == "" then pure "" else once_tenant >> stored_uuid

  unfoldable pub matches_tenant : Fields → Goclaw E Bool
  unfolding resolve_tenant_uuid str_val
  matches_tenant resource =
      let tid = str_val resource "tenant_id" in
      let resolved = attempt resolve_tenant_uuid >>= λ o. elim o [
        | failed e ↦ pure true
        | value uuid ↦ pure (if uuid == "" then true else tid == uuid)
      ] in
      if E.config.tenant_id == "" then pure true else if tid == "" then pure true else resolved

  -- The first resource with a key that belongs to the tenant.
  unfoldable pub find_resource : String → String → List Fields → Goclaw E (Option Fields)
  unfolding str_val matches_tenant
  find_resource name key [] = pure none
  find_resource name key (r ∷ rs) =
      let rest = find_resource name key rs in
      if str_val r name == key
      then (matches_tenant r >>= λ ours. if ours then pure (some r) else rest)
      else rest

  unfoldable pub find_agent_id : String → List Fields → Option String
  unfolding str_val
  find_agent_id key [] = none
  find_agent_id key (a ∷ agents) =
      let rest = find_agent_id key agents in
      let id = str_val a "id" in
      if str_val a "agent_key" == key then if id == "" then rest else some id else rest

  unfoldable pub resolve_agent_id : String → Goclaw E String
  unfolding get_list find_agent_id
  resolve_agent_id key =
      get_list "/v1/agents" "list agents" "parse agents response" "agents" >>= λ agents.
      elim (find_agent_id key agents) [
        | some id ↦ pure id
        | none ↦ fail (plain ("agent " <> E.quoted key <> " not found"))
      ]
