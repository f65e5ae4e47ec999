-- ===== src/Goclaw/Dispatch/Idempotence.antt =====
-- Deleting what is not there, and creating without a tenant.
use Prim.Native.String.{◌++◌ as ◌<>◌}
use gcplane.Base.{
  if◌then◌else◌, not, ◌&&◌, String, true, false, none, some, ◌==◌, ◌≡◌, refl, ap, ◌∙◌,
}
use gcplane.Spec.{Fields, string, put}
use gcplane.Manifest.Kind.{
  ResourceKind, tenant, provider, agent, channel, mcp_server, cron_job, agent_team, secure_cli,
  agent_link,
}
use gcplane.Goclaw.Io.{
  Error, Env, State, value, failed, ◌>>=◌, wrapping, rewrapped, attempt, bind-value, bind-failed,
  Outcome, Goclaw,
}
use gcplane.Goclaw.Tenants.{
  lookup_tenant, observe_tenant, delete_tenant, delete_tenant_at, resolve_tenant_uuid, once_tenant,
  stored_uuid,
}
use gcplane.Goclaw.Tenants.Scope.{unresolved, unasked}
use gcplane.Goclaw.Resources.{
  delete_at, observe_provider, delete_provider, observe_agent, delete_agent,
  observe_channel_instance, delete_channel_instance,
}
use gcplane.Goclaw.Sockets.{
  ensure_ws, observe_cron_job, delete_cron_job, delete_job_at, observe_team, delete_team,
  delete_team_at,
}
use gcplane.Goclaw.Links.{observe_agent_link, delete_agent_link, delete_link_at}
use gcplane.Goclaw.Servers.{observe_mcp_server, delete_mcp_server}
use gcplane.Goclaw.Cli.{observe_secure_cli, delete_secure_cli}
use gcplane.Goclaw.Dispatch.{Handlers, observe, create, create_handler, delete}

-- The kinds whose deletion begins with an observation.
pub data IsObservedFirst : ResourceKind → Type 0 where
  tenants : IsObservedFirst tenant
  providers : IsObservedFirst provider
  agents : IsObservedFirst agent
  channels : IsObservedFirst channel
  mcp_servers : IsObservedFirst mcp_server
  cron_jobs : IsObservedFirst cron_job
  teams : IsObservedFirst agent_team
  secure_clis : IsObservedFirst secure_cli
  agent_links : IsObservedFirst agent_link

module _ (E : Env) (others : Handlers E) where
  connected :
      (s : State E.transport.World)
      → E.transport.is_connected s.world ≡ true
      → ensure_ws E s ≡ (value tt, s)
  unfolding ensure_ws
  connected s open_socket = rw (ensure_ws, open_socket) refl

  -- With an open socket, deleting a resource that an observation does not find succeeds and does
  -- nothing that the observation has not done: tenants, providers, agents, channels, MCP
  -- servers, cron jobs, teams, CLI binaries and agent links.
  pub delete_absent :
      {kind : ResourceKind} (h : IsObservedFirst kind) (key : String)
      (s t : State E.transport.World)
      → E.transport.is_connected s.world ≡ true
      → observe E others kind key s ≡ (value none, t)
      → delete E others kind key s ≡ (value tt, t)
  unfolding observe delete delete_tenant delete_tenant_at delete_provider delete_at delete_agent
      delete_channel_instance delete_mcp_server delete_cron_job delete_job_at delete_team
      delete_team_at delete_secure_cli delete_agent_link delete_link_at
  delete_absent tenants key s t open_socket absent =
      bind-value (observe_tenant E key) (delete_tenant_at E key) s t none absent
  delete_absent providers key s t open_socket absent =
      bind-value (observe_provider E key) (delete_at E ("provider " <> key) "/v1/providers/") s t
        none absent
  delete_absent agents key s t open_socket absent =
      bind-value (observe_agent E key) (delete_at E ("agent " <> key) "/v1/agents/") s t none absent
  delete_absent channels key s t open_socket absent =
      bind-value (observe_channel_instance E key)
        (delete_at E ("channel instance " <> key) "/v1/channels/instances/") s t none absent
  delete_absent mcp_servers key s t open_socket absent =
      bind-value (observe_mcp_server E key) (delete_at E ("mcp server " <> key) "/v1/mcp/servers/")
        s t none absent
  delete_absent cron_jobs key s t open_socket absent =
      bind-value (ensure_ws E) (λ _. observe_cron_job E key >>= delete_job_at E) s s tt
        (connected s open_socket)
      ∙ bind-value (observe_cron_job E key) (delete_job_at E) s t none absent
  delete_absent teams key s t open_socket absent =
      bind-value (ensure_ws E) (λ _. observe_team E key >>= delete_team_at E) s s tt
        (connected s open_socket)
      ∙ bind-value (observe_team E key) (delete_team_at E) s t none absent
  delete_absent secure_clis key s t open_socket absent =
      bind-value (observe_secure_cli E key)
        (delete_at E ("cli-credential " <> key) "/v1/cli-credentials/") s t none absent
  delete_absent agent_links key s t open_socket absent =
      bind-value (wrapping "ws connect for agent links" (ensure_ws E))
        (λ _. attempt (observe_agent_link E key) >>= delete_link_at E key) s s tt
        (ap (rewrapped "ws connect for agent links") (connected s open_socket))
      ∙ bind-value (attempt (observe_agent_link E key)) (delete_link_at E key) s t (value none)
          (ap (λ ended. (value ended.0, ended.1)) absent)

  -- What is stored of a lookup.
  abbrev once_ended : Outcome String × State E.transport.World → Goclaw E (Unit {0})
  once_ended asked s = elim asked.0 as (λ _. Outcome (Unit {0}) × State E.transport.World) [
    | value id ↦ (value tt, record asked.1 { tenant_done = true; tenant_uuid = id })
    | failed e ↦ (value tt, record asked.1 { tenant_done = true; tenant_err = some e })
  ]

  first_lookup :
      (v w : E.transport.World) (e : Error)
      → (E.config.tenant_id == "") ≡ false
      → lookup_tenant E (unasked E v) ≡ (failed e, unasked E w)
      → resolve_tenant_uuid E (unasked E v) ≡ (failed e, unresolved E w e)
  unfolding resolve_tenant_uuid once_tenant stored_uuid
  first_lookup v w e scoped lost =
      rw scoped (ap (λ asked. (once_ended asked >>= λ _. stored_uuid E) (unasked E v)) lost)

  later_lookup :
      (w : E.transport.World) (e : Error)
      → (E.config.tenant_id == "") ≡ false
      → resolve_tenant_uuid E (unresolved E w e) ≡ (failed e, unresolved E w e)
  unfolding resolve_tenant_uuid once_tenant stored_uuid
  later_lookup w e scoped = rw scoped refl

  create-refused :
      (kind : ResourceKind) (key : String) (spec : Fields) (s t : State E.transport.World)
      (e : Error)
      → (E.config.tenant_id == "") ≡ false
      → (kind == tenant) ≡ false
      → resolve_tenant_uuid E s ≡ (failed e, t)
      → create E others kind key spec s ≡ (failed e, t)
  unfolding create
  create-refused kind key spec s t e scoped some_kind ran =
      let sending : String → Goclaw E (Unit {0}) =
        λ uuid. create_handler E others kind key (put spec "tenantId" (string uuid)) in
      ap
        (λ b.
          (if not b && not (kind == tenant)
              then (resolve_tenant_uuid E >>= sending)
              else create_handler E others kind key spec)
            s)
        scoped
      ∙ ap
          (λ b.
            (if not b
                then (resolve_tenant_uuid E >>= sending)
                else create_handler E others kind key spec)
              s)
          some_kind
      ∙ bind-failed (resolve_tenant_uuid E) sending s t e ran

  -- One failed lookup of the tenant is final: the first creation of anything but a tenant fails
  -- with the lookup's error, and from then on every such creation fails with that error, without a
  -- request and without a change of the state.
  pub create-unresolved :
      (v w : E.transport.World) (e : Error) (kind later : ResourceKind) (key other : String)
      (spec sent : Fields)
      → (E.config.tenant_id == "") ≡ false
      → (kind == tenant) ≡ false
      → (later == tenant) ≡ false
      → lookup_tenant E (unasked E v) ≡ (failed e, unasked E w)
      → (create E others kind key spec (unasked E v) ≡ (failed e, unresolved E w e))
        × (create E others later other sent (unresolved E w e) ≡ (failed e, unresolved E w e))
  create-unresolved v w e kind later key other spec sent scoped some_kind some_later lost = (
    create-refused kind key spec (unasked E v) (unresolved E w e) e scoped some_kind
        (first_lookup v w e scoped lost),
    create-refused later other sent (unresolved E w e) (unresolved E w e) e scoped some_later
        (later_lookup w e scoped),
  )
