-- ===== src/Goclaw/Servers/Grants.antt =====
-- What the two loops of `applyMCPGrants` do to the grants of a server.
use Prim.Native.String.{◌++◌ as ◌<>◌}
use text.Mathlib.TextEquality.{eq_iff}
use gcplane.Base.{
  String, Bool, true, false, ◌≡◌, refl, sym, ◌∙◌, ap, some, List, [], ◌∷◌, ◌==◌, contains,
  if◌then◌else◌, arith,
}
use gcplane.Spec.{Fields, string, end, field}
use gcplane.Goclaw.Io.{
  Error, is_not_found, Env, State, Outcome, value, failed, Goclaw, wrap, fail, ◌>>=◌, bind-value,
  continued, rewrapped, rewrapped-value,
}
use gcplane.Goclaw.Http
use gcplane.Goclaw.Servers.{
  grant_all, revoke_all, lacking, settle_grants, granted_ids, resolve_mcp_server_id,
  list_mcp_grants, desired_ids, apply_mcp_grants,
}

-- What GoClaw does with a grant and a revocation that it accepts, and with a revocation that finds
-- no grant: the agent is granted afterwards or is not, and no other agent's grant changes.
pub record IsGranting (E : Env) (server_id : String) (granted : E.transport.World → String → Bool)
    : Type 0 where
  pub grants :
      (id : String) (s t : State E.transport.World) (answer : String)
      → Http.post E
          ("/v1/mcp/servers/" <> server_id <> "/grants/agent")
          (some (field "agent_id" (string id) end))
          s
        ≡ (value answer, t)
      → (x : String) → granted t.world x ≡ (if id == x then true else granted s.world x)
  pub revokes :
      (id : String) (s t : State E.transport.World)
      → Http.delete E ("/v1/mcp/servers/" <> server_id <> "/grants/agent/" <> id) s ≡ (value tt, t)
      → (x : String) → granted t.world x ≡ (if id == x then false else granted s.world x)
  pub misses :
      (id : String) (s t : State E.transport.World) (e : Error)
      → Http.delete E ("/v1/mcp/servers/" <> server_id <> "/grants/agent/" <> id) s ≡ (failed e, t)
      → is_not_found e.sentinel ≡ true
      → (x : String) → granted t.world x ≡ (if id == x then false else granted s.world x)

contains-lacking :
    (wanted present : List String) (x : String)
    → contains (lacking wanted present) x
      ≡ (if contains present x then false else contains wanted x)
unfolding contains lacking
contains-lacking [] present x = ground arith
contains-lacking (w ∷ wanted) present x =
    ground (arith, eq_iff w x, contains-lacking wanted present x)

module _ (E : Env) (name server_id : String) (granted : E.transport.World → String → Bool)
    (h : IsGranting E server_id granted) where
  -- What `revoke_all` does after a request.
  abbrev revoke_after :
      String
      → List String
      → Outcome (Unit {0}) × State E.transport.World
      → Outcome (Unit {0}) × State E.transport.World
  revoke_after id ids ended =
      (elim ended.0 as (λ _. Goclaw E (Unit {0})) [
        | value _ ↦ revoke_all E name server_id ids
        | failed e ↦
            if is_not_found e.sentinel
            then revoke_all E name server_id ids
            else fail (wrap ("revoke agent " <> id <> " from mcp server " <> name) e)
      ])
        ended.1

  granted_all :
      (ids : List String) (s t : State E.transport.World)
      → grant_all E name server_id ids s ≡ (value tt, t)
      → (x : String) → granted t.world x ≡ (if contains ids x then true else granted s.world x)
  unfolding grant_all contains
  granted_all [] s t ran x = ap (λ o. granted o.1.world x) (sym ran)
  granted_all (id ∷ ids) s t ran x =
      let post =
        Http.post E ("/v1/mcp/servers/" <> server_id <> "/grants/agent")
          (some (field "agent_id" (string id) end)) s in
      let prefix = "grant agent " <> id <> " to mcp server " <> name in
      let first =
        continued (λ _. grant_all E name server_id ids) (rewrapped prefix post) t tt ran in
      let posted = rewrapped-value prefix post first.1 first.0 first.2 in
      ground (
        arith,
        eq_iff id x,
        h.grants id s first.1 first.0 posted x,
        granted_all ids first.1 t first.3 x,
      )

  -- A revocation that failed, by whether it found no grant.
  missed :
      (id : String) (ids : List String) (s t u : State E.transport.World) (e : Error)
      → Http.delete E ("/v1/mcp/servers/" <> server_id <> "/grants/agent/" <> id) s ≡ (failed e, u)
      → (absent : Bool) → is_not_found e.sentinel ≡ absent
      → (if absent
            then revoke_all E name server_id ids
            else fail (wrap ("revoke agent " <> id <> " from mcp server " <> name) e))
          u
        ≡ (value tt, t)
      → (v : State E.transport.World) × (revoke_all E name server_id ids v ≡ (value tt, t))
        × ((x : String) → granted v.world x ≡ (if id == x then false else granted s.world x))
  missed id ids s t u e at true absent ran = (u, ran, h.misses id s u e at absent)
  missed id ids s t u e at false other ran = cc

  -- One revocation, by how its request ended, and the ones after it.
  revoked_one :
      (id : String) (ids : List String) (s t : State E.transport.World)
      (ended : Outcome (Unit {0}) × State E.transport.World)
      → Http.delete E ("/v1/mcp/servers/" <> server_id <> "/grants/agent/" <> id) s ≡ ended
      → revoke_after id ids ended ≡ (value tt, t)
      → (u : State E.transport.World) × (revoke_all E name server_id ids u ≡ (value tt, t))
        × ((x : String) → granted u.world x ≡ (if id == x then false else granted s.world x))
  revoked_one id ids s t (value a, u) at ran = (u, ran, h.revokes id s u at)
  revoked_one id ids s t (failed e, u) at ran =
      missed id ids s t u e at (is_not_found e.sentinel) refl ran

  revoked_all :
      (ids : List String) (s t : State E.transport.World)
      → revoke_all E name server_id ids s ≡ (value tt, t)
      → (x : String) → granted t.world x ≡ (if contains ids x then false else granted s.world x)
  unfolding revoke_all contains
  revoked_all [] s t ran x = ap (λ o. granted o.1.world x) (sym ran)
  revoked_all (id ∷ ids) s t ran x =
      let after =
        revoked_one id ids s t
          (Http.delete E ("/v1/mcp/servers/" <> server_id <> "/grants/agent/" <> id) s) refl ran in
      ground (arith, eq_iff id x, after.2 x, revoked_all ids after.0 t after.1 x)

  settle_grants-granted :
      (current wanted : List String) (s t : State E.transport.World)
      → ((x : String) → granted s.world x ≡ contains current x)
      → settle_grants E name server_id current wanted s ≡ (value tt, t)
      → (x : String) → granted t.world x ≡ contains wanted x
  unfolding settle_grants
  settle_grants-granted current wanted s t listed ran x =
      let first =
        continued (λ _. revoke_all E name server_id (lacking current wanted))
          (grant_all E name server_id (lacking wanted current) s) t tt ran in
      ground (
        arith,
        listed x,
        contains-lacking wanted current x,
        contains-lacking current wanted x,
        granted_all (lacking wanted current) s first.1 first.2 x,
        revoked_all (lacking current wanted) first.1 t first.3 x,
      )

  -- Where applyMCPGrants finds the server, reads a list of grants that is the granted set, resolves
  -- the desired agents and ends without an error, the agents that are granted afterwards are
  -- exactly the desired ones. GoClaw grants and revokes what it is asked to, one agent by a request.
  pub apply_mcp_grants-granted :
      (agents wanted : List String) (listing : List Fields) (s u v w t : State E.transport.World)
      → resolve_mcp_server_id E name s ≡ (value server_id, u)
      → list_mcp_grants E server_id u ≡ (value listing, v)
      → desired_ids E [] agents v ≡ (value wanted, w)
      → ((x : String) → granted w.world x ≡ contains (granted_ids [] listing) x)
      → apply_mcp_grants E name agents s ≡ (value tt, t)
      → (x : String) → granted t.world x ≡ contains wanted x
  unfolding apply_mcp_grants
  apply_mcp_grants-granted agents wanted listing s u v w t resolved read wished listed ran x =
      let current = granted_ids [] listing in
      let last =
        bind-value (desired_ids E [] agents) (λ ids. settle_grants E name server_id current ids) v w
          wanted wished in
      let middle =
        bind-value (list_mcp_grants E server_id)
          (λ gs. desired_ids E [] agents >>= λ ids.
            settle_grants E name server_id (granted_ids [] gs) ids)
          u v listing read in
      let first =
        bind-value (resolve_mcp_server_id E name)
          (λ id. list_mcp_grants E id >>= λ gs.
            desired_ids E [] agents >>= λ ids. settle_grants E name id (granted_ids [] gs) ids)
          s u server_id resolved in
      settle_grants-granted current wanted w t listed (sym last ∙ sym middle ∙ sym first ∙ ran) x
