-- ===== src/Goclaw/Links.antt =====
-- Agent links over the socket (internal/provider/goclaw/agent_links.go).
pub mod Names
use Prim.Native.String.{◌++◌ as ◌<>◌}
use gcplane.Base.{
  String, Bool, true, false, ◌||◌, Option, none, some, List, [], ◌∷◌, ◌==◌, if◌then◌else◌, Result,
  ok, err,
}
use gcplane.Base.Text.{split_dashes}
use gcplane.Spec.{Value, string, bool, object, Fields, end, field, put}
use gcplane.Goclaw.Io.{
  Error, plain, wrap, Env, State, Outcome, value, failed, Goclaw, pure, fail, ◌>>=◌, ◌>>◌, wrapping,
  attempt, of_result,
}
use gcplane.Goclaw.Helpers.{
  translate_spec, translate_result, strip_internal, without, without_all, str_val,
}
use gcplane.Goclaw.Tenants.{found, find_resource, resolve_agent_id, translated}
use gcplane.Goclaw.Resources.{with_agent_id}
use gcplane.Goclaw.Sockets.{ensure_ws, ws_call, ws_list}

abbrev pub link_query : String → Fields
link_query source_id = field "agentId" (string source_id) (field "direction" (string "from") end)

module _ (E : Env) where
  abbrev agent_link_internal_fields : List String
  agent_link_internal_fields =
      "sourceAgentId" ∷ "targetAgentId" ∷ "sourceAgentKey" ∷ "sourceDisplayName" ∷ "sourceEmoji"
      ∷ "targetAgentKey" ∷ "targetDisplayName" ∷ "targetEmoji" ∷ "targetDescription" ∷ "teamId"
      ∷ "teamName" ∷ "targetIsTeamLead" ∷ "targetTeamName" ∷ []

  -- `parseAgentLinkName`
  unfoldable pub parse_agent_link_name : String → Result (String × String)
  parse_agent_link_name name =
      let invalid = err (
        "invalid agent link name "
        <> E.quoted name
        <> ": expected format sourceAgent--targetAgent (agent_keys may not contain "
        <> E.quoted "--"
        <> ")") in
      elim (split_dashes name) [
        | a ∷ b ∷ [] ↦ if a == "" || b == "" then invalid else ok (a, b)
        | _ ↦ invalid
      ]

  unfoldable pub parsed_link : String → Goclaw E (String × String)
  unfolding parse_agent_link_name
  parsed_link name = elim (parse_agent_link_name name) [
    | ok pair ↦ pure pair
    | err e ↦ fail (plain e)
  ]

  unfoldable pub find_link : String → List Fields → Option Fields
  unfolding translate_result str_val
  find_link target_id [] = none
  find_link target_id (link ∷ links) =
      let rest = find_link target_id links in
      if str_val (translate_result E.unicode link) "targetAgentId" == target_id
      then some link
      else rest

  unfoldable pub observe_agent_link : String → Goclaw E (Option Fields)
  unfolding ensure_ws parsed_link resolve_agent_id ws_list find_link translate_result strip_internal
      without_all
  observe_agent_link key = do
    wrapping "ws connect for agent links" (ensure_ws E)
    pair ← parsed_link key
    source_id ← wrapping ("link " <> key <> ": source") (resolve_agent_id E pair.0)
    target_id ← wrapping ("link " <> key <> ": target") (resolve_agent_id E pair.1)
    links ← ws_list E "agents.links.list" (some (link_query source_id)) "links"
    elim (find_link target_id links) [
      | none ↦ pure none
      | some link ↦ pure (
          some (
            without_all (translate_result E.unicode (strip_internal link))
              agent_link_internal_fields))
    ]

  unfoldable pub create_agent_link : String → Fields → Goclaw E (Unit {0})
  unfolding ensure_ws parsed_link ws_call put
  create_agent_link key spec = do
    wrapping "ws connect for agent links" (ensure_ws E)
    pair ← parsed_link key
    ws_call E ("agents.links.create " <> key) "agents.links.create"
        (some (put (put spec "sourceAgent" (string pair.0)) "targetAgent" (string pair.1)))
    pure tt

  unfoldable pub link_id : String → Fields → Goclaw E String
  unfolding str_val
  link_id key current =
      if str_val current "id" == ""
      then fail (plain ("agent link " <> key <> ": missing id"))
      else pure (str_val current "id")

  unfoldable pub update_agent_link : String → Fields → Goclaw E (Unit {0})
  unfolding ensure_ws observe_agent_link found link_id ws_call without put
  update_agent_link key spec = do
    wrapping "ws connect for agent links" (ensure_ws E)
    current ← observe_agent_link key >>= found E ("agent link " <> key)
    id ← link_id key current
    ws_call E ("agents.links.update " <> key) "agents.links.update"
        (some (put (without (without spec "sourceAgent") "targetAgent") "linkId" (string id)))
    pure tt

  -- An error that says "not found" counts as the link's absence.
  unfoldable pub delete_link_at : String → Outcome (Option Fields) → Goclaw E (Unit {0})
  unfolding link_id ws_call
  delete_link_at key (failed e) = if E.transport.contains_not_found e.text then pure tt else fail e
  delete_link_at key (value none) = pure tt
  delete_link_at key (value (some link)) = do
    id ← link_id key link
    ws_call E ("agents.links.delete " <> key) "agents.links.delete"
        (some (field "linkId" (string id) end))
    pure tt

  unfoldable pub delete_agent_link : String → Goclaw E (Unit {0})
  unfolding ensure_ws observe_agent_link delete_link_at
  delete_agent_link key =
      wrapping "ws connect for agent links" (ensure_ws E)
      >> (attempt (observe_agent_link key) >>= delete_link_at key)
