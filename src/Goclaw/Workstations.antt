-- ===== src/Goclaw/Workstations.antt =====
-- Workstations with their allowlist and their agents
-- (internal/provider/goclaw/workstations.go). GoClaw's permissions are taken to have texts as their
-- id and pattern; a map is visited in the order in which it was filled.
use Prim.Native.String.{◌++◌ as ◌<>◌}
use gcplane.Base.{String, false, Option, none, some, List, [], ◌∷◌, contains, if◌then◌else◌}
use gcplane.Base.Dict
use gcplane.Base.Dict.{Dict}
use gcplane.Spec.{string, bool, object, Fields, end, field}
use gcplane.Goclaw.Io.{
  plain, wrap, Env, value, failed, Goclaw, pure, fail, ◌>>=◌, ◌>>◌, wrapping, of_result, attempt,
}
use gcplane.Goclaw.Helpers.{without_all, str_val}
use gcplane.Goclaw.Tenants.{resolve_agent_id}
use gcplane.Goclaw.Sockets.{ensure_ws, ws_call, ws_list}
use gcplane.Goclaw.Configs.{find_named, find_named_id}
use gcplane.Goclaw.WorkstationSpec.{
  extract_string_slice, build_workstation_create_params, build_workstation_update_patch,
}

abbrev workstation_internal_fields : List String
workstation_internal_fields =
    "id" ∷ "tenantId" ∷ "createdAt" ∷ "updatedAt" ∷ "createdBy" ∷ "metadataSummary" ∷ []

-- A permission's pattern with its id.
abbrev pub PermEntry : Type 0
PermEntry = String × String

unfoldable pub perm_entries : List Fields → List PermEntry
unfolding str_val
perm_entries [] = []
perm_entries (pe ∷ pes) = (str_val pe "pattern", str_val pe "id") ∷ perm_entries pes

-- `currentSet`
unfoldable pub id_by_pattern : Dict String → List PermEntry → Dict String
unfolding Dict.put
id_by_pattern ids [] = ids
id_by_pattern ids (e ∷ es) = id_by_pattern (Dict.put ids e.0 e.1) es

module _ (E : Env) where
  unfoldable pub list_workstations : Goclaw E (List Fields)
  unfolding ensure_ws ws_list
  list_workstations =
      wrapping "ws connect for workstations" (ensure_ws E)
      >> ws_list E "workstations.list" none "workstations"

  unfoldable pub observe_workstation : String → Goclaw E (Option Fields)
  unfolding list_workstations find_named without_all
  observe_workstation key = list_workstations >>= λ ws. elim (find_named "workstationKey" key ws) [
    | none ↦ pure none
    | some w ↦ pure (some (without_all w workstation_internal_fields))
  ]

  unfoldable pub resolve_workstation_id : String → Goclaw E String
  unfolding list_workstations find_named_id
  resolve_workstation_id key = list_workstations >>= λ ws.
      elim (find_named_id "workstationKey" key ws) [
        | some id ↦ pure id
        | none ↦ fail (plain ("workstation " <> E.quoted key <> " not found"))
      ]

  unfoldable pub list_workstation_permissions : String → Goclaw E (List PermEntry)
  unfolding ws_call perm_entries
  list_workstation_permissions ws_id =
      ws_call E "workstations.permissions.list" "workstations.permissions.list"
        (some (field "workstationId" (string ws_id) end))
      >>= λ payload.
          of_result "parse permissions.list response" (E.transport.decode "permissions" payload)
          >>= λ pes. pure (perm_entries pes)

  unfoldable pub add_permissions : String → Dict String → List String → Goclaw E (Unit {0})
  unfolding ws_call Dict.get
  add_permissions ws_id current [] = pure tt
  add_permissions ws_id current (d ∷ desired) =
      let rest = add_permissions ws_id current desired in
      elim (Dict.get current d) [
        | some _ ↦ rest
        | none ↦
            ws_call E ("add permission " <> E.quoted d) "workstations.permissions.add"
              (some (field "workstationId" (string ws_id) (field "pattern" (string d) end)))
            >> rest
      ]

  unfoldable pub remove_permissions : List String → Dict String → Goclaw E (Unit {0})
  unfolding ws_call contains
  remove_permissions desired [] = pure tt
  remove_permissions desired (e ∷ current) =
      let rest = remove_permissions desired current in
      if contains desired e.0
      then rest
      else (ws_call E ("remove permission " <> E.quoted e.0) "workstations.permissions.remove"
            (some (field "id" (string e.1) end))
          >> rest)

  -- Without a current list, nothing is removed.
  unfoldable pub reconcile_allowlist :
      String → Option (List PermEntry) → List String → Goclaw E (Unit {0})
  unfolding add_permissions remove_permissions id_by_pattern
  reconcile_allowlist ws_id none desired = add_permissions ws_id [] desired
  reconcile_allowlist ws_id (some current) desired =
      let current_set = id_by_pattern [] current in
      add_permissions ws_id current_set desired >> remove_permissions desired current_set

  unfoldable pub link_agents : String → List String → List String → Goclaw E (Unit {0})
  unfolding ws_call resolve_agent_id contains
  link_agents ws_id current [] = pure tt
  link_agents ws_id current (key ∷ keys) =
      let rest = link_agents ws_id current keys in
      let linking =
        wrapping ("resolve agent " <> E.quoted key <> " for link") (resolve_agent_id E key)
        >>= λ id.
            ws_call E ("linkAgent " <> key <> " → " <> ws_id) "workstations.linkAgent" (
              some (
                field "workstationId" (string ws_id)
                  (field "agentId" (string id) (field "isDefault" (bool false) end))))
            >> rest in
      if contains current key then rest else linking

  unfoldable pub unlink_agents : String → List String → List String → Goclaw E (Unit {0})
  unfolding ws_call resolve_agent_id contains
  unlink_agents ws_id desired [] = pure tt
  unlink_agents ws_id desired (key ∷ keys) =
      let rest = unlink_agents ws_id desired keys in
      let unlinking =
        wrapping ("resolve agent " <> E.quoted key <> " for unlink") (resolve_agent_id E key)
        >>= λ id.
            ws_call E ("unlinkAgent " <> key <> " → " <> ws_id) "workstations.unlinkAgent"
              (some (field "workstationId" (string ws_id) (field "agentId" (string id) end)))
            >> rest in
      if contains desired key then rest else unlinking

  unfoldable pub reconcile_workstation_agent_links :
      String → Option (List String) → List String → Goclaw E (Unit {0})
  unfolding link_agents unlink_agents
  reconcile_workstation_agent_links ws_id none desired = link_agents ws_id [] desired
  reconcile_workstation_agent_links ws_id (some current) desired =
      link_agents ws_id current desired >> unlink_agents ws_id desired current

  -- The end of a creation and of an update.
  unfoldable pub settle : String → String → Option (List PermEntry) → Fields → Goclaw E (Unit {0})
  unfolding reconcile_allowlist reconcile_workstation_agent_links extract_string_slice
  settle key ws_id permissions spec =
      wrapping ("workstation " <> key <> ": reconcile allowlist")
        (reconcile_allowlist ws_id permissions (extract_string_slice spec "allowlist"))
      >> wrapping ("workstation " <> key <> ": reconcile agent links")
          (reconcile_workstation_agent_links ws_id none (extract_string_slice spec "agents"))

  unfoldable pub create_workstation : String → Fields → Goclaw E (Unit {0})
  unfolding ensure_ws ws_call build_workstation_create_params resolve_workstation_id settle
  create_workstation key spec = do
    wrapping "ws connect for workstations" (ensure_ws E)
    ws_call E ("workstations.create " <> key) "workstations.create"
        (some (build_workstation_create_params key spec))
    ws_id ←
        wrapping ("workstation " <> key <> ": resolve after create") (resolve_workstation_id key)
    settle key ws_id none spec

  -- An empty patch is not sent.
  unfoldable pub send_patch : String → String → Fields → Goclaw E (Unit {0})
  unfolding ws_call
  send_patch key ws_id end = pure tt
  send_patch key ws_id (field k v fs) =
      ws_call E ("workstations.update " <> key) "workstations.update"
        (some (field "id" (string ws_id) (field "updates" (object (field k v fs)) end)))
      >> pure tt

  unfoldable pub update_workstation : String → Fields → Goclaw E (Unit {0})
  unfolding ensure_ws resolve_workstation_id send_patch build_workstation_update_patch settle
      list_workstation_permissions
  update_workstation key spec = do
    wrapping "ws connect for workstations" (ensure_ws E)
    ws_id ← wrapping ("workstation " <> key <> " not found for update") (resolve_workstation_id key)
    send_patch key ws_id (build_workstation_update_patch spec)
    permissions ←
        wrapping ("workstation " <> key <> ": list permissions")
          (list_workstation_permissions ws_id)
    settle key ws_id (some permissions) spec

  unfoldable pub delete_workstation : String → Goclaw E (Unit {0})
  unfolding ensure_ws resolve_workstation_id ws_call
  delete_workstation key =
      wrapping "ws connect for workstations" (ensure_ws E)
      >> attempt (resolve_workstation_id key)
      >>= λ o. elim o [
        | failed e ↦
            if E.transport.contains_not_found e.text
            then pure tt
            else fail (wrap ("workstation " <> key <> ": resolve for delete") e)
        | value id ↦
            ws_call E ("workstations.delete " <> key) "workstations.delete"
              (some (field "id" (string id) end))
            >> pure tt
      ]
