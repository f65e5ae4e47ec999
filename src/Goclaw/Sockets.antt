-- ===== src/Goclaw/Sockets.antt =====
-- Cron jobs and teams over the socket (internal/provider/goclaw/cron_jobs.go, teams.go, their
-- deletions in delete.go, and ensureWS and the log tail of provider.go).
use Prim.Native.String.{◌++◌ as ◌<>◌}
use gcplane.Base.{String, true, Option, none, some, List, [], ◌∷◌, ◌==◌, if◌then◌else◌, ok, err}
use gcplane.Spec.{string, bool, object, Fields, end, field, put}
use gcplane.Goclaw.Io.{plain, Env, value, failed, Goclaw, pure, ◌>>=◌, ◌>>◌, wrapping, of_result}
use gcplane.Goclaw.Helpers.{translate_spec, translate_result, strip_internal, without_all, str_val}
use gcplane.Goclaw.Tenants.{found, find_resource, translated}
use gcplane.Goclaw.Resources.{with_agent_id}

module _ (E : Env) where
  unfoldable pub ensure_ws : Goclaw E (Unit {0})
  ensure_ws s =
      let connected = E.transport.connect s.world in
      let after = record s { world = connected.1 } in
      if E.transport.is_connected s.world
      then (value tt, s)
      else elim connected.0 [ none ↦ (value tt, after) | some e ↦ (failed e, after) ]

  unfoldable pub ws_call : String → String → Option Fields → Goclaw E String
  ws_call label method params s =
      let answer = E.transport.call s.world method params in
      (of_result label answer.0) (record s { world = answer.1 })

  -- A call whose error goes back as it is.
  unfoldable pub ws_write : String → Fields → Goclaw E (Unit {0})
  ws_write method params s =
      let answer = E.transport.call s.world method (some params) in
      let after = record s { world = answer.1 } in
      elim answer.0 [ ok _ ↦ (value tt, after) | err e ↦ (failed (plain e), after) ]

  unfoldable pub ws_list : String → Option Fields → String → Goclaw E (List Fields)
  unfolding ws_call
  ws_list method params name = ws_call method method params >>= λ payload.
      of_result ("parse " <> method <> " response") (E.transport.decode name payload)

  -- The id, or the name where there is none.
  unfoldable pub id_or_name : Fields → String
  unfolding str_val
  id_or_name current =
      if str_val current "id" == "" then str_val current "name" else str_val current "id"

  abbrev cron_internal_fields : List String
  cron_internal_fields =
      "tenantId" ∷ "userId" ∷ "payload" ∷ "state" ∷ "createdAtMs" ∷ "updatedAtMs" ∷ "createdBy" ∷ []

  unfoldable pub observe_cron_job : String → Goclaw E (Option Fields)
  unfolding ensure_ws ws_list find_resource translate_result strip_internal without_all
  observe_cron_job key =
      wrapping "ws connect for cron" ensure_ws
      >> ws_list "cron.list" (some (field "includeDisabled" (bool true) end)) "jobs"
      >>= λ rs. find_resource E "name" key rs >>= λ r. elim r [
        | none ↦ pure none
        | some job ↦ pure (
            some
              (without_all (translate_result E.unicode (strip_internal job)) cron_internal_fields))
      ]

  unfoldable pub create_cron_job : String → Fields → Goclaw E (Unit {0})
  unfolding ensure_ws ws_call with_agent_id put
  create_cron_job key spec = do
    wrapping "ws connect for cron" ensure_ws
    params ← with_agent_id E ("cron " <> key) "agentKey" "agentId" (put spec "name" (string key))
    ws_call ("cron.create " <> key) "cron.create" (some params)
    pure tt

  unfoldable pub update_cron_job : String → Fields → Goclaw E (Unit {0})
  unfolding ensure_ws observe_cron_job found id_or_name with_agent_id ws_call
  update_cron_job key spec = do
    wrapping "ws connect for cron" ensure_ws
    current ← observe_cron_job key >>= found E ("cron job " <> key)
    patch ← with_agent_id E ("cron " <> key) "agentKey" "agentId" spec
    ws_call ("cron.update " <> key) "cron.update"
        (some (field "jobId" (string (id_or_name current)) (field "patch" (object patch) end)))
    pure tt

  unfoldable pub delete_job_at : Option Fields → Goclaw E (Unit {0})
  unfolding id_or_name ws_write
  delete_job_at none = pure tt
  delete_job_at (some job) = ws_write "cron.delete" (field "jobId" (string (id_or_name job)) end)

  unfoldable pub delete_cron_job : String → Goclaw E (Unit {0})
  unfolding ensure_ws observe_cron_job delete_job_at
  delete_cron_job key = ensure_ws >> (observe_cron_job key >>= delete_job_at)

  unfoldable pub observe_team : String → Goclaw E (Option Fields)
  unfolding ensure_ws ws_list find_resource translate_result strip_internal
  observe_team key =
      wrapping "ws connect for teams" ensure_ws >> ws_list "teams.list" none "teams" >>= λ rs.
      find_resource E "name" key rs >>= λ r. pure (translated E r)

  unfoldable pub create_team : String → Fields → Goclaw E (Unit {0})
  unfolding ensure_ws ws_call translate_spec put
  create_team key spec = do
    wrapping "ws connect for teams" ensure_ws
    ws_call ("teams.create " <> key) "teams.create"
        (some (put (translate_spec E.unicode spec) "name" (string key)))
    pure tt

  unfoldable pub update_team : String → Fields → Goclaw E (Unit {0})
  unfolding ensure_ws observe_team found id_or_name ws_call translate_spec put
  update_team key spec = do
    wrapping "ws connect for teams" ensure_ws
    current ← observe_team key >>= found E ("team " <> key)
    ws_call ("teams.update " <> key) "teams.update"
        (some (put (translate_spec E.unicode spec) "teamId" (string (id_or_name current))))
    pure tt

  unfoldable pub delete_team_at : Option Fields → Goclaw E (Unit {0})
  unfolding id_or_name ws_write
  delete_team_at none = pure tt
  delete_team_at (some team) =
      ws_write "teams.delete" (field "teamId" (string (id_or_name team)) end)

  unfoldable pub delete_team : String → Goclaw E (Unit {0})
  unfolding ensure_ws observe_team delete_team_at
  delete_team key = ensure_ws >> (observe_team key >>= delete_team_at)

  unfoldable pub start_log_tail : String → Goclaw E (Unit {0})
  unfolding ensure_ws ws_write
  start_log_tail level =
      ensure_ws
      >> ws_write "logs.tail" (field "action" (string "start") (field "level" (string level) end))

  unfoldable pub stop_log_tail : Goclaw E (Unit {0})
  unfolding ensure_ws ws_write
  stop_log_tail = ensure_ws >> ws_write "logs.tail" (field "action" (string "stop") end)
