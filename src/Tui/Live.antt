-- ===== src/Tui/Live.antt =====
-- The store of live logs and events (internal/tui/live_store.go), whose lock makes each method one
-- step. What the JSON decoder makes of a payload is part of the frame.
pub mod Routing
use Prim.Native.String.{◌++◌ as ◌<>◌}
use gcplane.Base.{
  ℕ, String, Bool, true, false, Option, none, some, List, [], ◌∷◌, ◌==◌, if◌then◌else◌, not,
}
use gcplane.Base.Text.{strip_prefix, replace_all}
use gcplane.Tui.Ring.{Ring, new_store, append, snapshot, received}

-- `peek`: what `parseLiveEvent` reads of a payload, with empty texts for what is missing.
pub record Peek : Type 0 where
  pub type : String
  pub agent : String
  pub tool : String
  pub status : String
  pub message : String
  pub name : String

-- `views.LiveEvent` without the time and the raw payload.
pub record LiveEvent : Type 0 where
  pub type : String
  pub subtype : String
  pub summary : String

-- `goclaw.WSEventFrame`, with what the decoders make of its payload: a log entry or an error, and
-- the fields of `peek`.
pub record Frame (LogEntry : Type 0) : Type 0 where
  pub event : String
  pub log : Option LogEntry
  pub peek : Peek

pub record LiveStore (LogEntry : Type 0) : Type 0 where
  pub logs : Ring LogEntry
  pub events : Ring LiveEvent
  pub dirty : Bool
  pub tailing : Bool

unfoldable pub format_team_event : String → String → String
unfolding strip_prefix replace_all
format_team_event event subtype =
    "Team "
    <> replace_all b'.' " "
        (elim (strip_prefix "team." event) [ none ↦ event | some short ↦ short ])

unfoldable pub agent_summary : String → String → String → String
agent_summary agent type tool =
    if type == "run.started"
    then "Agent " <> agent <> " run started"
    else if type == "run.completed"
    then "Agent " <> agent <> " run completed"
    else if type == "run.failed"
    then "Agent " <> agent <> " run FAILED"
    else if type == "run.cancelled"
    then "Agent " <> agent <> " run cancelled"
    else if type == "tool.call"
    then "Agent " <> agent <> " -> tool." <> tool
    else if type == "tool.result"
    then "Agent " <> agent <> " <- tool." <> tool
    else if type == "block.reply"
    then "Agent " <> agent <> " block reply"
    else "Agent " <> agent <> ": " <> type

unfoldable pub chat_summary : String → String
chat_summary type =
    if type == "message"
    then "Chat message"
    else if type == "chunk"
    then "Chat chunk"
    else if type == "thinking"
    then "Chat thinking"
    else "Chat: " <> type

unfoldable pub cron_summary : String → String → String
cron_summary name status =
    if not (name == "") then "Cron " <> name <> ": " <> status else "Cron: " <> status

unfoldable pub other_summary : String → String → String
unfolding strip_prefix format_team_event
other_summary event type = elim (strip_prefix "team." event) [
  | some _ ↦ format_team_event event type
  | none ↦ if not (type == "") then event <> ": " <> type else event
]

unfoldable pub event_summary : String → Peek → String
unfolding agent_summary chat_summary cron_summary other_summary
event_summary event peek =
    if event == "agent"
    then agent_summary (if peek.agent == "" then peek.name else peek.agent) peek.type peek.tool
    else if event == "chat"
    then chat_summary peek.type
    else if event == "health"
    then "System health update"
    else if event == "cron"
    then cron_summary peek.name peek.status
    else if event == "presence"
    then "Presence update"
    else if event == "session.updated"
    then "Session updated"
    else if event == "trace.updated"
    then "Trace updated"
    else if event == "heartbeat"
    then "Heartbeat"
    else if event == "shutdown"
    then "Server shutdown"
    else other_summary event peek.type

unfoldable pub parse_live_event : String → Peek → LiveEvent
unfolding event_summary
parse_live_event event peek = record {
  type = event;
  subtype = peek.type;
  summary = event_summary event peek;
}

module _ {LogEntry : Type 0} where
  unfoldable pub new_live_store : ℕ → ℕ → LiveStore LogEntry
  unfolding new_store
  new_live_store log_cap evt_cap = record {
    logs = new_store log_cap;
    events = new_store evt_cap;
    dirty = false;
    tailing = false;
  }

  unfoldable pub append_log : LiveStore LogEntry → LogEntry → LiveStore LogEntry
  unfolding append
  append_log s e = record s { logs = append s.logs e; dirty = true }

  unfoldable pub append_event : LiveStore LogEntry → LiveEvent → LiveStore LogEntry
  unfolding append
  append_event s e = record s { events = append s.events e; dirty = true }

  unfoldable pub handle_event : LiveStore LogEntry → Frame LogEntry → LiveStore LogEntry
  unfolding append_log append_event parse_live_event
  handle_event s f =
      if f.event == "log"
      then elim f.log [ none ↦ s | some entry ↦ append_log s entry ]
      else let evt = parse_live_event f.event f.peek in
        if not (evt.summary == "") then append_event s evt else s

  unfoldable pub logs_of : LiveStore LogEntry → List LogEntry
  unfolding snapshot
  logs_of s = snapshot s.logs

  unfoldable pub events_of : LiveStore LogEntry → List LiveEvent
  unfolding snapshot
  events_of s = snapshot s.events

  unfoldable pub mark_clean : LiveStore LogEntry → LiveStore LogEntry
  mark_clean s = record s { dirty = false }

  unfoldable pub is_dirty : LiveStore LogEntry → Bool
  is_dirty s = s.dirty

  unfoldable pub set_tailing : LiveStore LogEntry → Bool → LiveStore LogEntry
  set_tailing s v = record s { tailing = v }

  unfoldable pub is_tailing : LiveStore LogEntry → Bool
  is_tailing s = s.tailing

  -- The frames in the order in which they arrive.
  unfoldable pub handle_events : LiveStore LogEntry → List (Frame LogEntry) → LiveStore LogEntry
  unfolding handle_event
  handle_events s [] = s
  handle_events s (f ∷ fs) = handle_events (handle_event s f) fs
