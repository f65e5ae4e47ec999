-- ===== src/Tests/Waiters.antt =====
-- A caller that registers while a cycle runs, and the stores of the terminal interface.
use gcplane.Base.{◌+◌, ◌<◌, true, false, ◌≡◌, refl, ◌⊎◌, List, [], ◌∷◌, String, arith, some, none}
use gcplane.Controller.Waiters.{
  unstarted, reconciling, stopped, System, new_system, occurrences, begin, register, send, Reaches,
  here, next, OwnRun,
}
use gcplane.Controller.Waiters.Wakeups.{no_lost_wakeup}
use gcplane.Controller.Waiters.Delivery.{no_blocked_send, waiting_served}
use gcplane.Tui.Ring.{new_handler, handle_all, snapshot}
use gcplane.Tui.Ring.Window.{last}
use gcplane.Tui.Ring.Snapshot.{snapshot-handle_all}
use gcplane.Tui.Live.{
  Peek, Frame, new_live_store, handle_events, logs_of, events_of, format_team_event,
}
use gcplane.Tui.Live.Routing.{logged, shown, flat, handle_events-shown}

abbrev registered : System
registered = record {
  phase = reconciling;
  queued = false;
  armed = false;
  waiters = 0 ∷ [];
  pending = [];
  results = [];
  sending = 0 ∷ [];
  waiting = [];
  fresh = 1;
}

abbrev waiting_one : System
waiting_one = record registered { queued = true; sending = []; waiting = 0 ∷ [] }

registered_reached : Reaches new_system registered
unfolding new_system
registered_reached = next (next here (begin refl)) register

waiting_reached : Reaches new_system waiting_one
waiting_reached = next registered_reached (send [] 0 [] refl)

no_lost_wakeup_example :
    (0 < occurrences 0 registered.sending)
    ⊎ (registered.queued ≡ true)
    ⊎ (registered.phase ≡ unstarted)
    ⊎ (registered.phase ≡ reconciling)
    ⊎ (registered.phase ≡ stopped)
unfolding occurrences
no_lost_wakeup_example = no_lost_wakeup registered 0 registered_reached (omega arith)

no_blocked_send_example :
    (occurrences 0 waiting_one.results ≡ 0)
    × (occurrences 0 waiting_one.waiters + occurrences 0 waiting_one.pending ≡ 1)
unfolding occurrences
no_blocked_send_example = no_blocked_send waiting_one 0 waiting_reached (omega arith)

waiting_served_example : (q : System) × OwnRun waiting_one q × (0 < occurrences 0 q.results)
unfolding occurrences
waiting_served_example = waiting_served waiting_one 0 waiting_reached (λ e. cc) (omega arith)

abbrev arrivals : List String
arrivals = "a" ∷ "b" ∷ "c" ∷ "d" ∷ "e" ∷ []

snapshot-handle_all_example : snapshot (handle_all (new_handler "" 3) arrivals) ≡ last 3 arrivals
snapshot-handle_all_example = snapshot-handle_all "" 3 arrivals (omega arith)

wrapped : snapshot (handle_all (new_handler "" 3) arrivals) ≡ "c" ∷ "d" ∷ "e" ∷ []
unfolding snapshot handle_all new_handler
wrapped = refl

abbrev silent : Peek
silent = record { type = ""; agent = ""; tool = ""; status = ""; message = ""; name = "" }

-- A log, an event with a summary, one without, and one more log.
abbrev frames : List (Frame String)
frames =
    record { event = "log"; log = some "first"; peek = silent }
    ∷ record { event = "health"; log = none; peek = silent }
    ∷ record { event = ""; log = none; peek = silent }
    ∷ record { event = "log"; log = some "second"; peek = silent }
    ∷ []

handle_events-shown_example :
    (logs_of (handle_events (new_live_store 1 2) frames) ≡ last 1 (flat logged frames))
    × (events_of (handle_events (new_live_store 1 2) frames) ≡ last 2 (flat shown frames))
handle_events-shown_example = handle_events-shown 1 2 frames (omega arith) (omega arith)

last_log : logs_of (handle_events (new_live_store 1 2) frames) ≡ "second" ∷ []
unfolding logs_of handle_events new_live_store
last_log = refl

team_event : format_team_event "team.task.created" "" ≡ "Team task created"
unfolding format_team_event
team_event = refl
