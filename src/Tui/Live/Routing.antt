-- ===== src/Tui/Live/Routing.antt =====
-- Which frames the store shows.
use gcplane.Base.{
  ℕ, none, some, List, [], ◌∷◌, ◌++◌, ◌==◌, ◌≡◌, refl, sym, ap, ◌∙◌, ◌<◌, not, if◌then◌else◌, inl,
  inr, Bool-cases, Option-cases,
}
use gcplane.Tui.Ring.{Ring, append, append_all, snapshot}
use gcplane.Tui.Ring.Window.{last}
use gcplane.Tui.Ring.Snapshot.{append_all-last}
use gcplane.Tui.Live.{
  LiveEvent, Frame, LiveStore, parse_live_event, new_live_store, append_log, append_event,
  handle_event, handle_events, logs_of, events_of,
}

append_all-append {ℓ} :
    {B : Type ℓ} (r : Ring B) (xs ys : List B)
    → append_all r (xs ++ ys) ≡ append_all (append_all r xs) ys
unfolding append_all
append_all-append r [] ys = refl
append_all-append r (x ∷ xs) ys = append_all-append (append r x) xs ys

module _ {LogEntry : Type 0} where
  -- The decoded entry of a log frame, and the event of another frame that has a summary.
  abbrev pub logged : Frame LogEntry → List LogEntry
  logged f = if f.event == "log" then elim f.log [ none ↦ [] | some e ↦ e ∷ [] ] else []

  abbrev pub shown : Frame LogEntry → List LiveEvent
  shown f =
      let evt = parse_live_event f.event f.peek in
      if f.event == "log" then [] else if not (evt.summary == "") then evt ∷ [] else []

  abbrev pub flat {ℓ} : {B : Type ℓ} → (Frame LogEntry → List B) → List (Frame LogEntry) → List B
  flat k [] = []
  flat k (f ∷ fs) = k f ++ flat k fs

  handle_event-append_all :
      (s : LiveStore LogEntry) (f : Frame LogEntry)
      → ((handle_event s f).logs ≡ append_all s.logs (logged f))
        × ((handle_event s f).events ≡ append_all s.events (shown f))
  unfolding handle_event append_all append_log append_event
  handle_event-append_all s f = elim (Bool-cases (f.event == "log")) [
    | inl log ↦ elim (Option-cases f.log) [
      | inl none_there ↦ rw (log, none_there) (refl, refl)
      | inr (e, there) ↦ rw (log, there) (refl, refl)
    ]
    | inr other ↦ elim (Bool-cases (not ((parse_live_event f.event f.peek).summary == ""))) [
      | inl full ↦ rw (other, full) (refl, refl)
      | inr empty ↦ rw (other, empty) (refl, refl)
    ]
  ]

  logs-handle_events :
      (s : LiveStore LogEntry) (fs : List (Frame LogEntry))
      → (handle_events s fs).logs ≡ append_all s.logs (flat logged fs)
  unfolding handle_events append_all
  logs-handle_events s [] = refl
  logs-handle_events s (f ∷ fs) =
      logs-handle_events (handle_event s f) fs
      ∙ rw (handle_event-append_all s f).0
          (sym (append_all-append s.logs (logged f) (flat logged fs)))

  events-handle_events :
      (s : LiveStore LogEntry) (fs : List (Frame LogEntry))
      → (handle_events s fs).events ≡ append_all s.events (flat shown fs)
  unfolding handle_events append_all
  events-handle_events s [] = refl
  events-handle_events s (f ∷ fs) =
      events-handle_events (handle_event s f) fs
      ∙ rw (handle_event-append_all s f).1
          (sym (append_all-append s.events (shown f) (flat shown fs)))

  -- Whatever frames arrive, the logs shown are the last of the decoded log entries, and the events
  -- shown are the last of the other frames' events that have a summary, each up to its capacity
  -- above zero and in the order of arrival: neither ring loses an entry to the other.
  pub handle_events-shown :
      (log_cap evt_cap : ℕ) (fs : List (Frame LogEntry))
      → 0 < log_cap
      → 0 < evt_cap
      → (logs_of (handle_events (new_live_store log_cap evt_cap) fs)
          ≡ last log_cap (flat logged fs))
        × (events_of (handle_events (new_live_store log_cap evt_cap) fs)
            ≡ last evt_cap (flat shown fs))
  unfolding logs_of events_of new_live_store
  handle_events-shown log_cap evt_cap fs some_logs some_events = (
    ap snapshot (logs-handle_events (new_live_store log_cap evt_cap) fs)
        ∙ append_all-last log_cap (flat logged fs) some_logs,
    ap snapshot (events-handle_events (new_live_store log_cap evt_cap) fs)
        ∙ append_all-last evt_cap (flat shown fs) some_events,
  )
