-- ===== src/Tests/Cycle.antt =====
-- The controller's theorems at one cycle over the provider in memory.
use gcplane.Base.{
  ℕ, ◌+◌, String, true, ◌≡◌, ◌↔◌, map, Option, some, List, [], ◌∷◌, ◌++◌, Result, ok, if◌then◌else◌,
}
use gcplane.Manifest.Resource.{Manifest}
use gcplane.Controller.Status.{
  SyncStatus, Condition, condition, upsert, find_condition, is_synced, type_eq, synced,
}
use gcplane.Controller.Status.Conditions.{transition_time, find_condition-upsert}
use gcplane.Controller.Metrics.{no_metrics}
use gcplane.Controller.Verify.{Verdict, unauthorized}
use gcplane.Controller.Cycle.{Controller, SyncResult, reconcile_once}
use gcplane.Controller.Cycle.Outcome.{
  reading, went_well, Succeeds, is_synced-reconcile_once, reconcile_once_times,
  reconcile_once_counted, reconcile_once_delivers,
}
use gcplane.Tests.Memory.{runtime, memory, Row}
use gcplane.Tests.Engine.{manifest, rows}

abbrev clock : ℕ → ℕ
clock i = 100 + i

abbrev verify : List Row → Option (String → Verdict)
verify _ = some (λ _. unauthorized "401")

abbrev fetched : Result (Manifest × String)
fetched = ok (manifest, "abc")

abbrev before : SyncStatus
before = record {
  last_sync_time = 1;
  last_sync_hash = "abc";
  conditions = record (condition synced "True" "") { last_transition_time = 7 } ∷ [];
  resources = [];
}

abbrev idle : Controller
idle = record {
  tracker = before;
  metrics = no_metrics;
  last_hash = "abc";
  waiters = 4 ∷ 9 ∷ [];
  delivered = [];
}

is_synced-reconcile_once_example :
    (is_synced (reconcile_once runtime memory verify true clock fetched idle rows).0.tracker ≡ true)
    ↔ Succeeds runtime memory verify true fetched rows
is_synced-reconcile_once_example =
    is_synced-reconcile_once runtime memory verify true clock fetched idle rows

reconcile_once_times_example :
    let after = (reconcile_once runtime memory verify true clock fetched idle rows).0 in
    (cond : Condition) × (find_condition synced after.tracker.conditions ≡ some cond)
    × (cond.last_transition_time ≡ clock (reading synced))
reconcile_once_times_example =
    reconcile_once_times runtime memory verify true clock manifest "abc" idle rows synced

reconcile_once_counted_example :
    let after = (reconcile_once runtime memory verify true clock fetched idle rows).0 in
    (after.metrics.sync_success
      ≡ 0 + (if went_well runtime memory verify true fetched rows then 1 else 0))
    × (after.metrics.sync_errors
        ≡ 0 + (if went_well runtime memory verify true fetched rows then 0 else 1))
reconcile_once_counted_example =
    reconcile_once_counted runtime memory verify true clock fetched idle rows

reconcile_once_delivers_example :
    let after = (reconcile_once runtime memory verify true clock fetched idle rows).0 in
    (result : SyncResult) × (after.delivered ≡ [] ++ map (λ w. (w, result)) (4 ∷ 9 ∷ []))
    × (after.waiters ≡ [])
    × ((result.errors ≡ []) ↔ (is_synced after.tracker ≡ true))
reconcile_once_delivers_example =
    reconcile_once_delivers runtime memory verify true clock fetched idle rows

find_condition-upsert_example :
    find_condition synced (upsert 50 (condition synced "True" "") before.conditions) ≡ (
      if type_eq synced synced
      then some (record (condition synced "True" "") {
        last_transition_time =
            transition_time 50
              (condition synced "True" "")
              (find_condition synced before.conditions);
      })
      else find_condition synced before.conditions)
find_condition-upsert_example =
    find_condition-upsert before.conditions 50 (condition synced "True" "") synced
