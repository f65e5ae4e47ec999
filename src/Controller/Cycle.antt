-- ===== src/Controller/Cycle.antt =====
-- One cycle of the controller: `reconcileOnce` and what it calls
-- (internal/controller/controller.go). A cycle reads the clock in order: `clock i` is its reading
-- number `i`. Logging and the calls of the notifier are left out but for the changes that are sent.
pub mod Outcome
use gcplane.Base.{
  ℕ, ◌+◌, ◌-◌, String, Bool, true, false, ◌||◌, Option, none, some, List, [], ◌∷◌, ◌++◌, Result, ok,
  err, ◌==◌, map, filter, length, not, ltb, if◌then◌else◌,
}
use gcplane.Base.Dict
use gcplane.Manifest.Resource.{Manifest}
use gcplane.Reconciler.Types.{
  Action, unset, create, update, noop, delete, action_eq, Change, Plan, ApplyResult, Provider,
  Runtime,
}
use gcplane.Reconciler.Engine.{Run, reconcile}
use gcplane.Controller.Status
use gcplane.Controller.Status.{
  SyncStatus, ResourceStatus, condition, set_condition, synced, error, drifted,
}
use gcplane.Controller.Metrics.{Metrics}
use gcplane.Controller.Verify.{Verdict, verify_providers}

-- `SyncResult`
pub record SyncResult : Type 0 where
  pub applied : ℕ
  pub failed : ℕ
  pub creates : ℕ
  pub updates : ℕ
  pub noops : ℕ
  pub errors : List String

-- The status text of a change, by its error and its action; a deletion has none.
unfoldable pub status_text : Change → String
status_text c =
    if not (c.error == "")
    then "Error"
    else elim (c.action) [ noop ↦ "InSync" | create ↦ "Created" | update ↦ "Updated" | _ ↦ "" ]

-- `buildResourceStatuses`
unfoldable pub build_resource_statuses : Plan → List ResourceStatus
build_resource_statuses plan =
    map
      (λ (c : Change). record {
        kind = c.kind;
        name = c.name;
        status = status_text c;
        message = c.error;
      })
      plan.changes

unfoldable pub is_drift : Change → Bool
unfolding action_eq
is_drift c = action_eq c.action create || action_eq c.action update

-- The changes that `notifyDrift` sends, where a notifier is configured and there are any.
unfoldable pub drift_notice : List Change → List Change
unfolding is_drift
drift_notice changes = filter is_drift changes

abbrev pub nonempty {ℓ} : {A : Type ℓ} → List A → Bool
nonempty [] = false
nonempty (x ∷ xs) = true

-- `result.Failed > 0 || len(plan.Errors) > 0`
unfoldable pub has_errors : Plan → ApplyResult → Bool
has_errors plan result = ltb 0 result.failed || nonempty plan.errors

-- `plan.Creates > 0 || plan.Updates > 0`
unfoldable pub has_drift : Plan → Bool
has_drift plan = ltb 0 plan.creates || ltb 0 plan.updates

-- How many changes have the hash among their differences.
unfoldable pub hash_mismatches : List Change → ℕ
hash_mismatches [] = 0
hash_mismatches (c ∷ cs) =
    (elim (Dict.get c.diff "writeOnlyHash") [ none ↦ 0 | some d ↦ 1 ]) + hash_mismatches cs

-- The two conditions that report errors, then the one that reports drift.
unfoldable pub set_conditions : (ℕ → ℕ) → Bool → Bool → SyncStatus → SyncStatus
unfolding set_condition
set_conditions clock errors drift s =
    let s1 =
      if errors
      then set_condition (clock 4) (condition error "True" "sync completed with errors")
          (set_condition (clock 3) (condition synced "False" "") s)
      else set_condition (clock 4) (condition error "False" "")
          (set_condition (clock 3) (condition synced "True" "") s) in
    if drift
    then set_condition (clock 5) (condition drifted "True" "resources were created or updated") s1
    else set_condition (clock 5) (condition drifted "False" "") s1

-- The metrics of a cycle that fetched a manifest.
unfoldable pub count_cycle : (ℕ → ℕ) → Bool → Bool → Plan → Metrics → Metrics
count_cycle clock errors drift plan m = record m {
  sync_success = if errors then m.sync_success else m.sync_success + 1;
  sync_errors = if errors then m.sync_errors + 1 else m.sync_errors;
  sync_duration = clock 1 - clock 0;
  last_sync_time = clock 6;
  drift_resources = plan.creates + plan.updates;
  drift_detected = if drift then m.drift_detected + 1 else m.drift_detected;
  write_only_hash_mismatches = m.write_only_hash_mismatches + hash_mismatches plan.changes;
}

unfoldable pub result_of : Plan → ApplyResult → SyncResult
result_of plan result = record {
  applied = result.applied;
  failed = result.failed;
  creates = plan.creates;
  updates = plan.updates;
  noops = plan.noops;
  errors = result.errors ++ plan.errors;
}

-- A waiter is the number of its channel, which holds one result.
abbrev pub Waiter : Type 0
Waiter = ℕ

-- The controller and its tracker. `delivered` lists what was sent to waiters.
pub record Controller : Type 0 where
  pub tracker : SyncStatus
  pub metrics : Metrics
  pub last_hash : String
  pub waiters : List Waiter
  pub delivered : List (Waiter × SyncResult)

unfoldable pub deliver : SyncResult → List Waiter → List (Waiter × SyncResult)
deliver result [] = []
deliver result (w ∷ ws) = (w, result) ∷ deliver result ws

-- `notifyWaiters`
unfoldable pub notify_waiters : SyncResult → Controller → Controller
notify_waiters result c = record c {
  waiters = [];
  delivered = c.delivered ++ deliver result c.waiters;
}

-- The branch for a fetch that fails.
unfoldable pub fetch_failed : (ℕ → ℕ) → String → Controller → Controller
unfolding set_condition
fetch_failed clock e c =
    notify_waiters
      (record { applied = 0; failed = 0; creates = 0; updates = 0; noops = 0; errors = e ∷ [] })
      (record c {
        tracker =
            set_condition (clock 2) (condition synced "False" "")
              (set_condition (clock 1) (condition error "True" e) c.tracker);
        metrics = record c.metrics { sync_errors = c.metrics.sync_errors + 1 };
      })

module _ (R : Runtime) (P : Provider) (verify : P.State → Option (String → Verdict))
    (prune : Bool) where
  -- What the cycle does with a plan and its result.
  unfoldable pub settle : (ℕ → ℕ) → Manifest → String → Run R P → Controller → Controller
  settle clock m hash run c =
      let errors = has_errors run.plan run.result in
      let drift = has_drift run.plan in
      notify_waiters (result_of run.plan run.result) (record c {
        tracker = set_conditions clock errors drift (
            Status.update
              (record {
                last_sync_time = clock 2;
                last_sync_hash = hash;
                conditions = [];
                resources = build_resource_statuses run.plan;
              })
              c.tracker);
        metrics =
            count_cycle clock errors drift run.plan
              (verify_providers (verify run.state) m c.metrics);
        last_hash = hash;
      })

  -- `reconcileOnce`, given what the source's `Fetch` returns; the provider's state is passed on.
  unfoldable pub reconcile_once :
      (ℕ → ℕ) → Result (Manifest × String) → Controller → P.State → Controller × P.State
  reconcile_once clock (err e) c s = (fetch_failed clock e c, s)
  reconcile_once clock (ok (m, hash)) c s =
      let run = reconcile R P m (record { dry_run = false; prune = prune; force = false }) s in
      (settle clock m hash run c, run.state)
