-- ===== src/Reconciler/Engine.antt =====
-- `Reconcile` of internal/reconciler/engine.go: the kinds in dependency order, each observed and
-- then applied, and the prune phase at the end.
pub mod Counts
pub mod Coverage
pub mod Validated
pub mod Totals
pub mod Accounting
pub mod Ignored
pub mod DryRun
use gcplane.Base.{
  ℕ, ◌+◌, String, Bool, true, false, not, List, [], ◌∷◌, ◌++◌, ◌==◌, filter, map, length,
  if◌then◌else◌,
}
use gcplane.Manifest.Kind.{ResourceKind, apply_order}
use gcplane.Manifest.Resource.{Resource, Manifest}
use gcplane.Reconciler.Types.{
  Action, unset, create, update, noop, delete, Change, Plan, empty_plan, ReconcileOpts, ApplyResult,
  empty_result, add_result, Provider, Runtime,
}
use gcplane.Reconciler.Step.{reconcile_one}
use gcplane.Reconciler.Execute.{execute_changes, error_line}
use gcplane.Reconciler.Prune.{detect_and_execute_prunes}

-- `byKind[kind]`: the resources of a kind, in the manifest's order.
unfoldable pub by_kind : List Resource → ResourceKind → List Resource
by_kind resources kind = filter (λ r. r.kind == kind) resources

-- The `switch` on the action.
unfoldable pub count_action : Plan → Action → Plan
count_action plan create = record plan { creates = plan.creates + 1 }
count_action plan update = record plan { updates = plan.updates + 1 }
count_action plan noop = record plan { noops = plan.noops + 1 }
count_action plan _ = plan

-- `plan.Errors = append(plan.Errors, …)` for a change with an error.
unfoldable pub add_error : Plan → Change → Plan
add_error plan c =
    if c.error == ""
    then plan
    else record plan { errors = plan.errors ++ error_line c.kind c.name c.error ∷ [] }

unfoldable pub add_change : Plan → Change → Plan
unfolding count_action add_error
add_change plan c =
    add_error (count_action (record plan { changes = plan.changes ++ c ∷ [] }) c.action) c

unfoldable pub add_changes : Plan → List Change → Plan
unfolding add_change
add_changes plan [] = plan
add_changes plan (c ∷ cs) = add_changes (add_change plan c) cs

-- The changes of the prune phase: all are appended, and the deletions counted.
unfoldable pub count_delete : Plan → Change → Plan
count_delete plan c = elim (c.action) [
  | delete ↦ record plan { deletes = plan.deletes + 1 }
  | _ ↦ plan
]

unfoldable pub count_deletes : Plan → List Change → Plan
unfolding count_delete
count_deletes plan [] = plan
count_deletes plan (c ∷ cs) = count_deletes (count_delete plan c) cs

module _ (R : Runtime) (P : Provider) where
  -- `reconcileKind`
  unfoldable pub reconcile_kind : P.State → List Resource → Bool → List Change
  reconcile_kind s resources force = map (λ r. reconcile_one R P s r force) resources

  -- The state of a run between two kinds.
  pub record Run : Type 0 where
    pub plan : Plan
    pub result : ApplyResult
    pub state : P.State

  -- `executeChanges` of one kind, unless the run is dry.
  unfoldable pub apply_kind : Bool → P.State → List Change → List Resource → ApplyResult × P.State
  apply_kind dry_run s changes resources =
      if dry_run then (empty_result, s) else execute_changes R P s empty_result changes resources

  -- The loop's body for one kind; a kind with no resources adds nothing.
  unfoldable pub reconcile_step : List Resource → ReconcileOpts → Run → ResourceKind → Run
  unfolding apply_kind
  reconcile_step resources opts run kind =
      let mine = by_kind resources kind in
      let changes = reconcile_kind run.state mine opts.force in
      let call = apply_kind opts.dry_run run.state changes mine in
      record {
        plan = add_changes run.plan changes;
        result = add_result run.result (call.0);
        state = call.1;
      }

  unfoldable pub reconcile_kinds : List Resource → ReconcileOpts → Run → List ResourceKind → Run
  reconcile_kinds resources opts run [] = run
  reconcile_kinds resources opts run (kind ∷ kinds) =
      reconcile_kinds resources opts (reconcile_step resources opts run kind) kinds

  -- The prune phase, where it is asked for.
  unfoldable pub prune_phase : Manifest → ReconcileOpts → Run → Run
  prune_phase m opts run =
      if opts.prune
      then (let pruned = detect_and_execute_prunes P m.resources opts.dry_run run.state in
          record {
            plan =
                count_deletes (record run.plan { changes = run.plan.changes ++ pruned.0 })
                  (pruned.0);
            result = add_result run.result (pruned.1);
            state = pruned.2;
          })
      else run

  -- `Reconcile`
  unfoldable pub reconcile : Manifest → ReconcileOpts → P.State → Run
  unfolding prune_phase
  reconcile m opts s = prune_phase m opts (
      reconcile_kinds m.resources opts
        (record { plan = empty_plan; result = empty_result; state = s }) apply_order)
