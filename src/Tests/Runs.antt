-- ===== src/Tests/Runs.antt =====
-- The engine's theorems at the manifest and the rows of Tests/Engine.antt.
use gcplane.Base.{
  Option, String, List, some, ◌+◌, true, false, ◌≡◌, refl, ◌↔◌, [], ◌∷◌, contains, length, All,
}
use gcplane.Spec.{field, string, end}
use gcplane.Base.Dict
use gcplane.Manifest.Kind.{apply_order, agent, provider}
use gcplane.Manifest.WriteOnly.{write_only_fields, annotation_sync_policy}
use gcplane.Manifest.Resource.{Resource, Manifest}
use gcplane.Reconciler.Compare.Refinement.{FieldsAgree}
use gcplane.Reconciler.Types.{ReconcileOpts, noop}
use gcplane.Reconciler.Step.{reconcile_one, hash_drifts, observed_hash, annotated}
use gcplane.Reconciler.Step.Decisions.{desired_spec, resource_hash, reconcile_one-noop_iff}
use gcplane.Reconciler.Prune.{detect_and_execute_prunes}
use gcplane.Reconciler.Prune.Safety.{IsOrphan, detect_and_execute_prunes-IsOrphan}
use gcplane.Reconciler.Engine.{reconcile}
use gcplane.Reconciler.Engine.Counts.{IsCounted, reconcile-IsCounted}
use gcplane.Reconciler.Engine.Totals.{reconcile_total}
use gcplane.Reconciler.Engine.Ignored.{managed, IsSame, reconcile-managed}
use gcplane.Reconciler.Engine.Coverage.{count_changes, reconcile_coverage}
use gcplane.Reconciler.Engine.DryRun.{rewritten, IsSameRun, reconcile_dry}
use gcplane.Tests.Memory.{runtime, memory, Row}
use gcplane.Tests.Engine.{manifest, rows, real_opts, an_agent, a_provider}

reconcile-IsCounted_example : IsCounted (reconcile runtime memory manifest real_opts rows).plan
reconcile-IsCounted_example = reconcile-IsCounted runtime memory manifest real_opts rows

reconcile_total_example :
    let out = reconcile runtime memory manifest real_opts rows in
    (out.result.applied + out.result.failed
      ≡ out.plan.creates + out.plan.updates + out.plan.deletes)
    × (length out.result.errors ≡ out.result.failed)
reconcile_total_example = reconcile_total runtime memory manifest real_opts rows refl

reconcile_coverage_example :
    count_changes agent "bot" (reconcile runtime memory manifest real_opts rows).plan.changes ≡ 1
reconcile_coverage_example =
    reconcile_coverage runtime memory manifest real_opts rows agent "bot"
      (unfold contains apply_order in refl)

detect_and_execute_prunes-IsOrphan_example :
    All
      (IsOrphan memory manifest.resources)
      (detect_and_execute_prunes memory manifest.resources false rows).0
detect_and_execute_prunes-IsOrphan_example =
    detect_and_execute_prunes-IsOrphan memory manifest.resources false rows

abbrev ignored_agent : Resource
ignored_agent = record an_agent { annotations = (annotation_sync_policy, "Ignore") ∷ [] }

abbrev watched : Manifest
watched = record manifest { resources = ignored_agent ∷ a_provider ∷ [] }

abbrev forced_opts : ReconcileOpts
forced_opts = record { dry_run = false; prune = false; force = true }

reconcile-managed_example :
    IsSame runtime memory (reconcile runtime memory watched forced_opts rows) (
      reconcile runtime memory
        (record watched { resources = managed watched.resources })
        forced_opts
        rows)
reconcile-managed_example = reconcile-managed runtime memory watched forced_opts rows refl

reconcile_one-noop_iff_example :
    ((reconcile_one runtime memory rows a_provider false).action ≡ noop) ↔ (
      (◌≡◌ false false)
      × FieldsAgree runtime.floats
          (write_only_fields provider)
          ""
          (desired_spec runtime a_provider)
          (field "type" (string "anthropic") end)
      × (hash_drifts provider
            (resource_hash runtime a_provider)
            (observed_hash (field "type" (string "anthropic") end))
          ≡ false))
unfolding annotated Dict.get
reconcile_one-noop_iff_example =
    reconcile_one-noop_iff runtime memory rows a_provider false refl refl

abbrev dry_opts : ReconcileOpts
dry_opts = record { dry_run = true; prune = true; force = true }

-- A write that fails and wipes everything.
abbrev wiped : Option String × List Row
wiped = (some "wiped", [])

reconcile_dry_example :
    IsSameRun memory
      (λ s kind name spec. wiped)
      (λ s kind name spec. wiped)
      (λ s kind name. wiped)
      runtime
      (reconcile runtime memory manifest dry_opts rows)
      (reconcile runtime
        (rewritten memory
          (λ s kind name spec. wiped)
          (λ s kind name spec. wiped)
          (λ s kind name. wiped))
        manifest
        dry_opts
        rows)
reconcile_dry_example =
    reconcile_dry memory (λ s kind name spec. wiped) (λ s kind name spec. wiped)
      (λ s kind name. wiped) runtime manifest dry_opts refl rows
