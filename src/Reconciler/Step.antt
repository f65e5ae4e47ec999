-- ===== src/Reconciler/Step.antt =====
-- The pipeline for one resource: resolve, observe, compare (`reconcileOne` and its steps in
-- internal/reconciler/engine.go). Log lines are left out.
pub mod Decisions
pub mod Echoes
pub mod Convergence
use Prim.Native.String.{◌++◌}
use gcplane.Base.{
  String, Bool, true, false, ◌&&◌, ◌||◌, not, Option, none, some, List, [], ◌∷◌, Result, ok, err,
  ◌==◌, if◌then◌else◌,
}
use gcplane.Base.Dict
use gcplane.Base.Dict.{Dict}
use gcplane.Spec
use gcplane.Spec.{Fields, end, string, as_string}
use gcplane.Manifest.Kind.{ResourceKind}
use gcplane.Manifest.Resource.{Resource, spec_fields}
use gcplane.Manifest.WriteOnly.{
  write_only_fields, supports_write_only_hash, parse_ignore_fields, text_or_empty,
  annotation_sync_policy, annotation_ignore_write_only, sync_policy_ignore,
}
use gcplane.Reconciler.Compare.{FieldDiff, compare_spec_excluding}
use gcplane.Reconciler.WriteOnlyHash.{write_only_hash_field, hash_write_only_fields}
use gcplane.Reconciler.Types.{
  Action, unset, create, update, noop, delete, Change, fresh_change, Provider, Runtime,
}
use gcplane.Reconciler.Secrets.{resolve_spec_secrets}

-- `reconcileContext`
pub record ReconcileContext : Type 0 where
  pub resource : Resource
  pub spec : Fields
  pub current : Option Fields
  pub change : Change
  pub force : Bool

-- `rc.resource.Annotations[key] == value`
unfoldable pub annotated : Resource → String → String → Bool
unfolding Dict.get
annotated r key value = text_or_empty (Dict.get r.annotations key) == value

-- `desiredHash != "" && desiredHash != observedHash` and the two ways in which that is drift.
unfoldable pub hash_drifts : ResourceKind → String → String → Bool
hash_drifts kind desired observed =
    (not (desired == "") && not (desired == observed))
    && (not (observed == "") || (observed == "" && supports_write_only_hash kind))

-- `observedHash, _ := rc.current[WriteOnlyHashField].(string)`
unfoldable pub observed_hash : Fields → String
observed_hash current = text_or_empty (as_string (Spec.get current write_only_hash_field))

-- `len(diffs) == 0`
unfoldable pub decide : Change → Bool → Dict FieldDiff → Change
decide c true [] = record c { action = update; forced = true }
decide c false [] = record c { action = noop }
decide c force (d ∷ ds) = record c { action = update; diff = d ∷ ds }

-- Whether the pipeline goes on after an observation, and its context.
unfoldable pub observed : ReconcileContext → Result (Option Fields) → Bool × ReconcileContext
observed rc (ok current) = (true, record rc { current = current })
observed rc (err e) = (
  false,
  record rc { change = record rc.change { action = noop; error = "observe failed: " ++ e } },
)

module _ (R : Runtime) where
  -- `stepResolveSecrets`
  unfoldable pub step_resolve_secrets : ReconcileContext → ReconcileContext
  step_resolve_secrets rc = record rc {
    spec = resolve_spec_secrets R.resolve (spec_fields rc.resource.spec);
  }

  -- `HashWriteOnlyFields` of the desired spec, unless an annotation turns it off.
  unfoldable pub desired_hash : Resource → Fields → String
  desired_hash r spec =
      if annotated r annotation_ignore_write_only "true"
      then ""
      else hash_write_only_fields R.digest spec (write_only_fields r.kind)
          (parse_ignore_fields r.annotations)

  -- The differences that decide an update: the fields, and the hash where it drifts.
  unfoldable pub spec_diffs : ResourceKind → Fields → Fields → String → Dict FieldDiff
  spec_diffs kind spec current desired =
      let diffs = compare_spec_excluding R.floats spec current (write_only_fields kind) in
      if hash_drifts kind desired (observed_hash current)
      then Dict.put diffs write_only_hash_field
          (record { old = string (observed_hash current); new = string desired })
      else diffs

  unfoldable pub compare_with : ReconcileContext → Option Fields → Change → Change
  unfolding decide spec_diffs
  compare_with rc none c = record c { action = create }
  compare_with rc (some current) c =
      decide c rc.force (spec_diffs rc.resource.kind rc.spec current c.write_only_hash)

  -- `stepCompare`
  unfoldable pub step_compare : ReconcileContext → ReconcileContext
  unfolding compare_with desired_hash
  step_compare rc =
      if annotated rc.resource annotation_sync_policy sync_policy_ignore
      then record rc { change = record rc.change { action = noop } }
      else record rc {
        change =
            compare_with rc rc.current
              (record rc.change { write_only_hash = desired_hash rc.resource rc.spec });
      }

  -- The steps after `stepObserve`, unless it failed.
  unfoldable pub rest_of_steps : Bool × ReconcileContext → Change
  rest_of_steps (true, rc) = (step_compare rc).change
  rest_of_steps (false, rc) = rc.change

  module _ (P : Provider) where
    -- `stepObserve`
    unfoldable pub step_observe : P.State → ReconcileContext → Bool × ReconcileContext
    unfolding observed
    step_observe s rc = observed rc (P.observe s rc.resource.kind rc.resource.name)

    -- `reconcileOne`: the steps in turn, up to one that fails.
    unfoldable pub reconcile_one : P.State → Resource → Bool → Change
    unfolding step_resolve_secrets step_observe rest_of_steps
    reconcile_one s res force =
        let start : ReconcileContext = record {
          resource = res;
          spec = end;
          current = none;
          change = fresh_change res.kind res.name;
          force = force;
        } in
        rest_of_steps (step_observe s (step_resolve_secrets start))
