-- ===== src/Tests/Engine.antt =====
-- Runs of the engine over the provider in memory.
use gcplane.Base.{true, false, ◌≡◌, refl, some, List, [], ◌∷◌, length}
use gcplane.Spec.{
  ℤ, pos, Value, null, bool, string, int, float64, slice, strings, object, nil, item, Fields, end,
  field,
}
use gcplane.Manifest.Kind.{agent, provider, channel}
use gcplane.Manifest.Resource.{Resource, Manifest}
use gcplane.Reconciler.Types.{ReconcileOpts}
use gcplane.Base.{contains}
use gcplane.Base.Dict
use gcplane.Spec
use gcplane.Manifest.Kind.{apply_order}
use gcplane.Manifest.Order.{delete_order}
use gcplane.Manifest.WriteOnly.{parse_ignore_fields, write_only_fields, supports_write_only_hash}
use gcplane.Reconciler.Compare.{
  compare_spec_excluding, compare_fields, values_equal, note_leaf, leaf_equal, is_masked, skipped,
  path_of, to_map, unordered_string_set_path, deep_equal, equal_number,
}
use gcplane.Reconciler.WriteOnlyHash.{hash_write_only_fields}
use gcplane.Reconciler.Secrets.{resolve_spec_secrets, resolve_text}
use gcplane.Reconciler.Step.{
  reconcile_one, step_compare, annotated, hash_drifts, observed_hash, decide,
}
use gcplane.Reconciler.Execute.{execute_changes, execute, is_skipped, outcome_result, sent_spec}
use gcplane.Reconciler.Prune.{
  detect_and_execute_prunes, prune_kind, prune_remotes, prune_one, is_kept, declared,
}
use gcplane.Reconciler.Engine.{
  Run, reconcile, reconcile_kinds, reconcile_step, reconcile_kind, by_kind, add_changes,
  count_deletes,
}
use gcplane.Tests.Memory.{runtime, memory, Row}

abbrev pub an_agent : Resource
an_agent = record {
  kind = agent;
  name = "bot";
  labels = [];
  annotations = [];
  spec = some (field "provider" (string "main") (field "systemPrompt" (string "hi") end));
}

abbrev pub a_provider : Resource
a_provider = record {
  kind = provider;
  name = "main";
  labels = [];
  annotations = [];
  spec = some (field "type" (string "openai") end);
}

abbrev pub manifest : Manifest
manifest = record {
  api_version = "gcplane.io/v1";
  kind = "Manifest";
  metadata = record { name = "m"; environment = "" };
  connection = record { endpoint = "e"; token = "t"; tenant_id = ""; user_id = "" };
  resources = an_agent ∷ a_provider ∷ [];
}

-- The provider has another type there, and a channel that gcplane made and nobody declares.
abbrev pub rows : List Row
rows =
    record {
      kind = provider;
      name = "main";
      owner = "gcplane";
      spec = field "type" (string "anthropic") end;
    }
    ∷ record { kind = channel; name = "old"; owner = "gcplane"; spec = end }
    ∷ record { kind = channel; name = "mine"; owner = "admin"; spec = end }
    ∷ []

abbrev pub real_opts : ReconcileOpts
real_opts = record { dry_run = false; prune = true; force = false }

run : ReconcileOpts → List Row → Run runtime memory
unfolding reconcile reconcile_kinds reconcile_step reconcile_kind by_kind add_changes count_deletes
    apply_order reconcile_one step_compare annotated hash_drifts observed_hash
    hash_write_only_fields parse_ignore_fields write_only_fields supports_write_only_hash
    compare_spec_excluding compare_fields values_equal note_leaf leaf_equal is_masked skipped
    path_of to_map unordered_string_set_path deep_equal equal_number resolve_spec_secrets
    resolve_text execute_changes execute is_skipped outcome_result sent_spec
    detect_and_execute_prunes prune_kind prune_remotes prune_one is_kept declared delete_order
    contains Spec.get Spec.put Dict.put decide
run opts state = reconcile runtime memory manifest opts state

run_counts :
    let out = run real_opts rows in
    (out.plan.creates ≡ 1)
    × (out.plan.updates ≡ 1)
    × (out.plan.deletes ≡ 1)
    × (out.result.applied ≡ 3)
    × (length out.state ≡ 3)
unfolding run
run_counts = (refl, refl, refl, refl, refl)

-- The second run finds nothing to do.
second_run :
    let out = run real_opts (run real_opts rows).state in
    (out.plan.noops ≡ 2) × (length out.plan.changes ≡ 2)
unfolding run
second_run = (refl, refl)
