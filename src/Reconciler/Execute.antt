-- ===== src/Reconciler/Execute.antt =====
-- The execute phase (`execute` and the sequential loop of `executeChanges` in
-- internal/reconciler/engine.go).
use Prim.Native.String.{◌++◌ as ◌<>◌}
use gcplane.Base.{
  String, Bool, true, false, ◌||◌, not, Option, none, some, List, [], ◌∷◌, ◌==◌, if◌then◌else◌,
}
use gcplane.Spec
use gcplane.Spec.{Fields, string}
use gcplane.Manifest.Kind.{ResourceKind}
use gcplane.Manifest.Resource.{Resource, spec_fields}
use gcplane.Reconciler.WriteOnlyHash.{write_only_hash_field}
use gcplane.Reconciler.Types.{
  Action, create, update, noop, action_eq, Change, ApplyResult, add_result, Provider, Runtime,
}
use gcplane.Reconciler.Secrets.{resolve_spec_secrets}

-- `change.Action == ActionNoop || change.Error != ""`
unfoldable pub is_skipped : Change → Bool
unfolding action_eq
is_skipped c = action_eq c.action noop || not (c.error == "")

-- `fmt.Sprintf("%s/%s: %s", kind, name, message)`
unfoldable pub error_line : ResourceKind → String → String → String
error_line kind name message = kind <> "/" <> name <> ": " <> message

-- What one finished call adds to the result.
unfoldable pub outcome_result : ResourceKind → String → Option String → ApplyResult
outcome_result kind name none = record { applied = 1; failed = 0; errors = [] }
outcome_result kind name (some e) = record {
  applied = 0;
  failed = 1;
  errors = error_line kind name e ∷ [];
}

module _ (R : Runtime) where
  -- The spec that is sent: secrets resolved, and the hash put in where there is one.
  unfoldable pub sent_spec : Change → Resource → Fields
  sent_spec change res =
      let spec = resolve_spec_secrets R.resolve (spec_fields res.spec) in
      if change.write_only_hash == ""
      then spec
      else Spec.put spec write_only_hash_field (string change.write_only_hash)

module _ (R : Runtime) (P : Provider) where
  unfoldable pub dispatch : Action → P.State → Resource → Fields → Option String × P.State
  dispatch create s res spec = P.create s res.kind res.name spec
  dispatch update s res spec = P.update s res.kind res.name spec
  dispatch _ s res spec = (none, s)

  -- `execute`
  unfoldable pub execute : P.State → Change → Resource → Option String × P.State
  unfolding dispatch
  execute s change res = dispatch change.action s res (sent_spec R change res)

  -- The loop of `executeChanges` for a concurrency of at most one; `changes` and `resources` have
  -- the same length.
  unfoldable pub execute_changes :
      P.State → ApplyResult → List Change → List Resource → ApplyResult × P.State
  execute_changes s acc (c ∷ cs) (r ∷ rs) = elim (is_skipped c) [
    | true ↦ execute_changes s acc cs rs
    | false ↦
        let call = execute s c r in
        execute_changes (call.1) (add_result acc (outcome_result c.kind c.name (call.0))) cs rs
  ]
  execute_changes s acc cs rs = (acc, s)
