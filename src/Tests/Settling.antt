-- ===== src/Tests/Settling.antt =====
-- A provider in memory that shows its rows as GoClaw does: whole numbers as floats, a secret masked,
-- and without the write-only fields of an agent.
use gcplane.Base.{
  false, ◌≡◌, refl, inl, inr, none, some, List, ◌==◌, ok, arith, contains, err, if◌then◌else◌,
  Option,
}
use gcplane.Base.Dict
use gcplane.Spec
use gcplane.Spec.{Value, pos, string, int, float64, Fields, end, field, get}
use gcplane.Manifest.Resource.{Resource}
use gcplane.Manifest.WriteOnly.{parse_ignore_fields, supports_write_only_hash, write_only_fields}
use gcplane.Reconciler.Compare.{path_of, unordered_string_set_path}
use gcplane.Reconciler.WriteOnlyHash.{hash_write_only_fields}
use gcplane.Reconciler.Types.{Provider, noop}
use gcplane.Reconciler.Execute.{execute, sent_spec}
use gcplane.Reconciler.Step.{reconcile_one, step_compare, annotated, decide}
use gcplane.Reconciler.Secrets.{resolve_spec_secrets, resolve_text}
use gcplane.Reconciler.Step.Convergence.{execute-settles}
use gcplane.Tests.Memory.{runtime, floats, memory, Row}
use gcplane.Tests.Engine.{an_agent, rows}

abbrev shown_value : Value → Value
shown_value (int z) = float64 (floats.of_int z)
shown_value (string s) = if s == "secret" then string "***" else string s
shown_value v = v

abbrev shown : Fields → Fields
shown end = end
shown (field k v fs) =
    let rest = shown fs in if k == "systemPrompt" then rest else field k (shown_value v) rest

abbrev shown_row : Option Fields → Option Fields
shown_row none = none
shown_row (some fs) = some (shown fs)

abbrev looking : Provider
looking = record memory {
  observe = λ table kind name. elim (memory.observe table kind name) [
    | ok o ↦ ok (shown_row o)
    | err e ↦ err e
  ];
}

abbrev limited_agent : Resource
limited_agent = record an_agent {
  spec = some (
      field "provider" (string "main") (
        field "maxTokens" (int (pos 5))
          (field "apiToken" (string "secret") (field "systemPrompt" (string "hi") end))));
}

abbrev written : List Row
written =
    (execute runtime looking rows (reconcile_one runtime looking rows limited_agent false)
      limited_agent).1

abbrev after_write : Fields
after_write =
    shown (sent_spec runtime (reconcile_one runtime looking rows limited_agent false) limited_agent)

execute-settles_example : (reconcile_one runtime looking written limited_agent false).action ≡ noop
unfolding annotated reconcile_one step_compare decide execute get contains path_of sent_spec
    Spec.put unordered_string_set_path resolve_spec_secrets resolve_text hash_write_only_fields
    write_only_fields supports_write_only_hash Dict.get parse_ignore_fields
execute-settles_example =
    execute-settles runtime looking limited_agent (ground arith) rows written false {o = none}
      {current = after_write} refl (inl refl, (inl refl, (inl refl, (inl refl, tt)))) refl refl
      (λ e. cc) refl refl
      (record {
        fields = (
          inr (_, refl, inl refl),
          (inr (_, refl, inr refl), (inr (_, refl, inr refl), (inl refl, (inl refl, tt)))),
        );
        hash = λ u. refl;
        no_hash = λ u. cc;
      })
