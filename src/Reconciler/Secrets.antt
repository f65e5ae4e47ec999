-- ===== src/Reconciler/Secrets.antt =====
-- The resolution of secret references in a spec (`resolveSpecSecrets` and `resolveValue` of
-- internal/reconciler/engine.go).
use gcplane.Base.{String, ok, err, Result}
use gcplane.Spec.{Value, string, slice, object, Items, nil, item, Fields, end, field}

-- The original text stays where it cannot be resolved.
unfoldable pub resolve_text : (String → Result String) → String → String
resolve_text resolve s = elim (resolve s) [ ok t ↦ t | err e ↦ s ]

unfoldable mutual
  pub resolve_value : (String → Result String) → Value → Value
  resolve_value resolve (string s) = string (resolve_text resolve s)
  resolve_value resolve (object fs) = object (resolve_spec_secrets resolve fs)
  resolve_value resolve (slice xs) = slice (resolve_items resolve xs)
  resolve_value resolve v = v

  pub resolve_items : (String → Result String) → Items → Items
  resolve_items resolve nil = nil
  resolve_items resolve (item v xs) = item (resolve_value resolve v) (resolve_items resolve xs)

  pub resolve_spec_secrets : (String → Result String) → Fields → Fields
  resolve_spec_secrets resolve end = end
  resolve_spec_secrets resolve (field k v fs) =
      field k (resolve_value resolve v) (resolve_spec_secrets resolve fs)
