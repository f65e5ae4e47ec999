-- ===== src/Tests/Compare.antt =====
-- Comparisons of concrete specs.
use gcplane.Base.{String, true, false, ◌≡◌, refl, ◌↔◌, inl, inr, List, [], ◌∷◌, arith}
use gcplane.Spec.{
  pos, bool, string, int, float64, slice, strings, object, nil, item, Fields, end, field,
}
use gcplane.Base.{contains}
use gcplane.Base.Dict
use gcplane.Base.Dict.{Dict}
use gcplane.Spec.{get}
use gcplane.Reconciler.Compare.{
  FieldDiff, compare_spec_excluding, compare_fields, values_equal, note_leaf, leaf_equal, is_masked,
  skipped, path_of, to_map, unordered_string_set_path, deep_equal, equal_number, string_set_equal,
}
use gcplane.Reconciler.Compare.Refinement.{FieldsAgree, compare_spec_excluding-eq-nil}
use gcplane.Reconciler.Compare.Reflexive.{compare_spec_excluding-Includes}
use gcplane.Tests.Memory.{floats}

abbrev desired : Fields
desired = field "displayName" (string "Bot") (
    field "limit" (int (pos 3)) (
      field "grants" (object (field "agents" (strings ("a" ∷ "b" ∷ [])) end))
        (field "apiKey" (string "secret") end)))

-- The set of agents in another order, the number as a float, the key masked, and one field more.
abbrev observed : Fields
observed = field "id" (string "7") (
    field "limit" (float64 6) (
      field "grants"
        (object (field "agents" (slice (item (string "b") (item (string "a") nil))) end))
        (field "displayName" (string "Bot") end)))

compare : Fields → Fields → List String → Dict FieldDiff
unfolding compare_spec_excluding compare_fields skipped contains get to_map path_of note_leaf
    leaf_equal is_masked unordered_string_set_path string_set_equal values_equal equal_number
    deep_equal Dict.put
compare = compare_spec_excluding floats

no_drift : compare desired observed ("apiKey" ∷ []) ≡ []
unfolding compare
no_drift = refl

drift :
    compare
      (field "a" (object (field "b" (bool true) end)) end)
      (field "a" (object (field "b" (bool false) end)) end)
      []
    ≡ ("a.b", record { old = bool false; new = bool true }) ∷ []
unfolding compare
drift = refl

compare_spec_excluding-eq-nil_example :
    (compare_spec_excluding floats desired observed ("apiKey" ∷ []) ≡ [])
    ↔ FieldsAgree floats ("apiKey" ∷ []) "" desired observed
compare_spec_excluding-eq-nil_example =
    compare_spec_excluding-eq-nil floats ("apiKey" ∷ []) desired observed

compare_spec_excluding-Includes_example :
    compare_spec_excluding floats desired (field "id" (string "7") desired) [] ≡ []
unfolding compare
compare_spec_excluding-Includes_example =
    compare_spec_excluding-Includes floats desired (field "id" (string "7") desired) []
      (ground arith) (inl refl, (inl refl, ((inr ("a" ∷ "b" ∷ [], refl), tt), (inl refl, tt))))
      (ground arith)
