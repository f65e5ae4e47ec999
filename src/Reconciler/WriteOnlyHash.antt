-- ===== src/Reconciler/WriteOnlyHash.antt =====
-- The content hash of the write-only fields (internal/reconciler/write_only_hash.go).
use Prim.Native.String.{compare}
use text.Mathlib.Text.{is_lt}
use gcplane.Base.{String, Option, none, some, List, [], ◌∷◌, contains, if◌then◌else◌, ◌≢◌}
use gcplane.Spec.{Value, string, Items, nil, item, Fields, get}

-- `WriteOnlyHashField`
abbrev pub write_only_hash_field : String
write_only_hash_field = "writeOnlyHash"

-- `json.Marshal` and then the hexadecimal SHA-256 sum: `none` is a marshalling error, and a sum
-- is never the empty text.
pub record Digest : Type 0 where
  pub sum : Items → Option String
  pub sum-ne-empty : (xs : Items) → sum xs ≢ some ""

-- The loop that collects the fields.
unfoldable pub collect_pairs : Fields → List String → List String → List (String × Value)
collect_pairs spec [] ignore_set = []
collect_pairs spec (f ∷ fs) ignore_set =
    let rest = collect_pairs spec fs ignore_set in
    if contains ignore_set f
    then rest
    else elim (get spec f) [ none ↦ rest | some v ↦ (f, v) ∷ rest ]

-- `sort.Slice` by key: insertion keeps what is sorted sorted.
unfoldable pub insert_pair : String × Value → List (String × Value) → List (String × Value)
insert_pair p [] = p ∷ []
insert_pair p (q ∷ qs) =
    let rest = insert_pair p qs in if is_lt (compare q.0 p.0) then q ∷ rest else p ∷ q ∷ qs

unfoldable pub sort_pairs : List (String × Value) → List (String × Value)
unfolding insert_pair
sort_pairs [] = []
sort_pairs (p ∷ ps) = insert_pair p (sort_pairs ps)

-- `ordered = append(ordered, p.Key, p.Val)`
unfoldable pub ordered_items : List (String × Value) → Items
ordered_items [] = nil
ordered_items ((k, v) ∷ ps) = item (string k) (item v (ordered_items ps))

unfoldable pub hash_pairs : Digest → List (String × Value) → String
unfolding sort_pairs ordered_items
hash_pairs D [] = ""
hash_pairs D (p ∷ ps) = elim (D.sum (ordered_items (sort_pairs (p ∷ ps)))) [
  | none ↦ ""
  | some h ↦ h
]

-- `HashWriteOnlyFields`
unfoldable pub hash_write_only_fields : Digest → Fields → List String → List String → String
unfolding collect_pairs hash_pairs
hash_write_only_fields D spec write_only ignore_fields =
    hash_pairs D (collect_pairs spec write_only ignore_fields)
