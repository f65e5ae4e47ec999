-- ===== src/Spec.antt =====
-- The values that a resource's `spec` holds: Go's `any`, as the YAML and JSON decoders and the
-- provider produce it (internal/reconciler/compare.go reads it by type switches). A
-- `map[string]any` is a list of fields; `map[any]any`, which yaml.v3 makes only of mappings with
-- keys that are not texts, is left out.
use gcplane.Base.{ℕ, suc, String, Bool, Option, none, some, List, [], ◌∷◌, ◌==◌, if◌then◌else◌}

-- `negsuc n` is -(n + 1).
pub data ℤ : Type 0 where
  pos : ℕ → ℤ
  negsuc : ℕ → ℤ

mutual
  pub data Value : Type 0 where
    null : Value
    bool : Bool → Value
    string : String → Value
    int : ℤ → Value
    int64 : ℤ → Value
    uint64 : ℕ → Value
    float32 : ℕ → Value
    float64 : ℕ → Value
    slice : Items → Value
    strings : List String → Value
    object : Fields → Value

  pub data Items : Type 0 where
    nil : Items
    item : Value → Items → Items

  pub data Fields : Type 0 where
    end : Fields
    field : String → Value → Fields → Fields

-- `m[key]`, with whether it is there.
unfoldable pub get : Fields → String → Option Value
get end k = none
get (field j v fs) k = if j == k then some v else get fs k

-- `m[key] = value`
unfoldable pub put : Fields → String → Value → Fields
put end k v = field k v end
put (field j w fs) k v = if j == k then field k v fs else field j w (put fs k v)

-- `len(m)`
unfoldable pub len : Fields → ℕ
len end = 0
len (field j v fs) = suc (len fs)

-- The iteration `for key := range m`.
unfoldable pub field_names : Fields → List String
field_names end = []
field_names (field j v fs) = j ∷ field_names fs

unfoldable pub to_list : Items → List Value
to_list nil = []
to_list (item v xs) = v ∷ to_list xs

unfoldable pub of_list : List Value → Items
of_list [] = nil
of_list (v ∷ vs) = item v (of_list vs)

-- `v.(string)`
abbrev pub as_string : Option Value → Option String
as_string (some (string s)) = some s
as_string _ = none

-- `v.(map[string]any)`
abbrev pub as_object : Option Value → Option Fields
as_object (some (object fs)) = some fs
as_object _ = none

-- `v.([]any)`
abbrev pub as_slice : Option Value → Option Items
as_slice (some (slice xs)) = some xs
as_slice _ = none
