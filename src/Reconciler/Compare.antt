-- ===== src/Reconciler/Compare.antt =====
-- The comparison of a desired spec with an observed one (internal/reconciler/compare.go).
pub mod Refinement
pub mod Reflexive
use gcplane.Base.{
  ℕ, zero, suc, String, Bool, true, false, ◌&&◌, ◌||◌, Option, none, some, List, [], ◌∷◌, ◌≡◌, ◌==◌,
  nat_eq, contains, all, length, if◌then◌else◌, not,
}
use gcplane.Base.Dict
use gcplane.Base.Dict.{Dict}
use gcplane.Spec.{
  ℤ, Value, null, bool, string, int, int64, uint64, float32, float64, slice, strings, object, Items,
  nil, item, Fields, end, field, get, len, as_object,
}
use Prim.Native.String.{◌++◌}

-- Go's float64 arithmetic, by the bit patterns of the values: the conversions that `toFloat64`
-- makes and `==`. Equality is symmetric, and an integer's conversion is never NaN.
pub record Floats : Type 0 where
  pub of_int : ℤ → ℕ
  pub of_float32 : ℕ → ℕ
  pub eq : ℕ → ℕ → Bool
  pub eq_symm : (a b : ℕ) → eq a b ≡ eq b a
  pub eq-of_int : (z : ℤ) → eq (of_int z) (of_int z) ≡ true

pub record FieldDiff : Type 0 where
  pub old : Value
  pub new : Value

-- `toSlice`, as a list of items.
unfoldable pub items_of_strings : List String → Items
items_of_strings [] = nil
items_of_strings (s ∷ ss) = item (string s) (items_of_strings ss)

unfoldable pub to_slice : Value → Option Items
unfolding items_of_strings
to_slice (slice xs) = some xs
to_slice (strings ss) = some (items_of_strings ss)
to_slice _ = none

-- `toMap`
unfoldable pub to_map : Value → Option Fields
to_map (object fs) = some fs
to_map _ = none

-- `item.(string)` for every item, in `toStringSet`.
unfoldable pub item_strings : Items → Option (List String)
item_strings nil = some []
item_strings (item (string s) xs) = elim (item_strings xs) [ none ↦ none | some ss ↦ some (s ∷ ss) ]
item_strings (item _ xs) = none

-- The set's keys: every text once.
unfoldable pub distinct : List String → List String
unfolding contains
distinct [] = []
distinct (s ∷ ss) = let rest = distinct ss in if contains rest s then rest else s ∷ rest

-- `toStringSet`
unfoldable pub to_string_set : Value → Option (List String)
unfolding to_slice item_strings distinct
to_string_set v = elim (to_slice v) [
  | none ↦ none
  | some xs ↦ elim (item_strings xs) [ none ↦ none | some ss ↦ some (distinct ss) ]
]

-- The comparison of two sets in `stringSetEqual`.
unfoldable pub same_sets : Option (List String) → Option (List String) → Bool
unfolding contains
same_sets (some as') (some bs) = nat_eq (length as') (length bs) && all (contains bs) as'
same_sets _ _ = false

-- `stringSetEqual`
unfoldable pub string_set_equal : Value → Value → Bool
unfolding to_string_set same_sets
string_set_equal a b = same_sets (to_string_set a) (to_string_set b)

-- `unorderedStringSetPath`
unfoldable pub unordered_string_set_path : String → Bool
unordered_string_set_path path = path == "grants.agents" || path == "grants.users"

-- `reflect.DeepEqual` where `valuesEqual` calls it: the values are not both numbers, not both
-- slices and not both maps, so only scalars of one type can be equal.
unfoldable pub deep_equal : Value → Value → Bool
deep_equal null null = true
deep_equal (bool true) (bool b) = b
deep_equal (bool false) (bool b) = not b
deep_equal (string s) (string t) = s == t
deep_equal (uint64 m) (uint64 n) = nat_eq m n
deep_equal _ _ = false

-- The texts of a `[]string` against items, each by `reflect.DeepEqual`.
unfoldable pub strings_equal : List String → Items → Bool
unfolding deep_equal
strings_equal [] nil = true
strings_equal (s ∷ ss) (item y ys) = deep_equal (string s) y && strings_equal ss ys
strings_equal _ _ = false

-- `aVal == "***"`
unfoldable pub is_masked : Value → Bool
is_masked (string s) = s == "***"
is_masked _ = false

unfoldable pub path_of : String → String → String
path_of prefix key = if prefix == "" then key else prefix ++ "." ++ key

-- The fields that are skipped: `prefix == "" && excludeSet[key]`.
unfoldable pub skipped : List String → String → String → Bool
skipped exclude prefix key = prefix == "" && contains exclude key

module _ (F : Floats) where
  -- `toFloat64`
  unfoldable pub to_float64 : Value → Option ℕ
  to_float64 (float64 x) = some x
  to_float64 (float32 x) = some (F.of_float32 x)
  to_float64 (int z) = some (F.of_int z)
  to_float64 (int64 z) = some (F.of_int z)
  to_float64 _ = none

  -- A number against a value: `aNum == bNum`, or `reflect.DeepEqual` of two types.
  unfoldable pub equal_number : ℕ → Value → Bool
  unfolding to_float64
  equal_number x b = elim (to_float64 b) [ none ↦ false | some y ↦ F.eq x y ]

  unfoldable mutual
    -- `valuesEqual`, by the type of the left value: a number, a slice (of values or of texts) and
    -- a map meet their own test where the right value is one too, and `reflect.DeepEqual` of two
    -- types where it is not.
    pub values_equal : Value → Value → Bool
    values_equal (float64 x) b = equal_number x b
    values_equal (float32 x) b = equal_number (F.of_float32 x) b
    values_equal (int z) b = equal_number (F.of_int z) b
    values_equal (int64 z) b = equal_number (F.of_int z) b
    values_equal (slice xs) b = elim (to_slice b) [ none ↦ false | some ys ↦ items_equal xs ys ]
    values_equal (strings ss) b = elim (to_slice b) [ none ↦ false | some ys ↦ strings_equal ss ys ]
    values_equal (object fs) b = elim (to_map b) [
      | none ↦ false
      | some gs ↦ nat_eq (len fs) (len gs) && fields_equal fs gs
    ]
    values_equal a b = deep_equal a b

    -- The slices' lengths and then their items, one by one.
    pub items_equal : Items → Items → Bool
    items_equal nil nil = true
    items_equal (item x xs) (item y ys) = values_equal x y && items_equal xs ys
    items_equal _ _ = false

    -- `for k, av := range aMap`
    pub fields_equal : Fields → Fields → Bool
    fields_equal end gs = true
    fields_equal (field k v fs) gs =
        elim (get gs k) [ none ↦ false | some w ↦ values_equal v w ] && fields_equal fs gs

  -- What the loop does with a desired value that is there and not a map on both sides.
  unfoldable pub leaf_equal : String → Value → Value → Bool
  leaf_equal path d a =
      if is_masked a
      then true
      else if unordered_string_set_path path
      then string_set_equal d a
      else values_equal d a

  unfoldable pub note_leaf : String → Value → Value → Dict FieldDiff → Dict FieldDiff
  note_leaf path d a diffs =
      if leaf_equal path d a then diffs else Dict.put diffs path (record { old = a; new = d })

  unfoldable mutual
    -- `compareRecursiveExcluding`
    pub compare_fields : List String → String → Fields → Fields → Dict FieldDiff → Dict FieldDiff
    compare_fields exclude prefix end actual diffs = diffs
    compare_fields exclude prefix (field key d rest) actual diffs =
        compare_fields exclude prefix rest actual (
          if skipped exclude prefix key then diffs else elim (get actual key) [
            | none ↦ Dict.put diffs (path_of prefix key) (record { old = null; new = d })
            | some a ↦ compare_value exclude (path_of prefix key) d a diffs
          ])

    -- The body of its loop for a desired value and an observed one.
    pub compare_value : List String → String → Value → Value → Dict FieldDiff → Dict FieldDiff
    compare_value exclude path (object dm) a diffs = elim (to_map a) [
      | none ↦ note_leaf path (object dm) a diffs
      | some am ↦ compare_fields exclude path dm am diffs
    ]
    compare_value exclude path d a diffs = note_leaf path d a diffs

  -- `CompareSpecExcluding`
  unfoldable pub compare_spec_excluding : Fields → Fields → List String → Dict FieldDiff
  compare_spec_excluding desired actual exclude = compare_fields exclude "" desired actual []

  -- `CompareSpec`
  unfoldable pub compare_spec : Fields → Fields → Dict FieldDiff
  compare_spec desired actual = compare_spec_excluding desired actual []
