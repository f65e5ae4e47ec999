-- ===== src/Reconciler/Compare/Reflexive.antt =====
-- An observed spec that holds every desired field as it is desired shows no difference.
use gcplane.Base.{
  ℕ, String, true, false, none, some, List, [], ◌∷◌, ◌≡◌, refl, ◌⊎◌, inl, inr, arith, eq_iff,
  eq_refl, nat_eq, contains, all, length,
}
use gcplane.Spec.{
  Value, null, bool, string, int, int64, uint64, float32, float64, slice, strings, object, Items,
  nil, item, Fields, end, field, get, len,
}
use gcplane.Reconciler.Compare.{
  Floats, to_map, to_slice, path_of, leaf_equal, values_equal, fields_equal, items_of_strings,
  equal_number, to_float64, strings_equal, deep_equal, string_set_equal, to_string_set,
  unordered_string_set_path, compare_spec_excluding,
}
use gcplane.Reconciler.Compare.Refinement.{FieldsAgree, ValueAgrees, compare_spec_excluding-eq-nil}

-- The second map has every field of the first, with the same value; it may have others.
abbrev pub Includes : Fields → Fields → Type 0
Includes end gs = Unit
Includes (field k v fs) gs = (get gs k ≡ some v) × Includes fs gs

pub Includes-field :
    (fs gs : Fields) (k : String) (v : Value)
    → get fs k ≡ none
    → Includes fs gs
    → Includes fs (field k v gs)
unfolding get
Includes-field end gs k v h i = tt
Includes-field (field j w fs) gs k v h i =
    (ground (arith, eq_iff j k, eq_iff k j), Includes-field fs gs k v (ground arith) i.1)

nat_eq_refl : (n : ℕ) → nat_eq n n ≡ true
nat_eq_refl n = ground arith

all-contains-cons :
    (xs ys : List String) (y : String)
    → all (contains ys) xs ≡ true
    → all (contains (y ∷ ys)) xs ≡ true
unfolding contains
all-contains-cons [] ys y h = refl
all-contains-cons (x ∷ xs) ys y h = ground (arith, all-contains-cons xs ys y)

all-contains : (xs : List String) → all (contains xs) xs ≡ true
unfolding contains
all-contains [] = refl
all-contains (x ∷ xs) = rw eq_refl (all-contains-cons xs xs x (all-contains xs))

strings_equal_refl : (ss : List String) → strings_equal ss (items_of_strings ss) ≡ true
unfolding strings_equal items_of_strings
strings_equal_refl [] = refl
strings_equal_refl (s ∷ ss) = rw eq_refl (strings_equal_refl ss)

module _ (F : Floats) where
  -- A value that equals itself: no NaN, and maps in which each key stands once.
  abbrev mutual
    pub IsRegular : Value → Type 0
    IsRegular (float64 x) = F.eq x x ≡ true
    IsRegular (float32 x) = F.eq (F.of_float32 x) (F.of_float32 x) ≡ true
    IsRegular (slice xs) = ItemsRegular xs
    IsRegular (object fs) = FieldsRegular fs
    IsRegular _ = Unit

    pub ItemsRegular : Items → Type 0
    ItemsRegular nil = Unit
    ItemsRegular (item v xs) = IsRegular v × ItemsRegular xs

    pub FieldsRegular : Fields → Type 0
    FieldsRegular end = Unit
    FieldsRegular (field k v fs) = (get fs k ≡ none) × IsRegular v × FieldsRegular fs

  Includes-refl : (fs : Fields) → FieldsRegular fs → Includes fs fs
  unfolding get
  Includes-refl end h = tt
  Includes-refl (field k v fs) h = (rw eq_refl, Includes-field fs fs k v h.0 (Includes-refl fs h.2))

  mutual
    unfolding values_equal equal_number to_float64 to_slice to_map deep_equal

    values_equal_refl : (v : Value) → IsRegular v → values_equal F v v ≡ true
    values_equal_refl null h = refl
    values_equal_refl (bool true) h = refl
    values_equal_refl (bool false) h = refl
    values_equal_refl (string s) h = eq_refl s
    values_equal_refl (int z) h = F.eq-of_int z
    values_equal_refl (int64 z) h = F.eq-of_int z
    values_equal_refl (uint64 n) h = nat_eq_refl n
    values_equal_refl (float32 x) h = h
    values_equal_refl (float64 x) h = h
    values_equal_refl (slice xs) h = items_equal_refl xs h
    values_equal_refl (strings ss) h = strings_equal_refl ss
    values_equal_refl (object fs) h =
        rw (nat_eq_refl (len fs)) (fields_equal-Includes fs fs h (Includes-refl fs h))

    items_equal_refl : (xs : Items) → ItemsRegular xs → values_equal F (slice xs) (slice xs) ≡ true
    items_equal_refl nil h = refl
    items_equal_refl (item v xs) h = rw (values_equal_refl v h.0) (items_equal_refl xs h.1)

    fields_equal-Includes :
        (fs gs : Fields) → FieldsRegular fs → Includes fs gs → fields_equal F fs gs ≡ true
    fields_equal-Includes end gs h i = refl
    fields_equal-Includes (field k v fs) gs h i =
        rw (i.0, values_equal_refl v h.1) (fields_equal-Includes fs gs h.2 i.1)

-- At the two paths that are compared as sets of texts there is a list of texts.
abbrev mutual
  pub FieldsListed : String → Fields → Type 0
  FieldsListed prefix end = Unit
  FieldsListed prefix (field k v fs) = ValueListed (path_of prefix k) v × FieldsListed prefix fs

  pub ValueListed : String → Value → Type 0
  ValueListed path (object fs) = FieldsListed path fs
  ValueListed path v =
      (unordered_string_set_path path ≡ false) ⊎ ((ss : List String) × (to_string_set v ≡ some ss))

string_set_equal_refl :
    (v : Value) (ss : List String) → to_string_set v ≡ some ss → string_set_equal v v ≡ true
unfolding string_set_equal
string_set_equal_refl v ss h = rw (h, nat_eq_refl (length ss)) (all-contains ss)

module _ (F : Floats) where
  leaf_equal_refl :
      (path : String) (v : Value)
      → IsRegular F v
      → (unordered_string_set_path path ≡ false)
        ⊎ ((ss : List String) × (to_string_set v ≡ some ss))
      → leaf_equal F path v v ≡ true
  unfolding leaf_equal
  leaf_equal_refl path v r (inl plain) = rw plain (ground (arith, values_equal_refl F v r))
  leaf_equal_refl path v r (inr (ss, e)) =
      ground (arith, values_equal_refl F v r, string_set_equal_refl v ss e)

  module _ (exclude : List String) where
    mutual
      fields_agree :
          (prefix : String) (d a : Fields)
          → FieldsRegular F d
          → FieldsListed prefix d
          → Includes d a
          → FieldsAgree F exclude prefix d a
      fields_agree prefix end a r l i = tt
      fields_agree prefix (field k v fs) a r l i = (
        inr (v, i.0, value_agrees (path_of prefix k) v r.1 l.0),
        fields_agree prefix fs a r.2 l.1 i.1,
      )

      pub value_agrees :
          (path : String) (v : Value)
          → IsRegular F v
          → ValueListed path v
          → ValueAgrees F exclude path v v
      value_agrees path (object fs) r l = fields_agree path fs fs r l (Includes-refl F fs r)
      value_agrees path null r l = leaf_equal_refl path null r l
      value_agrees path v r l = leaf_equal_refl path v r l

  -- An observed spec that includes the desired one, whatever other fields it has, shows no
  -- difference, provided that the desired spec has no NaN and no repeated key, and lists of texts
  -- at the two paths that are compared as sets.
  pub compare_spec_excluding-Includes :
      (desired actual : Fields) (exclude : List String)
      → FieldsRegular F desired
      → FieldsListed "" desired
      → Includes desired actual
      → compare_spec_excluding F desired actual exclude ≡ []
  compare_spec_excluding-Includes desired actual exclude r l i =
      (compare_spec_excluding-eq-nil F exclude desired actual).1
        (fields_agree exclude "" desired actual r l i)
