-- ===== src/Reconciler/Step/Echoes.antt =====
-- What a provider shows of what it was sent, and when that agrees with a desired spec.
use mathlib.Core.Path.{subst}
use gcplane.Base.{
  String, true, false, ◌≡◌, refl, ◌⊎◌, inl, inr, Bool-cases, none, some, List, ◌∷◌, arith, ◌==◌,
  if◌then◌else◌, eq_iff, contains,
}
use gcplane.Spec
use gcplane.Spec.{ℤ, null, Value, Fields, end, field, get, string, int, float64, object, as_string}
use gcplane.Manifest.Kind.{ResourceKind}
use gcplane.Manifest.WriteOnly.{write_only_fields, supports_write_only_hash}
use gcplane.Reconciler.Compare.{
  Floats, skipped, path_of, leaf_equal, is_masked, values_equal, equal_number, to_float64,
  to_string_set,
}
use gcplane.Reconciler.Compare.Refinement.{FieldsAgree, ValueAgrees}
use gcplane.Reconciler.Compare.Reflexive.{
  FieldsRegular, FieldsListed, IsRegular, ValueListed, value_agrees,
}
use gcplane.Reconciler.WriteOnlyHash.{write_only_hash_field}

-- How a value that was sent is shown: a text as it is or masked, a whole number as it is or as
-- JSON decodes it, a map by its fields, perhaps among others, and anything else as it is.
abbrev mutual
  pub Comes : Floats → Value → Value → Type 0
  Comes F (object fs) w = (gs : Fields) × (w ≡ object gs) × FieldsCome F fs gs
  Comes F (string s) w = (w ≡ string s) ⊎ (w ≡ string "***")
  Comes F (int z) w = (w ≡ int z) ⊎ (w ≡ float64 (F.of_int z))
  Comes F v w = w ≡ v

  pub FieldsCome : Floats → Fields → Fields → Type 0
  FieldsCome F end gs = Unit
  FieldsCome F (field k v fs) gs =
      ((w : Value) × (get gs k ≡ some w) × Comes F v w) × FieldsCome F fs gs

-- The second map shows every field of the first that is not left out.
abbrev pub Echoes : Floats → List String → Fields → Fields → Type 0
Echoes F left_out end gs = Unit
Echoes F left_out (field k v fs) gs =
    ((contains left_out k ≡ true) ⊎ ((w : Value) × (get gs k ≡ some w) × Comes F v w))
    × Echoes F left_out fs gs

-- Each key stands once.
abbrev pub IsUnique : Fields → Type 0
IsUnique end = Unit
IsUnique (field k v fs) = (get fs k ≡ none) × IsUnique fs

-- What is observed after a write of `sent`: the fields but for the write-only ones, and the hash
-- where the kind supports it.
pub record IsStored (F : Floats) (kind : ResourceKind) (sent current : Fields) : Type 0 where
  pub fields : Echoes F (write_only_hash_field ∷ write_only_fields kind) sent current
  pub hash :
      supports_write_only_hash kind ≡ true
      → get current write_only_hash_field ≡ get sent write_only_hash_field
  pub no_hash : supports_write_only_hash kind ≡ false → get current write_only_hash_field ≡ none

pub regular-IsUnique : (F : Floats) (fs : Fields) → FieldsRegular F fs → IsUnique fs
regular-IsUnique F end h = tt
regular-IsUnique F (field k v fs) h = (h.0, regular-IsUnique F fs h.2)

module _ (F : Floats) (key : String) (w : Value) where
  pub get-put :
      (fs : Fields) (k : String)
      → get (Spec.put fs key w) k ≡ (if key == k then some w else get fs k)
  unfolding get Spec.put
  get-put end k = refl
  get-put (field j v fs) k = ground (arith, eq_iff j key, eq_iff j k, eq_iff key k, get-put fs k)

  pub put-IsUnique : (fs : Fields) → IsUnique fs → IsUnique (Spec.put fs key w)
  unfolding get Spec.put
  put-IsUnique end h = (refl, tt)
  put-IsUnique (field j v fs) h = elim (Bool-cases (j == key)) [
    | inl e ↦ rw e (subst (λ x. get fs x ≡ none) ((eq_iff j key).0 e) h.0, h.1)
    | inr e ↦
        rw e (rw get-put (ground (arith, h.0, eq_iff key j, eq_iff j key)), put-IsUnique fs h.1)
  ]

  still_left_out :
      (left_out : List String) (j : String)
      → (j == key) ≡ false
      → contains (key ∷ left_out) j ≡ true
      → contains left_out j ≡ true
  unfolding contains
  still_left_out left_out j ne h = ground (arith, eq_iff key j, eq_iff j key)

  -- Fields other than `key` are echoed whether or not `key` is written beside them.
  Echoes-other :
      (left_out : List String) (j : String) (v : Value) (gs : Fields)
      → (j == key) ≡ false
      → (contains (key ∷ left_out) j ≡ true) ⊎ ((u : Value) × (get gs j ≡ some u) × Comes F v u)
      → (contains left_out j ≡ true) ⊎ ((u : Value) × (get gs j ≡ some u) × Comes F v u)
  Echoes-other left_out j v gs ne (inl e) = inl (still_left_out left_out j ne e)
  Echoes-other left_out j v gs ne (inr e) = inr e

  absent-head :
      (j : String) (v : Value) (fs : Fields)
      → get (field j v fs) key ≡ none
      → ((j == key) ≡ false) × (get fs key ≡ none)
  unfolding get
  absent-head j v fs a = ground arith

  pub Echoes-put :
      (left_out : List String) (fs gs : Fields)
      → get fs key ≡ none
      → Echoes F (key ∷ left_out) (Spec.put fs key w) gs
      → Echoes F left_out fs gs
  unfolding Spec.put
  Echoes-put left_out end gs a h = tt
  Echoes-put left_out (field j v fs) gs a h =
      let absent = absent-head j v fs a in
      let both = rw (absent.0) at h in
      (
        Echoes-other left_out j v gs (absent.0) (both.0),
        Echoes-put left_out fs gs (absent.1) (both.1),
      )

  pub Echoes-same :
      (left_out : List String) (fs gs : Fields)
      → get fs key ≡ none
      → Echoes F (key ∷ left_out) fs gs
      → Echoes F left_out fs gs
  Echoes-same left_out end gs a h = tt
  Echoes-same left_out (field j v fs) gs a h =
      let absent = absent-head j v fs a in
      (Echoes-other left_out j v gs (absent.0) (h.0), Echoes-same left_out fs gs (absent.1) (h.1))

module _ (F : Floats) (exclude : List String) where
  masked_agrees : (path s : String) → leaf_equal F path (string s) (string "***") ≡ true
  unfolding leaf_equal is_masked
  masked_agrees path s = refl

  number_agrees :
      (path : String) (z : ℤ)
      → ValueListed path (int z)
      → leaf_equal F path (int z) (float64 (F.of_int z)) ≡ true
  unfolding leaf_equal is_masked values_equal equal_number to_float64 to_string_set
  number_agrees path z (inl plain) = rw plain (F.eq-of_int z)
  number_agrees path z (inr (ss, e)) = cc

  mutual
    Comes-agree :
        (path : String) (v w : Value)
        → IsRegular F v
        → ValueListed path v
        → Comes F v w
        → ValueAgrees F exclude path v w
    Comes-agree path (object fs) w r l (gs, e, c) = rw e (FieldsCome-agree path fs gs r l c)
    Comes-agree path (string s) w r l (inl e) = rw e (value_agrees F exclude path (string s) r l)
    Comes-agree path (string s) w r l (inr e) = rw e (masked_agrees path s)
    Comes-agree path (int z) w r l (inl e) = rw e (value_agrees F exclude path (int z) r l)
    Comes-agree path (int z) w r l (inr e) = rw e (number_agrees path z l)
    Comes-agree path null w r l e = rw e (value_agrees F exclude path null r l)
    Comes-agree path v w r l e = rw e (value_agrees F exclude path v r l)

    FieldsCome-agree :
        (prefix : String) (d a : Fields)
        → FieldsRegular F d
        → FieldsListed prefix d
        → FieldsCome F d a
        → FieldsAgree F exclude prefix d a
    FieldsCome-agree prefix end a r l c = tt
    FieldsCome-agree prefix (field k v fs) a r l c = (
      inr (c.0.0, c.0.1, Comes-agree (path_of prefix k) v (c.0.0) r.1 l.0 (c.0.2)),
      FieldsCome-agree prefix fs a r.2 l.1 c.1,
    )

-- A spec agrees with what echoes it.
pub Echoes-agree :
    (F : Floats) (exclude : List String) (d a : Fields)
    → FieldsRegular F d
    → FieldsListed "" d
    → Echoes F exclude d a
    → FieldsAgree F exclude "" d a
unfolding skipped
Echoes-agree F exclude end a r l i = tt
Echoes-agree F exclude (field k v fs) a r l i = (
  elim (i.0) [
    | inl out ↦ inl out
    | inr seen ↦
        inr (seen.0, seen.1, Comes-agree F exclude (path_of "" k) v (seen.0) r.1 l.0 (seen.2))
  ],
  Echoes-agree F exclude fs a r.2 l.1 i.1,
)
