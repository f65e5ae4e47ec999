-- ===== src/Reconciler/Compare/Refinement.antt =====
-- When `compareRecursiveExcluding` reports nothing: exactly when the observed spec agrees with the
-- desired one, field by field.
use gcplane.Base.{
  String, true, Bool-cases, Option-cases, none, some, List, [], ◌∷◌, ◌≡◌, refl, sym, ◌⊎◌, inl, inr,
  ◌↔◌, ◌≢◌, arith, if◌then◌else◌,
}
use mathlib.Core.Option.{some-injective}
use mathlib.Core.Path.{subst}
use gcplane.Base.Dict
use gcplane.Base.Dict.{Dict}
use gcplane.Spec.{Value, null, object, Fields, end, field, get}
use gcplane.Reconciler.Compare.{
  Floats, FieldDiff, leaf_equal, note_leaf, to_map, path_of, skipped, compare_fields, compare_value,
  compare_spec_excluding,
}

pub put-ne-nil : (d : Dict FieldDiff) (k : String) (v : FieldDiff) → Dict.put d k v ≢ []
unfolding Dict.put
put-ne-nil [] k v = λ e. ground arith
put-ne-nil ((j, w) ∷ d) k v = λ e. ground arith

module _ (F : Floats) (exclude : List String) where
  -- A value at a path agrees with an observed one: two maps by their fields, anything else by the
  -- leaf test.
  abbrev mutual
    pub FieldsAgree : String → Fields → Fields → Type 0
    FieldsAgree prefix end actual = Unit
    FieldsAgree prefix (field key d rest) actual =
        ((skipped exclude prefix key ≡ true)
          ⊎ ((a : Value) × (get actual key ≡ some a) × ValueAgrees (path_of prefix key) d a))
        × FieldsAgree prefix rest actual

    pub ValueAgrees : String → Value → Value → Type 0
    ValueAgrees path (object dm) (object am) = FieldsAgree path dm am
    ValueAgrees path d a = leaf_equal F path d a ≡ true

  note_leaf-eq-nil :
      (path : String) (d a : Value) (diffs : Dict FieldDiff)
      → (note_leaf F path d a diffs ≡ []) ↔ ((diffs ≡ []) × (leaf_equal F path d a ≡ true))
  unfolding note_leaf
  note_leaf-eq-nil path d a diffs = elim (Bool-cases (leaf_equal F path d a)) [
    | inl e ↦ rw e (λ h. (h, refl), λ h. h.0)
    | inr e ↦ rw e (λ h. absurd (put-ne-nil _ _ _ h), λ h. cc)
  ]

  -- The loop's body for one field, and what its agreement means.
  abbrev compare_entry : String → String → Value → Fields → Dict FieldDiff → Dict FieldDiff
  compare_entry prefix key v a diffs =
      if skipped exclude prefix key then diffs else elim (get a key) [
        | none ↦ Dict.put diffs (path_of prefix key) (record { old = null; new = v })
        | some w ↦ compare_value F exclude (path_of prefix key) v w diffs
      ]

  abbrev EntryAgrees : String → String → Value → Fields → Type 0
  EntryAgrees prefix key v a =
      (skipped exclude prefix key ≡ true)
      ⊎ ((w : Value) × (get a key ≡ some w) × ValueAgrees (path_of prefix key) v w)

  compare_entry-eq-nil :
      (prefix key : String) (v : Value) (a : Fields) (diffs : Dict FieldDiff)
      → ((w : Value)
          → (compare_value F exclude (path_of prefix key) v w diffs ≡ [])
            ↔ ((diffs ≡ []) × ValueAgrees (path_of prefix key) v w))
      → (compare_entry prefix key v a diffs ≡ []) ↔ ((diffs ≡ []) × EntryAgrees prefix key v a)
  compare_entry-eq-nil prefix key v a diffs ih = elim (Bool-cases (skipped exclude prefix key)) [
    | inl e ↦ rw e (λ h. (h, inl refl), λ h. h.0)
    | inr e ↦ elim (Option-cases (get a key)) [
      | inl n ↦
          rw (e, n)
            (λ h. absurd (put-ne-nil _ _ _ h), λ h. elim h.1 [ inl x ↦ cc | inr x ↦ cc (x.1) ])
      | inr (w, g) ↦
          rw (e, g)
            (
              λ h. let r = (ih w).0 h in (r.0, inr (w, refl, r.1)),
              λ h. elim h.1 [
                | inl x ↦ cc
                | inr x ↦ (ih w).1 (
                  h.0,
                  subst (λ u. ValueAgrees (path_of prefix key) v u) (sym (some-injective w x.0 x.1))
                      x.2,
                )
              ],
            )
    ]
  ]

  mutual
    unfolding compare_fields to_map

    compare_fields-eq-nil :
        (prefix : String) (d a : Fields) (diffs : Dict FieldDiff)
        → (compare_fields F exclude prefix d a diffs ≡ []) ↔ ((diffs ≡ []) × FieldsAgree prefix d a)
    compare_fields-eq-nil prefix end a diffs = (λ h. (h, tt), λ h. h.0)
    compare_fields-eq-nil prefix (field key v rest) a diffs =
        let one =
          compare_entry-eq-nil prefix key v a diffs
            (λ w. compare_value-eq-nil (path_of prefix key) v w diffs) in
        let more = compare_fields-eq-nil prefix rest a (compare_entry prefix key v a diffs) in
        (
          λ h. let r = more.0 h in let q = one.0 (r.0) in (q.0, (q.1, r.1)),
          λ h. more.1 (one.1 (h.0, h.1.0), h.1.1),
        )

    compare_value-eq-nil :
        (path : String) (d a : Value) (diffs : Dict FieldDiff)
        → (compare_value F exclude path d a diffs ≡ []) ↔ ((diffs ≡ []) × ValueAgrees path d a)
    compare_value-eq-nil path (object dm) (object am) diffs = compare_fields-eq-nil path dm am diffs
    compare_value-eq-nil path (object dm) a diffs = note_leaf-eq-nil path (object dm) a diffs
    compare_value-eq-nil path d a diffs = note_leaf-eq-nil path d a diffs

  -- CompareSpecExcluding reports no difference exactly when the observed spec agrees with the
  -- desired one: every desired field is excluded (at the top level), or the observed spec has it
  -- with a value that agrees, where two maps agree by their own fields and any other values by the
  -- masked text, the unordered set of texts at its two paths, or equality up to number types.
  pub compare_spec_excluding-eq-nil :
      (desired actual : Fields)
      → (compare_spec_excluding F desired actual exclude ≡ []) ↔ FieldsAgree "" desired actual
  unfolding compare_spec_excluding
  compare_spec_excluding-eq-nil desired actual =
      let both = compare_fields-eq-nil "" desired actual [] in
      (λ h. (both.0 h).1, λ h. both.1 (refl, h))
