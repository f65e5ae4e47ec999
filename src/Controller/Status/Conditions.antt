-- ===== src/Controller/Status/Conditions.antt =====
-- What SetCondition does to the conditions that a reader finds.
use mathlib.Core.Path.{subst}
use gcplane.Base.{
  ◌∙◌, ℕ, true, false, ◌≡◌, refl, Option, none, some, List, [], ◌∷◌, ◌==◌, arith, if◌then◌else◌,
  Bool-cases, inl, inr, ◌↔◌,
}
use gcplane.Controller.Status.{ConditionType, type_eq, Condition, upsert, find_condition}

pub type_eq_iff : (a b : ConditionType) → (type_eq a b ≡ true) ↔ (a ≡ b)
unfolding type_eq
type_eq_iff a b = ground arith

type_eq_sym : (a b : ConditionType) → type_eq a b ≡ type_eq b a
unfolding type_eq
type_eq_sym a b = ground arith

type_eq_same : (a b t : ConditionType) → type_eq a b ≡ true → type_eq a t ≡ type_eq b t
unfolding type_eq
type_eq_same a b t h = ground arith

type_eq_other :
    (a b t : ConditionType) → type_eq a b ≡ false → type_eq a t ≡ true → type_eq b t ≡ false
unfolding type_eq
type_eq_other a b t h k = ground arith

-- The time that a condition gets: the old one where its type is there with the same status.
abbrev pub transition_time : ℕ → Condition → Option Condition → ℕ
transition_time now cond none = now
transition_time now cond (some c) = if c.status == cond.status then c.last_transition_time else now

-- After SetCondition a reader finds the new condition at its type, with the time of the condition
-- before if that had the same status and with the current time if not, and finds at every other
-- type what was there before.
pub find_condition-upsert :
    (cs : List Condition) (now : ℕ) (cond : Condition) (t : ConditionType)
    → find_condition t (upsert now cond cs) ≡ (
        if type_eq cond.type t
        then some (record cond {
          last_transition_time = transition_time now cond (find_condition cond.type cs);
        })
        else find_condition t cs)
unfolding find_condition upsert
find_condition-upsert [] now cond t = refl
find_condition-upsert (c ∷ cs) now cond t = elim (Bool-cases (type_eq c.type cond.type)) [
  | inl e ↦ elim (Bool-cases (type_eq cond.type t)) [
    | inl f ↦ rw (e, f)
    | inr f ↦ rw (e, f, type_eq_same c.type cond.type t e, f)
  ]
  | inr e ↦ elim (Bool-cases (type_eq c.type t)) [
    | inl f ↦ rw (e, f, type_eq_other c.type cond.type t e f)
    | inr f ↦ rw (e, f) (find_condition-upsert cs now cond t)
  ]
]

-- No type stands twice among the conditions.
abbrev IsUnique : List Condition → Type 0
IsUnique [] = Unit
IsUnique (c ∷ cs) = (find_condition c.type cs ≡ none) × IsUnique cs

-- SetCondition keeps at most one condition of each type.
upsert-IsUnique :
    (cs : List Condition) (now : ℕ) (cond : Condition) → IsUnique cs → IsUnique (upsert now cond cs)
unfolding upsert
upsert-IsUnique [] now cond h = (unfold find_condition in refl, tt)
upsert-IsUnique (c ∷ cs) now cond h = elim (Bool-cases (type_eq c.type cond.type)) [
  | inl e ↦ rw e (subst (λ t. find_condition t cs ≡ none) ((type_eq_iff _ _).0 e) h.0, h.1)
  | inr e ↦ rw e (
    find_condition-upsert cs now cond c.type ∙ rw (type_eq_sym cond.type c.type, e) h.0,
    upsert-IsUnique cs now cond h.1,
  )
]
