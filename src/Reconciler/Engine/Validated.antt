-- ===== src/Reconciler/Engine/Validated.antt =====
-- What a run plans for a manifest that passed validation.
use Prim.Native.String.{◌++◌ as ◌<>◌}
use gcplane.Base.{
  String, Bool, true, false, not, ◌&&◌, ◌≡◌, refl, ◌∙◌, sym, Option, List, [], ◌∷◌, ◌==◌, map, all,
  any, contains, All, eq_refl, if◌then◌else◌, Bool-cases, inl, inr, eq_iff, arith,
}
use mathlib.Core.Path.{subst}
use mathlib.Core.Bool.{true≢false}
use gcplane.Manifest.Kind.{ResourceKind, skill, apply_order, valid_kinds}
use gcplane.Manifest.Resource.{Resource, Manifest}
use gcplane.Manifest.Constraint.{Semver}
use gcplane.Manifest.Validate.{validate, uid, is_given}
use gcplane.Manifest.Validate.Acceptance.{are_distinct, is_well_formed, is_name, validate-parts}
use gcplane.Manifest.SkillSpec.{validate_skill_spec}
use gcplane.Manifest.References.Soundness.{is_empty}
use gcplane.Reconciler.Types.{ReconcileOpts, Provider, Runtime}
use gcplane.Reconciler.Engine.{reconcile}
use gcplane.Reconciler.Engine.Coverage.{count_changes, count_declared, reconcile_coverage}

-- Whether a resource of the kind and name is among the manifest's.
abbrev pub is_given_resource : ResourceKind → String → List Resource → Bool
is_given_resource kind name rs = any (λ r. r.kind == kind && r.name == name) rs

contains-subset :
    (xs ys : List String) (s : String)
    → All (λ x. contains ys x ≡ true) xs
    → contains xs s ≡ true
    → contains ys s ≡ true
unfolding contains
contains-subset [] ys s h k = absurd (true≢false (sym k))
contains-subset (x ∷ xs) ys s h k = elim (Bool-cases (x == s)) [
  | inl e ↦ subst (λ z. contains ys z ≡ true) ((eq_iff x s).0 e) h.0
  | inr e ↦ contains-subset xs ys s h.1 (rw e at k)
]

valid_kinds-applied :
    (kind : ResourceKind) → contains valid_kinds kind ≡ true → contains apply_order kind ≡ true
unfolding contains apply_order
valid_kinds-applied kind h = contains-subset valid_kinds apply_order kind (ground arith) h

uid_same :
    (r : Resource) (kind name : String)
    → (r.kind == kind) ≡ true
    → (r.name == name) ≡ true
    → uid r ≡ (kind <> "/" <> name)
unfolding uid
uid_same r kind name k n = rw ((eq_iff r.kind kind).0 k, (eq_iff r.name name).0 n)

-- Where the uid of a resource stands nowhere, the resource is not counted.
count_declared-absent :
    (rs : List Resource) (kind name : String)
    → contains (map uid rs) (kind <> "/" <> name) ≡ false
    → count_declared kind name rs ≡ 0
unfolding contains
count_declared-absent [] kind name h = refl
count_declared-absent (r ∷ rs) kind name h = elim (Bool-cases (r.kind == kind)) [
  | inl k ↦ elim (Bool-cases (r.name == name)) [
    | inl n ↦
        absurd (true≢false (rw (uid_same r kind name k n, eq_refl (kind <> "/" <> name)) at h))
    | inr n ↦ rw (k, n) (omega (arith, count_declared-absent rs kind name (ground (arith, h))))
  ]
  | inr k ↦ rw k (omega (arith, count_declared-absent rs kind name (ground (arith, h))))
]

and_left : (a b : Bool) → (a && b) ≡ true → a ≡ true
and_left a b h = ground arith

and_right : (a b : Bool) → (a && b) ≡ true → b ≡ true
and_right a b h = ground arith

head_fresh :
    (r : Resource) (rs : List Resource)
    → are_distinct (r ∷ rs) ≡ true
    → contains (map uid rs) (uid r) ≡ false
head_fresh r rs d = ground (arith, and_left (not (contains (map uid rs) (uid r))) _ d)

tail_distinct :
    (r : Resource) (rs : List Resource) → are_distinct (r ∷ rs) ≡ true → are_distinct rs ≡ true
tail_distinct r rs d = and_right (not (contains (map uid rs) (uid r))) _ d

-- Where the uids are distinct, a resource that is there is counted once.
count_declared-once :
    (rs : List Resource) (kind name : String)
    → are_distinct rs ≡ true
    → is_given_resource kind name rs ≡ true
    → count_declared kind name rs ≡ 1
count_declared-once [] kind name d h = absurd (true≢false (sym h))
count_declared-once (r ∷ rs) kind name d h = elim (Bool-cases (r.kind == kind)) [
  | inl k ↦ elim (Bool-cases (r.name == name)) [
    | inl n ↦
        let fresh =
          subst (λ u. contains (map uid rs) u ≡ false) (uid_same r kind name k n)
            (head_fresh r rs d) in
        rw (k, n) (omega (arith, count_declared-absent rs kind name fresh))
    | inr n ↦
        rw (k, n)
          (omega (arith, count_declared-once rs kind name (tail_distinct r rs d) (rw (k, n) at h)))
  ]
  | inr k ↦
      rw k (omega (arith, count_declared-once rs kind name (tail_distinct r rs d) (rw k at h)))
]

well_formed_kind : (a b c d : Bool) → (a && b && c && d) ≡ true → a ≡ true
well_formed_kind a b c d h = ground arith

module _ (semver : Semver) (pack_dir : String → Option String) where
  given_kind :
      (rs : List Resource) (kind name : String)
      → all (is_well_formed semver pack_dir) rs ≡ true
      → is_given_resource kind name rs ≡ true
      → contains valid_kinds kind ≡ true
  given_kind [] kind name w g = absurd (true≢false (sym g))
  given_kind (r ∷ rs) kind name w g =
      let rest =
        and_right (is_well_formed semver pack_dir r) (all (is_well_formed semver pack_dir) rs) w in
      elim (Bool-cases (r.kind == kind)) [
        | inl k ↦
            subst (λ z. contains valid_kinds z ≡ true) ((eq_iff r.kind kind).0 k)
              (well_formed_kind (contains valid_kinds r.kind) (is_name r.kind r.name)
                (is_given r.spec)
                (if r.kind == skill
                  then is_empty (validate_skill_spec semver pack_dir r.spec)
                  else true)
                (and_left (is_well_formed semver pack_dir r)
                  (all (is_well_formed semver pack_dir) rs) w))
        | inr k ↦ given_kind rs kind name rest (rw k at g)
      ]

  module _ (R : Runtime) (P : Provider) where
    -- For a manifest that Validate accepts, a run plans each declared resource exactly once: its
    -- plan has one change beside deletions for the resource's kind and name.
    pub reconcile_validated :
        (m : Manifest) (opts : ReconcileOpts) (s : P.State) (kind : ResourceKind) (name : String)
        → validate semver pack_dir m ≡ []
        → is_given_resource kind name m.resources ≡ true
        → count_changes kind name (reconcile R P m opts s).plan.changes ≡ 1
    reconcile_validated m opts s kind name accepted given =
        let parts = validate-parts semver pack_dir m accepted in
        reconcile_coverage R P m opts s kind name
          (valid_kinds-applied kind (given_kind m.resources kind name (parts.0) given))
        ∙ count_declared-once m.resources kind name (parts.1) given
