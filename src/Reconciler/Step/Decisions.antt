-- ===== src/Reconciler/Step/Decisions.antt =====
-- The action that the pipeline decides on, and the change's other fields with it.
use Prim.Native.String.{◌++◌ as ◌<>◌}
use mathlib.Core.Path.{subst}
use gcplane.Base.{
  String, Bool, true, false, ◌≡◌, refl, sym, ◌∙◌, ◌↔◌, inl, inr, Bool-cases, Option, none, some, [],
  ◌∷◌, Result, ok, err, arith, if◌then◌else◌,
}
use gcplane.Base.Dict.{Dict}
use gcplane.Spec.{Fields}
use gcplane.Manifest.Resource.{Resource, spec_fields}
use gcplane.Manifest.WriteOnly.{write_only_fields, annotation_sync_policy, sync_policy_ignore}
use gcplane.Reconciler.Compare.{FieldDiff}
use gcplane.Reconciler.Compare.Refinement.{FieldsAgree, put-ne-nil, compare_spec_excluding-eq-nil}
use gcplane.Reconciler.Types.{
  unset, create, noop, delete, action_eq, Change, fresh_change, Provider, Runtime,
}
use gcplane.Reconciler.Execute.{is_skipped}
use gcplane.Reconciler.Secrets.{resolve_spec_secrets}
use gcplane.Reconciler.Step.{
  annotated, hash_drifts, observed_hash, desired_hash, spec_diffs, decide, step_compare,
  reconcile_one, observed, rest_of_steps,
}

-- `rc.resource.Annotations[AnnotationSyncPolicy] == SyncPolicyIgnore`
abbrev pub is_ignored : Resource → Bool
is_ignored r = annotated r annotation_sync_policy sync_policy_ignore

-- A change names its resource, has one of the three actions create, update and noop, and is
-- passed over by the execute phase exactly when that is noop.
pub record IsChangeOf (r : Resource) (c : Change) : Type 0 where
  pub kind : c.kind ≡ r.kind
  pub name : c.name ≡ r.name
  pub deletes : action_eq delete c.action ≡ false
  pub decided : action_eq unset c.action ≡ false
  pub settled : is_skipped c ≡ action_eq noop c.action

if_IsChangeOf :
    (r : Resource) (b : Bool) (x y : Change)
    → IsChangeOf r x
    → IsChangeOf r y
    → IsChangeOf r (if b then x else y)
if_IsChangeOf r true x y hx hy = hx
if_IsChangeOf r false x y hx hy = hy

decide-IsChangeOf :
    (r : Resource) (c : Change) (force : Bool) (diffs : Dict FieldDiff)
    → c.kind ≡ r.kind
    → c.name ≡ r.name
    → c.error ≡ ""
    → IsChangeOf r (decide c force diffs)
unfolding decide action_eq is_skipped
decide-IsChangeOf r c true [] k n e = record {
  kind = k;
  name = n;
  deletes = refl;
  decided = refl;
  settled = rw e;
}
decide-IsChangeOf r c false [] k n e = record {
  kind = k;
  name = n;
  deletes = refl;
  decided = refl;
  settled = refl;
}
decide-IsChangeOf r c true (d ∷ ds) k n e = record {
  kind = k;
  name = n;
  deletes = refl;
  decided = refl;
  settled = rw e;
}
decide-IsChangeOf r c false (d ∷ ds) k n e = record {
  kind = k;
  name = n;
  deletes = refl;
  decided = refl;
  settled = rw e;
}

decide-noop_iff :
    (c : Change) (force : Bool) (diffs : Dict FieldDiff)
    → ((decide c force diffs).action ≡ noop) ↔ ((force ≡ false) × (diffs ≡ []))
unfolding decide
decide-noop_iff c true [] = (λ h. cc, λ h. cc)
decide-noop_iff c false [] = (λ h. (refl, refl), λ h. refl)
decide-noop_iff c true (d ∷ ds) = (λ h. cc, λ h. cc)
decide-noop_iff c false (d ∷ ds) = (λ h. cc, λ h. cc (h.1))

module _ (R : Runtime) where
  -- The desired spec, its secrets resolved, and its hash.
  abbrev pub desired_spec : Resource → Fields
  desired_spec r = resolve_spec_secrets R.resolve (spec_fields r.spec)

  abbrev pub resource_hash : Resource → String
  resource_hash r = desired_hash R r (desired_spec r)

  -- The change that `stepCompare` completes.
  abbrev pub hashed : Resource → Change
  hashed r = record (fresh_change r.kind r.name) { write_only_hash = resource_hash r }

  -- The change, by what was observed.
  unfoldable pub change_for : Resource → Bool → Result (Option Fields) → Change
  unfolding decide
  change_for r force (err e) = record (fresh_change r.kind r.name) {
    action = noop;
    error = "observe failed: " <> e;
  }
  change_for r force (ok current) =
      if is_ignored r
      then record (fresh_change r.kind r.name) { action = noop }
      else (elim current [
        | none ↦ record (hashed r) { action = create }
        | some cur ↦
            decide (hashed r) force (spec_diffs R r.kind (desired_spec r) cur (resource_hash r))
      ])

  rest_of_steps-observed :
      (r : Resource) (force : Bool) (o : Result (Option Fields))
      → rest_of_steps R (
          observed
            (record {
              resource = r;
              spec = desired_spec r;
              current = none;
              change = fresh_change r.kind r.name;
              force = force;
            })
            o)
        ≡ change_for r force o
  unfolding rest_of_steps observed change_for step_compare
  rest_of_steps-observed r force (err e) = refl
  rest_of_steps-observed r force (ok none) = ground arith
  rest_of_steps-observed r force (ok (some cur)) = ground arith

  -- The pipeline is a function of the resource and of what is observed.
  pub reconcile_one_lem :
      (P : Provider) (s : P.State) (r : Resource) (force : Bool)
      → reconcile_one R P s r force ≡ change_for r force (P.observe s r.kind r.name)
  unfolding reconcile_one
  reconcile_one_lem P s r force = rest_of_steps-observed r force (P.observe s r.kind r.name)

  change_for-IsChangeOf :
      (r : Resource) (force : Bool) (o : Result (Option Fields))
      → IsChangeOf r (change_for r force o)
  unfolding change_for action_eq is_skipped
  change_for-IsChangeOf r force (err e) = record {
    kind = refl;
    name = refl;
    deletes = refl;
    decided = refl;
    settled = refl;
  }
  change_for-IsChangeOf r force (ok none) =
      if_IsChangeOf r (is_ignored r) _ _
        (record { kind = refl; name = refl; deletes = refl; decided = refl; settled = refl })
        (record { kind = refl; name = refl; deletes = refl; decided = refl; settled = refl })
  change_for-IsChangeOf r force (ok (some cur)) =
      if_IsChangeOf r (is_ignored r) _ _
        (record { kind = refl; name = refl; deletes = refl; decided = refl; settled = refl })
        (decide-IsChangeOf r (hashed r) force _ refl refl refl)

  spec_diffs-eq-nil :
      (r : Resource) (spec cur : Fields) (hash : String)
      → (spec_diffs R r.kind spec cur hash ≡ []) ↔ (
          FieldsAgree R.floats (write_only_fields r.kind) "" spec cur
          × (hash_drifts r.kind hash (observed_hash cur) ≡ false))
  unfolding spec_diffs
  spec_diffs-eq-nil r spec cur hash =
      let fields = compare_spec_excluding-eq-nil R.floats (write_only_fields r.kind) spec cur in
      elim (Bool-cases (hash_drifts r.kind hash (observed_hash cur))) [
        | inl e ↦ rw e (λ h. absurd (put-ne-nil _ _ _ h), λ h. cc (h.1))
        | inr e ↦ rw e (λ h. (fields.0 h, refl), λ h. fields.1 h.0)
      ]

  module _ (P : Provider) (s : P.State) (r : Resource) (force : Bool) where
    -- The change of reconcileOne names its resource, its action is create, update or noop, and the
    -- execute phase passes it over exactly when that is noop, whatever is observed.
    pub reconcile_one-IsChangeOf : IsChangeOf r (reconcile_one R P s r force)
    reconcile_one-IsChangeOf =
        subst (IsChangeOf r) (sym (reconcile_one_lem P s r force))
          (change_for-IsChangeOf r force (P.observe s r.kind r.name))

    -- What a resource that is managed and exists gets.
    pub reconcile_one_seen :
        {cur : Fields}
        → is_ignored r ≡ false
        → P.observe s r.kind r.name ≡ ok (some cur)
        → reconcile_one R P s r force
          ≡ decide (hashed r) force (spec_diffs R r.kind (desired_spec r) cur (resource_hash r))
    unfolding change_for
    reconcile_one_seen managed seen = reconcile_one_lem P s r force ∙ rw seen (rw managed)

    -- For a resource that is not ignored and that exists, reconcileOne decides on a noop exactly
    -- when it is not forced, every desired field agrees with the observed one, and the hash of the
    -- write-only fields does not drift.
    pub reconcile_one-noop_iff :
        {cur : Fields}
        → is_ignored r ≡ false
        → P.observe s r.kind r.name ≡ ok (some cur)
        → ((reconcile_one R P s r force).action ≡ noop) ↔ (
            (force ≡ false)
            × FieldsAgree R.floats (write_only_fields r.kind) "" (desired_spec r) cur
            × (hash_drifts r.kind (resource_hash r) (observed_hash cur) ≡ false))
    reconcile_one-noop_iff {cur} managed seen =
        let verdict =
          decide-noop_iff (hashed r) force
            (spec_diffs R r.kind (desired_spec r) cur (resource_hash r)) in
        let nothing = spec_diffs-eq-nil r (desired_spec r) cur (resource_hash r) in
        rw (reconcile_one_seen managed seen) (
          λ h. let v = verdict.0 h in let n = nothing.0 (v.1) in (v.0, n.0, n.1),
          λ h. verdict.1 (h.0, nothing.1 (h.1, h.2)),
        )
