-- ===== src/Reconciler/Step/Convergence.antt =====
-- One successful write settles a resource, if GoClaw then shows what it was sent.
use gcplane.Base.{
  String, Bool, true, false, ◌≡◌, refl, ap, ◌∙◌, ◌≢◌, ◌⊎◌, inl, inr, Bool-cases, Option, none, some,
  [], ◌∷◌, ok, arith, ◌==◌, eq_refl,
}
use gcplane.Spec.{null, Fields, get, string}
use gcplane.Manifest.Resource.{Resource}
use gcplane.Manifest.WriteOnly.{write_only_fields, supports_write_only_hash}
use gcplane.Base.Dict.{Dict}
use gcplane.Reconciler.Compare.{FieldDiff}
use gcplane.Reconciler.Compare.Refinement.{FieldsAgree}
use gcplane.Reconciler.Compare.Reflexive.{FieldsRegular, FieldsListed}
use gcplane.Reconciler.WriteOnlyHash.{write_only_hash_field}
use gcplane.Reconciler.Types.{create, update, noop, Change, Provider, Runtime}
use gcplane.Reconciler.Execute.{execute, sent_spec}
use gcplane.Reconciler.Step.{reconcile_one, hash_drifts, observed_hash, decide}
use gcplane.Reconciler.Step.Decisions.{
  is_ignored, desired_spec, resource_hash, change_for, hashed, reconcile_one_lem,
  reconcile_one-noop_iff,
}
use gcplane.Reconciler.Step.Echoes.{IsStored, get-put, Echoes-put, Echoes-same, Echoes-agree}

module _ (R : Runtime) (r : Resource) (current : Fields) where
  abbrev hash : String
  hash = resource_hash R r

  no_drift_without_hash :
      (hash == "") ≡ true → hash_drifts r.kind hash (observed_hash current) ≡ false
  unfolding hash_drifts
  no_drift_without_hash e = ground (arith, e)

  no_drift_of_echo :
      get current write_only_hash_field ≡ some (string hash)
      → hash_drifts r.kind hash (observed_hash current) ≡ false
  unfolding hash_drifts observed_hash
  no_drift_of_echo e = rw e (rw eq_refl (ground arith))

  no_drift_unsupported :
      supports_write_only_hash r.kind ≡ false
      → get current write_only_hash_field ≡ none
      → hash_drifts r.kind hash (observed_hash current) ≡ false
  unfolding hash_drifts observed_hash
  no_drift_unsupported u e = rw e (rw u (ground arith))

  module _ (regular : FieldsRegular R.floats (desired_spec R r))
      (listed : FieldsListed "" (desired_spec R r))
      (plain : get (desired_spec R r) write_only_hash_field ≡ none) where
    -- The stored spec shows no difference and no drift of the hash.
    stored_settled :
        (c : Change)
        → c.write_only_hash ≡ hash
        → IsStored R.floats r.kind (sent_spec R c r) current
        → FieldsAgree R.floats (write_only_fields r.kind) "" (desired_spec R r) current
          × (hash_drifts r.kind hash (observed_hash current) ≡ false)
    unfolding sent_spec
    stored_settled c h stored = elim (Bool-cases (c.write_only_hash == "")) [
      | inl e ↦
          let fields = rw e at stored.fields in
          (
            Echoes-agree R.floats _ _ current regular listed
                (Echoes-same R.floats write_only_hash_field null _ _ current plain fields),
            no_drift_without_hash (rw h at e),
          )
      | inr e ↦
          let fields = rw e at stored.fields in
          (
            Echoes-agree R.floats _ _ current regular listed (
                Echoes-put R.floats write_only_hash_field (string c.write_only_hash) _ _ current
                  plain fields),
            elim (Bool-cases (supports_write_only_hash r.kind)) [
              | inl u ↦ no_drift_of_echo (
                  stored.hash u
                  ∙ rw e (rw (get-put R.floats) (ap (λ (t : String). some (string t)) h)))
              | inr u ↦ no_drift_unsupported u (stored.no_hash u)
            ],
          )
    ]

-- A change that is not a noop is a create or an update, and carries the resource's hash.
abbrev Writes : String → Change → Type 0
Writes hash c = (c.write_only_hash ≡ hash) × ((c.action ≡ create) ⊎ (c.action ≡ update))

decide-Writes :
    (c : Change) (force : Bool) (diffs : Dict FieldDiff)
    → (decide c force diffs).action ≢ noop
    → Writes c.write_only_hash (decide c force diffs)
unfolding decide
decide-Writes c true [] ne = (refl, inr refl)
decide-Writes c false [] ne = absurd (ne refl)
decide-Writes c true (d ∷ ds) ne = (refl, inr refl)
decide-Writes c false (d ∷ ds) ne = (refl, inr refl)

change_for-Writes :
    (R : Runtime) (r : Resource) (force : Bool) (o : Option Fields)
    → is_ignored r ≡ false
    → (change_for R r force (ok o)).action ≢ noop
    → Writes (resource_hash R r) (change_for R r force (ok o))
unfolding change_for
change_for-Writes R r force none managed ne = rw managed (refl, inl refl)
change_for-Writes R r force (some cur) managed ne =
    rw managed (decide-Writes (hashed R r) force _ (rw managed at ne))

module _ (R : Runtime) (P : Provider) (r : Resource)
    (regular : FieldsRegular R.floats (desired_spec R r)) where
  -- One write settles a resource that GoClaw then shows as it was sent: if the resource is not
  -- ignored, reconcileOne plans a write, execute makes it without an error, and the next observation
  -- shows each sent field, a text as it is or masked, a whole number as it is or as a float, and
  -- the others as they are, all but the write-only ones, and the hash where the kind supports it,
  -- then the next reconcileOne without force decides on a noop. Further fields may be shown. The
  -- desired spec has no NaN, no repeated key, lists of texts at the paths that are compared as sets,
  -- and no field of the hash's name.
  pub execute-settles :
      (s t : P.State) (force : Bool) {o : Option Fields} {current : Fields}
      → is_ignored r ≡ false
      → FieldsListed "" (desired_spec R r)
      → get (desired_spec R r) write_only_hash_field ≡ none
      → P.observe s r.kind r.name ≡ ok o
      → (reconcile_one R P s r force).action ≢ noop
      → execute R P s (reconcile_one R P s r force) r ≡ (none, t)
      → P.observe t r.kind r.name ≡ ok (some current)
      → IsStored R.floats r.kind (sent_spec R (reconcile_one R P s r force) r) current
      → (reconcile_one R P t r false).action ≡ noop
  execute-settles s t force {o} managed listed plain seen acts done shown stored =
      let c = reconcile_one R P s r force in
      let same : c ≡ change_for R r force (ok o) =
        reconcile_one_lem R P s r force ∙ ap (change_for R r force) seen in
      let writes : Writes (resource_hash R r) c =
        rw same (change_for-Writes R r force o managed (rw same at acts)) in
      let settled = stored_settled R r _ regular listed plain c (writes.0) stored in
      (reconcile_one-noop_iff R P t r false managed shown).1 (refl, settled.0, settled.1)
