-- ===== src/Reconciler/Engine/Ignored.antt =====
-- Ignored resources and what a run writes.
use gcplane.Base.{
  Bool, true, false, not, ◌≡◌, refl, ap, ◌∙◌, List, [], ◌∷◌, ◌==◌, Bool-cases, inl, inr, filter,
  Result, ok, err, Option, none, some,
}
use gcplane.Spec.{Fields}
use gcplane.Manifest.Kind.{ResourceKind, apply_order}
use gcplane.Manifest.Resource.{Resource, Manifest}
use gcplane.Reconciler.Types.{
  ReconcileOpts, ApplyResult, empty_result, add_result, empty_plan, Provider, Runtime,
}
use gcplane.Reconciler.Execute.{is_skipped, execute_changes}
use gcplane.Reconciler.Step.{reconcile_one}
use gcplane.Reconciler.Step.Decisions.{is_ignored, change_for, reconcile_one_lem}
use gcplane.Reconciler.Engine.{
  Run, by_kind, reconcile_kind, apply_kind, reconcile_step, reconcile_kinds, prune_phase, reconcile,
}

-- The resources that are not ignored.
abbrev pub managed : List Resource → List Resource
managed = filter (λ r. not (is_ignored r))

by_kind-managed :
    (rs : List Resource) (kind : ResourceKind)
    → by_kind (managed rs) kind ≡ managed (by_kind rs kind)
unfolding by_kind
by_kind-managed [] kind = refl
by_kind-managed (r ∷ rs) kind = elim (Bool-cases (is_ignored r)) [
  | inl e ↦ elim (Bool-cases (r.kind == kind)) [
    | inl f ↦ rw (e, f) (rw e (by_kind-managed rs kind))
    | inr f ↦ rw (e, f) (by_kind-managed rs kind)
  ]
  | inr e ↦ elim (Bool-cases (r.kind == kind)) [
    | inl f ↦ rw (e, f) (rw e (ap (λ xs. r ∷ xs) (by_kind-managed rs kind)))
    | inr f ↦ rw (e, f) (by_kind-managed rs kind)
  ]
]

module _ (R : Runtime) (P : Provider) where
  change_for_ignored :
      (r : Resource) (force : Bool) (o : Result (Option Fields))
      → is_ignored r ≡ true
      → is_skipped (change_for R r force o) ≡ true
  unfolding change_for is_skipped
  change_for_ignored r force (err e) ignored = refl
  change_for_ignored r force (ok none) ignored = rw ignored refl
  change_for_ignored r force (ok (some cur)) ignored = rw ignored refl

  ignored_skipped :
      (s : P.State) (r : Resource) (force : Bool)
      → is_ignored r ≡ true
      → is_skipped (reconcile_one R P s r force) ≡ true
  ignored_skipped s r force ignored =
      ap is_skipped (reconcile_one_lem R P s r force)
      ∙ change_for_ignored r force (P.observe s r.kind r.name) ignored

  execute_changes-managed :
      (rs : List Resource) (s0 s : P.State) (force : Bool) (acc : ApplyResult)
      → execute_changes R P s acc (reconcile_kind R P s0 rs force) rs
        ≡ execute_changes R P s acc (reconcile_kind R P s0 (managed rs) force) (managed rs)
  unfolding execute_changes reconcile_kind
  execute_changes-managed [] s0 s force acc = refl
  execute_changes-managed (r ∷ rs) s0 s force acc = elim (Bool-cases (is_ignored r)) [
    | inl e ↦
        rw (e, execute_changes, ignored_skipped s0 r force e)
          (execute_changes-managed rs s0 s force acc)
    | inr e ↦ elim (Bool-cases (is_skipped (reconcile_one R P s0 r force))) [
      | inl f ↦ rw (e, execute_changes, f) (execute_changes-managed rs s0 s force acc)
      | inr f ↦ rw (e, execute_changes, f) (execute_changes-managed rs s0 _ force _)
    ]
  ]

  apply_kind-managed :
      (dry : Bool) (rs : List Resource) (s0 s : P.State) (force : Bool)
      → apply_kind R P dry s (reconcile_kind R P s0 rs force) rs
        ≡ apply_kind R P dry s (reconcile_kind R P s0 (managed rs) force) (managed rs)
  unfolding apply_kind
  apply_kind-managed true rs s0 s force = refl
  apply_kind-managed false rs s0 s force = execute_changes-managed rs s0 s force empty_result

  -- What two runs have written so far is the same.
  pub record IsSame (a b : Run R P) : Type 0 where
    pub result : a.result ≡ b.result
    pub state : a.state ≡ b.state

  module _ (resources : List Resource) (opts : ReconcileOpts) where
    -- What one kind adds to what was written.
    abbrev wrote : List Resource → ApplyResult → P.State → ResourceKind → ApplyResult × P.State
    wrote rs result s kind =
        let call =
          apply_kind R P opts.dry_run s (reconcile_kind R P s (by_kind rs kind) opts.force)
            (by_kind rs kind) in
        (add_result result (call.0), call.1)

    wrote-managed :
        (result : ApplyResult) (s : P.State) (kind : ResourceKind)
        → wrote resources result s kind ≡ wrote (managed resources) result s kind
    wrote-managed result s kind = rw (by_kind-managed resources kind) (
        ap (λ call. (add_result result (call.0), call.1))
          (apply_kind-managed opts.dry_run (by_kind resources kind) s s opts.force))

    wrote-same :
        (a b : Run R P) (kind : ResourceKind)
        → IsSame a b
        → wrote resources a.result a.state kind ≡ wrote (managed resources) b.result b.state kind
    wrote-same a b kind h = rw (h.result, h.state) (wrote-managed b.result b.state kind)

    reconcile_step-IsSame :
        (a b : Run R P) (kind : ResourceKind)
        → IsSame a b
        → IsSame
            (reconcile_step R P resources opts a kind)
            (reconcile_step R P (managed resources) opts b kind)
    unfolding reconcile_step
    reconcile_step-IsSame a b kind h = record {
      result = ap (λ w. w.0) (wrote-same a b kind h);
      state = ap (λ w. w.1) (wrote-same a b kind h);
    }

    reconcile_kinds-IsSame :
        (kinds : List ResourceKind) (a b : Run R P)
        → IsSame a b
        → IsSame
            (reconcile_kinds R P resources opts a kinds)
            (reconcile_kinds R P (managed resources) opts b kinds)
    unfolding reconcile_kinds
    reconcile_kinds-IsSame [] a b h = h
    reconcile_kinds-IsSame (k ∷ ks) a b h =
        reconcile_kinds-IsSame ks _ _ (reconcile_step-IsSame a b k h)

  -- A resource whose sync policy is Ignore is never written: a run without the prune phase has the
  -- same result and leaves the provider in the same state as the run over the manifest without its
  -- ignored resources, also under force and whatever the provider answers.
  pub reconcile-managed :
      (m : Manifest) (opts : ReconcileOpts) (s : P.State)
      → opts.prune ≡ false
      → IsSame
          (reconcile R P m opts s)
          (reconcile R P (record m { resources = managed m.resources }) opts s)
  unfolding reconcile prune_phase reconcile_kinds reconcile_step
  reconcile-managed m opts s kept = rw kept (
      reconcile_kinds-IsSame m.resources opts apply_order
        (record { plan = empty_plan; result = empty_result; state = s })
        (record { plan = empty_plan; result = empty_result; state = s })
        (record { result = refl; state = refl }))
