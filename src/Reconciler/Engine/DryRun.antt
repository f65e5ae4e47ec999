-- ===== src/Reconciler/Engine/DryRun.antt =====
-- A dry run writes nothing.
use gcplane.Base.{
  String, Bool, true, ◌≡◌, refl, ap, ◌∙◌, List, [], ◌∷◌, ◌++◌, Bool-cases, inl, inr, Result-cases,
  contains, Option,
}
use gcplane.Spec.{Fields}
use gcplane.Manifest.Kind.{ResourceKind, apply_order}
use gcplane.Manifest.Order.{delete_order}
use gcplane.Manifest.Resource.{Resource, Manifest}
use gcplane.Reconciler.Types.{
  Change, Plan, ReconcileOpts, ApplyResult, empty_result, add_result, ResourceInfo, Provider,
  Runtime, empty_plan,
}
use gcplane.Reconciler.Step.{reconcile_one}
use gcplane.Reconciler.Prune.{
  kept_kinds, is_kept, delete_change, prune_one, prune_remotes, prune_kind, prune_kinds,
  detect_and_execute_prunes,
}
use gcplane.Reconciler.Engine.{
  Run, by_kind, reconcile_kind, add_changes, apply_kind, reconcile_step, reconcile_kinds,
  prune_phase, reconcile, count_deletes,
}

abbrev pruned_plan : Plan → List Change → Plan
pruned_plan plan pruned = count_deletes (record plan { changes = plan.changes ++ pruned }) pruned

module _ (P : Provider)
    (create update : P.State → ResourceKind → String → Fields → Option String × P.State)
    (delete : P.State → ResourceKind → String → Option String × P.State) where
  -- The provider that reads like the first and writes otherwise.
  abbrev pub rewritten : Provider
  rewritten = record P { create = create; update = update; delete = delete }

  module _ (resources : List Resource) where
    prune_remotes_dry :
        (remotes : List ResourceInfo) (kind : ResourceKind) (s : P.State) (changes : List Change)
        (acc : ApplyResult)
        → prune_remotes P resources true kind s changes acc remotes
          ≡ prune_remotes rewritten resources true kind s changes acc remotes
    unfolding prune_remotes prune_one
    prune_remotes_dry [] kind s changes acc = refl
    prune_remotes_dry (r ∷ rs) kind s changes acc = elim (Bool-cases (is_kept resources kind r)) [
      | inl e ↦ rw (e, prune_remotes) (prune_remotes_dry rs kind s changes acc)
      | inr e ↦
          rw (e, prune_remotes)
            (prune_remotes_dry rs kind s (changes ++ delete_change kind r.name ∷ [])
              (add_result acc empty_result))
    ]

    prune_kind_dry :
        (s : P.State) (changes : List Change) (acc : ApplyResult) (kind : ResourceKind)
        → prune_kind P resources true s changes acc kind
          ≡ prune_kind rewritten resources true s changes acc kind
    unfolding prune_kind
    prune_kind_dry s changes acc kind = elim (Bool-cases (contains kept_kinds kind)) [
      | inl e ↦ rw e refl
      | inr e ↦ elim (Result-cases (P.list_all s kind)) [
        | inl (remotes, l) ↦ rw (e, l) (prune_remotes_dry remotes kind s changes acc)
        | inr (m, l) ↦ rw (e, l) refl
      ]
    ]

    prune_kinds_dry :
        (kinds : List ResourceKind) (s : P.State) (changes : List Change) (acc : ApplyResult)
        → prune_kinds P resources true s changes acc kinds
          ≡ prune_kinds rewritten resources true s changes acc kinds
    unfolding prune_kinds
    prune_kinds_dry [] s changes acc = refl
    prune_kinds_dry (k ∷ ks) s changes acc =
        let out = prune_kind P resources true s changes acc k in
        prune_kinds_dry ks (out.2) (out.0) (out.1)
        ∙ ap (λ o. prune_kinds rewritten resources true (o.2) (o.0) (o.1) ks)
            (prune_kind_dry s changes acc k)

  module _ (R : Runtime) where
    -- Two runs, one over each provider, have planned, counted and left the same.
    pub record IsSameRun (a : Run R P) (b : Run R rewritten) : Type 0 where
      pub plan : a.plan ≡ b.plan
      pub result : a.result ≡ b.result
      pub state : a.state ≡ b.state

    reconcile_one_dry :
        (s : P.State) (r : Resource) (force : Bool)
        → reconcile_one R P s r force ≡ reconcile_one R rewritten s r force
    unfolding reconcile_one
    reconcile_one_dry s r force = refl

    reconcile_kind_dry :
        (rs : List Resource) (s : P.State) (force : Bool)
        → reconcile_kind R P s rs force ≡ reconcile_kind R rewritten s rs force
    unfolding reconcile_kind
    reconcile_kind_dry [] s force = refl
    reconcile_kind_dry (r ∷ rs) s force =
        λ i. reconcile_one_dry s r force i ∷ reconcile_kind_dry rs s force i

    module _ (resources : List Resource) (opts : ReconcileOpts) (dry : opts.dry_run ≡ true) where
      reconcile_step_dry :
          (a : Run R P) (b : Run R rewritten) (kind : ResourceKind)
          → IsSameRun a b
          → IsSameRun
              (reconcile_step R P resources opts a kind)
              (reconcile_step R rewritten resources opts b kind)
      unfolding reconcile_step apply_kind
      reconcile_step_dry a b kind h =
          let mine = by_kind resources kind in
          rw dry (record {
            plan =
                ap (λ s. add_changes a.plan (reconcile_kind R P s mine opts.force)) h.state
                ∙ ap (λ cs. add_changes a.plan cs) (reconcile_kind_dry mine b.state opts.force)
                ∙ ap (λ p. add_changes p (reconcile_kind R rewritten b.state mine opts.force))
                    h.plan;
            result = ap (λ r. add_result r empty_result) h.result;
            state = h.state;
          })

      reconcile_kinds_dry :
          (kinds : List ResourceKind) (a : Run R P) (b : Run R rewritten)
          → IsSameRun a b
          → IsSameRun
              (reconcile_kinds R P resources opts a kinds)
              (reconcile_kinds R rewritten resources opts b kinds)
      unfolding reconcile_kinds
      reconcile_kinds_dry [] a b h = h
      reconcile_kinds_dry (k ∷ ks) a b h = reconcile_kinds_dry ks _ _ (reconcile_step_dry a b k h)

    module _ (m : Manifest) (opts : ReconcileOpts) (dry : opts.dry_run ≡ true) where
      prune_phase_dry :
          (a : Run R P) (b : Run R rewritten)
          → IsSameRun a b
          → IsSameRun (prune_phase R P m opts a) (prune_phase R rewritten m opts b)
      unfolding prune_phase detect_and_execute_prunes
      prune_phase_dry a b h = elim (Bool-cases opts.prune) [
        | inr e ↦ rw e h
        | inl e ↦
            let same = prune_kinds_dry m.resources delete_order b.state [] empty_result in
            let moved =
              ap (λ s. prune_kinds P m.resources true s [] empty_result delete_order) h.state
              ∙ same in
            rw (e, dry)
              (record {
                plan =
                    ap (λ out. pruned_plan a.plan (out.0)) moved
                    ∙ ap
                        (λ p.
                          pruned_plan p
                            (prune_kinds rewritten m.resources true b.state [] empty_result
                              delete_order).0)
                        h.plan;
                result =
                    ap (λ out. add_result a.result (out.1)) moved
                    ∙ ap
                        (λ r. add_result r (
                          (prune_kinds rewritten m.resources true b.state [] empty_result
                            delete_order).1))
                        h.result;
                state = ap (λ out. out.2) moved;
              })
      ]

      -- A dry run makes no create, update or delete: whatever these three would do, with and without
      -- the prune phase and under force, it returns the same plan and the same result and leaves the
      -- provider in the same state.
      pub reconcile_dry :
          (s : P.State) → IsSameRun (reconcile R P m opts s) (reconcile R rewritten m opts s)
      unfolding reconcile
      reconcile_dry s = prune_phase_dry _ _ (
          reconcile_kinds_dry m.resources opts dry apply_order
            (record { plan = empty_plan; result = empty_result; state = s })
            (record { plan = empty_plan; result = empty_result; state = s })
            (record { plan = refl; result = refl; state = refl }))
