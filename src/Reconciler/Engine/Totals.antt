-- ===== src/Reconciler/Engine/Totals.antt =====
-- What a run that is not dry applies and fails, against its plan.
use gcplane.Base.{
  append-nil, append_assoc, suc, ◌+◌, Bool, false, ◌≡◌, refl, sym, ap, ◌∙◌, List, [], ◌∷◌, ◌++◌,
  Bool-cases, inl, inr, arith, if◌then◌else◌, length, All,
}
use gcplane.Manifest.Kind.{ResourceKind, apply_order}
use gcplane.Manifest.Order.{delete_order}
use gcplane.Manifest.Resource.{Resource, Manifest}
use gcplane.Reconciler.Types.{
  Plan, unset, create, update, noop, delete, action_eq, Change, ReconcileOpts, empty_result,
  Provider, Runtime,
}
use gcplane.Reconciler.Execute.{is_skipped}
use gcplane.Reconciler.Prune.{prune_kinds, detect_and_execute_prunes}
use gcplane.Reconciler.Prune.Safety.{IsOrphan, All-snoc, detect_and_execute_prunes-IsOrphan}
use gcplane.Reconciler.Step.Decisions.{reconcile_one-IsChangeOf}
use gcplane.Reconciler.Engine.Counts.{
  count, changes-add_change, changes-count_deletes, reconcile-IsCounted,
}
use gcplane.Reconciler.Engine.Accounting.{
  attempts, attempts-append, IsBalanced, reindex, add_result-IsBalanced, execute_changes-IsBalanced,
  prune_kinds-IsBalanced,
}
use gcplane.Reconciler.Engine.{
  add_change, add_changes, Run, reconcile_step, reconcile_kinds, prune_phase, reconcile,
  reconcile_kind, by_kind,
}

pub changes-add_changes :
    (cs : List Change) (p : Plan) → (add_changes p cs).changes ≡ p.changes ++ cs
unfolding add_changes
changes-add_changes [] p = sym (append-nil p.changes)
changes-add_changes (c ∷ cs) p =
    changes-add_changes cs (add_change p c)
    ∙ rw changes-add_change (append_assoc p.changes (c ∷ []) cs)

-- A change that is attempted exactly when its action is create, update or delete.
abbrev IsSettled : Change → Type 0
IsSettled c = (is_skipped c ≡ action_eq noop c.action) × (action_eq unset c.action ≡ false)

settled-attempt :
    (c : Change)
    → IsSettled c
    → (if is_skipped c then 0 else 1)
      ≡ (if action_eq create c.action then 1 else 0)
        + (if action_eq update c.action then 1 else 0)
        + (if action_eq delete c.action then 1 else 0)
unfolding action_eq
settled-attempt c h = rw h.0 (ground (arith, h.1))

attempts-settled :
    (cs : List Change)
    → All IsSettled cs
    → attempts cs ≡ count create cs + count update cs + count delete cs
attempts-settled [] h = refl
attempts-settled (c ∷ cs) h = omega (arith, settled-attempt c h.0, attempts-settled cs h.1)

attempts-pruned :
    (P : Provider) (rs : List Resource) (cs : List Change)
    → All (IsOrphan P rs) cs
    → (attempts cs ≡ length cs) × All IsSettled cs
unfolding is_skipped action_eq
attempts-pruned P rs [] h = (refl, tt)
attempts-pruned P rs (c ∷ cs) (o, os) =
    let ih = attempts-pruned P rs cs os in
    (rw (o.deletes, o.clean) (omega (arith, ih.0)), ((rw (o.deletes, o.clean), rw o.deletes), ih.1))

module _ (R : Runtime) (P : Provider) where
  -- The result counts each attempted change of the plan once.
  pub record IsAccounted (run : Run R P) : Type 0 where
    pub balanced : IsBalanced (attempts run.plan.changes) run.result
    pub settled : All IsSettled run.plan.changes

  reconcile_kind-IsSettled :
      (rs : List Resource) (s : P.State) (force : Bool)
      → All IsSettled (reconcile_kind R P s rs force)
        × (length (reconcile_kind R P s rs force) ≡ length rs)
  unfolding reconcile_kind
  reconcile_kind-IsSettled [] s force = (tt, refl)
  reconcile_kind-IsSettled (r ∷ rs) s force =
      let c = reconcile_one-IsChangeOf R P s r force in
      let ih = reconcile_kind-IsSettled rs s force in
      (((c.settled, c.decided), ih.0), ap suc (ih.1))

  module _ (m : Manifest) (opts : ReconcileOpts) (real : opts.dry_run ≡ false) where
    reconcile_step-IsAccounted :
        (run : Run R P) (kind : ResourceKind)
        → IsAccounted run
        → IsAccounted (reconcile_step R P m.resources opts run kind)
    unfolding reconcile_step
    reconcile_step-IsAccounted run kind h =
        let mine = by_kind m.resources kind in
        let cs = reconcile_kind R P run.state mine opts.force in
        let planned = reconcile_kind-IsSettled mine run.state opts.force in
        rw (real, changes-add_changes)
          (record {
            balanced = reindex (sym (attempts-append run.plan.changes cs)) (
                add_result-IsBalanced _ _ run.result _ h.balanced (
                  reindex (omega arith) (
                    execute_changes-IsBalanced R P cs mine run.state empty_result 0 (planned.1)
                      (omega arith))));
            settled = All-snoc IsSettled run.plan.changes cs h.settled (planned.0);
          })

    reconcile_kinds-IsAccounted :
        (kinds : List ResourceKind) (run : Run R P)
        → IsAccounted run
        → IsAccounted (reconcile_kinds R P m.resources opts run kinds)
    unfolding reconcile_kinds
    reconcile_kinds-IsAccounted [] run h = h
    reconcile_kinds-IsAccounted (k ∷ ks) run h =
        reconcile_kinds-IsAccounted ks (reconcile_step R P m.resources opts run k)
          (reconcile_step-IsAccounted run k h)

    prune_phase-IsAccounted :
        (run : Run R P) → IsAccounted run → IsAccounted (prune_phase R P m opts run)
    unfolding prune_phase detect_and_execute_prunes
    prune_phase-IsAccounted run h = elim (Bool-cases opts.prune) [
      | inl e ↦
          let out = prune_kinds P m.resources false run.state [] empty_result delete_order in
          let each = attempts-pruned P m.resources (out.0) (
            unfold detect_and_execute_prunes in
            detect_and_execute_prunes-IsOrphan P m.resources false run.state) in
          rw (e, real, changes-count_deletes)
            (record {
              balanced = reindex (sym (attempts-append run.plan.changes (out.0))) (
                  add_result-IsBalanced _ _ run.result (out.1) h.balanced (
                    reindex (sym (each.0)) (
                      prune_kinds-IsBalanced P m.resources delete_order run.state [] empty_result
                        (omega arith))));
              settled = All-snoc IsSettled run.plan.changes (out.0) h.settled (each.1);
            })
      | inr e ↦ rw e h
    ]

    reconcile-IsAccounted : (s : P.State) → IsAccounted (reconcile R P m opts s)
    unfolding reconcile
    reconcile-IsAccounted s = prune_phase-IsAccounted _ (
        reconcile_kinds-IsAccounted apply_order _ (record { balanced = omega arith; settled = tt }))

  -- A run that is not dry accounts for every planned write: what was applied and what failed are
  -- together the creates, updates and deletes of the plan, and there is an error line for each
  -- failure.
  pub reconcile_total :
      (m : Manifest) (opts : ReconcileOpts) (s : P.State)
      → opts.dry_run ≡ false
      → let run = reconcile R P m opts s in
        (run.result.applied + run.result.failed
          ≡ run.plan.creates + run.plan.updates + run.plan.deletes)
        × (length run.result.errors ≡ run.result.failed)
  reconcile_total m opts s real =
      let a = reconcile-IsAccounted m opts real s in
      let c = reconcile-IsCounted R P m opts s in
      let n = attempts-settled (reconcile R P m opts s).plan.changes a.settled in
      (omega (arith, a.balanced.total, n, c.creates, c.updates, c.deletes), a.balanced.lines)
