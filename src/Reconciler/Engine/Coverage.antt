-- ===== src/Reconciler/Engine/Coverage.antt =====
-- Every declared resource gets its change, and only declared resources do.
use mathlib.Core.Path.{subst}
use gcplane.Base.{
  ℕ, ◌+◌, ◌*◌, String, Bool, true, false, ◌≡◌, refl, ◌∙◌, List, [], ◌∷◌, ◌++◌, Bool-cases, inl, inr,
  ◌==◌, arith, if◌then◌else◌, contains, eq_iff, All,
}
use gcplane.Manifest.Kind.{ResourceKind, apply_order}
use gcplane.Manifest.Resource.{Resource, Manifest}
use gcplane.Reconciler.Types.{delete, action_eq, Change, ReconcileOpts, Provider, Runtime}
use gcplane.Reconciler.Prune.Safety.{IsOrphan, detect_and_execute_prunes-IsOrphan}
use gcplane.Reconciler.Step.Decisions.{reconcile_one-IsChangeOf}
use gcplane.Reconciler.Engine.Counts.{changes-count_deletes}
use gcplane.Reconciler.Engine.Totals.{changes-add_changes}
use gcplane.Reconciler.Engine.{
  Run, reconcile_step, reconcile_kinds, prune_phase, reconcile, reconcile_kind, by_kind,
}

-- No kind stands in the order again.
abbrev NoRepeat : List ResourceKind → Type 0
NoRepeat [] = Unit
NoRepeat (k ∷ ks) = (contains ks k ≡ false) × NoRepeat ks

module _ (kind : ResourceKind) where
  -- How often a kind stands in an order.
  abbrev occurrences : List ResourceKind → ℕ
  occurrences [] = 0
  occurrences (k ∷ ks) = (if k == kind then 1 else 0) + occurrences ks

  occurrences-absent : (ks : List ResourceKind) → contains ks kind ≡ false → occurrences ks ≡ 0
  unfolding contains
  occurrences-absent [] h = refl
  occurrences-absent (k ∷ ks) h = ground (arith, occurrences-absent ks)

  occurrences-once :
      (ks : List ResourceKind) → NoRepeat ks → contains ks kind ≡ true → occurrences ks ≡ 1
  unfolding contains
  occurrences-once [] n h = cc
  occurrences-once (k ∷ ks) n h = elim (Bool-cases (k == kind)) [
    | inl e ↦ rw e (
        omega (
          arith,
          occurrences-absent ks (subst (λ x. contains ks x ≡ false) ((eq_iff k kind).0 e) n.0),
        ))
    | inr e ↦ rw e (omega (arith, occurrences-once ks n.1 (ground arith)))
  ]

module _ (kind : ResourceKind) (name : String) where
  -- How often a manifest declares kind/name.
  abbrev pub count_declared : List Resource → ℕ
  count_declared [] = 0
  count_declared (r ∷ rs) =
      (if r.kind == kind then (if r.name == name then 1 else 0) else 0) + count_declared rs

  -- How many changes for kind/name there are beside deletions.
  abbrev pub count_changes : List Change → ℕ
  count_changes [] = 0
  count_changes (c ∷ cs) =
      (if action_eq delete c.action
        then 0
        else if c.kind == kind
        then (if c.name == name then 1 else 0)
        else 0)
      + count_changes cs

  count_changes-append :
      (xs ys : List Change) → count_changes (xs ++ ys) ≡ count_changes xs + count_changes ys
  count_changes-append [] ys = omega arith
  count_changes-append (c ∷ xs) ys = omega (arith, count_changes-append xs ys)

  count_changes-pruned :
      (P : Provider) (rs : List Resource) (cs : List Change)
      → All (IsOrphan P rs) cs
      → count_changes cs ≡ 0
  unfolding action_eq
  count_changes-pruned P rs [] h = refl
  count_changes-pruned P rs (c ∷ cs) (o, os) =
      rw o.deletes (omega (arith, count_changes-pruned P rs cs os))

  -- Of the resources of one kind, those of another name none.
  count_declared-by_kind :
      (rs : List Resource) (k : ResourceKind)
      → count_declared (by_kind rs k) ≡ (if k == kind then count_declared rs else 0)
  unfolding by_kind
  count_declared-by_kind [] k = ground arith
  count_declared-by_kind (r ∷ rs) k =
      ground
        (arith, count_declared-by_kind rs k, eq_iff r.kind k, eq_iff k kind, eq_iff r.kind kind)

  module _ (R : Runtime) (P : Provider) where
    count_changes-reconcile_kind :
        (rs : List Resource) (s : P.State) (force : Bool)
        → count_changes (reconcile_kind R P s rs force) ≡ count_declared rs
    unfolding reconcile_kind
    count_changes-reconcile_kind [] s force = refl
    count_changes-reconcile_kind (r ∷ rs) s force =
        let c = reconcile_one-IsChangeOf R P s r force in
        rw (c.deletes, c.kind, c.name) (omega (arith, count_changes-reconcile_kind rs s force))

    count_changes-reconcile_step :
        (m : Manifest) (opts : ReconcileOpts) (run : Run R P) (k : ResourceKind)
        → count_changes (reconcile_step R P m.resources opts run k).plan.changes
          ≡ count_changes run.plan.changes + (if k == kind then count_declared m.resources else 0)
    unfolding reconcile_step
    count_changes-reconcile_step m opts run k = rw (
      changes-add_changes, count_changes-append, count_changes-reconcile_kind,
      count_declared-by_kind,
    )

    count_changes-reconcile_kinds :
        (ks : List ResourceKind) (m : Manifest) (opts : ReconcileOpts) (run : Run R P)
        → count_changes (reconcile_kinds R P m.resources opts run ks).plan.changes
          ≡ count_changes run.plan.changes + occurrences kind ks * count_declared m.resources
    unfolding reconcile_kinds
    count_changes-reconcile_kinds [] m opts run = omega arith
    count_changes-reconcile_kinds (k ∷ ks) m opts run =
        let step = count_changes-reconcile_step m opts run k in
        let more =
          count_changes-reconcile_kinds ks m opts (reconcile_step R P m.resources opts run k) in
        elim (Bool-cases (k == kind)) [
          | inl e ↦ rw e (let st = rw e at step in omega (arith, more, st))
          | inr e ↦ rw e (let st = rw e at step in omega (arith, more, st))
        ]

    count_changes-prune_phase :
        (m : Manifest) (opts : ReconcileOpts) (run : Run R P)
        → count_changes (prune_phase R P m opts run).plan.changes ≡ count_changes run.plan.changes
    unfolding prune_phase
    count_changes-prune_phase m opts run = elim (Bool-cases opts.prune) [
      | inl e ↦
          rw (e, changes-count_deletes, count_changes-append)
            (omega (
              arith,
              count_changes-pruned P m.resources _
                  (detect_and_execute_prunes-IsOrphan P m.resources opts.dry_run run.state),
            ))
      | inr e ↦ rw e
    ]

apply_order-NoRepeat : NoRepeat apply_order
unfolding apply_order contains
apply_order-NoRepeat = ground arith

module _ (R : Runtime) (P : Provider) where
  -- For each kind of the apply order and each name, the plan has as many changes beside deletions
  -- as the manifest has resources with that kind and name: no declared resource is passed over or
  -- planned twice, and none that is not declared is planned.
  pub reconcile_coverage :
      (m : Manifest) (opts : ReconcileOpts) (s : P.State) (kind : ResourceKind) (name : String)
      → contains apply_order kind ≡ true
      → count_changes kind name (reconcile R P m opts s).plan.changes
        ≡ count_declared kind name m.resources
  unfolding reconcile
  reconcile_coverage m opts s kind name valid =
      count_changes-prune_phase kind name R P m opts _
      ∙ count_changes-reconcile_kinds kind name R P apply_order m opts _
      ∙ rw (occurrences-once kind apply_order apply_order-NoRepeat valid) (omega arith)
