-- ===== src/Reconciler/Engine/Counts.antt =====
-- The counters of a plan agree with its changes.
use gcplane.Base.{
  ℕ, ◌+◌, Bool, false, ◌≡◌, refl, ap, ◌∙◌, List, [], ◌∷◌, ◌++◌, ◌==◌, length, if◌then◌else◌, arith,
  All, Bool-cases, inl, inr, length-append,
}
use gcplane.Manifest.Kind.{ResourceKind, apply_order}
use gcplane.Manifest.Resource.{Resource, Manifest}
use gcplane.Reconciler.Types.{
  Action, unset, create, update, noop, delete, action_eq, Change, Plan, ReconcileOpts, Provider,
  Runtime,
}
use gcplane.Reconciler.Prune.Safety.{detect_and_execute_prunes-IsOrphan}
use gcplane.Reconciler.Step.Decisions.{reconcile_one-IsChangeOf}
use gcplane.Reconciler.Engine.{
  count_action, add_change, add_changes, count_delete, count_deletes, Run, reconcile_step,
  reconcile_kinds, prune_phase, reconcile, reconcile_kind, by_kind,
}

-- How many changes have an action, and how many carry an error.
abbrev pub count : Action → List Change → ℕ
count a [] = 0
count a (c ∷ cs) = (if action_eq a c.action then 1 else 0) + count a cs

abbrev pub count_errors : List Change → ℕ
count_errors [] = 0
count_errors (c ∷ cs) = (if c.error == "" then 0 else 1) + count_errors cs

count-append : (a : Action) (xs ys : List Change) → count a (xs ++ ys) ≡ count a xs + count a ys
count-append a [] ys = omega arith
count-append a (c ∷ xs) ys = omega (arith, count-append a xs ys)

count_errors-append :
    (xs ys : List Change) → count_errors (xs ++ ys) ≡ count_errors xs + count_errors ys
count_errors-append [] ys = omega arith
count_errors-append (c ∷ xs) ys = omega (arith, count_errors-append xs ys)

-- Each counter is the number of the changes with its action, and there is a line for each error.
pub record IsCounted (p : Plan) : Type 0 where
  pub creates : p.creates ≡ count create p.changes
  pub updates : p.updates ≡ count update p.changes
  pub deletes : p.deletes ≡ count delete p.changes
  pub noops : p.noops ≡ count noop p.changes
  pub errors : length p.errors ≡ count_errors p.changes

-- A change that the observe phase can make: of one of three actions.
abbrev pub IsPlanned : Change → Type 0
IsPlanned c = action_eq delete c.action ≡ false

errors-count_action : (p : Plan) (a : Action) → (count_action p a).errors ≡ p.errors
unfolding count_action
errors-count_action p unset = refl
errors-count_action p _ = refl

module _ (p : Plan) (c : Change) where
  pub changes-add_change : (add_change p c).changes ≡ p.changes ++ c ∷ []
  unfolding add_change
  changes-add_change = ground arith

  creates-add_change :
      (add_change p c).creates ≡ p.creates + (if action_eq create c.action then 1 else 0)
  unfolding add_change action_eq
  creates-add_change = ground arith

  updates-add_change :
      (add_change p c).updates ≡ p.updates + (if action_eq update c.action then 1 else 0)
  unfolding add_change action_eq
  updates-add_change = ground arith

  noops-add_change : (add_change p c).noops ≡ p.noops + (if action_eq noop c.action then 1 else 0)
  unfolding add_change action_eq
  noops-add_change = ground arith

  deletes-add_change : (add_change p c).deletes ≡ p.deletes
  unfolding add_change
  deletes-add_change = ground arith

  errors-add_change :
      length (add_change p c).errors ≡ length p.errors + (if c.error == "" then 0 else 1)
  unfolding add_change
  errors-add_change = elim (Bool-cases (c.error == "")) [
    | inl e ↦ rw (e, errors-count_action) (omega arith)
    | inr e ↦ rw (e, errors-count_action) (length-append p.errors _)
  ]

  add_change-IsCounted : IsPlanned c → IsCounted p → IsCounted (add_change p c)
  add_change-IsCounted planned h = record {
    creates = rw (creates-add_change, changes-add_change, count-append) (omega (arith, h.creates));
    updates = rw (updates-add_change, changes-add_change, count-append) (omega (arith, h.updates));
    deletes =
        rw (deletes-add_change, changes-add_change, count-append, planned)
          (omega (arith, h.deletes));
    noops = rw (noops-add_change, changes-add_change, count-append) (omega (arith, h.noops));
    errors =
        rw (errors-add_change, changes-add_change, count_errors-append) (omega (arith, h.errors));
  }

add_changes-IsCounted :
    (cs : List Change) (p : Plan) → All IsPlanned cs → IsCounted p → IsCounted (add_changes p cs)
unfolding add_changes
add_changes-IsCounted [] p a h = h
add_changes-IsCounted (c ∷ cs) p a h =
    add_changes-IsCounted cs (add_change p c) a.1 (add_change-IsCounted p c a.0 h)

-- The changes of the prune phase: deletions, none with an error.
abbrev IsPruned : Change → Type 0
IsPruned c = (c.action ≡ delete) × (c.error ≡ "")

count_delete-pruned :
    (p : Plan) (c : Change)
    → c.action ≡ delete
    → count_delete p c ≡ record p { deletes = p.deletes + 1 }
unfolding count_delete
count_delete-pruned p c h = rw h

with_deletes : (p : Plan) {m n : ℕ} → m ≡ n → record p { deletes = m } ≡ record p { deletes = n }
with_deletes p e = ap (λ (k : ℕ). record p { deletes = k }) e

-- What `count_deletes` does to a plan whose changes are all appended before.
count_deletes-pruned :
    (cs : List Change) (p : Plan)
    → All IsPruned cs
    → count_deletes p cs ≡ record p { deletes = p.deletes + length cs }
unfolding count_deletes
count_deletes-pruned [] p h = with_deletes p (omega arith)
count_deletes-pruned (c ∷ cs) p h = rw (count_delete-pruned p c h.0.0) (
    count_deletes-pruned cs (record p { deletes = p.deletes + 1 }) h.1
    ∙ with_deletes p (omega arith))

count-pruned :
    (cs : List Change)
    → All IsPruned cs
    → (count create cs ≡ 0)
      × (count update cs ≡ 0)
      × (count noop cs ≡ 0)
      × (count delete cs ≡ length cs)
      × (count_errors cs ≡ 0)
unfolding action_eq
count-pruned [] h = omega arith
count-pruned (c ∷ cs) h = let ih = count-pruned cs h.1 in rw (h.0.0, h.0.1) (omega arith)

pub changes-count_deletes : (p : Plan) (cs : List Change) → (count_deletes p cs).changes ≡ p.changes
unfolding count_deletes count_delete
changes-count_deletes p [] = refl
changes-count_deletes p (c ∷ cs) = changes-count_deletes (count_delete p c) cs ∙ ground arith

-- Deletions that are appended and then counted.
count_deletes-IsCounted :
    (p : Plan) (cs : List Change)
    → All IsPruned cs
    → IsCounted p
    → IsCounted (count_deletes (record p { changes = p.changes ++ cs }) cs)
count_deletes-IsCounted p cs pruned h =
    let z = count-pruned cs pruned in
    rw (count_deletes-pruned cs (record p { changes = p.changes ++ cs }) pruned) (record {
      creates = rw count-append (omega (arith, h.creates));
      updates = rw count-append (omega (arith, h.updates));
      deletes = rw count-append (omega (arith, h.deletes));
      noops = rw count-append (omega (arith, h.noops));
      errors = rw count_errors-append (omega (arith, h.errors));
    })

pub All-map {ℓ κ λ'} :
    {A : Type ℓ} {P : A → Type κ} {Q : A → Type λ'} (f : (a : A) → P a → Q a) (xs : List A)
    → All P xs
    → All Q xs
All-map f [] h = tt
All-map f (x ∷ xs) h = (f x h.0, All-map f xs h.1)

module _ (R : Runtime) (P : Provider) where
  reconcile_kind-IsPlanned :
      (s : P.State) (rs : List Resource) (force : Bool)
      → All IsPlanned (reconcile_kind R P s rs force)
  unfolding reconcile_kind
  reconcile_kind-IsPlanned s [] force = tt
  reconcile_kind-IsPlanned s (r ∷ rs) force =
      ((reconcile_one-IsChangeOf R P s r force).deletes, reconcile_kind-IsPlanned s rs force)

  reconcile_step-IsCounted :
      (resources : List Resource) (opts : ReconcileOpts) (run : Run R P) (kind : ResourceKind)
      → IsCounted run.plan
      → IsCounted (reconcile_step R P resources opts run kind).plan
  unfolding reconcile_step
  reconcile_step-IsCounted resources opts run kind h =
      add_changes-IsCounted _ run.plan
        (reconcile_kind-IsPlanned run.state (by_kind resources kind) opts.force) h

  reconcile_kinds-IsCounted :
      (kinds : List ResourceKind) (resources : List Resource) (opts : ReconcileOpts) (run : Run R P)
      → IsCounted run.plan
      → IsCounted (reconcile_kinds R P resources opts run kinds).plan
  unfolding reconcile_kinds
  reconcile_kinds-IsCounted [] resources opts run h = h
  reconcile_kinds-IsCounted (k ∷ ks) resources opts run h =
      reconcile_kinds-IsCounted ks resources opts (reconcile_step R P resources opts run k)
        (reconcile_step-IsCounted resources opts run k h)

  prune_phase-IsCounted :
      (m : Manifest) (opts : ReconcileOpts) (run : Run R P)
      → IsCounted run.plan
      → IsCounted (prune_phase R P m opts run).plan
  unfolding prune_phase
  prune_phase-IsCounted m opts run h = elim (Bool-cases opts.prune) [
    | inl e ↦ rw e (
        count_deletes-IsCounted run.plan _
          (All-map (λ c o. (o.deletes, o.clean)) _
            (detect_and_execute_prunes-IsOrphan P m.resources opts.dry_run run.state))
          h)
    | inr e ↦ rw e h
  ]

  -- Whatever the provider does and the options are, each counter of the plan that Reconcile
  -- returns is the number of the changes with its action, and the plan has an error line for each
  -- change with an error.
  pub reconcile-IsCounted :
      (m : Manifest) (opts : ReconcileOpts) (s : P.State) → IsCounted (reconcile R P m opts s).plan
  unfolding reconcile
  reconcile-IsCounted m opts s = prune_phase-IsCounted m opts _ (
      reconcile_kinds-IsCounted apply_order m.resources opts _
        (record { creates = refl; updates = refl; deletes = refl; noops = refl; errors = refl }))
