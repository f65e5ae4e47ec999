-- ===== src/Controller/Cycle/Outcome.antt =====
-- What one cycle of the controller leaves: the conditions, the counters and the waiters.
use mathlib.Core.Path.{subst}
use gcplane.Base.{
  ℕ, ◌+◌, String, Bool, true, false, ◌||◌, ◌≡◌, refl, sym, ap, ◌∙◌, ◌↔◌, Option, none, some, List,
  [], ◌∷◌, ◌++◌, ◌==◌, Result, ok, err, not, map, length, ltb, arith, if◌then◌else◌, Bool-cases,
  inl, inr, eq_iff,
}
use gcplane.Manifest.Resource.{Manifest}
use gcplane.Reconciler.Types.{Change, Provider, Runtime, ReconcileOpts}
use gcplane.Reconciler.Engine.{reconcile}
use gcplane.Reconciler.Engine.Counts.{count_errors, reconcile-IsCounted}
use gcplane.Reconciler.Engine.Totals.{reconcile_total}
use gcplane.Controller.Status
use gcplane.Controller.Status.{
  SyncStatus, Condition, ConditionType, is_synced, set_condition, find_condition, upsert, type_eq,
  synced, error, drifted,
}
use gcplane.Controller.Metrics.{Metrics}
use gcplane.Controller.Verify.{Verdict, verify_providers, report}
use gcplane.Controller.Cycle.{
  Controller, SyncResult, Waiter, nonempty, result_of, has_errors, set_conditions, count_cycle,
  deliver, notify_waiters, fetch_failed, settle, reconcile_once,
}
use gcplane.Controller.Status.Conditions.{find_condition-upsert}

-- The conditions that a cycle sets, whatever stood there before.
is_synced-set_conditions :
    (clock : ℕ → ℕ) (errors drift : Bool) (s : SyncStatus)
    → is_synced (set_conditions clock errors drift s) ≡ not errors
unfolding is_synced set_conditions type_eq
is_synced-set_conditions clock true true s = simp find_condition-upsert
is_synced-set_conditions clock true false s = simp find_condition-upsert
is_synced-set_conditions clock false true s = simp find_condition-upsert
is_synced-set_conditions clock false false s = simp find_condition-upsert

-- The clock reading at which a cycle sets a condition.
abbrev pub reading : ConditionType → ℕ
reading synced = 3
reading error = 4
reading drifted = 5

fresh_times :
    (clock : ℕ → ℕ) (errors drift : Bool) (s : SyncStatus) (t : ConditionType)
    → s.conditions ≡ []
    → (c : Condition) × (find_condition t (set_conditions clock errors drift s).conditions ≡ some c)
      × (c.last_transition_time ≡ clock (reading t))
unfolding set_conditions upsert find_condition type_eq
fresh_times clock true true s synced e = rw e (_, refl, refl)
fresh_times clock true true s error e = rw e (_, refl, refl)
fresh_times clock true true s drifted e = rw e (_, refl, refl)
fresh_times clock true false s synced e = rw e (_, refl, refl)
fresh_times clock true false s error e = rw e (_, refl, refl)
fresh_times clock true false s drifted e = rw e (_, refl, refl)
fresh_times clock false true s synced e = rw e (_, refl, refl)
fresh_times clock false true s error e = rw e (_, refl, refl)
fresh_times clock false true s drifted e = rw e (_, refl, refl)
fresh_times clock false false s synced e = rw e (_, refl, refl)
fresh_times clock false false s error e = rw e (_, refl, refl)
fresh_times clock false false s drifted e = rw e (_, refl, refl)

verify_providers-counters :
    (verify : Option (String → Verdict)) (m : Manifest) (metrics : Metrics)
    → ((verify_providers verify m metrics).sync_success ≡ metrics.sync_success)
      × ((verify_providers verify m metrics).sync_errors ≡ metrics.sync_errors)
unfolding verify_providers report
verify_providers-counters none m metrics = (refl, refl)
verify_providers-counters (some verify) m metrics = ground arith

deliver-map :
    (result : SyncResult) (ws : List Waiter) → deliver result ws ≡ map (λ w. (w, result)) ws
unfolding deliver
deliver-map result [] = refl
deliver-map result (w ∷ ws) = ap (λ sent. (w, result) ∷ sent) (deliver-map result ws)

-- The source's test, on the error lines of the writes and of the plan.
no_lines_iff :
    (failed : ℕ) (xs ys : List String)
    → length xs ≡ failed
    → (xs ++ ys ≡ []) ↔ (not (ltb 0 failed || nonempty ys) ≡ true)
no_lines_iff failed [] [] lines = (λ e. ground (arith, lines), λ e. refl)
no_lines_iff failed [] (y ∷ ys) lines = (λ e. cc, λ e. ground (arith, e))
no_lines_iff failed (x ∷ xs) ys lines = (λ e. cc, λ e. absurd (ground (arith, lines, e)))

errors_test :
    (failed : ℕ) (ys : List String)
    → (not (ltb 0 failed || nonempty ys) ≡ true) ↔ ((failed ≡ 0) × (length ys ≡ 0))
errors_test failed [] = ground arith
errors_test failed (y ∷ ys) = ground arith

-- No change carries an error.
abbrev pub AreClean : List Change → Type 0
AreClean [] = Unit
AreClean (c ∷ cs) = (c.error ≡ "") × AreClean cs

AreClean-iff : (cs : List Change) → (count_errors cs ≡ 0) ↔ AreClean cs
AreClean-iff [] = (λ e. tt, λ h. refl)
AreClean-iff (c ∷ cs) =
    let rest = AreClean-iff cs in
    elim (Bool-cases (c.error == "")) [
      | inl e ↦ rw e (
        λ n. ((eq_iff c.error "").0 e, rest.0 (omega (arith, n))),
        λ h. let none_of = rest.1 (h.1) in omega (arith, none_of),
      )
      | inr e ↦
          rw e (
            λ n. absurd (omega (arith, n)),
            λ h. absurd (cc (sym ((eq_iff c.error "").1 (h.0)) ∙ e)),
          )
    ]

module _ (R : Runtime) (P : Provider) (verify : P.State → Option (String → Verdict))
    (prune : Bool) where
  abbrev cycle_opts : ReconcileOpts
  cycle_opts = record { dry_run = false; prune = prune; force = false }

  -- Whether a cycle went without an error: the manifest was fetched, and nothing failed.
  abbrev pub went_well : Result (Manifest × String) → P.State → Bool
  went_well (err e) s = false
  went_well (ok (m, hash)) s =
      let run = reconcile R P m cycle_opts s in not (has_errors run.plan run.result)

  -- The manifest was fetched, every declared resource could be observed, and every planned write
  -- was applied.
  abbrev pub Succeeds : Result (Manifest × String) → P.State → Type 0
  Succeeds (err e) s = ⊥
  Succeeds (ok (m, hash)) s =
      let run = reconcile R P m cycle_opts s in
      AreClean run.plan.changes
      × (run.result.applied ≡ run.plan.creates + run.plan.updates + run.plan.deletes)

  is_synced-went_well :
      (clock : ℕ → ℕ) (fetched : Result (Manifest × String)) (c : Controller) (s : P.State)
      → is_synced (reconcile_once R P verify prune clock fetched c s).0.tracker
        ≡ went_well fetched s
  unfolding reconcile_once fetch_failed settle notify_waiters Status.update is_synced type_eq
  is_synced-went_well clock (err e) c s = simp find_condition-upsert
  is_synced-went_well clock (ok (m, hash)) c s = is_synced-set_conditions clock _ _ _

  no_errors_iff :
      (m : Manifest) (s : P.State)
      → let run = reconcile R P m cycle_opts s in
        (not (has_errors run.plan run.result) ≡ true) ↔ (
          AreClean run.plan.changes
          × (run.result.applied ≡ run.plan.creates + run.plan.updates + run.plan.deletes))
  unfolding has_errors reconcile
  no_errors_iff m s =
      let run = reconcile R P m cycle_opts s in
      let total = reconcile_total R P m cycle_opts s refl in
      let counted = reconcile-IsCounted R P m cycle_opts s in
      let clean = AreClean-iff run.plan.changes in
      let test = errors_test run.result.failed run.plan.errors in
      (
        λ h.
            let none_failed = test.0 h in
            (
              clean.0 (omega (arith, none_failed.1, counted.errors)),
              omega (arith, none_failed.0, total.0),
            ),
        λ h.
            let no_count = clean.1 (h.0) in
            test.1 (omega (arith, h.1, total.0), omega (arith, no_count, counted.errors)),
      )

  -- After a cycle the controller counts as synced exactly when the manifest was fetched, no change
  -- of the plan carries an error, and every planned create, update and delete was applied. A
  -- listing that fails in the prune phase plans no deletion and does not count.
  pub is_synced-reconcile_once :
      (clock : ℕ → ℕ) (fetched : Result (Manifest × String)) (c : Controller) (s : P.State)
      → (is_synced (reconcile_once R P verify prune clock fetched c s).0.tracker ≡ true)
        ↔ Succeeds fetched s
  is_synced-reconcile_once clock (err e) c s =
      let same = is_synced-went_well clock (err e) c s in (λ h. cc, λ h. absurd h)
  is_synced-reconcile_once clock (ok (m, hash)) c s =
      rw (is_synced-went_well clock (ok (m, hash)) c s) (no_errors_iff m s)

  -- A cycle that fetches a manifest dates every condition anew: whatever conditions stood before,
  -- each of the three types has one afterwards, and its transition time is a reading of this
  -- cycle's clock, also where its status did not change.
  pub reconcile_once_times :
      (clock : ℕ → ℕ) (m : Manifest) (hash : String) (c : Controller) (s : P.State)
      (t : ConditionType)
      → let after = (reconcile_once R P verify prune clock (ok (m, hash)) c s).0 in
        (cond : Condition) × (find_condition t after.tracker.conditions ≡ some cond)
        × (cond.last_transition_time ≡ clock (reading t))
  unfolding reconcile_once settle notify_waiters Status.update
  reconcile_once_times clock m hash c s t = fresh_times clock _ _ _ t refl

  -- Each cycle is counted once, as a success or as an error, and as a success exactly when it went
  -- without an error.
  pub reconcile_once_counted :
      (clock : ℕ → ℕ) (fetched : Result (Manifest × String)) (c : Controller) (s : P.State)
      → let after = (reconcile_once R P verify prune clock fetched c s).0 in
        (after.metrics.sync_success
          ≡ c.metrics.sync_success + (if went_well fetched s then 1 else 0))
        × (after.metrics.sync_errors
            ≡ c.metrics.sync_errors + (if went_well fetched s then 0 else 1))
  unfolding reconcile_once fetch_failed settle notify_waiters count_cycle
  reconcile_once_counted clock (err e) c s = (omega arith, refl)
  reconcile_once_counted clock (ok (m, hash)) c s =
      let run = reconcile R P m cycle_opts s in
      let kept = verify_providers-counters (verify run.state) m c.metrics in
      elim (Bool-cases (has_errors run.plan run.result)) [
        | inl e ↦ rw e (omega (arith, kept.0), omega (arith, kept.1))
        | inr e ↦ rw e (omega (arith, kept.0), omega (arith, kept.1))
      ]

  -- A cycle sends one and the same result to every waiter, once and in their order, and leaves no
  -- waiter, also where the fetch fails. The result lists no error exactly when the controller counts
  -- as synced after the cycle.
  pub reconcile_once_delivers :
      (clock : ℕ → ℕ) (fetched : Result (Manifest × String)) (c : Controller) (s : P.State)
      → let after = (reconcile_once R P verify prune clock fetched c s).0 in
        (result : SyncResult) × (after.delivered ≡ c.delivered ++ map (λ w. (w, result)) c.waiters)
        × (after.waiters ≡ [])
        × ((result.errors ≡ []) ↔ (is_synced after.tracker ≡ true))
  unfolding reconcile_once fetch_failed settle notify_waiters result_of has_errors reconcile
  reconcile_once_delivers clock (err e) c s =
      let same = is_synced-went_well clock (err e) c s in
      (_, ap (λ sent. c.delivered ++ sent) (deliver-map _ c.waiters), refl, (λ h. cc, λ h. cc))
  reconcile_once_delivers clock (ok (m, hash)) c s =
      let run = reconcile R P m cycle_opts s in
      let total = reconcile_total R P m cycle_opts s refl in
      let same = is_synced-went_well clock (ok (m, hash)) c s in
      (
        _,
        ap (λ sent. c.delivered ++ sent) (deliver-map _ c.waiters),
        refl,
        subst (λ b. (run.result.errors ++ run.plan.errors ≡ []) ↔ (b ≡ true)) (sym same)
            (no_lines_iff run.result.failed run.result.errors run.plan.errors total.1),
      )
