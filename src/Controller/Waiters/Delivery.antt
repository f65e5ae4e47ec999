-- ===== src/Controller/Waiters/Delivery.antt =====
-- How a caller gets its result.
use gcplane.Base.{
  ℕ, ◌+◌, ◌<◌, true, ◌≡◌, refl, ap, ◌⊎◌, ◌≢◌, inl, inr, List, [], ◌∷◌, nat_eq, arith, Bool-cases,
}
use gcplane.Controller.Waiters.{
  Phase, unstarted, idle, reconciling, notifying, stopped, System, new_system, occurrences, Step,
  begin, consume, collect, hand_over, rest, Reaches, own, OwnRun, stop, go,
}
use gcplane.Controller.Waiters.Places.{
  Placed, Settled, Step-Settled, Step-Placed, Reaches-Settled, Reaches-Placed,
}
use gcplane.Controller.Waiters.Wakeups.{no_lost_wakeup}

origin-Placed : (w : ℕ) → Placed new_system w
unfolding new_system occurrences
origin-Placed w = record { once = omega arith; kept = omega arith; unused = λ new. omega arith }

origin-Settled : Settled new_system
unfolding new_system
origin-Settled = inr refl

placed : (s : System) → Reaches new_system s → (w : ℕ) → Placed s w
placed s steps w = Reaches-Placed new_system s steps origin-Settled w (origin-Placed w)

-- In every reachable state, a caller's channel stands in one place at most: while it is registered or
-- about to be served, it holds no result, so that the send of a result to it does not wait.
pub no_blocked_send :
    (s : System) (w : ℕ)
    → Reaches new_system s
    → 0 < occurrences w s.waiters + occurrences w s.pending
    → (occurrences w s.results ≡ 0) × (occurrences w s.waiters + occurrences w s.pending ≡ 1)
no_blocked_send s w steps there =
    let h = placed s steps w in (omega (arith, h.once, there), omega (arith, h.once, there))

abbrev Good : System → Type 0
Good s = Settled s × ((w : ℕ) → Placed s w)

Step-Good : (p q : System) → Step p q → Good p → Good q
Step-Good p q step h = (Step-Settled p q step h.0, λ w. Step-Placed p q step h.0 w (h.1 w))

-- The loop by itself comes to a state with a result for the caller.
record Serves (s : System) (w : ℕ) : Type 0 where
  final : System
  run : OwnRun s final
  served : 0 < occurrences w final.results

prepended : (s t : System) (w : ℕ) (step : Step s t) → own step ≡ true → Serves t w → Serves s w
prepended s t w step ours h = record {
  final = h.final;
  run = go step ours h.run;
  served = h.served;
}

-- The channel at the front of the list has room.
room :
    (s : System) (v : ℕ) (others : List ℕ)
    → Good s
    → s.pending ≡ v ∷ others
    → occurrences v s.results ≡ 0
unfolding occurrences
room s v others h left =
    let here_it_is = ap (occurrences v) left in ground (arith, (h.1 v).once, here_it_is)

drain :
    (s : System) (w : ℕ) (others : List ℕ)
    → Good s
    → s.phase ≡ notifying
    → s.pending ≡ others
    → 0 < occurrences w others
    → Serves s w
unfolding occurrences own
drain s w [] h at left there = absurd (omega (arith, there))
drain s w (v ∷ others) h at left there =
    let step = hand_over v others at left (room s v others h left) in
    prepended s _ w step refl (elim (Bool-cases (nat_eq w v)) [
      | inl same ↦ record { final = _; run = stop; served = rw same (omega arith) }
      | inr other ↦
          drain _ w others (Step-Good s _ step h) at refl (omega (arith, rw other at there))
    ])

from_reconciling :
    (s : System) (w : ℕ) → Good s → s.phase ≡ reconciling → 0 < occurrences w s.waiters → Serves s w
unfolding own
from_reconciling s w h at there =
    prepended s _ w (collect at) refl
      (drain _ w s.waiters (Step-Good s _ (collect at) h) refl refl there)

from_idle :
    (s : System) (w : ℕ)
    → Good s
    → s.phase ≡ idle
    → s.queued ≡ true
    → 0 < occurrences w s.waiters
    → Serves s w
unfolding own
from_idle s w h at token there =
    let step = consume at token in
    prepended s _ w step refl (from_reconciling _ w (Step-Good s _ step h) refl there)

from_notifying :
    (s : System) (w : ℕ) (others : List ℕ)
    → Good s
    → s.phase ≡ notifying
    → s.pending ≡ others
    → s.queued ≡ true
    → 0 < occurrences w s.waiters
    → Serves s w
unfolding own
from_notifying s w [] h at left token there =
    let step = rest at left in
    prepended s _ w step refl (from_idle _ w (Step-Good s _ step h) refl token there)
from_notifying s w (v ∷ others) h at left token there =
    let step = hand_over v others at left (room s v others h left) in
    prepended s _ w step refl (from_notifying _ w others (Step-Good s _ step h) at refl token there)

from_unstarted :
    (s : System) (w : ℕ) → Good s → s.phase ≡ unstarted → 0 < occurrences w s.waiters → Serves s w
unfolding own
from_unstarted s w h at there =
    prepended s _ w (begin at) refl (from_reconciling _ w (Step-Good s _ (begin at) h) refl there)

-- A queued trigger is enough in every phase but the last.
from_queued :
    (s : System) (w : ℕ) (phase : Phase)
    → Good s
    → s.phase ≡ phase
    → s.phase ≢ stopped
    → s.queued ≡ true
    → 0 < occurrences w s.waiters
    → Serves s w
from_queued s w unstarted h at alive token there = from_unstarted s w h at there
from_queued s w idle h at alive token there = from_idle s w h at token there
from_queued s w reconciling h at alive token there = from_reconciling s w h at there
from_queued s w notifying h at alive token there =
    from_notifying s w s.pending h at refl token there
from_queued s w stopped h at alive token there = absurd (alive at)

from_waiters :
    (s : System) (w : ℕ)
    → Good s
    → s.phase ≢ stopped
    → occurrences w s.sending ≡ 0
    → 0 < occurrences w s.waiters
    → (0 < occurrences w s.sending)
      ⊎ (s.queued ≡ true)
      ⊎ (s.phase ≡ unstarted)
      ⊎ (s.phase ≡ reconciling)
      ⊎ (s.phase ≡ stopped)
    → Serves s w
from_waiters s w h alive sent there (inl sends) = absurd (omega (arith, sends, sent))
from_waiters s w h alive sent there (inr (inl token)) =
    from_queued s w s.phase h refl alive token there
from_waiters s w h alive sent there (inr (inr (inl at))) = from_unstarted s w h at there
from_waiters s w h alive sent there (inr (inr (inr (inl at)))) = from_reconciling s w h at there
from_waiters s w h alive sent there (inr (inr (inr (inr at)))) = absurd (alive at)

from_pending : (s : System) (w : ℕ) → Good s → Settled s → 0 < occurrences w s.pending → Serves s w
unfolding occurrences
from_pending s w h (inl at) there = drain s w s.pending h at refl there
from_pending s w h (inr none_left) there =
    absurd (omega (arith, ap (occurrences w) none_left, there))

places : (a b c : ℕ) → 0 < a + b + c → (0 < a) ⊎ (0 < b) ⊎ (0 < c)
places a b c some_place = ground (arith, some_place)

-- From every reachable state in which a caller waits and the loop has not stopped, the loop's own
-- steps alone, without the ticker and without a step of any caller, lead to a state in which the
-- caller's channel holds a result.
pub waiting_served :
    (s : System) (w : ℕ)
    → Reaches new_system s
    → s.phase ≢ stopped
    → 0 < occurrences w s.waiting
    → (q : System) × OwnRun s q × (0 < occurrences w q.results)
waiting_served s w steps alive waits = (h.final, h.run, h.served)
  where
    good : Good s
    good = (Reaches-Settled new_system s steps origin-Settled, placed s steps)

    find :
        (0 < occurrences w s.waiters)
          ⊎ (0 < occurrences w s.pending)
          ⊎ (0 < occurrences w s.results)
        → Serves s w
    find (inl there) =
        from_waiters s w good alive (omega (arith, (good.1 w).once, (good.1 w).kept, waits)) there
          (no_lost_wakeup s w steps there)
    find (inr (inl there)) = from_pending s w good good.0 there
    find (inr (inr there)) = record { final = s; run = stop; served = there }

    h : Serves s w
    h = find (
        places (occurrences w s.waiters) (occurrences w s.pending) (occurrences w s.results)
          (omega (arith, (good.1 w).kept, waits)))
