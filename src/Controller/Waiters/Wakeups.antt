-- ===== src/Controller/Waiters/Wakeups.antt =====
-- Why the loop runs again for a caller that waits.
use gcplane.Base.{
  ℕ, ◌≤◌, ◌<◌, true, ◌≡◌, refl, ◌⊎◌, inl, inr, List, [], ◌∷◌, nat_eq, arith, Bool-cases,
}
use gcplane.Controller.Waiters.{
  unstarted, reconciling, notifying, stopped, System, new_system, occurrences, remove, Step, begin,
  tick, consume, halt, collect, hand_over, rest, arm, fire, register, send, receive, cancel,
  Reaches, here, next,
}
use gcplane.Controller.Waiters.Places.{occurrences-append}

-- A cycle that takes the waiters is to come, or none will.
abbrev pub Expected : System → Type 0
Expected s =
    (s.queued ≡ true) ⊎ (s.phase ≡ unstarted) ⊎ (s.phase ≡ reconciling) ⊎ (s.phase ≡ stopped)

abbrev Awaited : System → ℕ → Type 0
Awaited s w = (occurrences w s.waiters ≡ 0) ⊎ (0 < occurrences w s.sending) ⊎ Expected s

occurrences-remove_le : (w v : ℕ) (xs : List ℕ) → occurrences w (remove v xs) ≤ occurrences w xs
unfolding occurrences remove
occurrences-remove_le w v [] = omega arith
occurrences-remove_le w v (x ∷ xs) = ground (arith, occurrences-remove_le w v xs)

in_notifying : (s : System) → s.phase ≡ notifying → Expected s → s.queued ≡ true
in_notifying s at (inl token) = token
in_notifying s at (inr (inl e)) = cc
in_notifying s at (inr (inr (inl e))) = cc
in_notifying s at (inr (inr (inr e))) = cc

Step-Awaited : (p q : System) → Step p q → (w : ℕ) → Awaited p w → Awaited q w
unfolding occurrences
Step-Awaited p _ (begin at) w h = inr (inr (inr (inr (inl refl))))
Step-Awaited p _ (tick at) w h = inr (inr (inr (inr (inl refl))))
Step-Awaited p _ (consume at token) w h = inr (inr (inr (inr (inl refl))))
Step-Awaited p _ (halt at) w h = inr (inr (inr (inr (inr refl))))
Step-Awaited p _ (collect at) w h = inl refl
Step-Awaited p _ (hand_over v others at front room) w h = h
Step-Awaited p _ (rest at none_left) w (inl none_there) = inl none_there
Step-Awaited p _ (rest at none_left) w (inr (inl sends)) = inr (inl sends)
Step-Awaited p _ (rest at none_left) w (inr (inr e)) = inr (inr (inl (in_notifying p at e)))
Step-Awaited p _ arm w h = h
Step-Awaited p _ (fire ready) w h = inr (inr (inl refl))
Step-Awaited p _ register w h = elim (Bool-cases (nat_eq w p.fresh)) [
  | inl newest ↦ inr (inl (rw newest (omega arith)))
  | inr older ↦
      let same = occurrences-append w p.waiters (p.fresh ∷ []) in
      elim h [
        | inl none_there ↦ inl (ground (arith, same, none_there, older))
        | inr (inl sends) ↦ inr (inl (omega (arith, sends)))
        | inr (inr e) ↦ inr (inr e)
      ]
]
Step-Awaited p _ (send before v after at) w h = inr (inr (inl refl))
Step-Awaited p _ (receive before earlier v after later at result) w h = h
Step-Awaited p _ (cancel before v after at) w (inl none_there) =
    inl (omega (arith, none_there, occurrences-remove_le w v p.waiters))
Step-Awaited p _ (cancel before v after at) w (inr h) = inr h

Reaches-Awaited : (p q : System) → Reaches p q → (w : ℕ) → Awaited p w → Awaited q w
Reaches-Awaited p _ here w h = h
Reaches-Awaited p _ (next {q} steps step) w h =
    Step-Awaited q _ step w (Reaches-Awaited p q steps w h)

-- In every state that the controller and its callers reach, a registered caller has still to send its
-- trigger, or a trigger is queued, or the loop has not begun, or it reconciles and has not yet taken
-- the list, or it has stopped.
pub no_lost_wakeup :
    (s : System) (w : ℕ)
    → Reaches new_system s
    → 0 < occurrences w s.waiters
    → (0 < occurrences w s.sending)
      ⊎ (s.queued ≡ true)
      ⊎ (s.phase ≡ unstarted)
      ⊎ (s.phase ≡ reconciling)
      ⊎ (s.phase ≡ stopped)
unfolding new_system occurrences
no_lost_wakeup s w steps there = elim (Reaches-Awaited new_system s steps w (inl refl)) [
  | inl none_there ↦ absurd (omega (arith, none_there, there))
  | inr served ↦ served
]
