-- ===== src/Controller/Waiters/Places.antt =====
-- Where a caller and its channel can be.
use gcplane.Base.{
  ℕ, ◌+◌, ◌≤◌, true, false, ◌≡◌, refl, ap, ◌∙◌, ◌⊎◌, inl, inr, List, [], ◌∷◌, ◌++◌, nat_eq, arith,
  Bool-cases,
}
use gcplane.Controller.Waiters.{
  notifying, System, occurrences, remove, Step, begin, tick, consume, halt, collect, hand_over,
  rest, arm, fire, register, send, receive, cancel, Reaches, here, next,
}

pub occurrences-append :
    (w : ℕ) (xs ys : List ℕ) → occurrences w (xs ++ ys) ≡ occurrences w xs + occurrences w ys
unfolding occurrences
occurrences-append w [] ys = omega arith
occurrences-append w (x ∷ xs) ys = omega (arith, occurrences-append w xs ys)

pub occurrences-remove_same : (w : ℕ) (xs : List ℕ) → occurrences w (remove w xs) ≡ 0
unfolding occurrences remove
occurrences-remove_same w [] = refl
occurrences-remove_same w (x ∷ xs) = ground (arith, occurrences-remove_same w xs)

pub occurrences-remove_other :
    (v w : ℕ) (xs : List ℕ) → nat_eq v w ≡ false → occurrences v (remove w xs) ≡ occurrences v xs
unfolding occurrences remove
occurrences-remove_other v w [] other = refl
occurrences-remove_other v w (x ∷ xs) other = ground (arith, occurrences-remove_other v w xs)

matches : (v w : ℕ) → nat_eq v w ≡ true → w ≡ v
matches v w same = ground (arith, same)

pub occurrences_inside :
    (v w : ℕ) (xs before after : List ℕ)
    → xs ≡ before ++ (w ∷ after)
    → occurrences v xs ≡ occurrences v (before ++ after) + occurrences v (w ∷ [])
unfolding occurrences
occurrences_inside v w xs before after split =
    ap (occurrences v) split
    ∙ omega (arith, occurrences-append v before (w ∷ after), occurrences-append v before after)

-- A caller that is sending or waiting has its channel in just one place, and a number that no caller
-- has yet stands nowhere.
pub record IsPlaced (waiters pending results sending waiting : List ℕ) (fresh w : ℕ) : Type 0 where
  pub once : occurrences w waiters + occurrences w pending + occurrences w results ≤ 1
  pub kept :
      occurrences w sending + occurrences w waiting
      ≤ occurrences w waiters + occurrences w pending + occurrences w results
  pub unused : fresh ≤ w → occurrences w waiters + occurrences w pending + occurrences w results ≡ 0

abbrev pub Placed : System → ℕ → Type 0
Placed s w = IsPlaced s.waiters s.pending s.results s.sending s.waiting s.fresh w

-- Outside `notifyWaiters` its list is empty.
abbrev pub Settled : System → Type 0
Settled s = (s.phase ≡ notifying) ⊎ (s.pending ≡ [])

quiet : (s : System) → Settled s → (s.phase ≡ notifying → ⊥) → s.pending ≡ []
quiet s (inl at) other = absurd (other at)
quiet s (inr none_left) other = none_left

pub Step-Settled : (p q : System) → Step p q → Settled p → Settled q
Step-Settled p _ (begin at) h = inr (quiet p h (λ e. cc))
Step-Settled p _ (tick at) h = inr (quiet p h (λ e. cc))
Step-Settled p _ (consume at token) h = inr (quiet p h (λ e. cc))
Step-Settled p _ (halt at) h = inr (quiet p h (λ e. cc))
Step-Settled p _ (collect at) h = inl refl
Step-Settled p _ (hand_over v others at front room) h = inl at
Step-Settled p _ (rest at none_left) h = inr none_left
Step-Settled p _ arm h = h
Step-Settled p _ (fire ready) h = h
Step-Settled p _ register h = h
Step-Settled p _ (send before v after at) h = h
Step-Settled p _ (receive before earlier v after later at result) h = h
Step-Settled p _ (cancel before v after at) h = h

pub Step-Placed : (p q : System) → Step p q → Settled p → (w : ℕ) → Placed p w → Placed q w
unfolding occurrences
Step-Placed p _ (begin at) c w h = h
Step-Placed p _ (tick at) c w h = h
Step-Placed p _ (consume at token) c w h = h
Step-Placed p _ (halt at) c w h = h
Step-Placed p _ (collect at) c w h =
    let none_left = ap (occurrences w) (quiet p c (λ e. cc)) in
    record {
      once = omega (arith, h.once, none_left);
      kept = omega (arith, h.kept, none_left);
      unused = λ new. omega (arith, h.unused new, none_left);
    }
Step-Placed p _ (hand_over v others at front room) c w h =
    let moved = ap (occurrences w) front in
    record {
      once = omega (arith, h.once, moved);
      kept = omega (arith, h.kept, moved);
      unused = λ new. omega (arith, h.unused new, moved);
    }
Step-Placed p _ (rest at none_left) c w h = h
Step-Placed p _ arm c w h = h
Step-Placed p _ (fire ready) c w h = h
Step-Placed p _ register c w h =
    let grown = occurrences-append w p.waiters (p.fresh ∷ []) in
    record {
      once = ground (arith, h.once, h.unused, grown);
      kept = omega (arith, h.kept, grown);
      unused = λ new. ground (arith, h.unused (omega (arith, new)), grown);
    }
Step-Placed p _ (send before v after at) c w h = record {
  once = h.once;
  kept = omega (arith, h.kept, occurrences_inside w v p.sending before after at);
  unused = h.unused;
}
Step-Placed p _ (receive before earlier v after later at result) c w h =
    let moved = occurrences_inside w v p.waiting before after at in
    let taken = occurrences_inside w v p.results earlier later result in
    record {
      once = omega (arith, h.once, taken);
      kept = omega (arith, h.kept, moved, taken);
      unused = λ new. omega (arith, h.unused new, taken);
    }
Step-Placed p _ (cancel before v after at) c w h =
    let moved = occurrences_inside w v p.waiting before after at in
    elim (Bool-cases (nat_eq w v)) [
      | inl same ↦
          let gone =
            ap (λ i. occurrences w (remove i p.waiters)) (matches w v same)
            ∙ occurrences-remove_same w p.waiters in
          record {
            once = omega (arith, h.once, gone);
            kept = ground (arith, h.once, h.kept, moved, gone, same);
            unused = λ new. omega (arith, h.unused new, gone);
          }
      | inr other ↦
          let stays = occurrences-remove_other w v p.waiters other in
          record {
            once = omega (arith, h.once, stays);
            kept = omega (arith, h.kept, moved, stays);
            unused = λ new. omega (arith, h.unused new, stays);
          }
    ]

pub Reaches-Settled : (p q : System) → Reaches p q → Settled p → Settled q
Reaches-Settled p _ here h = h
Reaches-Settled p _ (next {q} steps step) h = Step-Settled q _ step (Reaches-Settled p q steps h)

pub Reaches-Placed : (p q : System) → Reaches p q → Settled p → (w : ℕ) → Placed p w → Placed q w
Reaches-Placed p _ here c w h = h
Reaches-Placed p _ (next {q} steps step) c w h =
    Step-Placed q _ step (Reaches-Settled p q steps c) w (Reaches-Placed p q steps c w h)
