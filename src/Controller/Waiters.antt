-- ===== src/Controller/Waiters.antt =====
-- The callers that wait for a cycle's result, and the loop that serves them
-- (internal/controller/controller.go): `Run`, `Trigger`, `TriggerAndWait` and `notifyWaiters`
-- as steps that interleave. What the lock guards is one step; a cycle itself is in Controller/Cycle.
pub mod Places
pub mod Wakeups
pub mod Delivery
use gcplane.Base.{ℕ, suc, ◌+◌, Bool, true, false, ◌≡◌, List, [], ◌∷◌, ◌++◌, nat_eq, if◌then◌else◌}

-- Where the goroutine of `Run` stands: before it, in its `select`, in `reconcileOnce` before and
-- after `notifyWaiters` takes the list, and after it.
pub data Phase : Type 0 where
  unstarted idle reconciling notifying stopped : Phase

-- A caller's number stands for it and for its channel, which holds at most one result.
pub record System : Type 0 where
  pub phase : Phase
  -- a token in `triggerCh`, whose capacity is one
  pub queued : Bool
  -- a debounce timer that runs
  pub armed : Bool
  -- `c.waiters`
  pub waiters : List ℕ
  -- the list that `notifyWaiters` took, as far as it is not served
  pub pending : List ℕ
  -- the channels that hold a result
  pub results : List ℕ
  -- the callers that have registered and not yet sent the trigger
  pub sending : List ℕ
  -- the callers in the last `select`
  pub waiting : List ℕ
  -- the number of the next caller
  pub fresh : ℕ

-- `New`
unfoldable pub new_system : System
new_system = record {
  phase = unstarted;
  queued = false;
  armed = false;
  waiters = [];
  pending = [];
  results = [];
  sending = [];
  waiting = [];
  fresh = 0;
}

-- How often a caller stands in a list.
unfoldable pub occurrences : ℕ → List ℕ → ℕ
occurrences w [] = 0
occurrences w (x ∷ xs) = (if nat_eq w x then 1 else 0) + occurrences w xs

-- The loop that filters an orphaned waiter.
unfoldable pub remove : ℕ → List ℕ → List ℕ
remove w [] = []
remove w (x ∷ xs) = let rest = remove w xs in if nat_eq w x then rest else x ∷ rest

pub data Step (s : System) : System → Type 0 where
  -- `Run` begins with a cycle.
  begin : s.phase ≡ unstarted → Step s (record s { phase = reconciling })
  -- The interval's ticker.
  tick : s.phase ≡ idle → Step s (record s { phase = reconciling })
  -- `case <-c.triggerCh`
  consume :
      s.phase ≡ idle → s.queued ≡ true → Step s (record s { phase = reconciling; queued = false })
  -- `case <-done`
  halt : s.phase ≡ idle → Step s (record s { phase = stopped })
  -- `notifyWaiters` takes the list.
  collect :
      s.phase ≡ reconciling
      → Step s (record s { phase = notifying; waiters = []; pending = s.waiters })
  -- `ch <- result`, which waits for room in the channel.
  hand_over :
      (w : ℕ) (rest : List ℕ)
      → s.phase ≡ notifying
      → s.pending ≡ w ∷ rest
      → occurrences w s.results ≡ 0
      → Step s (record s { pending = rest; results = w ∷ s.results })
  -- The cycle returns to the `select`.
  rest : s.phase ≡ notifying → s.pending ≡ [] → Step s (record s { phase = idle })
  -- `Trigger`, and its timer's function.
  arm : Step s (record s { armed = true })
  fire : s.armed ≡ true → Step s (record s { armed = false; queued = true })
  -- `TriggerAndWait`: registers, sends the trigger unless one is queued, and returns with its
  -- result or when its context ends.
  register : Step s (record s {
    waiters = s.waiters ++ s.fresh ∷ [];
    sending = s.fresh ∷ s.sending;
    fresh = suc s.fresh;
  })
  send :
      (before : List ℕ) (w : ℕ) (after : List ℕ)
      → s.sending ≡ before ++ w ∷ after
      → Step s (record s { queued = true; sending = before ++ after; waiting = w ∷ s.waiting })
  receive :
      (before earlier : List ℕ) (w : ℕ) (after later : List ℕ)
      → s.waiting ≡ before ++ w ∷ after
      → s.results ≡ earlier ++ w ∷ later
      → Step s (record s { waiting = before ++ after; results = earlier ++ later })
  cancel :
      (before : List ℕ) (w : ℕ) (after : List ℕ)
      → s.waiting ≡ before ++ w ∷ after
      → Step s (record s { waiting = before ++ after; waiters = remove w s.waiters })

pub data Reaches : System → System → Type 0 where
  here : {s : System} → Reaches s s
  next : {p q r : System} → Reaches p q → Step q r → Reaches p r

-- The steps that the loop's goroutine makes when nothing but its trigger and its callers' list ask
-- for it: no ticker, no debounce timer, and no step of a caller.
unfoldable pub own : {p q : System} → Step p q → Bool
own (begin _) = true
own (consume _ _) = true
own (collect _) = true
own (hand_over _ _ _ _ _) = true
own (rest _ _) = true
own _ = false

pub data OwnRun : System → System → Type 0 where
  stop : {s : System} → OwnRun s s
  go : {p q r : System} (step : Step p q) → own step ≡ true → OwnRun q r → OwnRun p r
