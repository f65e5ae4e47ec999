-- ===== src/Tui/Ring.antt =====
-- The ring buffers of the terminal interface: the captured log entries
-- (internal/tui/trace/ring_handler.go) and the live logs and events (internal/tui/live_store.go).
-- A lock makes each method one step. A read or a write out of range does nothing here, and a size of
-- zero divides by zero in the source: the theorems are for sizes above zero.
pub mod Window
pub mod Snapshot
use gcplane.Base.{ℕ, zero, suc, ◌+◌, ◌-◌, ◌%◌, List, [], ◌∷◌, ◌++◌, ltb, leb, nat_eq, if◌then◌else◌}

-- `ringCore`, and one of the two rings of `LiveStore`: `pos` counts all entries received.
pub record Ring {ℓ} (A : Type ℓ) : Type ℓ where
  pub entries : List A
  pub size : ℕ
  pub pos : ℕ

module _ {ℓ} {A : Type ℓ} where
  -- `entries[i] = e`
  unfoldable pub set : List A → ℕ → A → List A
  set [] i e = []
  set (x ∷ xs) zero e = e ∷ xs
  set (x ∷ xs) (suc i) e = x ∷ set xs i e

  -- `entries[:n]` and `entries[n:]`
  unfoldable pub take : List A → ℕ → List A
  take xs zero = []
  take [] (suc n) = []
  take (x ∷ xs) (suc n) = x ∷ take xs n

  unfoldable pub drop : List A → ℕ → List A
  drop xs zero = xs
  drop [] (suc n) = []
  drop (x ∷ xs) (suc n) = drop xs n

  -- `make([]Entry, size)`
  unfoldable pub blanks : A → ℕ → List A
  blanks e zero = []
  blanks e (suc n) = e ∷ blanks e n

  -- `NewRingHandler`, given the zero entry.
  unfoldable pub new_handler : A → ℕ → Ring A
  unfolding blanks
  new_handler e size = record { entries = blanks e size; size = size; pos = 0 }

  -- `NewLiveStore`, for one ring.
  unfoldable pub new_store : ℕ → Ring A
  new_store size = record { entries = []; size = size; pos = 0 }

  -- What `Handle` does to the ring.
  unfoldable pub handle : Ring A → A → Ring A
  unfolding set
  handle r e = record r { entries = set r.entries (r.pos % r.size) e; pos = r.pos + 1 }

  -- `appendLog` and `appendEvent`
  unfoldable pub append : Ring A → A → Ring A
  unfolding set
  append r e = record r {
    entries = if ltb r.pos r.size then r.entries ++ e ∷ [] else set r.entries (r.pos % r.size) e;
    pos = r.pos + 1;
  }

  -- `Snapshot`, `logSnapshot` and `evtSnapshot`
  unfoldable pub snapshot : Ring A → List A
  unfolding take drop
  snapshot r =
      if nat_eq r.pos 0
      then []
      else if leb r.pos r.size
      then take r.entries r.pos
      else drop r.entries (r.pos % r.size) ++ take r.entries (r.pos % r.size)

  -- `Count`, `LogCount` and `EventCount`
  unfoldable pub received : Ring A → ℕ
  received r = r.pos

  -- The entries in the order in which they arrive.
  unfoldable pub handle_all : Ring A → List A → Ring A
  unfolding handle
  handle_all r [] = r
  handle_all r (e ∷ es) = handle_all (handle r e) es

  unfoldable pub append_all : Ring A → List A → Ring A
  unfolding append
  append_all r [] = r
  append_all r (e ∷ es) = append_all (append r e) es
