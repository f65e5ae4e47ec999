-- ===== src/Reconciler/Pool/Interleavings.antt =====
-- What holds of the pool in every interleaving.
use gcplane.Base.{ℕ, ◌+◌, ◌&&◌, not, ◌==◌, if◌then◌else◌, List, [], ◌∷◌, ◌≡◌, length}
use gcplane.Manifest.Resource.{Resource}
use gcplane.Reconciler.Types.{Change, ApplyResult, Provider, Runtime, action_eq, noop}
use gcplane.Reconciler.Pool.{Pool}

-- How many changes are neither a noop nor carry an error.
abbrev pub attempted : List Change → ℕ
attempted [] = 0
attempted (c ∷ cs) =
    (if not (action_eq c.action noop) && c.error == "" then 1 else 0) + attempted cs

module _ (R : Runtime) (P : Provider) where
  -- No job is lost or counted twice, and each failure has a line.
  record IsSound (total : ℕ) (p : Pool R P) : Type 0 where
    account :
        p.result.applied + p.result.failed + length p.pending + length p.running + length p.returned
        ≡ total
    lines : length p.result.errors ≡ p.result.failed

  abbrev Recorded : ApplyResult → ApplyResult → Type 0
  Recorded a b =
      (b.applied + b.failed ≡ a.applied + a.failed + 1)
      × (length a.errors ≡ a.failed → length b.errors ≡ b.failed)
