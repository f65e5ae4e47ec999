-- ===== src/Reconciler/Pool.antt =====
-- `executeChanges` at a concurrency above one (internal/reconciler/engine.go): workers of an
-- errgroup with a limit call the provider in any order, and record their outcomes under a lock. A
-- call of the provider is one step.
pub mod Interleavings
use gcplane.Base.{ℕ, ◌+◌, ◌<◌, String, Option, List, [], ◌∷◌, ◌++◌, true, false, length}
use gcplane.Manifest.Resource.{Resource}
use gcplane.Reconciler.Types.{Change, ApplyResult, empty_result, add_result, Provider, Runtime}
use gcplane.Reconciler.Execute.{execute, is_skipped, outcome_result}

-- A change and its resource.
abbrev pub Job : Type 0
Job = Change × Resource

-- The changes that the loop hands to `g.Go`. The source reads `resources[i]` for each change, so
-- that there must be as many resources as changes.
unfoldable pub jobs_of : List Change → List Resource → List Job
unfolding is_skipped
jobs_of (c ∷ cs) (r ∷ rs) = elim (is_skipped c) [
  | true ↦ jobs_of cs rs
  | false ↦ (c, r) ∷ jobs_of cs rs
]
jobs_of cs rs = []

module _ (R : Runtime) (P : Provider) where
  -- The jobs that wait for a worker, those that a worker has, those whose call has returned and is
  -- not recorded, and what all share.
  pub record Pool : Type 0 where
    pub pending : List Job
    pub running : List Job
    pub returned : List (Change × Option String)
    pub result : ApplyResult
    pub state : P.State

  unfoldable pub new_pool : List Change → List Resource → P.State → Pool
  new_pool changes resources s = record {
    pending = jobs_of changes resources;
    running = [];
    returned = [];
    result = empty_result;
    state = s;
  }

  -- One step: a free worker takes the next job, a worker's call returns, or an outcome is recorded.
  pub data Step (limit : ℕ) : Pool → Pool → Type 0 where
    start :
        (j : Job) (js running : List Job) (returned : List (Change × Option String))
        (result : ApplyResult) (s : P.State)
        → length running + length returned < limit
        → Step limit
            (record {
              pending = j ∷ js;
              running = running;
              returned = returned;
              result = result;
              state = s;
            })
            (record {
              pending = js;
              running = j ∷ running;
              returned = returned;
              result = result;
              state = s;
            })
    call :
        (pending before after : List Job) (j : Job) (returned : List (Change × Option String))
        (result : ApplyResult) (s : P.State)
        → Step limit
            (record {
              pending = pending;
              running = before ++ j ∷ after;
              returned = returned;
              result = result;
              state = s;
            })
            (record {
              pending = pending;
              running = before ++ after;
              returned = (j.0, (execute R P s (j.0) (j.1)).0) ∷ returned;
              result = result;
              state = (execute R P s (j.0) (j.1)).1;
            })
    note :
        (pending running : List Job) (before after : List (Change × Option String)) (c : Change)
        (e : Option String) (result : ApplyResult) (s : P.State)
        → Step limit
            (record {
              pending = pending;
              running = running;
              returned = before ++ (c, e) ∷ after;
              result = result;
              state = s;
            })
            (record {
              pending = pending;
              running = running;
              returned = before ++ after;
              result = add_result result (outcome_result c.kind c.name e);
              state = s;
            })

  -- The pools that are reached by steps.
  pub data Reaches (limit : ℕ) (p : Pool) : Pool → Type 0 where
    here : Reaches limit p p
    next : (q r : Pool) → Reaches limit p q → Step limit q r → Reaches limit p r
