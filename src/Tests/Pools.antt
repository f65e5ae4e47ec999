-- ===== src/Tests/Pools.antt =====
-- The theorems on the worker pool, at a pool with one job.
use gcplane.Base.{[], ◌∷◌}
use gcplane.Manifest.Kind.{agent}
use gcplane.Reconciler.Types.{Change, create, fresh_change, empty_result, add_result}
use gcplane.Reconciler.Execute.{execute, outcome_result}
use gcplane.Reconciler.Pool.{Pool, new_pool}
use gcplane.Tests.Memory.{runtime, memory}
use gcplane.Tests.Engine.{an_agent, rows}

abbrev a_change : Change
a_change = record (fresh_change agent "bot") { action = create }

abbrev fresh_pool : Pool runtime memory
fresh_pool = new_pool runtime memory (a_change ∷ []) (an_agent ∷ []) rows

abbrev busy_pool : Pool runtime memory
busy_pool = record fresh_pool { pending = []; running = (a_change, an_agent) ∷ [] }

abbrev returned_pool : Pool runtime memory
returned_pool = record {
  pending = [];
  running = [];
  returned = (a_change, (execute runtime memory rows a_change an_agent).0) ∷ [];
  result = empty_result;
  state = (execute runtime memory rows a_change an_agent).1;
}

abbrev done_pool : Pool runtime memory
done_pool = record returned_pool {
  returned = [];
  result =
      add_result empty_result
        (outcome_result agent "bot" ((execute runtime memory rows a_change an_agent).0));
}
