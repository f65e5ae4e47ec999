-- ===== src/Reconciler/Types.antt =====
-- The engine's records (internal/reconciler/types.go) and the interface of a provider
-- (`ProviderInterface` of internal/reconciler/engine.go).
use gcplane.Base.{ℕ, ◌+◌, String, Bool, true, false, Option, List, [], Result, ◌++◌}
use gcplane.Base.Dict.{Dict}
use gcplane.Spec.{Fields}
use gcplane.Manifest.Kind.{ResourceKind}
use gcplane.Reconciler.Compare.{Floats, FieldDiff}
use gcplane.Reconciler.WriteOnlyHash.{Digest}

-- `Action`; `unset` is the empty text of a fresh `Change`.
pub data Action : Type 0 where
  unset create update noop delete : Action

unfoldable pub action_eq : Action → Action → Bool
action_eq unset unset = true
action_eq create create = true
action_eq update update = true
action_eq noop noop = true
action_eq delete delete = true
action_eq _ _ = false

-- `Change`; an empty `error` is no error.
pub record Change : Type 0 where
  pub kind : ResourceKind
  pub name : String
  pub action : Action
  pub diff : Dict FieldDiff
  pub error : String
  pub forced : Bool
  pub write_only_hash : String

-- A `Change` with its other fields at their zero values.
abbrev pub fresh_change : ResourceKind → String → Change
fresh_change kind name = record {
  kind = kind;
  name = name;
  action = unset;
  diff = [];
  error = "";
  forced = false;
  write_only_hash = "";
}

pub record Plan : Type 0 where
  pub changes : List Change
  pub creates : ℕ
  pub updates : ℕ
  pub deletes : ℕ
  pub noops : ℕ
  pub errors : List String

abbrev pub empty_plan : Plan
empty_plan = record { changes = []; creates = 0; updates = 0; deletes = 0; noops = 0; errors = [] }

pub record ReconcileOpts : Type 0 where
  pub dry_run : Bool
  pub prune : Bool
  pub force : Bool

pub record ApplyResult : Type 0 where
  pub applied : ℕ
  pub failed : ℕ
  pub errors : List String

abbrev pub empty_result : ApplyResult
empty_result = record { applied = 0; failed = 0; errors = [] }

-- `result.Applied += …`, `result.Failed += …`, `result.Errors = append(…)`
abbrev pub add_result : ApplyResult → ApplyResult → ApplyResult
add_result a b = record {
  applied = a.applied + b.applied;
  failed = a.failed + b.failed;
  errors = a.errors ++ b.errors;
}

pub record ResourceInfo : Type 0 where
  pub kind : ResourceKind
  pub name : String
  pub created_by : String
  pub source : String
  pub is_system : Bool

-- `ProviderInterface`, over the provider's state. `observe` and `list_all` only read; a call that
-- writes returns `none` for a nil error, and leaves some state after an error too.
pub record Provider : Type 1 where
  pub State : Type 0
  pub observe : State → ResourceKind → String → Result (Option Fields)
  pub create : State → ResourceKind → String → Fields → Option String × State
  pub update : State → ResourceKind → String → Fields → Option String × State
  pub delete : State → ResourceKind → String → Option String × State
  pub list_all : State → ResourceKind → Result (List ResourceInfo)

-- What the engine takes from outside its package: `secrets.Resolve` in the process's environment,
-- the digest and the float arithmetic.
pub record Runtime : Type 0 where
  pub resolve : String → Result String
  pub digest : Digest
  pub floats : Floats
