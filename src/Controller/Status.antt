-- ===== src/Controller/Status.antt =====
-- The status tracker (internal/controller/status.go). Times are readings of a clock; a lock makes
-- each method one step.
pub mod Conditions
use gcplane.Base.{
  ℕ, String, Bool, true, false, Option, none, some, List, [], ◌∷◌, ◌==◌, if◌then◌else◌,
}
use gcplane.Manifest.Kind.{ResourceKind}

-- `ConditionType`
pub data ConditionType : Type 0 where
  synced error drifted : ConditionType

unfoldable pub type_eq : ConditionType → ConditionType → Bool
type_eq synced synced = true
type_eq error error = true
type_eq drifted drifted = true
type_eq _ _ = false

pub record Condition : Type 0 where
  pub type : ConditionType
  pub status : String
  pub message : String
  pub last_transition_time : ℕ

pub record ResourceStatus : Type 0 where
  pub kind : ResourceKind
  pub name : String
  pub status : String
  pub message : String

pub record SyncStatus : Type 0 where
  pub last_sync_time : ℕ
  pub last_sync_hash : String
  pub conditions : List Condition
  pub resources : List ResourceStatus

-- A condition as the callers write it, with no time.
abbrev pub condition : ConditionType → String → String → Condition
condition type status message = record {
  type = type;
  status = status;
  message = message;
  last_transition_time = 0;
}

-- The loop of `SetCondition`, with the clock's reading `now`.
unfoldable pub upsert : ℕ → Condition → List Condition → List Condition
upsert now cond [] = record cond { last_transition_time = now } ∷ []
upsert now cond (c ∷ cs) =
    if type_eq c.type cond.type
    then record cond {
      last_transition_time = if c.status == cond.status then c.last_transition_time else now;
    }
      ∷ cs
    else c ∷ upsert now cond cs

-- `SetCondition`
unfoldable pub set_condition : ℕ → Condition → SyncStatus → SyncStatus
unfolding upsert
set_condition now cond s = record s { conditions = upsert now cond s.conditions }

-- `Update` replaces the status, conditions included.
unfoldable pub update : SyncStatus → SyncStatus → SyncStatus
update new s = new

-- The first condition of a type, as the readers look for it.
unfoldable pub find_condition : ConditionType → List Condition → Option Condition
find_condition t [] = none
find_condition t (c ∷ cs) = if type_eq c.type t then some c else find_condition t cs

abbrev pub is_true : Option Condition → Bool
is_true none = false
is_true (some c) = c.status == "True"

-- `IsSynced`
unfoldable pub is_synced : SyncStatus → Bool
unfolding find_condition
is_synced s = is_true (find_condition synced s.conditions)
