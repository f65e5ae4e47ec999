-- ===== src/Reconciler/Prune.antt =====
-- The prune phase (`detectAndExecutePrunes` of internal/reconciler/engine.go).
pub mod Safety
use gcplane.Base.{
  String, Bool, true, false, ◌||◌, not, Option, none, some, List, [], ◌∷◌, ◌++◌, ◌==◌, contains,
  Result, ok, err, if◌then◌else◌,
}
use gcplane.Manifest.Kind.{
  ResourceKind, skill, builtin_tool_config, skill_config, system_config, mcp_credentials,
  secure_cli_grant,
}
use gcplane.Manifest.Order.{delete_order}
use gcplane.Manifest.Resource.{Resource, Manifest}
use gcplane.Reconciler.Types.{
  delete, Change, fresh_change, ApplyResult, empty_result, add_result, ResourceInfo, Provider,
}
use gcplane.Reconciler.Execute.{outcome_result}

-- The kinds that are passed over.
abbrev pub kept_kinds : List ResourceKind
kept_kinds =
    skill ∷ builtin_tool_config ∷ skill_config ∷ system_config ∷ mcp_credentials ∷ secure_cli_grant
    ∷ []

-- `manifestSet[kind][name]`
unfoldable pub declared : List Resource → ResourceKind → String → Bool
declared [] kind name = false
declared (r ∷ rs) kind name =
    (if r.kind == kind then r.name == name else false) || declared rs kind name

-- `remote.CreatedBy != "gcplane"` or the resource is in the manifest.
unfoldable pub is_kept : List Resource → ResourceKind → ResourceInfo → Bool
is_kept resources kind remote =
    not (remote.created_by == "gcplane") || declared resources kind remote.name

abbrev pub delete_change : ResourceKind → String → Change
delete_change kind name = record (fresh_change kind name) { action = delete }

module _ (P : Provider) (resources : List Resource) (dry_run : Bool) where
  -- `Delete`, unless the run is dry.
  unfoldable pub prune_one : P.State → ResourceKind → String → ApplyResult × P.State
  prune_one s kind name =
      if dry_run
      then (empty_result, s)
      else (let call = P.delete s kind name in (outcome_result kind name (call.0), call.1))

  -- The loop over the remote resources of a kind.
  unfoldable pub prune_remotes :
      ResourceKind
      → P.State
      → List Change
      → ApplyResult
      → List ResourceInfo
      → List Change × ApplyResult × P.State
  prune_remotes kind s changes acc [] = (changes, acc, s)
  prune_remotes kind s changes acc (r ∷ rs) = elim (is_kept resources kind r) [
    | true ↦ prune_remotes kind s changes acc rs
    | false ↦
        let call = prune_one s kind r.name in
        prune_remotes kind (call.1) (changes ++ delete_change kind r.name ∷ [])
          (add_result acc (call.0)) rs
  ]

  -- One kind: passed over, or listed; a kind that cannot be listed is passed over too.
  unfoldable pub prune_kind :
      P.State → List Change → ApplyResult → ResourceKind → List Change × ApplyResult × P.State
  prune_kind s changes acc kind =
      if contains kept_kinds kind then (changes, acc, s) else elim (P.list_all s kind) [
        | err e ↦ (changes, acc, s)
        | ok remotes ↦ prune_remotes kind s changes acc remotes
      ]

  -- The loop over the kinds.
  unfoldable pub prune_kinds :
      P.State → List Change → ApplyResult → List ResourceKind → List Change × ApplyResult × P.State
  prune_kinds s changes acc [] = (changes, acc, s)
  prune_kinds s changes acc (kind ∷ kinds) =
      let r = prune_kind s changes acc kind in prune_kinds (r.2) (r.0) (r.1) kinds

  -- `detectAndExecutePrunes`
  unfoldable pub detect_and_execute_prunes : P.State → List Change × ApplyResult × P.State
  unfolding prune_kinds
  detect_and_execute_prunes s = prune_kinds s [] empty_result delete_order
