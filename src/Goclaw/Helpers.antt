-- ===== src/Goclaw/Helpers.antt =====
-- Reading and cleaning the maps of GoClaw's answers (internal/provider/goclaw/helpers.go).
pub mod Stripping
use gcplane.Base.{String, Bool, true, false, Option, none, some, List, [], ◌∷◌, ◌==◌, if◌then◌else◌}
use gcplane.Spec.{Value, string, bool, Fields, end, field, get, as_string}
use gcplane.Keyconv.{Unicode, camel_to_snake, snake_to_camel}
use gcplane.Manifest.WriteOnly.{text_or_empty}

unfoldable pub translate_spec : Unicode → Fields → Fields
unfolding camel_to_snake
translate_spec U spec = camel_to_snake U spec

unfoldable pub translate_result : Unicode → Fields → Fields
unfolding snake_to_camel
translate_result U result = snake_to_camel U result

-- `delete(m, key)`
unfoldable pub without : Fields → String → Fields
without end k = end
without (field j v fs) k = let rest = without fs k in if j == k then rest else field j v rest

unfoldable pub without_all : Fields → List String → Fields
unfolding without
without_all fs [] = fs
without_all fs (k ∷ ks) = without_all (without fs k) ks

abbrev pub internal_fields : List String
internal_fields =
    "created_at" ∷ "updated_at" ∷ "created_by" ∷ "owner_id" ∷ "tenant_id" ∷ "tenant_name"
    ∷ "tenant_slug" ∷ "restrict_to_workspace" ∷ "workspace" ∷ "tools_config" ∷ "sandbox_config"
    ∷ "subagents_config" ∷ "memory_config" ∷ "compaction_config" ∷ "context_pruning"
    ∷ "other_config" ∷ "reasoning_config" ∷ "workspace_sharing" ∷ "chatgpt_oauth_routing"
    ∷ "shell_deny_groups" ∷ "kg_dedup_config" ∷ "frontmatter" ∷ "agent_count" ∷ "has_credentials"
    ∷ "credentials" ∷ "file_path" ∷ "file_size" ∷ "file_hash" ∷ "path" ∷ "baseDir" ∷ "source"
    ∷ "missing_deps" ∷ "deps" ∷ "is_system" ∷ "author" ∷ "tenant_enabled" ∷ []

unfoldable pub strip_internal : Fields → Fields
unfolding without_all
strip_internal m = without_all m internal_fields

unfoldable pub str_val : Fields → String → String
unfolding get
str_val m key = text_or_empty (as_string (get m key))

unfoldable pub bool_val : Fields → String → Bool
unfolding get
bool_val m key = elim (get m key) [ some (bool b) ↦ b | _ ↦ false ]
