-- ===== src/Goclaw/Configs.antt =====
-- Configurations of one tenant (internal/provider/goclaw/builtin_tool_configs.go, skill_configs.go,
-- system_configs.go).
use Prim.Native.String.{◌++◌ as ◌<>◌}
use gcplane.Base.{String, Option, none, some, List, [], ◌∷◌, ◌==◌, if◌then◌else◌}
use gcplane.Base.Text.{replace_all}
use gcplane.Spec.{null, string, bool, Fields, end, field, get, as_string}
use gcplane.Manifest.WriteOnly.{text_or_empty}
use gcplane.Goclaw.Io.{
  plain, wrap, is_not_found, Env, value, failed, Goclaw, pure, fail, ◌>>=◌, ◌>>◌, wrapping,
  of_result, attempt,
}
use gcplane.Goclaw.Http
use gcplane.Goclaw.Helpers.{translate_spec, translate_result, str_val}
use gcplane.Goclaw.Tenants.{get_list}

-- The first resource with a text in a field.
unfoldable pub find_named : String → String → List Fields → Option Fields
unfolding str_val
find_named name key [] = none
find_named name key (r ∷ rs) = if str_val r name == key then some r else find_named name key rs

-- The id of the first resource with a text in a field and an id.
unfoldable pub find_named_id : String → String → List Fields → Option String
unfolding str_val
find_named_id name key [] = none
find_named_id name key (r ∷ rs) =
    let rest = find_named_id name key rs in
    let id = str_val r "id" in
    if str_val r name == key then if id == "" then rest else some id else rest

unfoldable pub tool_name : String → String
unfolding replace_all
tool_name key = replace_all b'-' "_" key

-- What a tool's entry shows of the tenant's override.
unfoldable pub tool_override : Fields → Option Fields
unfolding get
tool_override t = elim (get t "tenant_enabled") [
  | none ↦ none
  | some te ↦ elim (get t "tenant_settings") [
    | none ↦ some (field "enabled" te end)
    | some null ↦ some (field "enabled" te end)
    | some ts ↦ some (field "enabled" te (field "settings" ts end))
  ]
]

module _ (E : Env) where
  unfoldable pub observe_builtin_tool_config : String → Goclaw E (Option Fields)
  unfolding get_list find_named tool_name tool_override
  observe_builtin_tool_config key =
      get_list E "/v1/tools/builtin" "list builtin tools" "parse builtin tools response" "tools"
      >>= λ tools. elim (find_named "name" (tool_name key) tools) [
        | none ↦ pure none
        | some t ↦ pure (tool_override t)
      ]

  abbrev pub tool_path : String → String
  unfolding tool_name
  tool_path key = "/v1/tools/builtin/" <> tool_name key <> "/tenant-config"

  unfoldable pub create_builtin_tool_config : String → Fields → Goclaw E (Unit {0})
  unfolding tool_path translate_spec
  create_builtin_tool_config key spec =
      wrapping ("set builtin tool config " <> key)
        (Http.put_json E (tool_path key) (some (translate_spec E.unicode spec)))
      >> pure tt

  unfoldable pub update_builtin_tool_config : String → Fields → Goclaw E (Unit {0})
  unfolding create_builtin_tool_config
  update_builtin_tool_config key spec = create_builtin_tool_config key spec

  unfoldable pub delete_builtin_tool_config : String → Goclaw E (Unit {0})
  unfolding tool_path
  delete_builtin_tool_config key = Http.delete E (tool_path key)

  -- A skill's entry: no override without the field or with null.
  unfoldable pub skill_override : String → Fields → Goclaw E (Option Fields)
  unfolding get translate_result
  skill_override key s = elim (get s "tenant_enabled") [
    | none ↦ pure none
    | some null ↦ pure none
    | some (bool b) ↦ pure (some (translate_result E.unicode (field "enabled" (bool b) end)))
    | some v ↦ fail (
        plain
          ("skill " <> E.quoted key <> ": tenant_enabled has unexpected type " <> E.type_name v))
  ]

  unfoldable pub observe_skill_config : String → Goclaw E (Option Fields)
  unfolding get_list find_named skill_override
  observe_skill_config key =
      get_list E "/v1/skills" "list skills" "parse skills response" "skills" >>= λ skills.
      elim (find_named "slug" key skills) [ none ↦ pure none | some s ↦ skill_override key s ]

  unfoldable pub resolve_skill_id : String → Goclaw E String
  unfolding get_list find_named_id
  resolve_skill_id slug =
      get_list E "/v1/skills" "list skills" "parse skills response" "skills" >>= λ skills.
      elim (find_named_id "slug" slug skills) [
        | some id ↦ pure id
        | none ↦ fail (plain ("skill " <> E.quoted slug <> " not found"))
      ]

  unfoldable pub create_skill_config : String → Fields → Goclaw E (Unit {0})
  unfolding resolve_skill_id translate_spec
  create_skill_config key spec = resolve_skill_id key >>= λ id.
      wrapping ("set skill config " <> key) (
        Http.put_json E ("/v1/skills/" <> id <> "/tenant-config")
          (some (translate_spec E.unicode spec)))
      >> pure tt

  unfoldable pub update_skill_config : String → Fields → Goclaw E (Unit {0})
  unfolding create_skill_config
  update_skill_config key spec = create_skill_config key spec

  unfoldable pub delete_skill_config : String → Goclaw E (Unit {0})
  unfolding resolve_skill_id
  delete_skill_config key =
      resolve_skill_id key >>= λ id. Http.delete E ("/v1/skills/" <> id <> "/tenant-config")

  unfoldable pub sys_config_path : String → String
  sys_config_path key = "/v1/system-configs/" <> E.path_escape key

  unfoldable pub observe_system_config : String → Goclaw E (Option Fields)
  unfolding sys_config_path is_not_found get
  observe_system_config key = attempt (Http.get E (sys_config_path key)) >>= λ o. elim o [
    | failed e ↦
        if is_not_found e.sentinel
        then pure none
        else fail (wrap ("observe system config " <> E.quoted key) e)
    | value body ↦
        of_result ("parse system config " <> E.quoted key <> " response")
          (E.transport.decode_object body)
        >>= λ config. elim (get config "value") [
          | none ↦ pure (some (field "value" null end))
          | some v ↦ pure (some (field "value" v end))
        ]
  ]

  unfoldable pub update_system_config : String → Fields → Goclaw E (Unit {0})
  unfolding sys_config_path get
  update_system_config key spec =
      wrapping ("update system config " <> E.quoted key) (
        Http.put_json E (sys_config_path key)
          (some (field "value" (string (text_or_empty (as_string (get spec "value")))) end)))
      >> pure tt

  unfoldable pub create_system_config : String → Fields → Goclaw E (Unit {0})
  unfolding update_system_config
  create_system_config key spec = update_system_config key spec

  unfoldable pub delete_system_config : String → Goclaw E (Unit {0})
  unfolding sys_config_path is_not_found
  delete_system_config key = attempt (Http.delete E (sys_config_path key)) >>= λ o. elim o [
    | value _ ↦ pure tt
    | failed e ↦
        if is_not_found e.sentinel
        then pure tt
        else fail (wrap ("delete system config " <> E.quoted key) e)
  ]
