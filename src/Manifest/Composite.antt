-- ===== src/Manifest/Composite.antt =====
-- Composite definitions and their instances (internal/manifest/composite.go). The template engine
-- and the YAML codec are parameters.
pub mod Expansion
use Prim.Native.String.{◌++◌ as ◌<>◌}
use gcplane.Base.{
  String, Bool, true, false, Option, none, some, List, [], ◌∷◌, ◌++◌, ◌==◌, Result, ok, err,
  if◌then◌else◌,
}
use gcplane.Base.Dict
use gcplane.Base.Dict.{Dict}
use gcplane.Spec
use gcplane.Spec.{
  Value, string, object, Items, nil, item, Fields, end, field, get, as_string, as_object, as_slice,
}
use gcplane.Manifest.Kind.{ResourceKind}
use gcplane.Manifest.Resource.{Resource, Manifest, spec_fields}
use gcplane.Manifest.WriteOnly.{text_or_empty}

-- `renderTemplate`, `yaml.Marshal` and `yaml.Unmarshal`.
pub record Templates : Type 0 where
  pub render : String → Fields → Result String
  pub marshal : Option Fields → Result String
  pub unmarshal : String → Result (Option Fields)

-- `compositeDefinition`; the registry's key is the definition's name.
pub record CompositeDefinition : Type 0 where
  pub name : String
  pub templates : List Resource

abbrev pub composite_definition : ResourceKind
composite_definition = "CompositeDefinition"

-- A resource as `parseDefinition` reads it: missing texts are empty, and a missing spec is nil.
unfoldable pub template_of : Fields → Resource
unfolding get
template_of fs = record {
  kind = text_or_empty (as_string (get fs "kind"));
  name = text_or_empty (as_string (get fs "name"));
  labels = [];
  annotations = [];
  spec = as_object (get fs "spec");
}

-- The loop of `parseDefinition`. The error's text leaves the index out.
unfoldable pub parse_templates : String → Items → Result (List Resource)
unfolding template_of
parse_templates name nil = ok []
parse_templates name (item (object fs) xs) = elim (parse_templates name xs) [
  | ok rest ↦ ok (template_of fs ∷ rest)
  | err e ↦ err e
]
parse_templates name (item v xs) =
    err ("CompositeDefinition " <> name <> ": a resource must be a map")

abbrev definition_of : String → Result (List Resource) → Result CompositeDefinition
definition_of name (ok templates) = ok (record { name = name; templates = templates })
definition_of name (err e) = err e

-- `parseDefinition`
unfoldable pub parse_definition : Resource → Result CompositeDefinition
unfolding parse_templates get
parse_definition r = elim (as_slice (get (spec_fields r.spec) "resources")) [
  | none ↦ err ("CompositeDefinition " <> r.name <> ": spec.resources must be an array")
  | some xs ↦ definition_of r.name (parse_templates r.name xs)
]

abbrev pub Registry : Type 0
Registry = Dict CompositeDefinition

-- The loop of `extractDefinitions`, with what it has collected.
unfoldable pub extract_from :
    Registry → List Resource → List Resource → Result (Registry × List Resource)
unfolding parse_definition
extract_from registry remaining [] = ok (registry, remaining)
extract_from registry remaining (r ∷ rs) = elim (r.kind == composite_definition) [
  | false ↦ extract_from registry (remaining ++ r ∷ []) rs
  | true ↦ elim (parse_definition r) [
    | err e ↦ err e
    | ok def ↦ extract_from (Dict.put registry r.name def) remaining rs
  ]
]

-- `extractDefinitions`
unfoldable pub extract_definitions : List Resource → Result (Registry × List Resource)
unfolding extract_from
extract_definitions resources = extract_from [] [] resources

-- The loop of `buildContext`: the spec's fields, over a field `name`.
unfoldable pub put_all : Fields → Fields → Fields
unfolding Spec.put
put_all ctx end = ctx
put_all ctx (field k v fs) = put_all (Spec.put ctx k v) fs

-- `buildContext`
unfoldable pub build_context : Resource → Fields
unfolding put_all
build_context r = put_all (field "name" (string r.name) end) (spec_fields r.spec)

module _ (T : Templates) where
  unfoldable pub expand_spec : Option Fields → Fields → Result (Option Fields)
  expand_spec spec ctx = elim (T.marshal spec) [
    | err e ↦ err ("marshal spec: " <> e)
    | ok text ↦ elim (T.render text ctx) [
      | err e ↦ err ("expand spec: " <> e)
      | ok expanded ↦ elim (T.unmarshal expanded) [
        | err e ↦ err ("unmarshal expanded spec: " <> e)
        | ok out ↦ ok out
      ]
    ]
  ]

  -- `expandResource`
  unfoldable pub expand_resource : Resource → Fields → Result Resource
  unfolding expand_spec
  expand_resource tmpl ctx = elim (T.render tmpl.name ctx) [
    | err e ↦ err ("expand name: " <> e)
    | ok name ↦ elim (expand_spec tmpl.spec ctx) [
      | err e ↦ err e
      | ok spec ↦
          ok (record { kind = tmpl.kind; name = name; labels = []; annotations = []; spec = spec })
    ]
  ]

  abbrev pub labelled : Resource → Resource → Resource
  labelled r res = record res { labels = r.labels }

  -- The inner loop: the templates of one instance. A nil and an empty label map are the same.
  unfoldable pub expand_templates : String → Resource → List Resource → Result (List Resource)
  unfolding expand_resource build_context
  expand_templates def r [] = ok []
  expand_templates def r (tmpl ∷ tmpls) = elim (expand_resource tmpl (build_context r)) [
    | err e ↦ err ("expand " <> def <> "/" <> r.name <> ": " <> e)
    | ok res ↦ elim (expand_templates def r tmpls) [
      | err e ↦ err e
      | ok rest ↦ ok (labelled r res ∷ rest)
    ]
  ]

  -- What one resource is replaced by.
  unfoldable pub expand_instance : Registry → Resource → Result (List Resource)
  unfolding expand_templates Dict.get
  expand_instance registry r = elim (Dict.get registry r.kind) [
    | none ↦ ok (r ∷ [])
    | some def ↦ expand_templates def.name r def.templates
  ]

  -- `expandInstances`
  unfoldable pub expand_instances : List Resource → Registry → Result (List Resource)
  unfolding expand_instance
  expand_instances [] registry = ok []
  expand_instances (r ∷ rs) registry = elim (expand_instance registry r) [
    | err e ↦ err e
    | ok some_of ↦ elim (expand_instances rs registry) [
      | err e ↦ err e
      | ok rest ↦ ok (some_of ++ rest)
    ]
  ]

  abbrev pub with_resources : Manifest → Result (List Resource) → Result Manifest
  with_resources m (ok resources) = ok (record m { resources = resources })
  with_resources m (err e) = err e

  unfoldable pub expand_with : Manifest → Result (Registry × List Resource) → Result Manifest
  unfolding expand_instances
  expand_with m (err e) = err e
  expand_with m (ok ([], remaining)) = ok m
  expand_with m (ok (d ∷ ds, remaining)) = with_resources m (expand_instances remaining (d ∷ ds))

  -- `ExpandComposites`, which returns the manifest that it leaves.
  unfoldable pub expand_composites : Manifest → Result Manifest
  unfolding extract_definitions
  expand_composites m = expand_with m (extract_definitions m.resources)
