-- ===== src/Tests/Loading.antt =====
-- The theorems on composites and on loading, at concrete data.
use mathlib.Core.Path.{subst}
use gcplane.Base.{String, true, ◌≡◌, refl, sym, ◌∙◌, none, some, [], ◌∷◌, Result, ok, err, List}
use gcplane.Base.Dict
use gcplane.Spec.{end, field, string, slice, nil, item, object, get}
use gcplane.Manifest.Kind.{agent, skill}
use gcplane.Manifest.Resource.{Resource, Manifest}
use gcplane.Manifest.Composite.{
  Templates, Registry, composite_definition, extract_definitions, expand_composites, extract_from,
  parse_definition, parse_templates, template_of, expand_instances, expand_instance,
  expand_templates, expand_resource, expand_spec, expand_with,
}
use gcplane.Manifest.Composite.Expansion.{is_plain, expand_composites_twice}
use gcplane.Manifest.Loader.{
  load_dir, merge_dir, merge_files, load_file, with_defaults, add_header, add_resources,
}
use gcplane.Manifest.Loader.Merge.{MakesNone, load_dir_distinct}
use gcplane.Manifest.Validate.{uid}
use gcplane.Manifest.Validate.Acceptance.{are_distinct}
use gcplane.Base.{contains}
use gcplane.Tests.Engine.{manifest}

-- Templates with nothing to substitute.
abbrev templates : Templates
templates = record {
  render = λ text ctx. ok text;
  marshal = λ spec. ok "";
  unmarshal = λ text. ok (some end);
}

abbrev chat_bot : Resource
chat_bot = record {
  kind = composite_definition;
  name = "ChatBot";
  labels = [];
  annotations = [];
  spec = some (
      field "resources"
        (slice (item (object (field "kind" (string agent) (field "name" (string "bot") end))) nil))
        end);
}

abbrev a_bot : Resource
a_bot = record {
  kind = "ChatBot";
  name = "first";
  labels = ("team", "core") ∷ [];
  annotations = [];
  spec = none;
}

abbrev bots : Manifest
bots = record manifest { resources = a_bot ∷ chat_bot ∷ [] }

abbrev made : Resource
made = record {
  kind = agent;
  name = "bot";
  labels = ("team", "core") ∷ [];
  annotations = [];
  spec = some end;
}

abbrev agent_template : Resource
agent_template = record made { labels = []; spec = none }

abbrev bot_registry : Registry
bot_registry = ("ChatBot", record { name = "ChatBot"; templates = agent_template ∷ [] }) ∷ []

extracted : extract_definitions bots.resources ≡ ok (bot_registry, a_bot ∷ [])
unfolding extract_definitions extract_from parse_definition parse_templates template_of get Dict.put
extracted = refl

expanded : expand_composites templates bots ≡ ok (record bots { resources = made ∷ [] })
unfolding expand_composites expand_with extract_definitions extract_from parse_definition
    parse_templates template_of get Dict.put Dict.get expand_instances expand_instance
    expand_templates expand_resource expand_spec
expanded = refl

expand_composites_twice_example :
    expand_composites templates (record bots { resources = made ∷ [] })
    ≡ ok (record bots { resources = made ∷ [] })
expand_composites_twice_example = expand_composites_twice templates bots extracted refl expanded

-- One file with the definition and its instance, and a directory with a skill.
abbrev read : String → Result Manifest
read path = ok bots

abbrev a_skill : Resource
a_skill = record { kind = skill; name = "notes"; labels = []; annotations = []; spec = none }

abbrev loaded : Manifest
loaded = record {
  api_version = "gcplane.io/v1";
  kind = "Manifest";
  metadata = bots.metadata;
  connection = bots.connection;
  resources = made ∷ a_skill ∷ [];
}

loads : load_dir templates read ("a.yaml" ∷ []) (ok (a_skill ∷ [])) ≡ ok loaded
unfolding load_dir merge_dir merge_files load_file with_defaults add_header add_resources
    expand_composites expand_with extract_definitions extract_from parse_definition parse_templates
    template_of get Dict.put Dict.get expand_instances expand_instance expand_templates
    expand_resource expand_spec uid contains
loads = refl

abbrev PlainResult : Result (Registry × List Resource) → Type 0
PlainResult (ok (registry, remaining)) = is_plain registry ≡ true
PlainResult (err e) = Unit

bots-MakesNone : MakesNone bots
bots-MakesNone registry remaining found = subst PlainResult (sym extracted ∙ found) refl

read-MakesNone : (file : Manifest) → read "a.yaml" ≡ ok file → MakesNone file
read-MakesNone file found = let same : bots ≡ file = cc in subst MakesNone same bots-MakesNone

load_dir_distinct_example : are_distinct loaded.resources ≡ true
load_dir_distinct_example =
    load_dir_distinct templates read ("a.yaml" ∷ []) (a_skill ∷ []) (read-MakesNone, tt) refl loads
