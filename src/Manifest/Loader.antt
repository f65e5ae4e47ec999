-- ===== src/Manifest/Loader.antt =====
-- Loading a directory of manifests (`loadFile` and `loadDir` of internal/manifest/loader.go).
-- Reading and decoding a file, and the skills that the directory tree declares, are parameters.
pub mod Merge
use Prim.Native.String.{◌++◌ as ◌<>◌}
use gcplane.Base.{
  String, Bool, true, false, ◌&&◌, not, List, [], ◌∷◌, ◌++◌, ◌==◌, Result, ok, err, contains,
  if◌then◌else◌,
}
use gcplane.Manifest.Resource.{Resource, Manifest, Metadata, Connection}
use gcplane.Manifest.Validate.{uid}
use gcplane.Manifest.Composite.{Templates, expand_composites}

-- The defaults for a missing version and kind.
unfoldable pub with_defaults : Manifest → Manifest
with_defaults m = record m {
  api_version = if m.api_version == "" then "gcplane.io/v1" else m.api_version;
  kind = if m.kind == "" then "Manifest" else m.kind;
}

-- What the loop of `loadDir` has collected; `seen` holds the keys.
pub record Merged : Type 0 where
  pub metadata : Metadata
  pub connection : Connection
  pub resources : List Resource
  pub seen : List String

abbrev pub nothing_merged : Merged
nothing_merged = record {
  metadata = record { name = ""; environment = "" };
  connection = record { endpoint = ""; token = ""; tenant_id = ""; user_id = "" };
  resources = [];
  seen = [];
}

-- The loop over the resources of one file, or of the skills: a key that is there is an error.
unfoldable pub add_resources : Merged → List Resource → Result Merged
unfolding uid contains
add_resources acc [] = ok acc
add_resources acc (r ∷ rs) = elim (contains acc.seen (uid r)) [
  | true ↦ err ("duplicate resource " <> uid r)
  | false ↦
      add_resources (record acc { resources = acc.resources ++ r ∷ []; seen = uid r ∷ acc.seen }) rs
]

-- The first file with an endpoint gives the connection, and the first with a name the metadata.
unfoldable pub add_header : Merged → Manifest → Merged
add_header acc m = record acc {
  connection =
      if acc.connection.endpoint == "" && not (m.connection.endpoint == "")
      then m.connection
      else acc.connection;
  metadata =
      if acc.metadata.name == "" && not (m.metadata.name == "") then m.metadata else acc.metadata;
}

abbrev pub merged_manifest : Merged → Manifest
merged_manifest acc = record {
  api_version = "gcplane.io/v1";
  kind = "Manifest";
  metadata = acc.metadata;
  connection = acc.connection;
  resources = acc.resources;
}

module _ (T : Templates) (read : String → Result Manifest) where
  -- `loadFile`, after the file is read and decoded.
  unfoldable pub load_file : String → Result Manifest
  unfolding with_defaults expand_composites
  load_file path = elim (read path) [ err e ↦ err e | ok m ↦ expand_composites T (with_defaults m) ]

  -- The loop over the manifest files of the directory.
  unfoldable pub merge_files : Merged → List String → Result Merged
  unfolding load_file add_header add_resources
  merge_files acc [] = ok acc
  merge_files acc (file ∷ files) = elim (load_file file) [
    | err e ↦ err e
    | ok m ↦ elim (add_resources (add_header acc m) m.resources) [
      | err e ↦ err e
      | ok next ↦ merge_files next files
    ]
  ]

  -- What the directory's files and skills are merged to.
  unfoldable pub merge_dir : List String → Result (List Resource) → Result Merged
  unfolding merge_files add_resources
  merge_dir files skills = elim (merge_files nothing_merged files) [
    | err e ↦ err e
    | ok acc ↦ elim skills [ err e ↦ err e | ok rs ↦ add_resources acc rs ]
  ]

  -- `loadDir`, given the names of the manifest files and what `LoadSkillResources` returns.
  unfoldable pub load_dir : List String → Result (List Resource) → Result Manifest
  unfolding merge_dir expand_composites
  load_dir files skills = elim (merge_dir files skills) [
    | err e ↦ err e
    | ok acc ↦ expand_composites T (merged_manifest acc)
  ]
