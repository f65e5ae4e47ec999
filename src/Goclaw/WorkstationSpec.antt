-- ===== src/Goclaw/WorkstationSpec.antt =====
-- What a workstation's calls carry of its spec (internal/provider/goclaw/workstations.go). A map is
-- visited in the order of its fields.
use gcplane.Base.{String, ◌||◌, none, some, List, [], ◌∷◌, contains, if◌then◌else◌}
use gcplane.Spec.{string, object, Fields, end, field, get, put, as_slice}
use gcplane.Manifest.References.{texts_of}

-- `sshMetaKeys`
abbrev ssh_meta_keys : List String
ssh_meta_keys =
    "host" ∷ "port" ∷ "user" ∷ "privateKey" ∷ "knownHostsFingerprint" ∷ "connectTimeoutSec" ∷ []

abbrev skip_keys : List String
skip_keys = "allowlist" ∷ "agents" ∷ "displayName" ∷ "backendType" ∷ "defaultCwd" ∷ []

unfoldable pub extract_string_slice : Fields → String → List String
unfolding get
extract_string_slice spec key = texts_of (as_slice (get spec key))

-- A field of the spec, under a name of the call's, where the spec has it.
unfoldable pub carry : Fields → Fields → String → String → Fields
unfolding get put
carry params spec from to = elim (get spec from) [ none ↦ params | some v ↦ put params to v ]

unfoldable pub meta_of : Fields → Fields → List String → Fields
unfolding carry
meta_of meta spec [] = meta
meta_of meta spec (k ∷ ks) = meta_of (carry meta spec k k) spec ks

-- The metadata, where there is some.
unfoldable pub with_meta : Fields → Fields → Fields
unfolding put
with_meta params end = params
with_meta params (field k v fs) = put params "metadata" (object (field k v fs))

-- The three fields that both calls take over.
unfoldable pub columns : Fields → Fields → Fields
unfolding carry
columns params spec =
    let named = carry params spec "displayName" "name" in
    let backed = carry named spec "backendType" "backendType" in
    carry backed spec "defaultCwd" "defaultCwd"

unfoldable pub build_workstation_create_params : String → Fields → Fields
unfolding columns with_meta meta_of
build_workstation_create_params key spec =
    let params = field "workstationKey" (string key) (field "createdBy" (string "gcplane") end) in
    with_meta (columns params spec) (meta_of end spec ssh_meta_keys)

-- The loop over the fields that are left.
unfoldable pub patch_rest : Fields → Fields → Fields
unfolding contains get put
patch_rest patch end = patch
patch_rest patch (field k v fs) =
    patch_rest
      (if contains skip_keys k || contains ssh_meta_keys k
        then patch
        else elim (get patch k) [ none ↦ put patch k v | some _ ↦ patch ])
      fs

unfoldable pub build_workstation_update_patch : Fields → Fields
unfolding columns with_meta meta_of patch_rest
build_workstation_update_patch spec =
    patch_rest (with_meta (columns end spec) (meta_of end spec ssh_meta_keys)) spec
