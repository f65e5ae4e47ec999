-- ===== src/Manifest/Resource.antt =====
-- The manifest's records (internal/manifest/types.go). A nil spec is `none`; reading it is reading
-- an empty map.
use gcplane.Base.{String, Option, none, some, List}
use gcplane.Base.Dict.{Dict}
use gcplane.Spec.{Fields, end}
use gcplane.Manifest.Kind.{ResourceKind}

pub record Metadata : Type 0 where
  pub name : String
  pub environment : String

pub record Connection : Type 0 where
  pub endpoint : String
  pub token : String
  pub tenant_id : String
  pub user_id : String

pub record Resource : Type 0 where
  pub kind : ResourceKind
  pub name : String
  pub labels : Dict String
  pub annotations : Dict String
  pub spec : Option Fields

pub record Manifest : Type 0 where
  pub api_version : String
  pub kind : String
  pub metadata : Metadata
  pub connection : Connection
  pub resources : List Resource

-- What a read or a `range` of a possibly nil map sees.
abbrev pub spec_fields : Option Fields → Fields
spec_fields none = end
spec_fields (some fs) = fs
