-- ===== src/Goclaw/Tenants/Scope.antt =====
-- Which resources a provider of one tenant takes for its own.
use gcplane.Base.{
  String, Bool, true, false, ◌||◌, none, some, ◌==◌, ◌≡◌, refl, inl, inr, Bool-cases,
}
use gcplane.Spec.{Fields}
use gcplane.Goclaw.Io.{Error, Env, State, value}
use gcplane.Goclaw.Helpers.{str_val}
use gcplane.Goclaw.Tenants.{stored_uuid, once_tenant, resolve_tenant_uuid, matches_tenant}

-- A resource without a tenant, or of the tenant with the id.
abbrev pub belongs : String → Fields → Bool
belongs uuid r = str_val r "tenant_id" == "" || str_val r "tenant_id" == uuid

module _ (E : Env) where
  -- A provider that has stored its tenant's id, one whose first resolution failed, and one that has
  -- not asked yet.
  abbrev pub resolved : E.transport.World → String → State E.transport.World
  resolved w uuid = record { world = w; tenant_done = true; tenant_uuid = uuid; tenant_err = none }

  abbrev pub unresolved : E.transport.World → Error → State E.transport.World
  unresolved w e = record { world = w; tenant_done = true; tenant_uuid = ""; tenant_err = some e }

  abbrev pub unasked : E.transport.World → State E.transport.World
  unasked w = record { world = w; tenant_done = false; tenant_uuid = ""; tenant_err = none }

  pub matches_tenant-resolved :
      (w : E.transport.World) (uuid : String) (r : Fields)
      → (E.config.tenant_id == "") ≡ false
      → (uuid == "") ≡ false
      → matches_tenant E r (resolved w uuid) ≡ (value (belongs uuid r), resolved w uuid)
  unfolding matches_tenant resolve_tenant_uuid once_tenant stored_uuid
  matches_tenant-resolved w uuid r scoped some_id =
      elim (Bool-cases (str_val r "tenant_id" == "")) [
        | inl bare ↦ rw (scoped, bare) refl
        | inr owned ↦ rw (scoped, owned, some_id) refl
      ]
