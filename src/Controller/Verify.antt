-- ===== src/Controller/Verify.antt =====
-- The check of the providers' API keys after a cycle (internal/controller/verify.go).
use gcplane.Base.{◌+◌, String, Option, none, some, List, [], ◌∷◌, ◌++◌, ◌==◌, filter, length}
use gcplane.Manifest.Kind.{provider}
use gcplane.Manifest.Resource.{Resource, Manifest}
use gcplane.Controller.Metrics.{Metrics}

-- What `VerifyProvider` returns: nil, an error that is `ErrNotFound`, one that is
-- `ErrUnauthorized`, or another.
pub data Verdict : Type 0 where
  valid not_found : Verdict
  unauthorized other : String → Verdict

-- `ProviderVerifyFailure`
pub record ProviderVerifyFailure : Type 0 where
  pub name : String
  pub error : String

-- The loop over the providers: `none` where it returns early.
unfoldable pub verify_loop :
    (String → Verdict)
    → List ProviderVerifyFailure
    → List Resource
    → Option (List ProviderVerifyFailure)
verify_loop verify failures [] = some failures
verify_loop verify failures (p ∷ ps) = elim (verify p.name) [
  | valid ↦ verify_loop verify failures ps
  | not_found ↦ none
  | unauthorized e ↦ verify_loop verify (failures ++ record { name = p.name; error = e } ∷ []) ps
  | other e ↦ verify_loop verify failures ps
]

-- `ProviderVerifyErrors += len(failures)`, unless there are none.
unfoldable pub report : Option (List ProviderVerifyFailure) → Metrics → Metrics
report none m = m
report (some failures) m = record m {
  provider_verify_errors = m.provider_verify_errors + length failures;
}

-- The verdicts' loop over the manifest's Provider resources.
unfoldable pub failures_of : (String → Verdict) → Manifest → Option (List ProviderVerifyFailure)
unfolding verify_loop
failures_of verify m = verify_loop verify [] (filter (λ r. r.kind == provider) m.resources)

-- `verifyProviders`, for a provider that may lack the method.
unfoldable pub verify_providers : Option (String → Verdict) → Manifest → Metrics → Metrics
unfolding failures_of report
verify_providers none m metrics = metrics
verify_providers (some verify) m metrics = report (failures_of verify m) metrics
