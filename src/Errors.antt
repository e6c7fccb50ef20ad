-- ===== src/Errors.antt =====
-- core/exceptions.py: the errors that services raise, and how a request ends. A message that the
-- program writes out is kept; the default messages of the classes are not.
use chatfolio_backend.Prelude.{ℕ, String, Option, none, some}
use chatfolio_backend.Prelude.Int.{ℤ}
use chatfolio_backend.Catalog.{FeatureKey}

pub data Error : Type 0 where
  not_found conflict unauthorized forbidden validation_failed : String → Error
  service_unavailable too_many_requests : String → Error
  feature_not_in_plan : FeatureKey → Error
  limit_reached : FeatureKey → ℤ → ℕ → Error
  chat_unavailable model_not_allowed phone_verification_required : Error
  -- Not the program's own: a database constraint, and any other exception of Python's.
  integrity runtime : Error

-- The status of the response; the last two are no `ChatfolioError`, and end as a plain 500.
pub status_code : Error → ℕ
status_code (not_found _) = 404
status_code (conflict _) = 409
status_code (unauthorized _) = 401
status_code (forbidden _) = 403
status_code (feature_not_in_plan _) = 403
status_code (limit_reached _ _ _) = 403
status_code chat_unavailable = 403
status_code model_not_allowed = 403
status_code phone_verification_required = 403
status_code (validation_failed _) = 422
status_code (service_unavailable _) = 503
status_code (too_many_requests _) = 429
status_code integrity = 500
status_code runtime = 500

-- The machine-readable code of the response.
pub code : Error → Option String
code (feature_not_in_plan _) = some "FEATURE_NOT_IN_PLAN"
code (limit_reached _ _ _) = some "LIMIT_REACHED"
code chat_unavailable = some "CHAT_UNAVAILABLE"
code model_not_allowed = some "MODEL_NOT_ALLOWED"
code phone_verification_required = some "PHONE_VERIFICATION_REQUIRED"
code _ = none

pub data Result {ℓ} (A : Type ℓ) : Type ℓ where
  ok : A → Result A
  err : Error → Result A
