-- ===== src/Guard.antt =====
-- EntitlementGuard (services/entitlement_guard.py): what services call. Each call reads the owner's
-- entitlements anew.
pub mod Enforced
use chatfolio_backend.Prelude.{ℕ, ◌+◌, ◌-◌, ◌*◌, Bool, not, Option, none, some, if◌then◌else◌}
use chatfolio_backend.Prelude.Int.{ℤ, pos_part, neg_part}
use chatfolio_backend.Errors.{Result, ok, err, feature_not_in_plan}
use chatfolio_backend.Action.{Action, pure, raise_if, lift, ◌>>=◌, ◌>>◌}
use chatfolio_backend.Catalog.{FeatureKey, unlimited}
use chatfolio_backend.Time.Calendar.{DateTime, instant, day_micros}
use chatfolio_backend.Models.Redis.{Redis}
use chatfolio_backend.World.{World}
use chatfolio_backend.Entitlements.{Entitlements, enabled, is_unlimited, limit}
use chatfolio_backend.Entitlements.Service
use chatfolio_backend.Quota
use chatfolio_backend.Quota.Tally.{add_usage_at, used_at, ensure_open_at, ensure_room}
use chatfolio_backend.Quota.{quota_key}

-- `self._entitlements.get(user_id)`
abbrev pub refreshed : World → Result Entitlements × Redis → Result Entitlements × World
refreshed w (e, r) = (e, record w { redis = r })

unfoldable pub entitled : ℕ → DateTime → Action World Entitlements
entitled user now w = refreshed w (Service.get w.db user now w.redis)

unfoldable pub require_feature : ℕ → FeatureKey → DateTime → Action World Entitlements
require_feature user f now = do
  e ← entitled user now
  raise_if (not (enabled e f)) (feature_not_in_plan f)
  pure e

unfoldable pub guard_consume : ℕ → FeatureKey → ℕ → DateTime → Action World (Unit {0})
guard_consume user f amount now = do
  e ← entitled user now
  _ ← Quota.consume user f e amount now
  pure tt

unfoldable pub guard_release : ℕ → FeatureKey → ℕ → DateTime → Action World (Unit {0})
guard_release user f amount now = do
  e ← entitled user now
  λ w. (ok tt, Quota.release user f e amount now w)

unfoldable pub guard_add_usage : ℕ → FeatureKey → ℕ → DateTime → Action World (Unit {0})
guard_add_usage user f amount now = do
  e ← entitled user now
  λ w. (ok tt, add_usage_at (quota_key user f e now) amount w)

unfoldable pub guard_ensure_open : ℕ → FeatureKey → DateTime → Action World (Unit {0})
guard_ensure_open user f now = do
  e ← entitled user now
  ensure_open_at (quota_key user f e now) (limit e f)

unfoldable pub guard_used : ℕ → FeatureKey → DateTime → Action World ℕ
guard_used user f now = do
  e ← entitled user now
  λ w. let (n, w') = used_at (quota_key user f e now) w in (ok n, w')

-- The lock that makes the count reliable is the session's; requests run one after the other here.
unfoldable pub lock_and_check_room : ℕ → FeatureKey → ℕ → DateTime → Action World (Unit {0})
lock_and_check_room user f current now = do
  e ← entitled user now
  lift (ensure_room f (limit e f) current)

-- The moment of the cutoff, as a number of microseconds; `none` for everything.
unfoldable pub history_cutoff : ℕ → DateTime → Action World (Option ℕ)
history_cutoff user now = do
  e ← entitled user now
  pure (
      if is_unlimited e FeatureKey.chat_history_days
      then none
      else some (
          instant now
          + neg_part (limit e FeatureKey.chat_history_days) * day_micros
          - pos_part (limit e FeatureKey.chat_history_days) * day_micros))
