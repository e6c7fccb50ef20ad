-- ===== src/Quota.antt =====
-- QuotaService (services/quota_service.py): consumption per period, counted in Redis and in
-- `usage_counters`. `now` is read once for an operation.
pub mod Counters
pub mod Exact
pub mod Runs
pub mod Outage
pub mod Bounded
pub mod Tally
pub mod Tallied
use chatfolio_backend.Prelude.{
  ℕ, zero, suc, ◌+◌, ◌-◌, Bool, true, false, ◌&&◌, not, Option, none, some, ◌==◌, leb,
  if◌then◌else◌, get_or, or_else,
}
use chatfolio_backend.Prelude.Int.{ℤ, pos, negsuc, ltb_ℤ, leb_ℤ, eq_ℤ}
use chatfolio_backend.Errors.{Error, Result, ok, err, limit_reached, runtime}
use chatfolio_backend.Action.{Action, pure, raise, raise_if, modify, gets, ◌>>=◌, ◌>>◌}
use chatfolio_backend.Catalog.{FeatureKey, FeatureDef, features_by_key, value, unlimited}
use chatfolio_backend.Time.Calendar.{DateTime}
use chatfolio_backend.Time.Periods.{QuotaPeriod, period_key}
use chatfolio_backend.Models.Billing.{QuotaKey}
use chatfolio_backend.Models.Redis.{Redis, command}
use chatfolio_backend.World.{World}
use chatfolio_backend.Entitlements.{Entitlements}
use chatfolio_backend.Entitlements
use Counters.{find, put, moved}

-- What the consume script answers: -1, 0 with the current total, or 1 with the new one.
pub data Reply : Type 0 where
  missing : Reply
  denied granted : ℕ → Reply

-- `limit >= 0 and cur + amount > limit`
unfoldable pub exceeds : ℤ → ℕ → Bool
exceeds limit total = leb_ℤ (pos 0) limit && ltb_ℤ limit (pos total)

-- `_CONSUME_LUA`
unfoldable pub consume_lua : QuotaKey → ℤ → ℕ → Redis → Reply × Redis
consume_lua k limit amount r = elim (find k r.counters) [
  | none ↦ (missing, r)
  | some cur ↦
      if exceeds limit (cur + amount)
      then (denied cur, r)
      else (granted (cur + amount), record r { counters = put k (cur + amount) r.counters })
]

-- `_RELEASE_LUA`
unfoldable pub release_lua : QuotaKey → ℕ → Redis → ℕ × Redis
release_lua k amount r = elim (find k r.counters) [
  | none ↦ (0, r)
  | some cur ↦ (cur - amount, record r { counters = put k (cur - amount) r.counters })
]

-- A Redis command in a session; a failure raises an exception that is no `LimitReachedError`.
abbrev pub replied : {A : Type 0} → World → Option A × Redis → Result A × World
replied w (none, r) = (err runtime, record w { redis = r })
replied w (some a, r) = (ok a, record w { redis = r })

unfoldable pub send : {A : Type 0} → (Redis → A × Redis) → Action World A
send f w = replied w (command f w.redis)

unfoldable pub db_used : QuotaKey → World → ℕ
db_used k w = get_or 0 (find k w.db.usage)

-- `INSERT ... ON CONFLICT DO UPDATE`
unfoldable pub upsert : QuotaKey → ℤ → World → World
upsert k delta w = record w {
  db = record w.db { usage = put k (moved delta (get_or 0 (find k w.db.usage))) w.db.usage };
}

-- `SET key used NX`
unfoldable pub set_nx : QuotaKey → ℕ → Redis → Unit {0} × Redis
set_nx k used r = elim (find k r.counters) [
  | none ↦ (tt, record r { counters = put k used r.counters })
  | some _ ↦ (tt, r)
]

unfoldable pub seed : QuotaKey → Action World ℕ
seed k = do used ← gets (db_used k); send (set_nx k used); pure used

-- The loop of `_redis_consume`, by the rounds that are left.
unfoldable pub redis_consume_rounds : ℕ → QuotaKey → ℤ → ℕ → Action World ℕ
redis_consume_rounds zero k limit amount = raise runtime
redis_consume_rounds (suc n) k limit amount = do
  reply ← send (consume_lua k limit amount)
  elim reply [
    | granted total ↦ pure total
    | denied cur ↦ raise (limit_reached k.feature limit cur)
    | missing ↦ seed k >>= λ _. redis_consume_rounds n k limit amount
  ]

abbrev pub redis_consume : QuotaKey → ℤ → ℕ → Action World ℕ
redis_consume = redis_consume_rounds 2

-- The path without Redis: the row is created if need be, locked, tested and raised.
unfoldable pub db_consume : QuotaKey → ℤ → ℕ → Action World ℕ
db_consume k limit amount = do
  modify (upsert k (pos 0))
  used ← gets (db_used k)
  raise_if (not (eq_ℤ limit unlimited) && ltb_ℤ limit (pos (used + amount)))
      (limit_reached k.feature limit used)
  modify (upsert k (pos amount))
  pure (used + amount)

-- The handlers of `consume`.
unfoldable pub settle : QuotaKey → ℤ → ℕ → Result ℕ → Action World ℕ
settle k limit amount (ok total) = do modify (upsert k (pos amount)); pure total
settle k limit amount (err (limit_reached f l u)) = raise (limit_reached f l u)
settle k limit amount (err _) = db_consume k limit amount

unfoldable pub consume_at : QuotaKey → ℤ → ℕ → Action World ℕ
consume_at k limit amount w =
    let (outcome, w') = redis_consume k limit amount w in settle k limit amount outcome w'

-- `-amount`
abbrev pub minus : ℕ → ℤ
minus zero = pos 0
minus (suc n) = negsuc n

unfoldable pub release_at : QuotaKey → ℕ → World → World
release_at k amount w = let (_, w') = send (release_lua k amount) w in upsert k (minus amount) w'

-- The period of a feature: the plan's, the catalogue's, or the whole lifetime.
unfoldable pub default_period : FeatureKey → Option QuotaPeriod
default_period f = elim (features_by_key (value f)) [ none ↦ none | some d ↦ d.default_period ]

unfoldable pub quota_period : FeatureKey → Entitlements → QuotaPeriod
unfolding default_period
quota_period f e =
    get_or QuotaPeriod.lifetime (or_else (Entitlements.period e f) (default_period f))

unfoldable pub quota_key : ℕ → FeatureKey → Entitlements → DateTime → QuotaKey
quota_key user f e now = record {
  user = user;
  feature = f;
  period = period_key (quota_period f e) now;
}

unfoldable pub consume : ℕ → FeatureKey → Entitlements → ℕ → DateTime → Action World ℕ
unfolding consume_at
consume user f e amount now = consume_at (quota_key user f e now) (Entitlements.limit e f) amount

unfoldable pub release : ℕ → FeatureKey → Entitlements → ℕ → DateTime → World → World
unfolding release_at
release user f e amount now = release_at (quota_key user f e now) amount
