-- ===== src/Quota/Tally.antt =====
-- The quotas that are tallied after the fact, and the stock limits: `add_usage`, `used`,
-- `ensure_open` and `ensure_room` (services/quota_service.py).
use chatfolio_backend.Prelude.{
  ℕ, zero, suc, ◌+◌, Bool, true, false, ◌&&◌, not, Option, none, some, if◌then◌else◌, get_or,
  is_none,
}
use chatfolio_backend.Prelude.Int.{ℤ, pos, leb_ℤ, eq_ℤ}
use chatfolio_backend.Errors.{Result, ok, err, limit_reached}
use chatfolio_backend.Action.{Action, pure, raise_if, ◌>>=◌, ◌>>◌}
use chatfolio_backend.Catalog.{FeatureKey, unlimited}
use chatfolio_backend.Models.Billing.{QuotaKey}
use chatfolio_backend.Models.Redis.{Redis}
use chatfolio_backend.World.{World}
use chatfolio_backend.Quota.Counters.{find, put}
use chatfolio_backend.Quota.{send, db_used, seed, upsert}

-- `EXISTS key`
unfoldable pub exists_key : QuotaKey → Redis → Bool × Redis
exists_key k r = (not (is_none (find k r.counters)), r)

-- `INCRBY key amount`
unfoldable pub incr_by : QuotaKey → ℕ → Redis → ℕ × Redis
incr_by k amount r =
    let total = get_or 0 (find k r.counters) + amount in
    (total, record r { counters = put k total r.counters })

abbrev pub seed_unless : Bool → QuotaKey → Action World (Unit {0})
seed_unless true k = pure tt
seed_unless false k = seed k >>= λ _. pure tt

-- The body of the `try`.
unfoldable pub count_in_redis : QuotaKey → ℕ → Action World ℕ
count_in_redis k amount = do
  present ← send (exists_key k)
  seed_unless present k
  send (incr_by k amount)

unfoldable pub add_usage_at : QuotaKey → ℕ → World → World
add_usage_at k zero w = w
add_usage_at k (suc n) w = upsert k (pos (suc n)) (count_in_redis k (suc n) w).1

-- The handler of `used`.
abbrev pub or_db : QuotaKey → Result ℕ × World → ℕ × World
or_db k (ok n, w) = (n, w)
or_db k (err _, w) = (db_used k w, w)

abbrev pub or_seed : QuotaKey → Option ℕ → Action World ℕ
or_seed k none = seed k
or_seed k (some n) = pure n

unfoldable pub used_at : QuotaKey → World → ℕ × World
used_at k w = or_db k ((send (λ r. (find k r.counters, r)) >>= or_seed k) w)

unfoldable pub ensure_open_at : QuotaKey → ℤ → Action World (Unit {0})
ensure_open_at k limit w =
    if eq_ℤ limit unlimited
    then (ok tt, w)
    else (let (used, w') = used_at k w in
        raise_if (leb_ℤ limit (pos used)) (limit_reached k.feature limit used) w')

unfoldable pub ensure_room : FeatureKey → ℤ → ℕ → Result (Unit {0})
ensure_room f limit current =
    if not (eq_ℤ limit unlimited) && leb_ℤ limit (pos current)
    then err (limit_reached f limit current)
    else ok tt
