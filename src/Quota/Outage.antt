-- ===== src/Quota/Outage.antt =====
-- What an outage leaves behind: the fallback counts in the table only, so a Redis counter that
-- survives the outage is behind, and the units counted meanwhile are granted once more.
use chatfolio_backend.Prelude.{ℕ, ◌+◌, ◌≤◌, ◌≡◌, refl, ap, true, some, [], ◌∷◌, arith}
use chatfolio_backend.Prelude.Int.{pos}
use chatfolio_backend.Errors.{ok, err, runtime}
use chatfolio_backend.Models.Billing.{QuotaKey}
use chatfolio_backend.Models.Redis.{command-down}
use chatfolio_backend.World.{World}
use chatfolio_backend.Quota.Counters.{find, put}
use chatfolio_backend.Quota.{
  exceeds, consume_lua, send, replied, db_used, upsert, settle, db_consume, consume_at,
}
use chatfolio_backend.Quota.Bounded.{db_used-upsert, round_failed}
use chatfolio_backend.Quota.Exact.{IsUp, round-hit, counting}

-- The call in which the first command fails goes by the table alone.
consume_at-down :
    (k : QuotaKey) (l u : ℕ) (w : World)
    → w.redis.faults ≡ true ∷ []
    → db_used k w ≡ u
    → u + 1 ≤ l
    → consume_at k (pos l) 1 w
      ≡ (ok (u + 1), upsert k (pos 1) (upsert k (pos 0) (counting w.redis.counters w)))
unfolding consume_at settle db_consume
consume_at-down k l u w down e room = ground (
  arith,
  round_failed k l 1 1 w (counting w.redis.counters w) failed,
  db_used-upsert k (pos 0) (counting w.redis.counters w),
  same,
)
  where
    failed : send (consume_lua k (pos l) 1) w ≡ (err runtime, counting w.redis.counters w)
    failed = unfold send in ap (replied w) (command-down (consume_lua k (pos l) 1) w.redis [] down)

    same : db_used k (counting w.redis.counters w) ≡ db_used k w
    same = unfold db_used in refl

-- With Redis back, its counter alone decides.
consume_at-stale :
    (k : QuotaKey) (u : ℕ) (w : World)
    → IsUp w
    → find k w.redis.counters ≡ some u
    → ((consume_at k (pos (u + 1)) 1 w).0 ≡ ok (u + 1))
      × (db_used k (consume_at k (pos (u + 1)) 1 w).1 ≡ db_used k w + 1)
unfolding consume_at settle exceeds
consume_at-stale k u w up hit = ground (
  arith,
  round-hit 1 k (pos (u + 1)) 1 u w up hit,
  db_used-upsert k (pos 1) (counting (put k (u + 1) w.redis.counters) w),
  same,
)
  where
    same : db_used k (counting (put k (u + 1) w.redis.counters) w) ≡ db_used k w
    same = unfold db_used in refl

-- Where both layers agree on a total one below the limit and the next command fails but no later
-- one, two consumes of one unit are both granted, and the durable total ends one above the limit.
pub consume_at-overshoots :
    (k : QuotaKey) (u : ℕ) (w : World)
    → w.redis.faults ≡ true ∷ []
    → find k w.redis.counters ≡ some u
    → db_used k w ≡ u
    → let (during, w') = consume_at k (pos (u + 1)) 1 w in
      let (after, w'') = consume_at k (pos (u + 1)) 1 w' in
      (during ≡ ok (u + 1)) × (after ≡ ok (u + 1)) × (db_used k w'' ≡ u + 2)
consume_at-overshoots k u w down hit e =
    rw (consume_at-down k (u + 1) u w down e (omega arith))
      (refl, again.0, omega (arith, again.1, total))
  where
    counted : World
    counted = upsert k (pos 1) (upsert k (pos 0) (counting w.redis.counters w))

    again :
        ((consume_at k (pos (u + 1)) 1 counted).0 ≡ ok (u + 1))
        × (db_used k (consume_at k (pos (u + 1)) 1 counted).1 ≡ db_used k counted + 1)
    again = consume_at-stale k u counted (unfold upsert in refl) (unfold upsert in hit)

    same : db_used k (counting w.redis.counters w) ≡ db_used k w
    same = unfold db_used in refl

    total : db_used k counted ≡ u + 1
    total = ground (
      arith,
      db_used-upsert k (pos 1) (upsert k (pos 0) (counting w.redis.counters w)),
      db_used-upsert k (pos 0) (counting w.redis.counters w),
      same,
    )
