-- ===== src/Tests/OfQuota.antt =====
-- The theorems on quotas and on time at concrete inputs.
use chatfolio_backend.Prelude.{◌+◌, ◌≤◌, ◌≡◌, refl, inr, Bool, true, List, [], ◌∷◌, arith}
use chatfolio_backend.Prelude.Int.{pos}
use chatfolio_backend.Errors.{ok}
use chatfolio_backend.World.{World}
use chatfolio_backend.Time.Periods.{
  QuotaPeriod, period_end, seconds_until_period_end, seconds_until_period_end_lem, grace_micros,
  eq_key,
}
use chatfolio_backend.Quota.Counters.{find, eq_quota}
use chatfolio_backend.Quota.{db_used, consume_at, release_at}
use chatfolio_backend.Quota.Exact.{Implements, spec_consume, consume_at-Implements}
use chatfolio_backend.Quota.Bounded.{IsCovered, consume_at-bounded}
use chatfolio_backend.Quota.Runs.{IsSafe, here, next, consumes, rolls_back, Reach-within}
use chatfolio_backend.Quota.Outage.{consume_at-overshoots}
use chatfolio_backend.Tests.Samples.{chats, world_with}

-- Four chats are counted, in both layers, and these commands fail next.
abbrev four : List Bool → World
four faults = record (world_with []) {
  db = record (world_with []).db { usage = (chats, 4) ∷ [] };
  redis = record (world_with []).redis { faults = faults; counters = (chats, 4) ∷ [] };
}

consume_at-Implements_example :
    Implements chats
      (spec_consume chats (pos 5) 1 (db_used chats (four [])))
      (consume_at chats (pos 5) 1 (four []))
unfolding find eq_quota chatfolio_backend.Catalog.place eq_key db_used
consume_at-Implements_example = consume_at-Implements chats (pos 5) 1 (four []) refl (inr refl)

four-IsCovered : (faults : List Bool) → IsCovered chats (four faults)
unfolding db_used find eq_quota eq_key
four-IsCovered faults c h = ground arith

consume_at-bounded_example :
    (db_used chats (consume_at chats (pos 5) 1 (four (true ∷ []))).1
      ≡ db_used chats (four (true ∷ [])) + 1)
    × (db_used chats (consume_at chats (pos 5) 1 (four (true ∷ []))).1 ≤ 5)
    × (db_used chats (consume_at chats (pos 5) 1 (four (true ∷ []))).1 ≤ 5)
unfolding consume_at chatfolio_backend.Quota.settle chatfolio_backend.Quota.redis_consume_rounds
    chatfolio_backend.Quota.send chatfolio_backend.Models.Redis.command
    chatfolio_backend.Quota.db_consume db_used chatfolio_backend.Quota.Counters.find
    chatfolio_backend.Quota.upsert chatfolio_backend.Quota.Counters.put
    chatfolio_backend.Quota.Counters.eq_quota chatfolio_backend.Catalog.place
    chatfolio_backend.Time.Periods.eq_key
consume_at-bounded_example =
    consume_at-bounded chats 5 1 5 (four (true ∷ []))
      (consume_at chats (pos 5) 1 (four (true ∷ []))).1 (four-IsCovered (true ∷ [])) refl

consume_at-overshoots_example :
    let (during, w') = consume_at chats (pos 5) 1 (four (true ∷ [])) in
    let (after, w'') = consume_at chats (pos 5) 1 w' in
    (during ≡ ok 5) × (after ≡ ok 5) × (db_used chats w'' ≡ 6)
unfolding chatfolio_backend.Quota.Counters.find chatfolio_backend.Quota.Counters.eq_quota
    chatfolio_backend.Catalog.place chatfolio_backend.Time.Periods.eq_key db_used
consume_at-overshoots_example = consume_at-overshoots chats 4 (four (true ∷ [])) refl refl refl

four-IsSafe : IsSafe chats 5 (four [])
unfolding db_used find eq_quota eq_key
four-IsSafe = record { up = refl; covered = four-IsCovered []; within = ground arith }

-- A chat is counted, its request rolls back, the counter is lost, and two more are asked for.
abbrev rolled : World
rolled = record (four []) { redis = (consume_at chats (pos 5) 1 (four [])).1.redis }

abbrev retried : World
retried = (consume_at chats (pos 5) 1 rolled).1

Reach-within_example : db_used chats retried ≤ 5
Reach-within_example = Reach-within four-IsSafe (next (next here (rolls_back 1)) (consumes 1))
