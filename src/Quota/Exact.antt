-- ===== src/Quota/Exact.antt =====
-- While Redis is up, the two layers together behave as one counter with a limit.
use chatfolio_backend.Prelude.{
  ℕ, zero, suc, ◌+◌, ◌-◌, ◌≡◌, refl, ap, ◌⊎◌, inl, inr, none, some, List, [], if◌then◌else◌, get_or,
  arith, Bool-cases,
}
use chatfolio_backend.Prelude.Int.{ℤ}
use chatfolio_backend.Errors.{Result, ok, err, limit_reached}
use chatfolio_backend.Models.Billing.{QuotaKey}
use chatfolio_backend.Models.Redis.{Redis, command-up}
use chatfolio_backend.World.{World}
use chatfolio_backend.Quota.Counters.{find, put, moved, find-put_self}
use chatfolio_backend.Quota.{
  exceeds, consume_lua, release_lua, send, db_used, upsert, set_nx, seed, replied,
  redis_consume_rounds, settle, consume_at, release_at, minus,
}

-- The counter that the two layers implement.
unfoldable pub spec_consume : QuotaKey → ℤ → ℕ → ℕ → Result ℕ × ℕ
spec_consume k limit amount used =
    if exceeds limit (used + amount)
    then (err (limit_reached k.feature limit used), used)
    else (ok (used + amount), used + amount)

abbrev pub IsUp : World → Type 0
IsUp w = w.redis.faults ≡ []

-- The Redis counter is missing, or it is the durable one.
abbrev pub IsSynced : QuotaKey → World → Type 0
IsSynced k w = (find k w.redis.counters ≡ none) ⊎ (find k w.redis.counters ≡ some (db_used k w))

-- The state with Redis up and its counters given.
abbrev pub counting : List (QuotaKey × ℕ) → World → World
counting l w = record w { redis = record w.redis { faults = []; counters = l } }

pub send-up :
    {A : Type 0} (f : Redis → A × Redis) (w : World)
    → IsUp w
    → send f w ≡ (
      ok (f (record w.redis { faults = [] })).0,
      record w { redis = (f (record w.redis { faults = [] })).1 },
    )
unfolding send
send-up f w up = ap (replied w) (command-up f w.redis up)

pub round-hit :
    (n : ℕ) (k : QuotaKey) (limit : ℤ) (amount c : ℕ) (w : World)
    → IsUp w
    → find k w.redis.counters ≡ some c
    → redis_consume_rounds (suc n) k limit amount w ≡ (
        if exceeds limit (c + amount)
        then (err (limit_reached k.feature limit c), counting w.redis.counters w)
        else (ok (c + amount), counting (put k (c + amount) w.redis.counters) w))
unfolding redis_consume_rounds consume_lua
round-hit n k limit amount c w up hit = ground (arith, send-up (consume_lua k limit amount) w up)

pub round-miss :
    (n : ℕ) (k : QuotaKey) (limit : ℤ) (amount : ℕ) (w : World)
    → IsUp w
    → find k w.redis.counters ≡ none
    → redis_consume_rounds (suc n) k limit amount w
      ≡ redis_consume_rounds n k limit amount (counting (put k (db_used k w) w.redis.counters) w)
unfolding redis_consume_rounds seed consume_lua set_nx
round-miss n k limit amount w up miss = ground (
  arith,
  send-up (consume_lua k limit amount) w up,
  send-up (set_nx k (db_used k (counting w.redis.counters w))) (counting w.redis.counters w) refl,
)

-- What a consume does to the key that it is about: its outcome, and the durable total.
abbrev pub Implements : QuotaKey → Result ℕ × ℕ → Result ℕ × World → Type 0
Implements k spec (r, w) = (r ≡ spec.0) × (db_used k w ≡ spec.1) × IsUp w × IsSynced k w

settle_denied :
    (k : QuotaKey) (limit : ℤ) (amount : ℕ) (l : List (QuotaKey × ℕ)) (w : World)
    → find k l ≡ some (db_used k w)
    → Implements k
        (err (limit_reached k.feature limit (db_used k w)), db_used k w)
        (settle k limit amount (err (limit_reached k.feature limit (db_used k w))) (counting l w))
unfolding settle db_used
settle_denied k limit amount l w h = (refl, refl, refl, inr h)

settle_granted :
    (k : QuotaKey) (limit : ℤ) (amount : ℕ) (l : List (QuotaKey × ℕ)) (w : World)
    → find k l ≡ some (db_used k w + amount)
    → Implements k
        (ok (db_used k w + amount), db_used k w + amount)
        (settle k limit amount (ok (db_used k w + amount)) (counting l w))
unfolding settle db_used upsert
settle_granted k limit amount l w h =
    let raised = find-put_self k (db_used k w + amount) w.db.usage in
    (refl, rw raised, refl, inr (rw raised h))

abbrev settled : QuotaKey → ℤ → ℕ → Result ℕ × World → Result ℕ × World
settled k limit amount (r, w) = settle k limit amount r w

-- A round that finds the counter settles the consume.
round-Implements :
    (n : ℕ) (k : QuotaKey) (limit : ℤ) (amount : ℕ) (w : World)
    → IsUp w
    → find k w.redis.counters ≡ some (db_used k w)
    → Implements k
        (spec_consume k limit amount (db_used k w))
        (settled k limit amount (redis_consume_rounds (suc n) k limit amount w))
unfolding spec_consume
round-Implements n k limit amount w up hit =
    rw (round-hit n k limit amount (db_used k w) w up hit)
      (elim (Bool-cases (exceeds limit (db_used k w + amount))) [
        | inl over ↦ rw over (settle_denied k limit amount w.redis.counters w hit)
        | inr under ↦ rw under (
            settle_granted k limit amount (put k (db_used k w + amount) w.redis.counters) w
              (find-put_self k (db_used k w + amount) w.redis.counters))
      ])

-- While Redis is up and its counter is missing or equal to the durable one, a consume is what one
-- counter with a limit does: the same outcome and durable total; and Redis is up and in step again.
pub consume_at-Implements :
    (k : QuotaKey) (limit : ℤ) (amount : ℕ) (w : World)
    → IsUp w
    → IsSynced k w
    → Implements k (spec_consume k limit amount (db_used k w)) (consume_at k limit amount w)
unfolding consume_at
consume_at-Implements k limit amount w up (inr hit) = round-Implements 1 k limit amount w up hit
consume_at-Implements k limit amount w up (inl miss) =
    rw (round-miss 1 k limit amount w up miss, consume_at)
      (unfold db_used in
        round-Implements 0 k limit amount (counting (put k (db_used k w) w.redis.counters) w) refl
          (find-put_self k (db_used k w) w.redis.counters))

pub moved-minus : (a n : ℕ) → moved (minus a) n ≡ n - a
moved-minus zero n = omega arith
moved-minus (suc a) n = omega arith

pub release_hit :
    (k : QuotaKey) (amount c : ℕ) (w : World)
    → IsUp w
    → find k w.redis.counters ≡ some c
    → release_at k amount w
      ≡ upsert k (minus amount) (counting (put k (c - amount) w.redis.counters) w)
unfolding release_at release_lua
release_hit k amount c w up hit = ground (arith, send-up (release_lua k amount) w up)

pub release_miss :
    (k : QuotaKey) (amount : ℕ) (w : World)
    → IsUp w
    → find k w.redis.counters ≡ none
    → release_at k amount w ≡ upsert k (minus amount) (counting w.redis.counters w)
unfolding release_at release_lua
release_miss k amount w up miss = ground (arith, send-up (release_lua k amount) w up)

-- `upsert` moves the durable counter alone.
IsSynced-upsert :
    (k : QuotaKey) (amount : ℕ) (l : List (QuotaKey × ℕ)) (w : World)
    → (find k l ≡ none) ⊎ (find k l ≡ some (db_used k w - amount))
    → let w' = upsert k (minus amount) (counting l w) in
      (db_used k w' ≡ db_used k w - amount) × IsUp w' × IsSynced k w'
unfolding upsert db_used
IsSynced-upsert k amount l w h = ground (
  arith,
  moved-minus amount (get_or 0 (find k w.db.usage)),
  find-put_self k (moved (minus amount) (get_or 0 (find k w.db.usage))) w.db.usage,
)

-- While Redis is up and its counter is missing or equal to the durable one, a release takes the
-- amount off the durable total, never below zero, and Redis is up and in step again.
pub release_at_lem :
    (k : QuotaKey) (amount : ℕ) (w : World)
    → IsUp w
    → IsSynced k w
    → let w' = release_at k amount w in
      (db_used k w' ≡ db_used k w - amount) × IsUp w' × IsSynced k w'
release_at_lem k amount w up (inr hit) = rw (release_hit k amount (db_used k w) w up hit) (
    IsSynced-upsert k amount (put k (db_used k w - amount) w.redis.counters) w
      (inr (find-put_self k (db_used k w - amount) w.redis.counters)))
release_at_lem k amount w up (inl miss) =
    rw (release_miss k amount w up miss) (IsSynced-upsert k amount w.redis.counters w (inl miss))
