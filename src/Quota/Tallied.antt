-- ===== src/Quota/Tallied.antt =====
-- The tally is durable whatever Redis does, and what is read back is the durable total.
use chatfolio_backend.Prelude.{
  ℕ, zero, suc, ◌+◌, ◌<◌, ◌≡◌, refl, ap, ◌∙◌, inl, inr, ◌↔◌, Bool, true, false, get_or, arith,
}
use chatfolio_backend.Prelude.Int.{pos}
use chatfolio_backend.Errors.{Result, ok, err}
use chatfolio_backend.Action.{proceed}
use chatfolio_backend.Models.Billing.{Db, QuotaKey}
use chatfolio_backend.Models.Redis.{Redis}
use chatfolio_backend.World.{World}
use chatfolio_backend.Quota.Counters.{find}
use chatfolio_backend.Quota.{send, db_used, seed, set_nx}
use chatfolio_backend.Quota.Tally.{
  exists_key, incr_by, seed_unless, count_in_redis, add_usage_at, used_at, ensure_open_at,
}
use chatfolio_backend.Quota.Exact.{IsUp, IsSynced, counting, send-up}
use chatfolio_backend.Quota.Bounded.{send-cases, db_used-upsert}

pub send-db : {A : Type 0} (f : Redis → A × Redis) (w : World) → (send f w).1.db ≡ w.db
send-db f w = let (fs, out) = send-cases f w in elim out [ inl e ↦ rw e refl | inr e ↦ rw e refl ]

seed-db : (k : QuotaKey) (w : World) → (seed k w).1.db ≡ w.db
unfolding seed
seed-db k w =
    let (fs, out) = send-cases (set_nx k (db_used k w)) w in
    elim out [ inl e ↦ rw e refl | inr e ↦ rw e refl ]

seed_unless-db : (b : Bool) (k : QuotaKey) (w : World) → (seed_unless b k w).1.db ≡ w.db
seed_unless-db true k w = refl
seed_unless-db false k w = ground (arith, seed-db k w)

-- A chain of calls that keep the tables keeps them.
proceed-db :
    {A B : Type 0} (d : Db) (x : Result A × World) (f : A → World → Result B × World)
    → x.1.db ≡ d
    → ((a : A) (w : World) → w.db ≡ d → (f a w).1.db ≡ d)
    → (proceed x f).1.db ≡ d
proceed-db d (ok a, w) f h g = g a w h
proceed-db d (err e, w) f h g = h

count_in_redis-db : (k : QuotaKey) (a : ℕ) (w : World) → (count_in_redis k a w).1.db ≡ w.db
unfolding count_in_redis
count_in_redis-db k a w =
    proceed-db w.db (send (exists_key k) w) _ (send-db (exists_key k) w) (λ present v h.
      proceed-db w.db (seed_unless present k v) _ (seed_unless-db present k v ∙ h)
        (λ _ u g. send-db (incr_by k a) u ∙ g))

-- A tally raises the durable total by its amount, whichever commands of Redis fail.
pub add_usage_at-durable :
    (k : QuotaKey) (a : ℕ) (w : World) → db_used k (add_usage_at k a w) ≡ db_used k w + a
unfolding add_usage_at
add_usage_at-durable k zero w = omega arith
add_usage_at-durable k (suc n) w =
    db_used-upsert k (pos (suc n)) (count_in_redis k (suc n) w).1
    ∙ (unfold db_used in
        ap (λ (d : Db). get_or 0 (find k d.usage) + suc n) (count_in_redis-db k (suc n) w))

-- While Redis is up and in step, what is read is the durable total, and the counter is in step
-- afterwards.
pub used_at_lem :
    (k : QuotaKey) (w : World)
    → IsUp w
    → IsSynced k w
    → ((used_at k w).0 ≡ db_used k w) × ((used_at k w).1.db ≡ w.db)
unfolding used_at seed set_nx
used_at_lem k w up (inr hit) = ground (arith, send-up (λ r. (find k r.counters, r)) w up)
used_at_lem k w up (inl miss) = ground (
  arith,
  send-up (λ r. (find k r.counters, r)) w up,
  send-up (set_nx k (db_used k (counting w.redis.counters w))) (counting w.redis.counters w) refl,
)

-- While Redis is up and its counter is missing or equal to the durable one, a budget with a limit
-- of at least 0 is open exactly as long as the durable total is below the limit.
pub ensure_open_at_iff :
    (k : QuotaKey) (l : ℕ) (w : World)
    → IsUp w
    → IsSynced k w
    → ((ensure_open_at k (pos l) w).0 ≡ ok tt) ↔ (db_used k w < l)
unfolding ensure_open_at
ensure_open_at_iff k l w up synced =
    (λ h. ground (arith, used_at_lem k w up synced), λ h. ground (arith, used_at_lem k w up synced))
