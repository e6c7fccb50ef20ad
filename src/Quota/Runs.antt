-- ===== src/Quota/Runs.antt =====
-- Any history of one counter while Redis answers: consumes, releases, lost keys, and sessions that
-- roll back after their unit was taken in Redis.
use chatfolio_backend.Prelude.{
  ℕ, suc, ◌+◌, ◌-◌, ◌≤◌, ◌≡◌, refl, ◌∙◌, inl, inr, false, none, some, List, [], ◌∷◌, if◌then◌else◌,
  arith, Bool-cases, Option-cases,
}
use chatfolio_backend.Prelude.Int.{pos}
use chatfolio_backend.Errors.{Result}
use chatfolio_backend.Models.Billing.{QuotaKey}
use chatfolio_backend.World.{World}
use chatfolio_backend.Quota.Counters.{eq_quota, find, put, find-put_self}
use chatfolio_backend.Quota.{
  exceeds, db_used, upsert, redis_consume_rounds, settle, consume_at, release_at, minus,
}
use chatfolio_backend.Quota.Bounded.{IsCovered, db_used-upsert}
use chatfolio_backend.Quota.Exact.{
  IsUp, counting, round-hit, round-miss, release_hit, release_miss, moved-minus,
}

-- A counter that expires or is evicted.
pub evict : QuotaKey → List (QuotaKey × ℕ) → List (QuotaKey × ℕ)
evict k [] = []
evict k (e ∷ l) = if eq_quota k e.0 then evict k l else e ∷ evict k l

find-evict : (k : QuotaKey) (l : List (QuotaKey × ℕ)) → find k (evict k l) ≡ none
unfolding find evict
find-evict k [] = refl
find-evict k (e ∷ l) = ground (arith, find-evict k l)

pub data Step (k : QuotaKey) (l : ℕ) (w : World) : World → Type 0 where
  consumes : (amount : ℕ) → Step k l w (consume_at k (pos l) amount w).1
  releases : (amount : ℕ) → Step k l w (release_at k amount w)
  evicts : Step k l w (counting (evict k w.redis.counters) w)
  rolls_back :
      (amount : ℕ) → Step k l w (record w { redis = (consume_at k (pos l) amount w).1.redis })

pub data Reach (k : QuotaKey) (l : ℕ) (w : World) : World → Type 0 where
  here : Reach k l w w
  next : {u v : World} → Reach k l w u → Step k l u v → Reach k l w v

pub record IsSafe (k : QuotaKey) (l : ℕ) (w : World) : Type 0 where
  pub up : IsUp w
  pub covered : IsCovered k w
  pub within : db_used k w ≤ l

-- The next state is safe too, and the table is no lower.
abbrev Keeps : QuotaKey → ℕ → World → World → Type 0
Keeps k l w w' = IsSafe k l w' × (db_used k w ≤ db_used k w')

raised-Keeps :
    (k : QuotaKey) (l amount c : ℕ) (w : World)
    → db_used k w ≤ c
    → c + amount ≤ l
    → Keeps k l w (upsert k (pos amount) (counting (put k (c + amount) w.redis.counters) w))
raised-Keeps k l amount c w le under =
    let w' = upsert k (pos amount) (counting (put k (c + amount) w.redis.counters) w) in
    (
      record {
        up = unfold upsert in refl;
        covered = λ x h. ground (arith, total, found, h);
        within = omega (arith, total);
      },
      omega (arith, total),
    )
  where
    total :
        db_used k (upsert k (pos amount) (counting (put k (c + amount) w.redis.counters) w))
        ≡ db_used k w + amount
    total =
        db_used-upsert k (pos amount) (counting (put k (c + amount) w.redis.counters) w)
        ∙ (unfold db_used in refl)

    found :
        find k
          (upsert k (pos amount) (counting (put k (c + amount) w.redis.counters) w)).redis.counters
        ≡ some (c + amount)
    found = unfold upsert in find-put_self k (c + amount) w.redis.counters

abbrev settled : QuotaKey → ℕ → ℕ → Result ℕ × World → World
settled k l amount (r, w) = (settle k (pos l) amount r w).1

idle-Keeps :
    (k : QuotaKey) (l : ℕ) (w : World) → IsSafe k l w → Keeps k l w (counting w.redis.counters w)
unfolding db_used
idle-Keeps k l w s = (record { up = refl; covered = s.covered; within = s.within }, omega arith)

round-Keeps :
    (n : ℕ) (k : QuotaKey) (l amount c : ℕ) (w : World)
    → IsSafe k l w
    → find k w.redis.counters ≡ some c
    → Keeps k l w (settled k l amount (redis_consume_rounds (suc n) k (pos l) amount w))
round-Keeps n k l amount c w s hit =
    rw (round-hit n k (pos l) amount c w s.up hit)
      (elim (Bool-cases (exceeds (pos l) (c + amount))) [
        | inl over ↦ rw over (unfold settle in idle-Keeps k l w s)
        | inr under ↦
            rw under (unfold settle in raised-Keeps k l amount c w (s.covered c hit) (within under))
      ])
  where
    within : exceeds (pos l) (c + amount) ≡ false → c + amount ≤ l
    within e = unfold exceeds in ground arith

seeded-IsSafe :
    (k : QuotaKey) (l : ℕ) (w : World)
    → IsSafe k l w
    → IsSafe k l (counting (put k (db_used k w) w.redis.counters) w)
seeded-IsSafe k l w s = record {
  up = refl;
  covered =
      λ x h. unfold db_used in ground (arith, find-put_self k (db_used k w) w.redis.counters, h);
  within = unfold db_used in s.within;
}

consume_at-Keeps :
    (k : QuotaKey) (l amount : ℕ) (w : World)
    → IsSafe k l w
    → Keeps k l w (consume_at k (pos l) amount w).1
unfolding consume_at
consume_at-Keeps k l amount w s = elim (Option-cases (find k w.redis.counters)) [
  | inr (c, hit) ↦ round-Keeps 1 k l amount c w s hit
  | inl miss ↦
      rw (round-miss 1 k (pos l) amount w s.up miss, consume_at)
        (unfold db_used in
          round-Keeps 0 k l amount (db_used k w) (counting (put k (db_used k w) w.redis.counters) w)
            (seeded-IsSafe k l w s) (find-put_self k (db_used k w) w.redis.counters))
]

lowered-IsSafe :
    (k : QuotaKey) (l amount : ℕ) (m : List (QuotaKey × ℕ)) (w : World)
    → IsSafe k l w
    → ((c : ℕ) → find k m ≡ some c → db_used k w - amount ≤ c)
    → IsSafe k l (upsert k (minus amount) (counting m w))
lowered-IsSafe k l amount m w s h = record {
  up = unfold upsert in refl;
  covered = λ c e. omega (arith, total, h c (unfold upsert in e));
  within = omega (arith, total, s.within);
}
  where
    total : db_used k (upsert k (minus amount) (counting m w)) ≡ db_used k w - amount
    total =
        db_used-upsert k (minus amount) (counting m w)
        ∙ moved-minus amount (db_used k (counting m w))
        ∙ (unfold db_used in refl)

release_at-IsSafe :
    (k : QuotaKey) (l amount : ℕ) (w : World) → IsSafe k l w → IsSafe k l (release_at k amount w)
release_at-IsSafe k l amount w s = elim (Option-cases (find k w.redis.counters)) [
  | inr (c, hit) ↦ rw (release_hit k amount c w s.up hit) (
      lowered-IsSafe k l amount (put k (c - amount) w.redis.counters) w s
        (λ x e. ground (arith, find-put_self k (c - amount) w.redis.counters, s.covered c hit, e)))
  | inl miss ↦
      rw (release_miss k amount w s.up miss)
        (lowered-IsSafe k l amount w.redis.counters w s (λ x e. ground arith))
]

-- Every step keeps the durable counter within the limit and Redis at or above it.
pub Step-IsSafe :
    {k : QuotaKey} {l : ℕ} {w w' : World} → Step k l w w' → IsSafe k l w → IsSafe k l w'
Step-IsSafe {k} {l} {w} (consumes amount) s = (consume_at-Keeps k l amount w s).0
Step-IsSafe {k} {l} {w} (releases amount) s = release_at-IsSafe k l amount w s
Step-IsSafe {k} {l} {w} evicts s = record {
  up = refl;
  covered = λ c h. ground (arith, find-evict k w.redis.counters, h);
  within = unfold db_used in s.within;
}
Step-IsSafe {k} {l} {w} (rolls_back amount) s =
    let (s', grows) = consume_at-Keeps k l amount w s in
    record {
      up = s'.up;
      covered = λ c h. unfold db_used in omega (arith, grows, s'.covered c h);
      within = unfold db_used in s.within;
    }

-- From a state where Redis is up, its counter is missing or not behind, and the durable total is
-- within the limit, no history of consumes, releases, lost keys and sessions that roll back counts
-- more durably than the limit.
pub Reach-within :
    {k : QuotaKey} {l : ℕ} {w w' : World} → IsSafe k l w → Reach k l w w' → db_used k w' ≤ l
Reach-within {k} {l} {w} {w'} s r = (go r).within
  where
    go : {v : World} → Reach k l w v → IsSafe k l v
    go here = s
    go (next r st) = Step-IsSafe st (go r)
