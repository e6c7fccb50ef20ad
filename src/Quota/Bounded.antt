-- ===== src/Quota/Bounded.antt =====
-- No overshoot, whatever Redis does during the call.
use chatfolio_backend.Prelude.{
  ℕ, zero, suc, ◌+◌, ◌≤◌, ◌<◌, ◌≡◌, refl, ap, ◌∙◌, ◌⊎◌, inl, inr, Bool, none, some, List, get_or,
  arith, Option-cases,
}
use chatfolio_backend.Prelude.Int.{ℤ, pos}
use chatfolio_backend.Errors.{Result, ok, err, limit_reached, runtime}
use chatfolio_backend.Models.Billing.{Db, QuotaKey}
use chatfolio_backend.Models.Redis.{Redis, command-cases}
use chatfolio_backend.World.{World}
use chatfolio_backend.Quota.Counters.{find, put, moved, find-put_self}
use chatfolio_backend.Quota.{
  Reply, missing, denied, granted, exceeds, consume_lua, send, replied, db_used, upsert, set_nx,
  seed, redis_consume_rounds, settle, consume_at, db_consume,
}

-- The Redis counter, where there is one, is no lower than the durable one.
abbrev pub IsCovered : QuotaKey → World → Type 0
IsCovered k w = (c : ℕ) → find k w.redis.counters ≡ some c → db_used k w ≤ c

pub send-cases :
    {A : Type 0} (f : Redis → A × Redis) (w : World)
    → (fs : List Bool) × ((send f w
          ≡ (err runtime, record w { redis = record w.redis { faults = fs } }))
        ⊎ (send f w ≡ (
          ok (f (record w.redis { faults = fs })).0,
          record w { redis = (f (record w.redis { faults = fs })).1 },
        )))
unfolding send
send-cases f w =
    let (fs, outcome) = command-cases f w.redis in
    elim outcome [
      | inl failed ↦ (fs, inl (ap (replied w) failed))
      | inr done ↦ (fs, inr (ap (replied w) done))
    ]

pub db_used-upsert :
    (k : QuotaKey) (d : ℤ) (w : World) → db_used k (upsert k d w) ≡ moved d (db_used k w)
unfolding db_used upsert
db_used-upsert k d w = rw (find-put_self k (moved d (get_or 0 (find k w.db.usage))) w.db.usage)

module _ (k : QuotaKey) (l amount : ℕ) where
  -- What the rounds leave: the tables as they were, and a total that the limit allows.
  abbrev Allowed : ℕ → Result ℕ → Type 0
  Allowed used (ok total) = (used + amount ≤ total) × (total ≤ l)
  Allowed used (err _) = Unit

  abbrev Leaves : World → Result ℕ × World → Type 0
  Leaves w (r, w') = (w'.db ≡ w.db) × Allowed (db_used k w) r

  abbrev pub lua : Redis → Reply × Redis
  lua = consume_lua k (pos l) amount

  abbrev pub rounds : ℕ → World → Result ℕ × World
  rounds n = redis_consume_rounds n k (pos l) amount

  pub round_failed :
      (n : ℕ) (w w' : World) → send lua w ≡ (err runtime, w') → rounds (suc n) w ≡ (err runtime, w')
  unfolding redis_consume_rounds
  round_failed n w w' e = ground arith

  round_granted :
      (n t : ℕ) (w w' : World) → send lua w ≡ (ok (granted t), w') → rounds (suc n) w ≡ (ok t, w')
  unfolding redis_consume_rounds
  round_granted n t w w' e = ground arith

  round_denied :
      (n t : ℕ) (w w' : World)
      → send lua w ≡ (ok (denied t), w')
      → rounds (suc n) w ≡ (err (limit_reached k.feature (pos l) t), w')
  unfolding redis_consume_rounds
  round_denied n t w w' e = ground arith

  round_seed_failed :
      (n : ℕ) (w w' w'' : World)
      → send lua w ≡ (ok missing, w')
      → send (set_nx k (db_used k w')) w' ≡ (err runtime, w'')
      → rounds (suc n) w ≡ (err runtime, w'')
  unfolding redis_consume_rounds seed
  round_seed_failed n w w' w'' e f = ground arith

  round_seeded :
      (n : ℕ) (w w' w'' : World)
      → send lua w ≡ (ok missing, w')
      → send (set_nx k (db_used k w')) w' ≡ (ok tt, w'')
      → rounds (suc n) w ≡ rounds n w''
  unfolding redis_consume_rounds seed
  round_seeded n w w' w'' e f = ground arith

  lua-hit :
      (cur : ℕ) (r : Redis)
      → find k r.counters ≡ some cur
      → ((lua r ≡ (denied cur, r)) × (l < cur + amount))
        ⊎ ((lua r
              ≡ (granted (cur + amount), record r { counters = put k (cur + amount) r.counters }))
            × (cur + amount ≤ l))
  unfolding consume_lua exceeds
  lua-hit cur r h = ground arith

  lua-miss : (r : Redis) → find k r.counters ≡ none → lua r ≡ (missing, r)
  unfolding consume_lua
  lua-miss r h = ground arith

  set_nx-miss :
      (u : ℕ) (r : Redis)
      → find k r.counters ≡ none
      → set_nx k u r ≡ (tt, record r { counters = put k u r.counters })
  unfolding set_nx
  set_nx-miss u r h = ground arith

  put-covers : (u : ℕ) (m : List (QuotaKey × ℕ)) (x : ℕ) → find k (put k u m) ≡ some x → u ≤ x
  put-covers u m x h = ground (arith, find-put_self k u m)

  -- What a session's world is once Redis has answered.
  abbrev answered : {A : Type 0} → World → A × Redis → Result A × World
  answered w (a, r) = (ok a, record w { redis = r })

  rounds-Leaves : (n : ℕ) (w : World) → IsCovered k w → Leaves w (rounds n w)
  unfolding db_used
  rounds-Leaves zero w c = unfold redis_consume_rounds in (refl, tt)
  rounds-Leaves (suc n) w c =
      let (fs, outcome) = send-cases lua w in
      let r : Redis = record w.redis { faults = fs } in
      let w' : World = record w { redis = r } in
      elim outcome [
        | inl failed ↦ rw (round_failed n w w' failed) (refl, tt)
        | inr done ↦ elim (Option-cases (find k w.redis.counters)) [
          | inr (cur, hit) ↦ elim (lua-hit cur r hit) [
            | inl (denial, _) ↦
                rw (round_denied n cur w w' (done ∙ ap (answered w) denial)) (refl, tt)
            | inr (grant, under) ↦
                rw (round_granted n (cur + amount) w _ (done ∙ ap (answered w) grant))
                  (refl, (omega (arith, c cur hit), under))
          ]
          | inl miss ↦
              let (fs', seeding) = send-cases (set_nx k (db_used k w')) w' in
              let r' : Redis = record w.redis { faults = fs' } in
              let asked = done ∙ ap (answered w) (lua-miss r miss) in
              elim seeding [
                | inl failed ↦ rw (round_seed_failed n w w' _ asked failed) (refl, tt)
                | inr seeded ↦
                    rw
                      (round_seeded n w w' _ asked
                        (seeded ∙ ap (answered w) (set_nx-miss (db_used k w') r' miss)))
                      (rounds-Leaves n _ (put-covers (db_used k w') w.redis.counters))
              ]
        ]
      ]

  abbrev Granted : World → Result ℕ × World → Type 0
  Granted w (ok total, w') =
      (db_used k w' ≡ db_used k w + amount) × (db_used k w' ≤ l) × (db_used k w' ≤ total)
  Granted w (err _, w') = Unit

  db_consume-Granted : (w : World) → Granted w (db_consume k (pos l) amount w)
  unfolding db_consume
  db_consume-Granted w =
      ground (arith, db_used-upsert k (pos 0) w, db_used-upsert k (pos amount) (upsert k (pos 0) w))

  -- Settling adds exactly the amount to the durable counter of an outcome that is granted.
  settle-Granted :
      (w : World) (out : Result ℕ)
      → Allowed (db_used k w) out
      → Granted w (settle k (pos l) amount out w)
  unfolding settle
  settle-Granted w (ok t) a = ground (arith, db_used-upsert k (pos amount) w)
  settle-Granted w (err (limit_reached f x u)) a = tt
  settle-Granted w (err e) a = db_consume-Granted w

-- However often and whenever Redis fails in the call: a consume that returns, under a limit of at
-- least 0, has raised the durable total by the amount, that total is within the limit, and it is no
-- more than the answer, as long as the Redis counter was missing or not behind the durable one.
pub consume_at-bounded :
    (k : QuotaKey) (l amount total : ℕ) (w w' : World)
    → IsCovered k w
    → consume_at k (pos l) amount w ≡ (ok total, w')
    → (db_used k w' ≡ db_used k w + amount) × (db_used k w' ≤ l) × (db_used k w' ≤ total)
unfolding consume_at db_used
consume_at-bounded k l amount total w w' c h =
    let (out, w2) = rounds k l amount 2 w in
    let leaves = rounds-Leaves k l amount 2 w c in
    let same : db_used k w2 ≡ db_used k w = ap (λ (d : Db). get_or 0 (find k d.usage)) leaves.0 in
    let g = settle-Granted k l amount w2 out (rw same leaves.1) in ground (arith, g, same, h)
