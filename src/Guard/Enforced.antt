-- ===== src/Guard/Enforced.antt =====
-- The guard enforces what the tables say at this moment.
use chatfolio_backend.Prelude.{
  ℕ, ◌≡◌, refl, ap, ◌∙◌, inl, inr, ◌↔◌, true, not, Option, none, some, [], arith, Bool-cases, ltb,
}
use chatfolio_backend.Errors.{Result, ok, err, feature_not_in_plan}
use chatfolio_backend.Action.{proceed, raise_if, pure, ◌>>◌, ◌>>=◌}
use chatfolio_backend.Catalog.{FeatureKey}
use chatfolio_backend.Time.Calendar.{DateTime}
use chatfolio_backend.Models.Billing.{Db, QuotaKey}
use chatfolio_backend.Models.Redis.{Redis, command-up}
use chatfolio_backend.World.{World}
use chatfolio_backend.Entitlements.{Entitlements, enabled, limit}
use chatfolio_backend.Entitlements.Resolve.{resolve, unexpired}
use chatfolio_backend.Entitlements.Cache.{
  catalog_version, get_entitlements, set_entitlements, fetch, stored,
}
use chatfolio_backend.Entitlements.Service.{get, serve, store, ttl_for}
use chatfolio_backend.Entitlements.Coherence.{IsCoherent, current, get-eq-resolve, version-up}
use chatfolio_backend.Quota.{quota_key, consume, consume_at, db_used}
use chatfolio_backend.Quota.Exact.{IsUp, IsSynced, spec_consume, Implements, consume_at-Implements}
use chatfolio_backend.Guard.{refreshed, entitled, require_feature, guard_consume}

-- The gate returns the entitlements exactly where they enable the feature now, provided that the
-- cache is coherent, the catalogue version was read as it is, and the tables give an answer.
pub require_feature_iff :
    (user : ℕ) (f : FeatureKey) (now : DateTime) (w : World) (e : Entitlements)
    → IsCoherent w.db now w.redis
    → (catalog_version w.redis).0 ≡ current w.redis
    → resolve w.db user now ≡ ok e
    → ((require_feature user f now w).0 ≡ ok e) ↔ (enabled e f ≡ true)
unfolding require_feature entitled
require_feature_iff user f now w e c read r =
    go (get w.db user now w.redis) (get-eq-resolve user c read ∙ r)
  where
    go :
        (x : Result Entitlements × Redis)
        → x.0 ≡ ok e
        → ((proceed
              (refreshed w x)
              (λ e'. raise_if (not (enabled e' f)) (feature_not_in_plan f) >> pure e')).0
            ≡ ok e)
          ↔ (enabled e f ≡ true)
    go (a, s) h = rw h (λ g. ground arith, λ g. rw g refl)

-- What a read of entitlements leaves in Redis while it is up.
abbrev Quiet : Redis → Redis → Type 0
Quiet r r' = (r'.faults ≡ []) × (r'.counters ≡ r.counters)

get_entitlements-Quiet :
    (user : ℕ) (r : Redis) → r.faults ≡ [] → Quiet r (get_entitlements user r).1
unfolding get_entitlements
get_entitlements-Quiet user r up =
    rw
      (
        version-up r up,
        command-up (λ s. (fetch (current r) user s, s)) (record r { faults = [] }) refl,
      )
      (refl, refl)

set_entitlements-Quiet :
    (user : ℕ) (e : Entitlements) (ttl : ℕ) (r : Redis)
    → r.faults ≡ []
    → Quiet r (set_entitlements user e ttl r)
unfolding set_entitlements
set_entitlements-Quiet user e ttl r up =
    rw
      (
        version-up r up,
        set_entitlements,
        command-up (λ s. (tt, stored (current r) user e ttl s)) (record r { faults = [] }) refl,
      )
      (refl, refl)

store-Quiet :
    (user : ℕ) (now : DateTime) (x : Result Entitlements) (r : Redis)
    → r.faults ≡ []
    → Quiet r (store user now x r).1
unfolding store
store-Quiet user now (err x) r up = (up, refl)
store-Quiet user now (ok e) r up = elim (Bool-cases (ltb 0 (ttl_for e.valid_until now))) [
  | inl some_time ↦ rw some_time (set_entitlements-Quiet user e (ttl_for e.valid_until now) r up)
  | inr no_time ↦ rw no_time (up, refl)
]

serve-Quiet :
    (db : Db) (user : ℕ) (now : DateTime) (o : Option Entitlements) (r : Redis)
    → r.faults ≡ []
    → Quiet r (serve db user now o r).1
unfolding serve
serve-Quiet db user now none r up = store-Quiet user now (resolve db user now) r up
serve-Quiet db user now (some e) r up = elim (Bool-cases (unexpired now e.valid_until)) [
  | inl fresh ↦ rw fresh (up, refl)
  | inr stale ↦ rw stale (store-Quiet user now (resolve db user now) r up)
]

get-Quiet :
    (db : Db) (user : ℕ) (now : DateTime) (r : Redis)
    → r.faults ≡ []
    → Quiet r (get db user now r).1
unfolding get
get-Quiet db user now r up =
    let first = get_entitlements-Quiet user r up in
    let then_served =
      serve-Quiet db user now (get_entitlements user r).0 (get_entitlements user r).1 first.0 in
    (then_served.0, then_served.1 ∙ first.1)

abbrev pub as_unit : Result ℕ → Result (Unit {0})
as_unit (ok _) = ok tt
as_unit (err e) = err e

abbrev consumed :
    ℕ → FeatureKey → ℕ → DateTime → Result Entitlements × World → Result (Unit {0}) × World
consumed user f amount now x = proceed x (λ e. consume user f e amount now >>= λ _. pure tt)

abbrev silent : Result ℕ × World → Result (Unit {0}) × World
silent x = proceed x (λ _. pure tt)

forget :
    (k : QuotaKey) (x : Result ℕ × World) (spec : Result ℕ × ℕ)
    → Implements k spec x
    → ((silent x).0 ≡ as_unit spec.0) × (db_used k (silent x).1 ≡ spec.1)
forget k (ok n, w) spec (r, d, _, _) = (ap as_unit r, d)
forget k (err e, w) spec (r, d, _, _) = (ap as_unit r, d)

counted :
    (user : ℕ) (f : FeatureKey) (amount : ℕ) (now : DateTime) (e : Entitlements) (w : World)
    → IsUp w
    → IsSynced (quota_key user f e now) w
    → let k = quota_key user f e now in
      let spec = spec_consume k (limit e f) amount (db_used k w) in
      ((consumed user f amount now (ok e, w)).0 ≡ as_unit spec.0)
      × (db_used k (consumed user f amount now (ok e, w)).1 ≡ spec.1)
unfolding consume
counted user f amount now e w up synced =
    forget (quota_key user f e now) (consume_at (quota_key user f e now) (limit e f) amount w)
      (spec_consume (quota_key user f e now) (limit e f) amount
        (db_used (quota_key user f e now) w))
      (consume_at-Implements (quota_key user f e now) (limit e f) amount w up synced)

-- The whole way of a unit of quota. With Redis up, a coherent cache, the key's counter missing or
-- equal to the durable one, and an answer of the tables: the call answers as one counter would, and
-- leaves that counter's total in the table, with the limit and the window that the tables give now.
pub guard_consume_lem :
    (user : ℕ) (f : FeatureKey) (amount : ℕ) (now : DateTime) (w : World) (e : Entitlements)
    → IsUp w
    → IsCoherent w.db now w.redis
    → IsSynced (quota_key user f e now) w
    → resolve w.db user now ≡ ok e
    → let k = quota_key user f e now in
      let spec = spec_consume k (limit e f) amount (db_used k w) in
      ((guard_consume user f amount now w).0 ≡ as_unit spec.0)
      × (db_used k (guard_consume user f amount now w).1 ≡ spec.1)
unfolding guard_consume entitled consume db_used
guard_consume_lem user f amount now w e up c synced r =
    go (get w.db user now w.redis) (get-eq-resolve user c read ∙ r)
      (get-Quiet w.db user now w.redis up)
  where
    read : (catalog_version w.redis).0 ≡ current w.redis
    read = rw (version-up w.redis up) refl

    go :
        (x : Result Entitlements × Redis)
        → x.0 ≡ ok e
        → Quiet w.redis x.1
        → let k = quota_key user f e now in
          let spec = spec_consume k (limit e f) amount (db_used k w) in
          ((consumed user f amount now (refreshed w x)).0 ≡ as_unit spec.0)
          × (db_used k (consumed user f amount now (refreshed w x)).1 ≡ spec.1)
    go (a, s) h q = rw h (
        counted user f amount now e (record w { redis = s }) q.0
          (unfold db_used in rw (q.1) synced))
