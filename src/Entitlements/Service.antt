-- ===== src/Entitlements/Service.antt =====
-- EntitlementService.get and invalidate (services/entitlement_service.py): the cache in front of
-- `resolve`.
use Prim.Native.Nat.{min}
use chatfolio_backend.Prelude.{ℕ, ◌-◌, ◌/◌, Option, none, some, ltb, if◌then◌else◌}
use chatfolio_backend.Errors.{Result, ok, err}
use chatfolio_backend.Time.Calendar.{DateTime, instant}
use chatfolio_backend.Models.Billing.{Db}
use chatfolio_backend.Models.Redis.{Redis}
use chatfolio_backend.Entitlements.{Entitlements}
use chatfolio_backend.Entitlements.Resolve.{unexpired, resolve}
use chatfolio_backend.Entitlements.Cache.{get_entitlements, set_entitlements}

abbrev pub ttl_seconds : ℕ
ttl_seconds = 300

-- `int(total_seconds())` rounds a negative span to 0 or below, where nothing is stored either.
unfoldable pub ttl_for : Option DateTime → DateTime → ℕ
ttl_for none now = ttl_seconds
ttl_for (some until) now = min ttl_seconds ((instant until - instant now) / 1000000)

unfoldable pub store : ℕ → DateTime → Result Entitlements → Redis → Result Entitlements × Redis
unfolding ttl_for
store user now (err x) r = (err x, r)
store user now (ok e) r =
    let ttl = ttl_for e.valid_until now in
    (ok e, if ltb 0 ttl then set_entitlements user e ttl r else r)

-- What the cache answered, used if it is still fresh.
unfoldable pub serve : Db → ℕ → DateTime → Option Entitlements → Redis → Result Entitlements × Redis
unfolding store
serve db user now none r = store user now (resolve db user now) r
serve db user now (some e) r =
    if unexpired now e.valid_until then (ok e, r) else store user now (resolve db user now) r

unfoldable pub get : Db → ℕ → DateTime → Redis → Result Entitlements × Redis
unfolding serve
get db user now r = let (cached, r') = get_entitlements user r in serve db user now cached r'
