-- ===== src/Billing/Jobs.antt =====
-- workers/jobs_billing.py: the job that flips the status of subscriptions past their end.
use chatfolio_backend.Prelude.{
  ℕ, Bool, false, ◌&&◌, Option, none, some, ltb, update_rows, count_rows,
}
use chatfolio_backend.Time.Calendar.{DateTime, moment}
use chatfolio_backend.Models.Billing.{Db, Subscription, SubscriptionStatus}
use chatfolio_backend.Entitlements.Resolve.{is_active}

-- `expires_at IS NOT NULL AND expires_at < now`
abbrev pub is_over : DateTime → Option DateTime → Bool
is_over now none = false
is_over now (some e) = ltb (moment e) (moment now)

abbrev pub lapsed : DateTime → Subscription → Bool
lapsed now s = is_active s.status && is_over now s.expires_at

abbrev pub expire : Subscription → Subscription
expire s = record s { status = SubscriptionStatus.expired }

-- The new tables, and the number of rows that changed.
unfoldable pub expire_subscriptions_job : DateTime → Db → Db × ℕ
expire_subscriptions_job now db = (
  record db { subscriptions = update_rows (lapsed now) expire db.subscriptions },
  count_rows (lapsed now) db.subscriptions,
)
