-- ===== src/Billing.antt =====
-- Subscriptions and what changes them: purchases, trials, grants by an admin, revocations, and the
-- housekeeping job.
pub mod Grant
pub mod Trial
pub mod Admin
pub mod Jobs
pub mod OneActive
pub mod Frame
pub mod Purchase
pub mod Terms
pub mod Bought
pub mod Once
pub mod Granted
pub mod Overridden
