-- ===== src/Models.antt =====
-- The tables. A row's id stands for its UUID; `next_id` is the source of fresh ones. Times are in
-- UTC. Copy that only the pricing page shows (taglines, bullets) and audit rows are left out.
pub mod Billing
pub mod Users
pub mod Accounts
pub mod Redis
pub mod Site
pub mod Chat
