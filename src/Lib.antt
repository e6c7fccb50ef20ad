-- ===== src/Lib.antt =====
-- Verification of the core of chatfolio-backend: accounts and their sessions, public pages and
-- their slugs, the chats and meetings of visitors, and the billing: what a user may do, how much of
-- it, and what changes that.
--
-- The program's parts and their files. Paths are below src/chatfolio/.
--   Time/         datetime values in UTC (year, month, day, microseconds of the day) and their
--                 order; entitlements/duration.py (`add_months`, `compute_expiry`) and
--                 entitlements/periods.py (`period_key`, `seconds_until_period_end`).
--   Catalog       entitlements/catalog.py: features, and the check of a feature's value.
--   Models/       models/billing.py and models/user.py: one record for a row, lists for tables
--                 (`Db`); Models/Redis is the part of Redis that the services use.
--   Errors        core/exceptions.py. Action: a service call, from a state to a result and a
--                 state. World: the tables and Redis.
--   Entitlements/ entitlements/types.py, entitlements/cache.py and
--                 services/entitlement_service.py: Resolve is `_resolve`, Service is `get`, Cache
--                 the cache. Snapshot, Overrides and Coherence hold the proofs.
--   Quota/        services/quota_service.py: `consume` and `release` with the two Lua scripts, the
--                 seeding of lost counters and the fallback without Redis. Exact compares the two
--                 layers with one counter, Bounded takes any failures, Runs any history of one
--                 counter, Outage what a short outage leaves behind.
--                 Tally is `add_usage`, `used`, `ensure_open` and `ensure_room`.
--   Guard         services/entitlement_guard.py: what services call.
--   Billing/      services/billing_service.py (Grant, Trial),
--                 services/subscription_admin_service.py (Admin), workers/jobs_billing.py (Jobs).
--                 The other files hold the proofs.
--   Licensing/    services/billing_service.py: Activate is `activate_license`, Revoke the
--                 revocation and re-validation and the loop of the job in
--                 workers/jobs_billing.py, Outage what the loop does without the seller.
--                 `Outside` holds what they are given from outside: the
--                 seller's answers, the digest and encryption of a key, and two text functions.
--   Seeding       entitlements/catalog.py: the default plans and `ensure_catalog`.
--   Router        llm/model_router.py: the model that answers for a user, and the user's preference.
--                 The catalogue that a call works with and the environment's settings are
--                 arguments. Router/Catalogue builds the catalogue and the list of choices.
--   Auth/         services/auth_service.py with repositories/user_repository.py: Login and Recovery
--                 are the operations, Tokens the signed tokens (core/security.py) and
--                 `get_current_user` (api/deps.py), Session what db/session.py does around every
--                 request. `Crypto` holds what a request is given from outside: digests, fresh
--                 secrets, the `jwt` package and a few text functions. Kept and KeptRecovery carry a
--                 property of the tables through every operation; Runs is any history of requests.
--   Portfolio/    services/portfolio_service.py (the page and its slugs; Aliases, Publishing),
--                 services/chatfolio_resolver.py (Resolver) and services/domain_service.py
--                 (Domains), on the tables of Models/Site. The other files hold the proofs.
--   Chat/         services/chat_service.py: Service is `send_message`, Metadata what becomes known of
--                 a visitor, Cooldown the messages that come too early. `Session` holds what a
--                 request sees and what it committed last; `RagService` holds the answers of
--                 services/rag_service.py.
--   Meetings/     services/meeting_service.py with repositories/meeting_repository.py: Booking is the
--                 request of the candidate or of a visitor, Spaced how close requests can lie.
--                 `Google` holds the answers of the calendar and the encryption of tokens.
--   PlanAdmin/    services/plan_admin_service.py: creation and deletion of plans, and Editing their
--                 fields, features and models. Differences tells whether an edit changes
--                 anything, and Rules is what an edit of the fields leaves.
-- A change of a subscription or an override writes its rows and then drops the user's snapshot
-- (Billing on Entitlements.Cache); a quota is consumed with the limit and the period that the
-- snapshot gives (Quota on Entitlements). A page is published and renamed, and an alias added, under
-- the guard (Portfolio on Guard); an edit of a plan bumps the version of the cache (PlanAdmin on
-- Entitlements.Cache). A visitor's chat and meeting count against the plan of the page's owner (Chat
-- and Meetings on Guard), and a meeting starts from a chat.
--
-- How the state is modelled. A query is a search in a list, an insert adds a row at the front, and
-- a unique index is a test before the insert. A UUID is a number from `next_id`, which no row has
-- yet. An operation reads the clock once, which is also the time of the rows that it writes; only
-- a visitor's request for a meeting has the time when its transaction began, too, which its row
-- gets. Requests of one user run one after the other: the code takes a lock of the user. An error
-- keeps the state at the raise; what a rolled back session loses is said where a theorem needs it.
-- Redis has a list of faults, one for each coming command, and when it is used up every command
-- succeeds; a command that fails has no effect; a key that expires is a row that goes away between
-- commands. `redis_consume` runs its loop twice, as the code does, by recursion on the rounds
-- left; the five draws of a slug are a recursion on the draws left. Nothing else needs fuel.
--
-- Bounds. Numbers are unbounded, as Python's are; limits are integers with -1 for unlimited, and
-- consumed amounts are natural numbers. The end of datetime's range (year 9999) is not modelled.
--
-- Not modelled: the texts of the catalogue and of the pricing page, audit rows, response bodies
-- (masked addresses among them), logging, and messages of errors that quote a value; the rows and
-- columns that only prose fills; the search of published pages; connecting a calendar, reports,
-- roles and the API routes; the retrieval service, and the SMS alerts of chats and meetings. A null
-- in a change of a page's settings, which its columns refuse, and a lost race for a profile, which
-- needs two requests at once, are left out.
pub mod Prelude
pub mod Time
pub mod Catalog
pub mod Chat
pub mod Errors
pub mod Action
pub mod Models
pub mod Entitlements
pub mod World
pub mod Quota
pub mod Billing
pub mod Auth
pub mod Portfolio
pub mod PlanAdmin
pub mod Guard
pub mod Meetings
pub mod Licensing
pub mod Router
pub mod Seeding
pub mod Tests
