-- ===== src/Time.antt =====
-- Dates, durations and quota windows.
pub mod Calendar
pub mod Order
pub mod Duration
pub mod Periods
