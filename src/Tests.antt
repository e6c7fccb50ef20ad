-- ===== src/Tests.antt =====
-- Small runs of the model, and the theorems at concrete inputs.
mod Samples
mod OfEntitlements
mod OfQuota
mod OfBilling
mod OfLicensing
mod OfRouter
mod OfAuth
mod OfPages
mod OfChat
mod OfMeetings
