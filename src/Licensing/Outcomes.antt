-- ===== src/Licensing/Outcomes.antt =====
-- What the steps of an activation can end in: a key bound to its user, or an error with the tables as
-- they were.
use chatfolio_backend.Prelude.{
  ℕ, ◌≡◌, ◌≢◌, refl, ◌⊎◌, inl, inr, true, Option, none, some, String, str_eq, str_eq_iff, any_row,
  arith, Bool-cases,
}
use chatfolio_backend.Errors.{Result, ok, err, integrity}
use chatfolio_backend.Action.{proceed}
use chatfolio_backend.Time.Calendar.{DateTime}
use chatfolio_backend.Models.Users.{User}
use chatfolio_backend.Models.Billing.{Db, Plan, License, LicenseStatus}
use chatfolio_backend.World.{World}
use chatfolio_backend.Quota.Tallied.{send-db}
use chatfolio_backend.Billing.Grant.{grant_from_purchase}
use chatfolio_backend.Licensing.{
  Outside, BillingSettings, PurchaseVerification, license_by_hash, record_failed_attempt,
  existing_license_outcome,
}
use chatfolio_backend.Licensing.Activate.{
  new_license, add_license, claim, raced, claimed, accept, seller, too_old,
}

-- A success leaves the key with this user.
abbrev pub Binds : String → User → Result (Unit {0}) × World → Type 0
Binds h user (r, w) =
    r ≡ ok tt → (l : License) × (license_by_hash h w ≡ some l) × (l.user_id ≡ user.id)

-- An error, with the tables as they were.
abbrev pub Refuses : Db → Result (Unit {0}) × World → Type 0
Refuses d (r, w) = (r ≢ ok tt) × (w.db ≡ d)

pub proceed-Binds :
    {A : Type 0} (h : String) (user : User) (x : Result A × World)
    (f : A → World → Result (Unit {0}) × World)
    → ((a : A) (w : World) → Binds h user (f a w))
    → Binds h user (proceed x f)
proceed-Binds h user (ok a, w) f g = g a w
proceed-Binds h user (err e, w) f g = λ k. cc

pub proceed-Refuses :
    {A : Type 0} (d : Db) (x : Result A × World) (f : A → World → Result (Unit {0}) × World)
    → x.1.db ≡ d
    → ((a : A) (w : World) → w.db ≡ d → Refuses d (f a w))
    → Refuses d (proceed x f)
proceed-Refuses d (ok a, w) f e g = g a w e
proceed-Refuses d (err x, w) f e g = (λ k. cc, e)

pub record_failed_attempt-db : (user : ℕ) (w : World) → (record_failed_attempt user w).db ≡ w.db
unfolding record_failed_attempt
record_failed_attempt-db user w = send-db _ w

pub existing_license_outcome-db :
    (l : License) (user : User) (now : DateTime) (w : World)
    → (existing_license_outcome l user now w).1.db ≡ w.db
unfolding existing_license_outcome
existing_license_outcome-db l user now w = ground (arith, record_failed_attempt-db user.id w)

pub existing_license_outcome-Refuses :
    (l : License) (user : User) (now : DateTime) (w : World)
    → (l.user_id ≢ user.id) ⊎ (l.status ≡ LicenseStatus.revoked)
    → Refuses w.db (existing_license_outcome l user now w)
existing_license_outcome-Refuses l user now w why =
    (refused why, existing_license_outcome-db l user now w)
  where
    refused :
        (l.user_id ≢ user.id) ⊎ (l.status ≡ LicenseStatus.revoked)
        → (existing_license_outcome l user now w).0 ≢ ok tt
    refused (inl other) = unfold existing_license_outcome in ground arith
    refused (inr dead) = unfold existing_license_outcome in ground arith

pub existing_license_outcome-Binds :
    (h : String) (l : License) (user : User) (now : DateTime) (w : World)
    → license_by_hash h w ≡ some l
    → Binds h user (existing_license_outcome l user now w)
existing_license_outcome-Binds h l user now w e = λ k. (
  l,
  unfold license_by_hash in
      rw (existing_license_outcome-db l user now w) (unfold license_by_hash in e),
  mine k,
)
  where
    mine : (existing_license_outcome l user now w).0 ≡ ok tt → l.user_id ≡ user.id
    mine k = unfold existing_license_outcome in ground arith

pub str_eq_refl : (s : String) → str_eq s s ≡ true
str_eq_refl s = (str_eq_iff s s).1 refl

pub add_license-Binds :
    (x : Outside) (key : String) (user : User) (plan : Plan) (order : ℕ) (now : DateTime)
    (w : World)
    → Binds (x.digest key) user (add_license (new_license x key user plan order now) w)
unfolding add_license new_license license_by_hash
add_license-Binds x key user plan order now w =
    elim (Bool-cases (any_row (λ m. str_eq m.license_key_hash (x.digest key)) w.db.licenses)) [
      | inl taken ↦ rw taken (λ k. cc)
      | inr fresh ↦ rw fresh (λ k. (
        record (new_license x key user plan order now) { id = w.db.next_id },
        rw (str_eq_refl (x.digest key)) refl,
        refl,
      ))
    ]

pub claim-Binds :
    (x : Outside) (key : String) (user : User) (plan : Plan) (bought : Option DateTime)
    (now : DateTime) (w : World)
    → Binds (x.digest key) user (claim x key user plan bought now w)
unfolding claim
claim-Binds x key user plan bought now w =
    proceed-Binds (x.digest key) user
      (grant_from_purchase user.id plan seller (x.digest key) bought now w) _
      (λ g v. add_license-Binds x key user plan g.0.id now v)

pub raced-Binds :
    (h : String) (o : Option License) (user : User) (now : DateTime) (w : World)
    → license_by_hash h w ≡ o
    → Binds h user (raced o user now w)
raced-Binds h none user now w e = λ k. cc
raced-Binds h (some l) user now w e = existing_license_outcome-Binds h l user now w e

pub claimed-Binds :
    (h : String) (user : User) (now : DateTime) (before : World) (x : Result (Unit {0}) × World)
    → Binds h user x
    → Binds h user (claimed h user now before x)
claimed-Binds h user now before (ok _, w) b =
    λ k. unfold license_by_hash in (unfold license_by_hash in b refl)
claimed-Binds h user now before (err integrity, w) b =
    raced-Binds h (license_by_hash h before) user now before refl
claimed-Binds h user now before (err e, w) b = λ k. cc

pub accept-Binds :
    (x : Outside) (settings : BillingSettings) (key : String) (user : User) (plan : Plan)
    (v : PurchaseVerification) (now : DateTime) (w : World)
    → Binds (x.digest key) user (accept x settings key user plan v now w)
unfolding accept
accept-Binds x settings key user plan v now w = elim (Bool-cases v.valid) [
  | inr bad ↦ rw bad (λ k. cc)
  | inl good ↦ elim (Bool-cases (too_old settings.max_activation_delay_days v.purchased_at now)) [
    | inl old ↦ simp (good, old) (λ k. cc)
    | inr new ↦
        simp (good, new)
          (claimed-Binds (x.digest key) user now w (claim x key user plan v.purchased_at now w)
            (claim-Binds x key user plan v.purchased_at now w))
  ]
]
