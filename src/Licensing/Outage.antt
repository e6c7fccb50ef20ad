-- ===== src/Licensing/Outage.antt =====
-- The re-validation of licenses (services/billing_service.py, workers/jobs_billing.py) while the seller
-- cannot be asked.
use chatfolio_backend.Prelude.{
  ℕ, suc, ◌+◌, ◌≡◌, refl, ◌∙◌, ap, inl, inr, Bool-cases, Bool, ◌||◌, ◌⊎◌, All, not, Option, none,
  List, [], ◌∷◌, String, str_eq, ◌==◌, first_row, arith, length,
}
use chatfolio_backend.Errors.{Error, Result, ok, err, service_unavailable, runtime}
use chatfolio_backend.Time.Calendar.{DateTime}
use chatfolio_backend.Models.Billing.{License}
use chatfolio_backend.World.{World}
use chatfolio_backend.Licensing.{Outside}
use chatfolio_backend.Licensing.Activate.{product_ref}
use chatfolio_backend.Licensing.Revoke.{
  ref_of, judged, questioned, revalidate_license, Outcome, tallied, after_rollback, revalidate_all,
}

-- The seller's answer is `ServiceUnavailableError`, whatever is asked.
unfoldable pub IsUnreachable : Outside → Type 0
IsUnreachable x =
    (key ref : String) → (m : String) × (x.verify key ref ≡ err (service_unavailable m))

-- The seller's answer is an error of any kind.
unfoldable pub IsOutage : Outside → Type 0
IsOutage x = (key ref : String) → (e : Error) × (x.verify key ref ≡ err e)

-- The key of a license can be decrypted.
abbrev pub IsReadable : Outside → License → Type 0
IsReadable x l = (key : String) × (x.decrypt l.license_key_encrypted ≡ ok key)

revalidate_license-unreachable :
    (x : Outside) (l : License) (now : DateTime) (w : World)
    → IsUnreachable x
    → IsReadable x l
    → revalidate_license x l now w ≡ (ok none, w)
unfolding revalidate_license IsUnreachable
revalidate_license-unreachable x l now w out (key, readable) =
    let ref = product_ref x (ref_of (first_row (λ p. p.id == l.plan_id) w.db.plans)) in
    let (m, is) = out key ref in
    elim (Bool-cases (str_eq ref "" || not x.is_registered)) [
      | inl idle ↦ rw (idle, revalidate_license) refl
      | inr asks ↦ rw (asks, revalidate_license) (rw (readable, is) refl)
    ]

-- While the seller answers every question with ServiceUnavailableError, the loop of the
-- re-validation over licenses whose keys can be decrypted returns, counts every license as unknown
-- and leaves the state as it was.
pub revalidate_all-outage :
    (x : Outside) (now : DateTime) (ls : List License) (o : Outcome) (w : World)
    → IsUnreachable x
    → All (IsReadable x) ls
    → revalidate_all x now ls o w ≡ (ok (record o { unknown = o.unknown + length ls }), w)
unfolding revalidate_all
revalidate_all-outage x now [] o w out keys =
    ap (λ n. (ok (record o { unknown = n }), w)) (omega (arith))
revalidate_all-outage x now (l ∷ ls) o w out (key, keys) =
    let e = revalidate_license-unreachable x l now w out key in
    rw (revalidate_all, e, ap (λ m. m.1) e)
      (revalidate_all-outage x now ls (record o { unknown = o.unknown + 1 }) w out keys
        ∙ ap (λ n. (ok (record o { unknown = n }), w)) (omega (arith)))

-- What a loop that changed nothing ends with.
abbrev pub Untouched : ℕ → Outcome → World → Result Outcome × World → Type 0
Untouched n o w m = (m ≡ (ok (record o { unknown = o.unknown + n }), w)) ⊎ (m ≡ (err runtime, w))

-- One round of the loop during an outage.
abbrev Idle : World → Result (Option Bool) × World → Type 0
Idle w m = (m ≡ (ok none, w)) ⊎ ((e : Error) × (m ≡ (err e, w)))

judged-Idle :
    (l : License) (now : DateTime) (e : Error) (w : World) → Idle w (judged l now (err e) w)
judged-Idle l now (service_unavailable m) w = inl refl
judged-Idle l now e w = inr (e, refl)

questioned-Idle :
    (x : Outside) (l : License) (now : DateTime) (ref : String) (key : Result String) (w : World)
    → IsOutage x
    → Idle w (questioned x l now ref key w)
unfolding IsOutage
questioned-Idle x l now ref (err e) w out = inr (e, refl)
questioned-Idle x l now ref (ok key) w out =
    let (e, is) = out key ref in rw is (judged-Idle l now e w)

revalidate_license-Idle :
    (x : Outside) (l : License) (now : DateTime) (w : World)
    → IsOutage x
    → Idle w (revalidate_license x l now w)
unfolding revalidate_license
revalidate_license-Idle x l now w out =
    let ref = product_ref x (ref_of (first_row (λ p. p.id == l.plan_id) w.db.plans)) in
    elim (Bool-cases (str_eq ref "" || not x.is_registered)) [
      | inl idle ↦ inl (rw (revalidate_license, idle) refl)
      | inr asks ↦
          rw (revalidate_license, asks)
            (questioned-Idle x l now ref (x.decrypt l.license_key_encrypted) w out)
    ]

after_rollback-Untouched :
    (ls : List License) (o : Outcome) (w : World)
    → Untouched (suc (length ls)) o w (after_rollback ls (tallied none o) w)
after_rollback-Untouched [] o w = inl refl
after_rollback-Untouched (l ∷ ls) o w = inr refl

one_more :
    (n : ℕ) (o : Outcome) (w : World) (m : Result Outcome × World)
    → Untouched n (tallied none o) w m
    → Untouched (suc n) o w m
one_more n o w m (inl e) = inl (e ∙ ap (λ k. (ok (record o { unknown = k }), w)) (omega arith))
one_more n o w m (inr e) = inr e

-- While every question to the seller ends in an error of any kind, the loop leaves all tables and
-- Redis as they were. It counts every license as unknown, or it ends with an exception.
pub revalidate_all-Untouched :
    (x : Outside) (now : DateTime) (ls : List License) (o : Outcome) (w : World)
    → IsOutage x
    → Untouched (length ls) o w (revalidate_all x now ls o w)
unfolding revalidate_all
revalidate_all-Untouched x now [] o w out =
    inl (ap (λ n. (ok (record o { unknown = n }), w)) (omega (arith)))
revalidate_all-Untouched x now (l ∷ ls) o w out = elim (revalidate_license-Idle x l now w out) [
  | inl e ↦
      rw (revalidate_all, e, ap (λ m. m.1) e)
        (one_more (length ls) o w (revalidate_all x now ls (tallied none o) w)
          (revalidate_all-Untouched x now ls (tallied none o) w out))
  | inr (_, e) ↦ rw (revalidate_all, e) (after_rollback-Untouched ls o w)
]
