-- ===== src/Quota/Counters.antt =====
-- Counters by key, in `usage_counters` and in Redis.
use chatfolio_backend.Prelude.{
  ℕ, ◌+◌, ◌-◌, ◌≡◌, ap, Bool, true, false, ◌&&◌, Option, none, some, List, [], ◌∷◌, ◌==◌,
  if◌then◌else◌, arith, Bool-cases, inl, inr,
}
use chatfolio_backend.Prelude.Int.{ℤ, pos, negsuc}
use chatfolio_backend.Catalog.{eq_feature}
use chatfolio_backend.Catalog.Keys.{place_injective}
use chatfolio_backend.Time.Periods.{eq_key, eq_key→eq, eq_key_refl}
use chatfolio_backend.Models.Billing.{QuotaKey}

unfoldable pub eq_quota : QuotaKey → QuotaKey → Bool
eq_quota a b = (a.user == b.user) && eq_feature a.feature b.feature && eq_key a.period b.period

pub eq_quota→eq : (a b : QuotaKey) → eq_quota a b ≡ true → a ≡ b
unfolding eq_quota
eq_quota→eq a b h = ground (arith, place_injective a.feature b.feature, eq_key→eq a.period b.period)

pub eq_quota_refl : (a : QuotaKey) → eq_quota a a ≡ true
unfolding eq_quota
eq_quota_refl a = ground (arith, eq_key_refl a.period)

abbrev pub Counters : Type 0
Counters = List (QuotaKey × ℕ)

unfoldable pub find : QuotaKey → Counters → Option ℕ
find k [] = none
find k ((j, n) ∷ l) = if eq_quota k j then some n else find k l

unfoldable pub put : QuotaKey → ℕ → Counters → Counters
put k n [] = (k, n) ∷ []
put k n (e ∷ l) = if eq_quota k e.0 then (k, n) ∷ l else e ∷ put k n l

pub find-put_self : (k : QuotaKey) (n : ℕ) (l : Counters) → find k (put k n l) ≡ some n
unfolding find put
find-put_self k n [] = ground (arith, eq_quota_refl k)
find-put_self k n (e ∷ l) = ground (arith, eq_quota_refl k, find-put_self k n l)

pub find-put_other :
    (j k : QuotaKey) (n : ℕ) (l : Counters) → eq_quota j k ≡ false → find j (put k n l) ≡ find j l
unfolding find put
find-put_other j k n [] h = ground arith
find-put_other j k n (e ∷ l) h = elim (Bool-cases (eq_quota k e.0)) [
  | inl hit ↦ ground (arith, ap (eq_quota j) (eq_quota→eq k e.0 hit))
  | inr miss ↦ ground (arith, find-put_other j k n l h)
]

-- `greatest(used + delta, 0)`
abbrev pub moved : ℤ → ℕ → ℕ
moved (pos d) n = n + d
moved (negsuc d) n = n - (d + 1)
