-- ===== src/Models/Redis.antt =====
-- The part of Redis that the services use. A command can fail: `faults` says it of each coming
-- command, true for a failure; when the list is used up all succeed. A key that expires is a row
-- that goes away between two commands.
use chatfolio_backend.Prelude.{
  ℕ, Bool, true, false, Option, none, some, List, [], ◌∷◌, ◌≡◌, refl, ◌⊎◌, inl, inr,
}
use chatfolio_backend.Models.Billing.{QuotaKey}
use chatfolio_backend.Entitlements.{Entitlements}

-- `ent:v{version}:{user}`
pub record SnapshotRow : Type 0 where
  pub version : ℕ
  pub user : ℕ
  pub entitlements : Entitlements
  pub ttl : ℕ

pub record Redis : Type 0 where
  pub faults : List Bool
  -- `ent:catalog_ver`
  pub catalog_version : Option ℕ
  pub snapshots : List SnapshotRow
  pub counters : List (QuotaKey × ℕ)
  -- `billing:failed:{user}`
  pub failed_attempts : List (ℕ × ℕ)

module _ {A : Type 0} where
  attempt : (Redis → A × Redis) → Bool → Redis → Option A × Redis
  attempt f true r = (none, r)
  attempt f false r = let (a, r') = f r in (some a, r')

  -- One command: `none` is the exception that the client raises.
  unfoldable pub command : (Redis → A × Redis) → Redis → Option A × Redis
  unfolding attempt
  command f r = elim r.faults [
    | [] ↦ attempt f false (record r { faults = [] })
    | failing ∷ rest ↦ attempt f failing (record r { faults = rest })
  ]

  -- A command fails or runs; either way only the list of faults has moved on before it.
  pub command-cases :
      (f : Redis → A × Redis) (r : Redis)
      → (fs : List Bool) × ((command f r ≡ (none, record r { faults = fs }))
          ⊎ (command f r
              ≡ (some (f (record r { faults = fs })).0, (f (record r { faults = fs })).1)))
  unfolding command
  command-cases f r = go r.faults refl
    where
      go :
          (l : List Bool)
          → r.faults ≡ l
          → (fs : List Bool) × ((command f r ≡ (none, record r { faults = fs }))
              ⊎ (command f r
                  ≡ (some (f (record r { faults = fs })).0, (f (record r { faults = fs })).1)))
      go [] e = ([], inr (rw (e, command)))
      go (true ∷ fs) e = (fs, inl (rw (e, command)))
      go (false ∷ fs) e = (fs, inr (rw (e, command)))

  -- While Redis is up a command runs.
  pub command-up :
      (f : Redis → A × Redis) (r : Redis)
      → r.faults ≡ []
      → command f r ≡ (some (f (record r { faults = [] })).0, (f (record r { faults = [] })).1)
  unfolding command
  command-up f r up = rw (up, command)

  pub command-down :
      (f : Redis → A × Redis) (r : Redis) (fs : List Bool)
      → r.faults ≡ true ∷ fs
      → command f r ≡ (none, record r { faults = fs })
  unfolding command
  command-down f r fs down = rw (down, command)
