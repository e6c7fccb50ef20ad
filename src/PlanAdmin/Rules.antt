-- ===== src/PlanAdmin/Rules.antt =====
-- services/plan_admin_service.py: what an edit of a plan's fields leaves in the table of plans.
use chatfolio_backend.Prelude.{ℕ, ◌≡◌, true, some, ◌==◌, if◌then◌else◌}
use chatfolio_backend.Models.Billing.{Plan}
use chatfolio_backend.PlanAdmin.{Pricing, find_plan}
use chatfolio_backend.PlanAdmin.Editing.{is_lifetime}

-- The rules for a plan's term, and what the default free plan keeps.
abbrev pub KeepsRules : Plan → Plan → Type 0
KeepsRules old new =
    (is_lifetime new.duration_unit ≡ (new.duration_count == 0))
    × (old.is_default_free ≡ true → old.is_active ≡ true → new.is_active ≡ true)
    × (old.is_default_free ≡ true → new.duration_unit ≡ old.duration_unit)

-- The table has the new plan under its id, and every other plan as it was.
abbrev pub Saves : Pricing → Plan → Pricing → Type 0
Saves s new after = (q : ℕ) → find_plan q after ≡ (if new.id == q then some new else find_plan q s)
