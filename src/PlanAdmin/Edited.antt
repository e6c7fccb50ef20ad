-- ===== src/PlanAdmin/Edited.antt =====
-- What an administrator's edits leave: services/plan_admin_service.py.
use chatfolio_backend.Prelude.{
  ℕ, ◌+◌, get_or, ◌≡◌, refl, sym, ◌∙◌, ap, Bool, true, false, ◌&&◌, ◌||◌, not, Bool-cases, inl, inr,
  some, arith, List, [], ◌∷◌, ◌==◌, if◌then◌else◌, any_row, delete_rows,
}
use chatfolio_backend.Action.Leaves.{Returns, Returns-finds, Returns-checks}
use chatfolio_backend.Time.Calendar.{DateTime}
use chatfolio_backend.Models.Billing.{Db, Plan}
use chatfolio_backend.Models.Redis.{Redis, command-up}
use chatfolio_backend.Entitlements.Cache.{bump_catalog_version}
use chatfolio_backend.Entitlements.Resolve.{resolve}
use chatfolio_backend.Entitlements.Service.{get}
use chatfolio_backend.Entitlements.Coherence.{
  IsCoherent, bump-IsCoherent, version-up, get-eq-resolve,
}
use chatfolio_backend.PlanAdmin.{Pricing, find_plan, commit_and_bump}
use chatfolio_backend.PlanAdmin.Editing.{
  holds, offers, unwanted, new_model, add_models, models_change, save_models, set_plan_models,
}

-- A row that is there counts for itself, and for any row equal to it.
there-offers :
    (p q m k : ℕ) (rows : List (ℕ × ℕ))
    → any_row (offers p k) rows ≡ true
    → ((p == q) && (k == m)) ≡ true
    → any_row (offers q m) rows ≡ true
there-offers p q m k [] h e = cc
there-offers p q m k ((a, b) ∷ rows) h e = ground (arith, there-offers p q m k rows)

added :
    (p q m : ℕ) (ms : List ℕ) (rows : List (ℕ × ℕ))
    → any_row (offers q m) (add_models p ms rows)
      ≡ (((p == q) && holds ms m) || any_row (offers q m) rows)
unfolding add_models
added p q m [] rows = ground arith
added p q m (k ∷ ms) rows = elim (Bool-cases (any_row (offers p k) rows)) [
  | inl there ↦ rw there (added p q m ms rows ∙ ground (arith, there-offers p q m k rows there))
  | inr new ↦ rw new (added p q m ms ((p, k) ∷ rows) ∙ ground arith)
]

same_nat : (a b : ℕ) → (a == b) ≡ true → a ≡ b
same_nat a b h = ground arith

deleted :
    (p q m : ℕ) (wanted : List ℕ) (rows : List (ℕ × ℕ))
    → any_row (offers q m) (delete_rows (unwanted p wanted) rows)
      ≡ (any_row (offers q m) rows && (not (p == q) || holds wanted m))
deleted p q m wanted [] = refl
deleted p q m wanted ((a, b) ∷ rows) = elim (Bool-cases (b == m)) [
  | inl same ↦ rw (same_nat b m same) ground (arith, deleted p q m wanted rows)
  | inr other ↦ ground (arith, deleted p q m wanted rows)
]

none-new :
    (p m : ℕ) (wanted : List ℕ) (rows : List (ℕ × ℕ))
    → any_row (new_model p rows) wanted ≡ false
    → holds wanted m ≡ true
    → any_row (offers p m) rows ≡ true
none-new p m [] rows h k = cc
none-new p m (w ∷ wanted) rows h k = elim (Bool-cases (w == m)) [
  | inl same ↦ rw (sym (same_nat w m same)) ground arith
  | inr other ↦ ground (arith, none-new p m wanted rows)
]

none-old :
    (p m : ℕ) (wanted : List ℕ) (rows : List (ℕ × ℕ))
    → any_row (unwanted p wanted) rows ≡ false
    → any_row (offers p m) rows ≡ true
    → holds wanted m ≡ true
none-old p m wanted [] h k = cc
none-old p m wanted ((a, b) ∷ rows) h k = elim (Bool-cases (b == m)) [
  | inl same ↦
      let e : holds wanted b ≡ holds wanted m = ap (holds wanted) (same_nat b m same) in
      ground (arith, e, none-old p m wanted rows)
  | inr other ↦ ground (arith, none-old p m wanted rows)
]

unchanged :
    (p m : ℕ) (wanted : List ℕ) (rows : List (ℕ × ℕ))
    → any_row (new_model p rows) wanted ≡ false
    → any_row (unwanted p wanted) rows ≡ false
    → any_row (offers p m) rows ≡ holds wanted m
unchanged p m wanted rows a b = elim (Bool-cases (any_row (offers p m) rows)) [
  | inl yes_it ↦ yes_it ∙ sym (none-old p m wanted rows b yes_it)
  | inr not_it ↦ elim (Bool-cases (holds wanted m)) [
    | inl h ↦ none-new p m wanted rows a h ∙ sym h
    | inr h ↦ not_it ∙ sym h
  ]
]

-- The models of plan `p` are the wanted ones, and those of other plans are what they were.
abbrev pub Offers : List ℕ → Pricing → Plan → Pricing → Type 0
Offers wanted s p t =
    (q m : ℕ)
    → any_row (offers q m) t.plan_models
      ≡ (if p.id == q then holds wanted m else any_row (offers q m) s.plan_models)

save_models_offer :
    (p q m : ℕ) (wanted : List ℕ) (s : Pricing)
    → any_row (offers q m) (save_models p wanted s).plan_models
      ≡ (if p == q then holds wanted m else any_row (offers q m) s.plan_models)
unfolding commit_and_bump
save_models_offer p q m wanted s = elim (Bool-cases (models_change p wanted s.plan_models)) [
  | inl change ↦ rw change (
      deleted p q m wanted (add_models p wanted s.plan_models)
      ∙ rw (added p q m wanted s.plan_models) ground arith)
  | inr same ↦ rw same (elim (Bool-cases (p == q)) [
    | inr other ↦ rw other refl
    | inl own ↦
        rw own rw (sym (same_nat p q own))
          (unchanged p m wanted s.plan_models (left _ _ same) (right _ _ same))
  ])
]
  where
    left : (a b : Bool) → (a || b) ≡ false → a ≡ false
    left a b h = ground arith

    right : (a b : Bool) → (a || b) ≡ false → b ≡ false
    right a b h = ground arith

-- After `set_plan_models` returns, the plan offers exactly the wanted models, however the payload
-- orders or repeats them, and every other plan offers what it did.
pub set_plan_models-Offers :
    (id : ℕ) (wanted : List ℕ) (s : Pricing)
    → Returns (Offers wanted s) (set_plan_models id wanted s)
unfolding set_plan_models
set_plan_models-Offers id wanted s = Returns-finds (Offers wanted s) (find_plan id s) _ s _ (λ p _.
    Returns-checks (Offers wanted s) (any_row (λ m. not (holds s.models m)) wanted) _ s _
      (λ _ q m. save_models_offer p.id q m wanted s))

bump-up : (r : Redis) → r.faults ≡ [] → (bump_catalog_version r).faults ≡ []
unfolding bump_catalog_version
bump-up r up =
    rw
      (
        command-up (λ s. (tt, record s { catalog_version = some (get_or 0 s.catalog_version + 1) }))
            r up,
        bump_catalog_version,
      )
      refl

-- While Redis is up, a commit of any change is seen at once: whoever asks next gets what the new
-- tables give, if the cache was coherent with the old ones.
pub commit_and_bump-get :
    (old : Db) (s : Pricing) (user : ℕ) (now : DateTime)
    → s.world.redis.faults ≡ []
    → IsCoherent old now s.world.redis
    → (get s.world.db user now (commit_and_bump s).world.redis).0 ≡ resolve s.world.db user now
unfolding commit_and_bump
commit_and_bump-get old s user now up c =
    get-eq-resolve user (bump-IsCoherent up c)
      (ap (λ q. q.0) (version-up (bump_catalog_version s.world.redis) (bump-up s.world.redis up)))
