-- ===== src/Tests/OfPages.antt =====
-- The theorems on public pages and on plans at concrete inputs: one page with an alias, another that
-- took a slug over, and the plans of the samples.
use chatfolio_backend.Prelude.{
  ◌≡◌, refl, sym, arith, str_eq_iff, true, false, none, some, [], ◌∷◌, String, str_eq, first_row,
}
use chatfolio_backend.Prelude.Int.{pos}
use chatfolio_backend.Errors.{ok, err, runtime}
use chatfolio_backend.Action.Leaves.{Returns}
use chatfolio_backend.Catalog.{FeatureKey}
use chatfolio_backend.Time.Calendar.{DateTime}
use chatfolio_backend.Time.Duration.{DurationUnit}
use chatfolio_backend.Models.Billing.{PlanFeature, SubscriptionSource}
use chatfolio_backend.Models.Site.{
  Site, CandidateProfile, ProfileStatus, PublicChatfolio, ChatfolioLink,
}
use chatfolio_backend.Entitlements.{Entitlements, granted, limit}
use chatfolio_backend.Entitlements.Json.{IsoFormat, IsIso, to_json, from_json, json-roundtrip}
use chatfolio_backend.Entitlements.Resolve.{resolve}
use chatfolio_backend.Entitlements.Service.{get}
use chatfolio_backend.Portfolio.{
  Naming, generate_unique_slug, slug_exists, get_or_create_for_user, slugify,
}
use chatfolio_backend.Portfolio.Aliases.{add_alias, honoured, aliases}
use chatfolio_backend.Portfolio.Publishing.{change_chatfolio, moved_to}
use chatfolio_backend.Portfolio.Resolver.{resolve_published, find_redirect_target}
use chatfolio_backend.Portfolio.Honoured.{resolve_published-honoured}
use chatfolio_backend.Portfolio.Redirects.{find_redirect_target-two}
use chatfolio_backend.Portfolio.Tidy.{IsTidy}
use chatfolio_backend.Portfolio.Runs.{to_add, answer, answer-IsTidy}
use chatfolio_backend.Portfolio.Room.{Fits, add_alias-HasRoom}
use chatfolio_backend.Portfolio.Drawn.{IsUnused, generate_unique_slug-finds}
use chatfolio_backend.PlanAdmin.{
  Pricing, PlanCreateRequest, new_plan, feature_row_of, features_of, commit_and_bump,
}
use chatfolio_backend.PlanAdmin.Differences.{Patch, set, unset}
use chatfolio_backend.PlanAdmin.Editing.{PlanUpdateRequest, set_plan_models}
use chatfolio_backend.PlanAdmin.Matrix.{Denies, new_plan_complete}
use chatfolio_backend.PlanAdmin.Edited.{Offers, set_plan_models-Offers, commit_and_bump-get}
use chatfolio_backend.Tests.Samples.{day, until, world_with, gold}

abbrev naming : Naming
naming = record { hyphenated = λ s. s; token_hex = λ n. "00ff" }

abbrev owner : CandidateProfile
owner = record { id = 20; user_id = 10; full_name = some "Ann"; status = ProfileStatus.approved }

abbrev page : PublicChatfolio
page = record {
  id = 30;
  profile_id = 20;
  slug = "ann";
  previous_slug = none;
  is_published = true;
  published_at = some (day 2);
  contact_cta_config = [];
  cv_downloadable = true;
}

-- A page of another owner, which was once called "ann".
abbrev other_page : PublicChatfolio
other_page = record page { id = 31; profile_id = 21; slug = "anna"; previous_slug = some "ann" }

abbrev alias : ChatfolioLink
alias = record { id = 40; chatfolio_id = 30; slug = "ann-dev"; is_active = true }

abbrev site : Site
site = record {
  world = world_with (until 20 ∷ []);
  profiles = owner ∷ [];
  sections = [];
  chatfolios = page ∷ other_page ∷ [];
  links = alias ∷ [];
  domains = [];
  next_id = 100;
}

abbrev held : Entitlements
held = record {
  plan_slug = "gold";
  plan_name = "Gold";
  source = granted SubscriptionSource.admin_grant;
  subscription_expires_at = some (day 20);
  valid_until = some (day 20);
  values =
      (FeatureKey.links_max, record { int_value = some (pos 5); bool_value = none; period = none })
      ∷ [];
}

resolve_published-honoured_example : (resolve_published "ann-dev" (day 3) site).0 ≡ ok (some page)
unfolding chatfolio_backend.Guard.entitled get chatfolio_backend.Entitlements.Cache.get_entitlements
    chatfolio_backend.Models.Redis.command chatfolio_backend.Entitlements.Cache.catalog_version
    resolve chatfolio_backend.Entitlements.Resolve.grants chatfolio_backend.Time.Calendar.moment
    chatfolio_backend.Entitlements.Resolve.plan_of chatfolio_backend.Entitlements.Resolve.earliest
    chatfolio_backend.Entitlements.Resolve.apply_overrides
    chatfolio_backend.Entitlements.Resolve.expiries
    chatfolio_backend.Entitlements.Resolve.plan_values honoured aliases
    chatfolio_backend.Entitlements.is_unlimited chatfolio_backend.Catalog.place
resolve_published-honoured_example =
    resolve_published-honoured "ann-dev" alias page owner held true (day 3) site refl refl refl refl
      refl refl refl

find_redirect_target-two_example :
    find_redirect_target "ann" (change_chatfolio 30 (moved_to true (some "ann-lee")) site)
    ≡ err runtime
find_redirect_target-two_example = find_redirect_target-two page "ann-lee" site refl refl refl

add_alias-HasRoom_example :
    Fits (limit held FeatureKey.links_max) 30 (add_alias naming 10 "ann-cv" (day 3) site)
unfolding get_or_create_for_user chatfolio_backend.Portfolio.profile_for
    chatfolio_backend.Guard.entitled get chatfolio_backend.Entitlements.Cache.get_entitlements
    chatfolio_backend.Models.Redis.command chatfolio_backend.Entitlements.Cache.catalog_version
    resolve chatfolio_backend.Entitlements.Resolve.grants chatfolio_backend.Time.Calendar.moment
    chatfolio_backend.Entitlements.Resolve.plan_of chatfolio_backend.Entitlements.Resolve.earliest
    chatfolio_backend.Entitlements.Resolve.apply_overrides
    chatfolio_backend.Entitlements.Resolve.expiries
    chatfolio_backend.Entitlements.Resolve.plan_values
add_alias-HasRoom_example =
    add_alias-HasRoom naming 10 "ann-cv" (day 3) site site page held refl refl

apart : (a b z : String) → str_eq b a ≡ false → str_eq a z ≡ true → str_eq b z ≡ false
apart a b z h k = rw (sym ((str_eq_iff a z).0 k)) h

tidy : IsTidy site
tidy = record {
  one_slug = λ z. ground (
    arith,
    apart "ann" "anna" z refl,
    apart "ann" "ann-dev" z refl,
    apart "anna" "ann-dev" z refl,
  );
  one_page = λ id. ground arith;
  one_link = λ id. ground arith;
  fresh_page = λ id h. ground arith;
  fresh_link = λ id h. ground arith;
}

answer-IsTidy_example : IsTidy (answer (to_add "ann-cv") naming (ok tt) 10 (day 3) site)
answer-IsTidy_example = answer-IsTidy (to_add "ann-cv") naming (ok tt) 10 (day 3) site tidy

generate_unique_slug-finds_example :
    (slug : String) × (generate_unique_slug naming "bob" site ≡ (ok slug, site))
    × IsUnused slug site
unfolding slugify
generate_unique_slug-finds_example =
    generate_unique_slug-finds naming "bob" 0 site (omega arith) ((refl, (refl, tt)), (refl, tt))

abbrev iso : IsoFormat
iso = record { isoformat = λ d. "2026-11-20T00:00:00+00:00"; fromisoformat = λ s. ok (day 20) }

same_day : IsIso iso (some (day 20))
unfolding IsIso
same_day d e = (cc, refl)

json-roundtrip_example : from_json iso (to_json iso held) ≡ ok held
json-roundtrip_example = json-roundtrip iso held same_day same_day

abbrev pricing : Pricing
pricing = record {
  world = world_with (until 20 ∷ []);
  plan_models = (1, 50) ∷ (2, 50) ∷ (2, 51) ∷ [];
  models = 50 ∷ 51 ∷ 52 ∷ [];
}

abbrev silver : PlanCreateRequest
silver = record {
  slug = "silver";
  clone_from = none;
  name = "Silver";
  is_active = true;
  is_public = true;
  price_minor = 100;
  currency = "BDT";
  duration_unit = DurationUnit.month;
  duration_count = 1;
  external_product_ref = none;
  trial_days = 0;
  allowed_strategies = [];
}

new_plan_complete_example :
    (f : PlanFeature) × (first_row
        (feature_row_of FeatureKey.links_max)
        (new_plan silver (some gold) 9).features
      ≡ some f)
    × (first_row (feature_row_of FeatureKey.links_max) gold.features ≡ none → Denies f)
    × ((g : PlanFeature)
        → first_row (feature_row_of FeatureKey.links_max) gold.features ≡ some g
        → (f.int_value ≡ g.int_value) × (f.bool_value ≡ g.bool_value) × (f.period ≡ g.period))
new_plan_complete_example = new_plan_complete silver (some gold) 9 FeatureKey.links_max

set_plan_models-Offers_example :
    Returns (Offers (52 ∷ 50 ∷ 52 ∷ []) pricing) (set_plan_models 2 (52 ∷ 50 ∷ 52 ∷ []) pricing)
set_plan_models-Offers_example = set_plan_models-Offers 2 (52 ∷ 50 ∷ 52 ∷ []) pricing

abbrev to_lifetime : PlanUpdateRequest
to_lifetime = record {
  name = unset;
  is_active = set false;
  is_public = unset;
  price_minor = unset;
  currency = unset;
  duration_unit = set DurationUnit.lifetime;
  duration_count = set 0;
  external_product_ref = Patch.null;
  trial_days = unset;
  allowed_strategies = unset;
}

commit_and_bump-get_example :
    (get pricing.world.db 10 (day 3) (commit_and_bump pricing).world.redis).0
    ≡ resolve pricing.world.db 10 (day 3)
commit_and_bump-get_example =
    commit_and_bump-get pricing.world.db pricing 10 (day 3) refl
      (record { past = λ user e h. cc; no_future = λ version user h. refl })
