-- ===== src/Portfolio/Publishing.antt =====
-- services/portfolio_service.py: the settings of a page, and putting it on the web. `flush` is the
-- database's answer to the writes.
use chatfolio_backend.Prelude.{
  ℕ, Bool, true, false, ◌&&◌, ◌||◌, not, Option, none, some, List, String, str_eq, ◌==◌, get_or,
  any_row, update_first,
}
use chatfolio_backend.Errors.{Result, ok, err, validation_failed}
use chatfolio_backend.Action.{Action, pure, raise_if, modify, ◌>>=◌, ◌>>◌}
use chatfolio_backend.Catalog.{FeatureKey}
use chatfolio_backend.Time.Calendar.{DateTime}
use chatfolio_backend.Guard.{guard_consume, guard_release}
use chatfolio_backend.Billing.Trial.{given}
use chatfolio_backend.Models.Site.{
  Site, CandidateProfile, ProfileStatus, PortfolioSection, SectionType, SectionStatus,
  PublicChatfolio,
}
use chatfolio_backend.Portfolio.{
  Naming, on_world, profile_for, get_or_create_for_user, ensure_slug_available,
}

unfoldable pub change_chatfolio : ℕ → (PublicChatfolio → PublicChatfolio) → Site → Site
change_chatfolio id f s = record s { chatfolios = update_first (λ c. c.id == id) f s.chatfolios }

-- schemas/portfolio_settings.py: the fields that the payload sets, to a value that is not null.
pub record PortfolioSettingsUpdateRequest : Type 0 where
  pub slug : Option String
  pub contact_cta_config : Option (List (String × String))
  pub cv_downloadable : Option Bool

abbrev pub publishes : FeatureKey
publishes = FeatureKey.publishes_limit

-- A write with its flush; after a failure a unit that was taken is given back, and the error stays.
abbrev pub written :
    Bool → ℕ → DateTime → Result (Unit {0}) → (Site → Site) → Action Site (Unit {0})
written taken user now (ok _) f s = (ok tt, f s)
written true user now (err e) f s = (err e, (on_world (guard_release user publishes 1 now) (f s)).1)
written false user now (err e) f s = (err e, f s)

abbrev pub consume_if : Bool → ℕ → DateTime → Action Site (Unit {0})
consume_if true user now = on_world (guard_consume user publishes 1 now)
consume_if false user now = pure tt

-- `new_slug is not None and new_slug != chatfolio.slug`
abbrev pub renames : Option String → PublicChatfolio → Bool
renames none c = false
renames (some slug) c = not (str_eq slug c.slug)

abbrev pub moved_to : Bool → Option String → PublicChatfolio → PublicChatfolio
moved_to true (some slug) c = record c { previous_slug = some c.slug; slug = slug }
moved_to _ _ c = c

abbrev pub with_settings : PortfolioSettingsUpdateRequest → PublicChatfolio → PublicChatfolio
with_settings p c = record c {
  contact_cta_config = get_or c.contact_cta_config p.contact_cta_config;
  cv_downloadable = get_or c.cv_downloadable p.cv_downloadable;
}

abbrev pub check_slug : Bool → Option String → PublicChatfolio → Action Site (Unit {0})
check_slug true (some slug) c = ensure_slug_available slug c.id
check_slug _ _ c = pure tt

unfoldable pub update_settings :
    Naming
    → Result (Unit {0})
    → ℕ
    → PortfolioSettingsUpdateRequest
    → DateTime
    → Action Site PublicChatfolio
update_settings x flush user p now = do
  c ← get_or_create_for_user x user
  let renamed = renames p.slug c
  check_slug renamed p.slug c
  consume_if renamed user now
  let change : PublicChatfolio → PublicChatfolio = λ d. with_settings p (moved_to renamed p.slug d)
  written renamed user now flush (change_chatfolio c.id change)
  pure (change c)

abbrev pub same_section : SectionType → SectionType → Bool
same_section SectionType.intro SectionType.intro = true
same_section SectionType.summary SectionType.summary = true
same_section _ _ = false

abbrev pub is_approved : SectionStatus → Bool
is_approved SectionStatus.approved = true
is_approved SectionStatus.draft = false

abbrev pub approved_as : ℕ → SectionType → PortfolioSection → Bool
approved_as profile t s =
    (s.profile_id == profile) && same_section s.section_type t && is_approved s.status

-- What keeps a page from being published: a section that is not approved, or no name.
unfoldable pub is_incomplete : CandidateProfile → List PortfolioSection → Bool
is_incomplete p sections =
    not (any_row (approved_as p.id SectionType.intro) sections)
    || not (any_row (approved_as p.id SectionType.summary) sections)
    || not (given p.full_name)

abbrev pub published : DateTime → PublicChatfolio → PublicChatfolio
published now c = record c { is_published = true; published_at = some now }

abbrev pub approve : ℕ → Site → Site
approve profile s = record s {
  profiles =
      update_first (λ p. p.id == profile) (λ p. record p { status = ProfileStatus.approved })
        s.profiles;
}

unfoldable pub publish : Naming → Result (Unit {0}) → ℕ → DateTime → Action Site PublicChatfolio
publish x flush user now = do
  p ← λ s. let (p, s') = profile_for user s in (ok p, s')
  λ s. raise_if (is_incomplete p s.sections) (validation_failed "Not ready to be published.") s
  c ← get_or_create_for_user x user
  consume_if (not c.is_published) user now
  written (not c.is_published) user now flush
      (λ s. change_chatfolio c.id (published now) (approve p.id s))
  pure (published now c)

unfoldable pub unpublish : Naming → ℕ → Action Site PublicChatfolio
unpublish x user = do
  c ← get_or_create_for_user x user
  modify (change_chatfolio c.id (λ d. record d { is_published = false }))
  pure (record c { is_published = false })
