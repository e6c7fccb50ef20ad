-- ===== src/Portfolio.antt =====
-- Public pages: services/portfolio_service.py, services/chatfolio_resolver.py and
-- services/domain_service.py. The owner's page, and the slugs of all pages and aliases.
pub mod Aliases
pub mod Publishing
pub mod Resolver
pub mod Honoured
pub mod Redirects
pub mod Tidy
pub mod Changed
pub mod Kept
pub mod Runs
pub mod Drawn
pub mod Domains
pub mod Room
use Prim.Native.String.{◌++◌}
use chatfolio_backend.Prelude.{
  ℕ, zero, suc, ◌+◌, Bool, true, false, ◌&&◌, ◌||◌, not, Option, none, some, List, [], ◌∷◌, String,
  str_eq, ◌==◌, is_none, if◌then◌else◌, first_row, any_row,
}
use chatfolio_backend.Errors.{Error, Result, ok, err, integrity, runtime, conflict}
use chatfolio_backend.Action.{Action, pure, raise, raise_if, gets, ◌>>=◌, ◌>>◌}
use chatfolio_backend.Models.Site.{
  Site, CandidateProfile, ProfileStatus, PublicChatfolio, ChatfolioLink,
}
use chatfolio_backend.World.{World}

-- What naming a page takes from outside: `re.sub` with `strip("-")`, and the five draws of
-- `token_hex`.
pub record Naming : Type 0 where
  pub hyphenated : String → String
  pub token_hex : ℕ → String

-- A call of the entitlement guard.
abbrev pub on_world {ℓ} : {A : Type ℓ} → Action World A → Action Site A
on_world m s = let (r, w) = m s.world in (r, record s { world = w })

unfoldable pub slugify : Naming → String → String
slugify x value = if str_eq (x.hyphenated value) "" then "candidate" else x.hyphenated value

abbrev pub belongs_to : ℕ → CandidateProfile → Bool
belongs_to user p = p.user_id == user

abbrev pub page_of : ℕ → PublicChatfolio → Bool
page_of profile c = c.profile_id == profile

abbrev pub primary_named : String → PublicChatfolio → Bool
primary_named slug c = str_eq c.slug slug

abbrev pub link_named : String → ChatfolioLink → Bool
link_named slug l = str_eq l.slug slug

unfoldable pub slug_exists : String → Site → Bool
slug_exists slug s = any_row (primary_named slug) s.chatfolios || any_row (link_named slug) s.links

-- The loop over the draws that are left.
unfoldable pub draw_slug : Naming → String → ℕ → Site → Option String
draw_slug x base zero s = none
draw_slug x base (suc n) s =
    let candidate = base ++ ("-" ++ x.token_hex n) in
    let rest = draw_slug x base n s in
    if not (slug_exists candidate s) then some candidate else rest

abbrev pub or_runtime {ℓ} : {A : Type ℓ} → Option A → Result A
or_runtime none = err runtime
or_runtime (some a) = ok a

unfoldable pub generate_unique_slug : Naming → String → Action Site String
generate_unique_slug x base s = (or_runtime (draw_slug x (slugify x base) 5 s), s)

abbrev found : Option CandidateProfile → ℕ → Site → CandidateProfile × Site
found (some p) user s = (p, s)
found none user s =
    let p : CandidateProfile = record {
      id = s.next_id;
      user_id = user;
      full_name = none;
      status = ProfileStatus.draft;
    } in
    (p, record s { profiles = p ∷ s.profiles; next_id = s.next_id + 1 })

-- ProfileService.get_or_create_for_user
unfoldable pub profile_for : ℕ → Site → CandidateProfile × Site
profile_for user s = found (first_row (belongs_to user) s.profiles) user s

-- The insert with its unique columns.
unfoldable pub add_chatfolio : ℕ → String → Action Site PublicChatfolio
add_chatfolio profile slug s =
    let c : PublicChatfolio = record {
      id = s.next_id;
      profile_id = profile;
      slug = slug;
      previous_slug = none;
      is_published = false;
      published_at = none;
      contact_cta_config = [];
      cv_downloadable = true;
    } in
    if any_row (page_of profile) s.chatfolios || any_row (primary_named slug) s.chatfolios
    then (err integrity, s)
    else (ok c, record s { chatfolios = c ∷ s.chatfolios; next_id = s.next_id + 1 })

-- `full_name or "candidate"`
abbrev pub base_name : Option String → String
base_name none = "candidate"
base_name (some n) = if str_eq n "" then "candidate" else n

abbrev reread : Option PublicChatfolio → Result PublicChatfolio
reread none = err integrity
reread (some c) = ok c

-- A lost race: the row that is there now, or the error.
abbrev pub lost_race : ℕ → Result PublicChatfolio × Site → Result PublicChatfolio × Site
lost_race profile (err integrity, s) = (reread (first_row (page_of profile) s.chatfolios), s)
lost_race profile r = r

abbrev pub chatfolio_of :
    Naming → CandidateProfile → Option PublicChatfolio → Action Site PublicChatfolio
chatfolio_of x p (some c) = pure c
chatfolio_of x p none = do
  slug ← generate_unique_slug x (base_name p.full_name)
  λ s. lost_race p.id (add_chatfolio p.id slug s)

unfoldable pub get_or_create_for_user : Naming → ℕ → Action Site PublicChatfolio
get_or_create_for_user x user s =
    let (p, s') = profile_for user s in chatfolio_of x p (first_row (page_of p.id) s'.chatfolios) s'

-- Another page has the slug, or any alias.
unfoldable pub ensure_slug_available : String → ℕ → Action Site (Unit {0})
ensure_slug_available slug exclude s =
    raise_if
      (any_row (λ c. str_eq c.slug slug && not (c.id == exclude)) s.chatfolios
        || any_row (link_named slug) s.links)
      (conflict "Slug is already taken.") s
