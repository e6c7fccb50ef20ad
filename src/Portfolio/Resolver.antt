-- ===== src/Portfolio/Resolver.antt =====
-- services/chatfolio_resolver.py, and `find_redirect_target`, `show_badge` of
-- services/portfolio_service.py: what a visitor's address leads to.
use chatfolio_backend.Prelude.{
  ℕ, Bool, false, ◌&&◌, not, Option, none, some, List, [], ◌∷◌, String, str_eq, ◌==◌, if◌then◌else◌,
  first_row, where_rows, take,
}
use chatfolio_backend.Errors.{Result, ok, err, runtime}
use chatfolio_backend.Action.{Action, pure, ◌>>=◌}
use chatfolio_backend.Catalog.{FeatureKey}
use chatfolio_backend.Time.Calendar.{DateTime}
use chatfolio_backend.Entitlements.{Entitlements, is_unlimited, enabled}
use chatfolio_backend.Guard.{entitled}
use chatfolio_backend.Models.Site.{Site, CandidateProfile, PublicChatfolio, ChatfolioLink}
use chatfolio_backend.Portfolio.{on_world}
use chatfolio_backend.Portfolio.Aliases.{live_of, extra_links, contains}

abbrev pub public_named : String → PublicChatfolio → Bool
public_named slug c = str_eq c.slug slug && c.is_published

abbrev pub live_named : String → ChatfolioLink → Bool
live_named slug l = str_eq l.slug slug && l.is_active

-- The aliases that the plan honours, and the one that was asked for.
abbrev pub alias_in_plan :
    PublicChatfolio → ChatfolioLink → Entitlements → List ChatfolioLink → Option PublicChatfolio
alias_in_plan c l e links =
    if is_unlimited e FeatureKey.links_max
    then some c
    else if contains (take (extra_links e) (where_rows (live_of c.id) links)) l.id
    then some c
    else none

abbrev pub for_owner :
    PublicChatfolio
    → ChatfolioLink
    → Option CandidateProfile
    → DateTime
    → Action Site (Option PublicChatfolio)
for_owner c l none now = pure none
for_owner c l (some p) now = do
  e ← on_world (entitled p.user_id now)
  λ s. (ok (alias_in_plan c l e s.links), s)

abbrev pub for_page :
    ChatfolioLink → Option PublicChatfolio → DateTime → Action Site (Option PublicChatfolio)
for_page l none now = pure none
for_page l (some c) now = if not c.is_published then pure none else λ s.
    for_owner c l (first_row (λ p. p.id == c.profile_id) s.profiles) now s

abbrev pub for_link : Option ChatfolioLink → DateTime → Action Site (Option PublicChatfolio)
for_link none now s = (ok none, s)
for_link (some l) now s = for_page l (first_row (λ c. c.id == l.chatfolio_id) s.chatfolios) now s

abbrev pub by_alias :
    String → Option PublicChatfolio → DateTime → Action Site (Option PublicChatfolio)
by_alias slug (some c) now s = (ok (some c), s)
by_alias slug none now s = for_link (first_row (live_named slug) s.links) now s

unfoldable pub resolve_published : String → DateTime → Action Site (Option PublicChatfolio)
resolve_published slug now s = by_alias slug (first_row (public_named slug) s.chatfolios) now s

abbrev same_slug : Option String → String → Bool
same_slug none s = false
same_slug (some r) s = str_eq r s

abbrev pub was_named : String → PublicChatfolio → Bool
was_named old c = same_slug c.previous_slug old && c.is_published

-- `scalar_one_or_none`: more than one row is an exception.
abbrev pub one_or_none : List PublicChatfolio → Result (Option String)
one_or_none [] = ok none
one_or_none (c ∷ []) = ok (some c.slug)
one_or_none (c ∷ d ∷ cs) = err runtime

unfoldable pub find_redirect_target : String → Site → Result (Option String)
find_redirect_target old s = one_or_none (where_rows (was_named old) s.chatfolios)

unfoldable pub show_badge : ℕ → DateTime → Action Site Bool
show_badge owner now = do
  e ← on_world (entitled owner now)
  pure (not (enabled e FeatureKey.remove_badge))
