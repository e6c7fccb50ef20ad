-- ===== src/Portfolio/Redirects.antt =====
-- Two pages that left the same slug: `find_redirect_target` (services/portfolio_service.py).
use chatfolio_backend.Prelude.{
  ℕ, ◌≤◌, ◌≡◌, refl, Bool, true, ◌&&◌, not, some, arith, List, [], ◌∷◌, String, str_eq_iff, ◌==◌,
  first_row, any_row, where_rows, update_first, length,
}
use chatfolio_backend.Errors.{err, runtime}
use chatfolio_backend.Models.Site.{Site, PublicChatfolio}
use chatfolio_backend.Portfolio.Publishing.{change_chatfolio, moved_to}
use chatfolio_backend.Portfolio.Resolver.{was_named, one_or_none, find_redirect_target}

abbrev pub other_was : ℕ → String → PublicChatfolio → Bool
other_was id slug d = was_named slug d && not (d.id == id)

abbrev gone_to : String → PublicChatfolio → PublicChatfolio
gone_to new c = moved_to true (some new) c

many : (cs : List PublicChatfolio) → 2 ≤ length cs → one_or_none cs ≡ err runtime
many [] h = ground arith
many (c ∷ []) h = ground arith
many (c ∷ d ∷ cs) h = refl

gone_to-counts :
    (c : PublicChatfolio) (new : String) (cs : List PublicChatfolio)
    → c.is_published ≡ true
    → first_row (λ d. d.id == c.id) cs ≡ some c
    → 1 ≤ length (where_rows (was_named c.slug) (update_first (λ d. d.id == c.id) (gone_to new) cs))
gone_to-counts c new [] on e = cc
gone_to-counts c new (d ∷ cs) on e =
    ground (arith, gone_to-counts c new cs, (str_eq_iff c.slug c.slug).1 refl)

others-stay :
    (id : ℕ) (slug : String) (cs : List PublicChatfolio)
    → any_row (other_was id slug) cs ≡ true
    → 1 ≤ length (where_rows (was_named slug) cs)
others-stay id slug [] h = cc
others-stay id slug (d ∷ cs) h = ground (arith, others-stay id slug cs)

two-at_least :
    (c : PublicChatfolio) (new : String) (cs : List PublicChatfolio)
    → c.is_published ≡ true
    → first_row (λ d. d.id == c.id) cs ≡ some c
    → any_row (other_was c.id c.slug) cs ≡ true
    → 2 ≤ length (where_rows (was_named c.slug) (update_first (λ d. d.id == c.id) (gone_to new) cs))
two-at_least c new [] on e h = cc
two-at_least c new (d ∷ cs) on e h = ground (
  arith,
  two-at_least c new cs,
  others-stay c.id c.slug cs,
  gone_to-counts c new cs,
  (str_eq_iff c.slug c.slug).1 refl,
)

-- When a published page leaves a slug that another published page left before it, the redirect of
-- that slug raises, and leads to neither.
pub find_redirect_target-two :
    (c : PublicChatfolio) (new : String) (s : Site)
    → first_row (λ d. d.id == c.id) s.chatfolios ≡ some c
    → c.is_published ≡ true
    → any_row (other_was c.id c.slug) s.chatfolios ≡ true
    → find_redirect_target c.slug (change_chatfolio c.id (moved_to true (some new)) s) ≡ err runtime
unfolding find_redirect_target change_chatfolio
find_redirect_target-two c new s e on other = many _ (two-at_least c new s.chatfolios on e other)
