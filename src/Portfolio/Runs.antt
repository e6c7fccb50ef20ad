-- ===== src/Portfolio/Runs.antt =====
-- Histories of services/portfolio_service.py: requests of owners, one after another.
use chatfolio_backend.Prelude.{
  ℕ, ◌≡◌, refl, ap, Bool, true, false, ◌&&◌, ◌||◌, not, Option, none, some, String, str_eq, ◌==◌,
  any_row,
}
use chatfolio_backend.Errors.{Result, ok, err}
use chatfolio_backend.Action.{proceed}
use chatfolio_backend.Action.Leaves.{Leaves, calls, calls-with, checks}
use chatfolio_backend.Time.Calendar.{DateTime}
use chatfolio_backend.Guard.{entitled, guard_release}
use chatfolio_backend.Models.Site.{Site, PublicChatfolio}
use chatfolio_backend.Portfolio.{
  Naming, on_world, profile_for, get_or_create_for_user, ensure_slug_available, link_named,
}
use chatfolio_backend.Portfolio.Aliases.{add_alias, update_alias, delete_alias, list_aliases}
use chatfolio_backend.Portfolio.Publishing.{
  PortfolioSettingsUpdateRequest, update_settings, publish, unpublish, written, consume_if,
  check_slug, renames, moved_to, with_settings, published, approve, change_chatfolio, publishes,
  is_incomplete,
}
use chatfolio_backend.Portfolio.Tidy.{IsTidy, of_world, of_new_profile, of_approve}
use chatfolio_backend.Portfolio.Changed.{of_page_change, of_page_rename}
use chatfolio_backend.Portfolio.Kept.{
  get_or_create-tidy, add_alias-tidy, update_alias-tidy, delete_alias-tidy, on_world-tidy,
  or_false-left, or_false-right,
}

consume_if-tidy :
    (b : Bool) (user : ℕ) (now : DateTime) (s : Site)
    → IsTidy s
    → Leaves IsTidy (consume_if b user now s)
consume_if-tidy true user now s t = of_world s _ t
consume_if-tidy false user now s t = t

written-tidy :
    (b : Bool) (user : ℕ) (now : DateTime) (r : Result (Unit {0})) (f : Site → Site) (s : Site)
    → IsTidy (f s)
    → Leaves IsTidy (written b user now r f s)
written-tidy b user now (ok _) f s t = t
written-tidy true user now (err e) f s t =
    on_world-tidy (guard_release user publishes 1 now) (f s) t
written-tidy false user now (err e) f s t = t

-- The slug is free for the page: no other page and no alias has it.
abbrev FreeFor : String → ℕ → Site → Type 0
FreeFor new id s =
    IsTidy s
    × (any_row (λ d. str_eq d.slug new && not (d.id == id)) s.chatfolios ≡ false)
    × (any_row (link_named new) s.links ≡ false)

-- The writes of a change of the settings, after its checks.
saved-tidy :
    (p : PortfolioSettingsUpdateRequest) (flush : Result (Unit {0})) (user : ℕ) (now : DateTime)
    (c : PublicChatfolio) (renamed : Bool) (slug : Option String) (s : Site)
    → IsTidy (change_chatfolio c.id (λ d. with_settings p (moved_to renamed slug d)) s)
    → Leaves IsTidy (
        proceed
          (written renamed user now flush
            (change_chatfolio c.id (λ d. with_settings p (moved_to renamed slug d)))
            s)
          (λ _ w. (ok (with_settings p (moved_to renamed slug c)), w)))
saved-tidy p flush user now c renamed slug s t =
    calls IsTidy
      (written renamed user now flush
        (change_chatfolio c.id (λ d. with_settings p (moved_to renamed slug d))) s)
      _ (written-tidy renamed user now flush _ s t) (λ _ w q. q)

kept-slug :
    (p : PortfolioSettingsUpdateRequest) (flush : Result (Unit {0})) (user : ℕ) (now : DateTime)
    (c : PublicChatfolio) (renamed : Bool) (slug : Option String) (s : Site)
    → ((d : PublicChatfolio) → moved_to renamed slug d ≡ d)
    → IsTidy s
    → Leaves IsTidy (
        proceed (consume_if renamed user now s) (λ _ u.
          proceed
            (written renamed user now flush
              (change_chatfolio c.id (λ d. with_settings p (moved_to renamed slug d)))
              u)
            (λ _ w. (ok (with_settings p (moved_to renamed slug c)), w))))
kept-slug p flush user now c renamed slug s same t =
    calls IsTidy (consume_if renamed user now s) _ (consume_if-tidy renamed user now s t) (λ _ u q.
      saved-tidy p flush user now c renamed slug u
        (of_page_change c.id _ u (λ d. ap (λ x. x.slug) (same d)) (λ d. ap (λ x. x.id) (same d)) q))

changed-tidy :
    (p : PortfolioSettingsUpdateRequest) (flush : Result (Unit {0})) (user : ℕ) (now : DateTime)
    (c : PublicChatfolio) (renamed : Bool) (slug : Option String) (s : Site)
    → IsTidy s
    → Leaves IsTidy (
        proceed (check_slug renamed slug c s) (λ _ v.
          proceed (consume_if renamed user now v) (λ _ u.
            proceed
              (written renamed user now flush
                (change_chatfolio c.id (λ d. with_settings p (moved_to renamed slug d)))
                u)
              (λ _ w. (ok (with_settings p (moved_to renamed slug c)), w)))))
unfolding ensure_slug_available
changed-tidy p flush user now c true (some new) s t =
    checks IsTidy
      (any_row (λ d. str_eq d.slug new && not (d.id == c.id)) s.chatfolios
        || any_row (link_named new) s.links)
      _ s _ t
      (λ free.
        calls-with IsTidy (FreeFor new c.id) (consume_if true user now s) _
          (of_world s _ t, or_false-left _ _ free, or_false-right _ _ free) (λ u q. q.0)
          (λ _ u (q, pages, links).
            saved-tidy p flush user now c true (some new) u
              (of_page_rename new c.id _ u (λ d. refl) (λ d. refl) pages links q)))
changed-tidy p flush user now c true none s t =
    kept-slug p flush user now c true none s (λ d. refl) t
changed-tidy p flush user now c false slug s t =
    kept-slug p flush user now c false slug s (λ d. refl) t

update_settings-tidy :
    (x : Naming) (flush : Result (Unit {0})) (user : ℕ) (p : PortfolioSettingsUpdateRequest)
    (now : DateTime) (s : Site)
    → IsTidy s
    → Leaves IsTidy (update_settings x flush user p now s)
unfolding update_settings
update_settings-tidy x flush user p now s t =
    calls IsTidy (get_or_create_for_user x user s) _ (get_or_create-tidy x user s t)
      (λ c v q. changed-tidy p flush user now c (renames p.slug c) p.slug v q)

publish-tidy :
    (x : Naming) (flush : Result (Unit {0})) (user : ℕ) (now : DateTime) (s : Site)
    → IsTidy s
    → Leaves IsTidy (publish x flush user now s)
unfolding publish
publish-tidy x flush user now s t =
    let (p, v) = profile_for user s in
    checks IsTidy (is_incomplete p v.sections) _ v _ (of_new_profile user s t) (λ _.
      calls IsTidy (get_or_create_for_user x user v) _
        (get_or_create-tidy x user v (of_new_profile user s t))
        (λ c u q.
          calls IsTidy (consume_if (not c.is_published) user now u) _
            (consume_if-tidy (not c.is_published) user now u q)
            (λ _ u r.
              calls IsTidy
                (written (not c.is_published) user now flush
                  (λ w. change_chatfolio c.id (published now) (approve p.id w)) u)
                _
                (written-tidy (not c.is_published) user now flush _ u (
                  of_page_change c.id (published now) (approve p.id u) (λ d. refl) (λ d. refl)
                    (of_approve p.id u r)))
                (λ _ w k. k))))

unpublish-tidy : (x : Naming) (user : ℕ) (s : Site) → IsTidy s → Leaves IsTidy (unpublish x user s)
unfolding unpublish
unpublish-tidy x user s t =
    calls IsTidy (get_or_create_for_user x user s) _ (get_or_create-tidy x user s t) (λ c v q.
      of_page_change c.id (λ d. record d { is_published = false }) v (λ d. refl) (λ d. refl) q)

-- A request of an owner.
pub data PageRequest : Type 0 where
  to_open to_publish to_unpublish to_list : PageRequest
  to_change : PortfolioSettingsUpdateRequest → PageRequest
  to_add : String → PageRequest
  to_update : ℕ → Option String → Option Bool → PageRequest
  to_delete : ℕ → PageRequest

-- What the session of a request leaves: an exception rolls the tables back, but not Redis.
abbrev pub ended {ℓ} : {A : Type ℓ} → Site → Result A × Site → Site
ended before (ok a, after) = after
ended before (err e, after) = record before {
  world = record before.world { redis = after.world.redis };
}

-- The tables after the request, in its session.
unfoldable pub answer : PageRequest → Naming → Result (Unit {0}) → ℕ → DateTime → Site → Site
answer to_open x flush user now s = ended s (get_or_create_for_user x user s)
answer to_publish x flush user now s = ended s (publish x flush user now s)
answer to_unpublish x flush user now s = ended s (unpublish x user s)
answer to_list x flush user now s = ended s (list_aliases x user now s)
answer (to_change p) x flush user now s = ended s (update_settings x flush user p now s)
answer (to_add slug) x flush user now s = ended s (add_alias x user slug now s)
answer (to_update id slug active) x flush user now s =
    ended s (update_alias x user id slug active now s)
answer (to_delete id) x flush user now s = ended s (delete_alias x user id s)

list_aliases-tidy :
    (x : Naming) (user : ℕ) (now : DateTime) (s : Site)
    → IsTidy s
    → Leaves IsTidy (list_aliases x user now s)
unfolding list_aliases
list_aliases-tidy x user now s t =
    calls IsTidy (get_or_create_for_user x user s) _ (get_or_create-tidy x user s t)
      (λ c v q. calls IsTidy (on_world (entitled user now) v) _ (of_world v _ q) (λ e w r. r))

session {ℓ} :
    {A : Type ℓ} (m : Result A × Site) (s : Site) → IsTidy s → Leaves IsTidy m → IsTidy (ended s m)
session (ok a, v) s t q = q
session (err e, v) s t q = of_world s (record s.world { redis = v.world.redis }) t

-- Whatever an owner asks for, no two pages or aliases answer to one slug after it, where none did
-- before.
pub answer-IsTidy :
    (r : PageRequest) (x : Naming) (flush : Result (Unit {0})) (user : ℕ) (now : DateTime)
    (s : Site)
    → IsTidy s
    → IsTidy (answer r x flush user now s)
unfolding answer
answer-IsTidy to_open x flush user now s t = session _ s t (get_or_create-tidy x user s t)
answer-IsTidy to_publish x flush user now s t = session _ s t (publish-tidy x flush user now s t)
answer-IsTidy to_unpublish x flush user now s t = session _ s t (unpublish-tidy x user s t)
answer-IsTidy to_list x flush user now s t = session _ s t (list_aliases-tidy x user now s t)
answer-IsTidy (to_change p) x flush user now s t =
    session _ s t (update_settings-tidy x flush user p now s t)
answer-IsTidy (to_add slug) x flush user now s t =
    session _ s t (add_alias-tidy x user slug now s t)
answer-IsTidy (to_update id slug active) x flush user now s t =
    session _ s t (update_alias-tidy x user id slug active now s t)
answer-IsTidy (to_delete id) x flush user now s t = session _ s t (delete_alias-tidy x user id s t)
