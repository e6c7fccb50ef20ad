-- ===== src/Portfolio/Kept.antt =====
-- services/portfolio_service.py: every call on pages and aliases leaves the slugs tidy.
use chatfolio_backend.Prelude.{
  ℕ, zero, suc, ◌≡◌, refl, Bool, true, false, ◌&&◌, ◌||◌, not, Option, none, some, String, str_eq,
  ◌==◌, Bool-cases, inl, inr, arith, first_row, any_row,
}
use chatfolio_backend.Errors.{Result, ok, err, integrity}
use chatfolio_backend.Action.{Action, proceed}
use chatfolio_backend.Action.Leaves.{Leaves, calls, finds, checks}
use chatfolio_backend.Time.Calendar.{DateTime}
use chatfolio_backend.World.{World}
use chatfolio_backend.Models.Site.{Site, CandidateProfile, PublicChatfolio, ChatfolioLink}
use chatfolio_backend.Portfolio.{
  page_of, Naming, on_world, slugify, draw_slug, slug_exists, generate_unique_slug, or_runtime,
  base_name, lost_race, add_chatfolio, chatfolio_of, profile_for, get_or_create_for_user,
  primary_named,
}
use chatfolio_backend.Portfolio.Aliases.{
  add_alias, update_alias, delete_alias, check_room, owned_alias, rename_link, set_active,
  switch_link, ensure_alias_slug_available,
}
use chatfolio_backend.Portfolio.Tidy.{IsTidy, of_world, of_new_profile, of_page, of_link}
use chatfolio_backend.Portfolio.Changed.{of_link_change, of_link_rename, of_link_delete}

pub on_world-tidy {ℓ} :
    {A : Type ℓ} (m : Action World A) (s : Site) → IsTidy s → Leaves IsTidy (on_world m s)
on_world-tidy m s t = of_world s (m s.world).1 t

-- A slug that was drawn is nowhere.
pub draw_slug-free :
    (x : Naming) (base : String) (n : ℕ) (s : Site) (slug : String)
    → draw_slug x base n s ≡ some slug
    → slug_exists slug s ≡ false
unfolding draw_slug
draw_slug-free x base zero s slug h = cc
draw_slug-free x base (suc n) s slug h = ground (arith, draw_slug-free x base n s slug)

lost_race-tidy :
    (profile : ℕ) (r : Result PublicChatfolio × Site)
    → Leaves IsTidy r
    → Leaves IsTidy (lost_race profile r)
lost_race-tidy profile (ok c, s) t = t
lost_race-tidy profile (err integrity, s) t = t
lost_race-tidy profile (err e, s) t = t

drawn-tidy :
    (x : Naming) (p : CandidateProfile) (s : Site) (o : Option String)
    → draw_slug x (slugify x (base_name p.full_name)) 5 s ≡ o
    → IsTidy s
    → Leaves IsTidy
        (proceed (or_runtime o, s) (λ slug v. lost_race p.id (add_chatfolio p.id slug v)))
drawn-tidy x p s none e t = t
drawn-tidy x p s (some slug) e t =
    lost_race-tidy p.id (add_chatfolio p.id slug s)
      (of_page p.id slug s (draw_slug-free x (slugify x (base_name p.full_name)) 5 s slug e) t)

chatfolio_of-tidy :
    (x : Naming) (p : CandidateProfile) (o : Option PublicChatfolio) (s : Site)
    → IsTidy s
    → Leaves IsTidy (chatfolio_of x p o s)
unfolding generate_unique_slug
chatfolio_of-tidy x p (some c) s t = t
chatfolio_of-tidy x p none s t =
    drawn-tidy x p s (draw_slug x (slugify x (base_name p.full_name)) 5 s) refl t

pub get_or_create-tidy :
    (x : Naming) (user : ℕ) (s : Site) → IsTidy s → Leaves IsTidy (get_or_create_for_user x user s)
unfolding get_or_create_for_user
get_or_create-tidy x user s t =
    let v = (profile_for user s).1 in
    chatfolio_of-tidy x (profile_for user s).0
      (first_row (page_of (profile_for user s).0.id) v.chatfolios) v (of_new_profile user s t)

pub or_false-left : (a b : Bool) → (a || b) ≡ false → a ≡ false
or_false-left a b h = ground arith

pub or_false-right : (a b : Bool) → (a || b) ≡ false → b ≡ false
or_false-right a b h = ground arith

pub add_alias-tidy :
    (x : Naming) (user : ℕ) (slug : String) (now : DateTime) (s : Site)
    → IsTidy s
    → Leaves IsTidy (add_alias x user slug now s)
unfolding add_alias ensure_alias_slug_available
add_alias-tidy x user slug now s t =
    calls IsTidy (get_or_create_for_user x user s) _ (get_or_create-tidy x user s t) (λ c v q.
      calls IsTidy (check_room user c.id now v) _ (of_world v _ q) (λ _ v r.
        checks IsTidy
          (any_row (primary_named slug) v.chatfolios
            || any_row (λ l. str_eq l.slug slug && not (l.id == 0)) v.links)
          _ v _ r (λ free. of_link c.id slug v (or_false-left _ _ free) r)))

owned_alias-tidy : (id alias : ℕ) (s : Site) → IsTidy s → Leaves IsTidy (owned_alias id alias s)
unfolding owned_alias
owned_alias-tidy id alias s t =
    finds IsTidy (first_row (λ m. m.id == alias) s.links) _ s _ t
      (λ l _. checks IsTidy (not (l.chatfolio_id == id)) _ s _ t (λ _. t))

rename_link-tidy :
    (o : Option String) (l : ChatfolioLink) (s : Site)
    → IsTidy s
    → Leaves IsTidy (rename_link o l s)
unfolding ensure_alias_slug_available
rename_link-tidy none l s t = t
rename_link-tidy (some slug) l s t = elim (Bool-cases (str_eq slug l.slug)) [
  | inl same ↦ rw same t
  | inr new ↦ rw new (
      checks IsTidy
        (any_row (primary_named slug) s.chatfolios
          || any_row (λ m. str_eq m.slug slug && not (m.id == l.id)) s.links)
        _ s _ t
        (λ free.
          of_link_rename slug l.id (λ m. record m { slug = slug }) s (λ m. refl) (λ m. refl)
            (or_false-left _ _ free) (or_false-right _ _ free) t))
]

set_active-tidy :
    (b : Bool) (l : ChatfolioLink) (s : Site) → IsTidy s → Leaves IsTidy (set_active b l s)
set_active-tidy b l s t =
    of_link_change l.id (λ m. record m { is_active = b }) s (λ m. refl) (λ m. refl) t

switch_link-tidy :
    (user : ℕ) (c : PublicChatfolio) (o : Option Bool) (now : DateTime) (l : ChatfolioLink)
    (s : Site)
    → IsTidy s
    → Leaves IsTidy (switch_link user c o now l s)
switch_link-tidy user c none now l s t = t
switch_link-tidy user c (some false) now l s t = set_active-tidy false l s t
switch_link-tidy user c (some true) now l s t = elim (Bool-cases l.is_active) [
  | inl on ↦ simp (on) t
  | inr off ↦ simp (off) (
      calls IsTidy (check_room user c.id now s) _ (of_world s _ t)
        (λ _ v q. set_active-tidy true l v q))
]

pub update_alias-tidy :
    (x : Naming) (user alias : ℕ) (slug : Option String) (active : Option Bool) (now : DateTime)
    (s : Site)
    → IsTidy s
    → Leaves IsTidy (update_alias x user alias slug active now s)
unfolding update_alias
update_alias-tidy x user alias slug active now s t =
    calls IsTidy (get_or_create_for_user x user s) _ (get_or_create-tidy x user s t) (λ c v q.
      calls IsTidy (owned_alias c.id alias v) _ (owned_alias-tidy c.id alias v q) (λ l v r.
        calls IsTidy (rename_link slug l v) _ (rename_link-tidy slug l v r)
          (λ m v k. switch_link-tidy user c active now m v k)))

pub delete_alias-tidy :
    (x : Naming) (user alias : ℕ) (s : Site)
    → IsTidy s
    → Leaves IsTidy (delete_alias x user alias s)
unfolding delete_alias
delete_alias-tidy x user alias s t =
    calls IsTidy (get_or_create_for_user x user s) _ (get_or_create-tidy x user s t) (λ c v q.
      calls IsTidy (owned_alias c.id alias v) _ (owned_alias-tidy c.id alias v q)
        (λ l v r. of_link_delete (λ m. m.id == l.id) v r))
