-- ===== src/Portfolio/Honoured.antt =====
-- What an owner is told of an alias and what a visitor of it gets: `list_aliases`
-- (services/portfolio_service.py) and `resolve_published` (services/chatfolio_resolver.py).
use chatfolio_backend.Prelude.{
  ℕ, zero, suc, ◌≤◌, ◌≡◌, refl, sym, ◌∙◌, ap, Bool, true, Bool-cases, inl, inr, none, some, arith,
  List, [], ◌∷◌, map, String, ◌==◌, if◌then◌else◌, first_row, where_rows, take, length,
}
use chatfolio_backend.Errors.{Result, ok, err}
use chatfolio_backend.Action.{proceed}
use chatfolio_backend.World.{World}
use chatfolio_backend.Catalog.{FeatureKey}
use chatfolio_backend.Time.Calendar.{DateTime}
use chatfolio_backend.Entitlements.{Entitlements, is_unlimited}
use chatfolio_backend.Guard.{entitled}
use chatfolio_backend.Models.Site.{Site, CandidateProfile, PublicChatfolio, ChatfolioLink}
use chatfolio_backend.Portfolio.Aliases.{
  of_chatfolio, alias_on, live_of, aliases, extra_links, contains, honoured,
}
use chatfolio_backend.Portfolio.Resolver.{
  for_owner, public_named, live_named, alias_in_plan, resolve_published,
}

live_aliases :
    (id : ℕ) (ls : List ChatfolioLink)
    → where_rows alias_on (where_rows (of_chatfolio id) ls) ≡ where_rows (live_of id) ls
live_aliases id [] = refl
live_aliases id (l ∷ ls) = ground (arith, live_aliases id ls)

take-all : (n : ℕ) (ls : List ChatfolioLink) → length ls ≤ n → take n ls ≡ ls
take-all n [] h = refl
take-all zero (l ∷ ls) h = ground arith
take-all (suc n) (l ∷ ls) h = ap (λ m. l ∷ m) (take-all n ls (omega arith))

length-where :
    (p : ChatfolioLink → Bool) (ls : List ChatfolioLink) → length (where_rows p ls) ≤ length ls
length-where p [] = omega arith
length-where p (l ∷ ls) = ground (arith, length-where p ls)

is-there :
    (slug : String) (l : ChatfolioLink) (ls : List ChatfolioLink)
    → l.is_active ≡ true
    → first_row (live_named slug) ls ≡ some l
    → contains (where_rows (live_of l.chatfolio_id) ls) l.id ≡ true
is-there slug l [] a h = cc
is-there slug l (m ∷ ls) a h = ground (arith, is-there slug l ls)

abbrev pub alias_row : ℕ → ChatfolioLink × Bool → Bool
alias_row id (l, _) = l.id == id

honoured-flag :
    (f : ℕ → Bool) (l : ChatfolioLink) (b : Bool) (ls : List ChatfolioLink)
    → first_row (alias_row l.id) (map (λ m. (m, f m.id)) ls) ≡ some (l, b)
    → b ≡ f l.id
honoured-flag f l b [] h = cc
honoured-flag f l b (m ∷ ls) h = ground (arith, honoured-flag f l b ls)

-- The plan's answer for an alias, as the owner's list gives it.
planned : Entitlements → ℕ → List ChatfolioLink → ℕ → Bool
planned e id ls l =
    contains
      (take
        (if is_unlimited e FeatureKey.links_max
          then length (where_rows (of_chatfolio id) ls)
          else extra_links e)
        (where_rows alias_on (where_rows (of_chatfolio id) ls)))
      l

alias_in_plan-planned :
    (c : PublicChatfolio) (l : ChatfolioLink) (e : Entitlements) (slug : String)
    (ls : List ChatfolioLink)
    → l.is_active ≡ true
    → l.chatfolio_id ≡ c.id
    → first_row (live_named slug) ls ≡ some l
    → alias_in_plan c l e ls ≡ (if planned e c.id ls l.id then some c else none)
unfolding planned
alias_in_plan-planned c l e slug ls a own h =
    elim (Bool-cases (is_unlimited e FeatureKey.links_max)) [
      | inr bounded ↦ rw (bounded, live_aliases c.id ls) refl
      | inl free ↦
          rw
            (
              free,
              take-all (length (where_rows (of_chatfolio c.id) ls)) _
                  (length-where alias_on (where_rows (of_chatfolio c.id) ls)),
              live_aliases c.id ls,
            )
            rw (sym own) rw (is-there slug l ls a h) refl
    ]

served :
    (c : PublicChatfolio) (l : ChatfolioLink) (e : Entitlements) (s : Site)
    (m : Result Entitlements × World)
    → m.0 ≡ ok e
    → (proceed (m.0, record s { world = m.1 }) (λ f t. (ok (alias_in_plan c l f t.links), t))).0
      ≡ ok (alias_in_plan c l e s.links)
served c l e s (ok f, w) h = let same : f ≡ e = cc in rw same refl
served c l e s (err f, w) h = cc

for_owner-serves :
    (c : PublicChatfolio) (l : ChatfolioLink) (p : CandidateProfile) (e : Entitlements)
    (now : DateTime) (s : Site)
    → (entitled p.user_id now s.world).0 ≡ ok e
    → (for_owner c l (some p) now s).0 ≡ ok (alias_in_plan c l e s.links)
for_owner-serves c l p e now s h = served c l e s (entitled p.user_id now s.world) h

own_of :
    (l : ChatfolioLink) (c : PublicChatfolio) (cs : List PublicChatfolio)
    → first_row (λ d. d.id == l.chatfolio_id) cs ≡ some c
    → l.chatfolio_id ≡ c.id
own_of l c [] h = cc
own_of l c (d ∷ cs) h = ground (arith, own_of l c cs)

live_of_row :
    (slug : String) (l : ChatfolioLink) (ls : List ChatfolioLink)
    → first_row (live_named slug) ls ≡ some l
    → l.is_active ≡ true
live_of_row slug l [] h = cc
live_of_row slug l (m ∷ ls) h = ground (arith, live_of_row slug l ls)

-- A visitor of an active alias of a published page gets the page exactly when the owner's list says
-- that the plan honours the alias: under the same entitlements, where the slug is no published
-- page's own, and the alias's page and its owner's profile are there.
pub resolve_published-honoured :
    (slug : String) (l : ChatfolioLink) (c : PublicChatfolio) (p : CandidateProfile)
    (e : Entitlements) (b : Bool) (now : DateTime) (s : Site)
    → first_row (public_named slug) s.chatfolios ≡ none
    → first_row (live_named slug) s.links ≡ some l
    → first_row (λ d. d.id == l.chatfolio_id) s.chatfolios ≡ some c
    → c.is_published ≡ true
    → first_row (λ q. q.id == c.profile_id) s.profiles ≡ some p
    → (entitled p.user_id now s.world).0 ≡ ok e
    → first_row (alias_row l.id) (honoured e (aliases c.id s)) ≡ some (l, b)
    → (resolve_published slug now s).0 ≡ ok (if b then some c else none)
unfolding resolve_published honoured aliases
resolve_published-honoured slug l c p e b now s primary found page on owner plan listed =
    let own : l.chatfolio_id ≡ c.id = own_of l c s.chatfolios page in
    let live : l.is_active ≡ true = (live_of_row slug l s.links found) in
    let flagged =
      honoured-flag (planned e c.id s.links) l b (aliases c.id s)
        (unfold planned in unfold aliases in listed) in
    rw (primary, found) rw page simp (on) rw owner rw (for_owner-serves c l p e now s plan)
      (ap ok (alias_in_plan-planned c l e slug s.links live own found ∙ rw flagged refl))
