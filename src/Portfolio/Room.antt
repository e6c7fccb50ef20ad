-- ===== src/Portfolio/Room.antt =====
-- How many links and domains a plan leaves room for: `add_alias` (services/portfolio_service.py) and
-- `add_domain` (services/domain_service.py) with `lock_and_check_room`.
use chatfolio_backend.Prelude.{
  ℕ, zero, suc, ◌+◌, ◌≤◌, ◌≡◌, refl, sym, ◌⊎◌, inl, inr, true, ◌&&◌, ◌||◌, not, Bool-cases, arith,
  [], ◌∷◌, ◌++◌, String, str_eq, ◌==◌, any_row, count_rows,
}
use chatfolio_backend.Prelude.Int.{ℤ, pos, negsuc}
use chatfolio_backend.Errors.{Result, ok, err}
use chatfolio_backend.Action.{proceed}
use chatfolio_backend.Catalog.{FeatureKey, unlimited}
use chatfolio_backend.Time.Calendar.{DateTime}
use chatfolio_backend.World.{World}
use chatfolio_backend.Entitlements.{Entitlements, limit}
use chatfolio_backend.Quota.Tally.{ensure_room}
use chatfolio_backend.Guard.{entitled, lock_and_check_room}
use chatfolio_backend.Models.Site.{Site, PublicChatfolio, ChatfolioLink}
use chatfolio_backend.Portfolio.{Naming, get_or_create_for_user, primary_named, link_named}
use chatfolio_backend.Portfolio.Tidy.{count-append}
use chatfolio_backend.Portfolio.Aliases.{
  live_of, link_count, ensure_alias_slug_available, add_link, add_alias,
}

-- A count with room for one more.
abbrev pub HasRoom : ℤ → ℕ → Type 0
HasRoom l n = (l ≡ unlimited) ⊎ ((m : ℕ) × (l ≡ pos m) × (n ≤ m))

ensure_room-HasRoom :
    (f : FeatureKey) (l : ℤ) (n : ℕ) → ensure_room f l n ≡ ok tt → HasRoom l (suc n)
unfolding ensure_room
ensure_room-HasRoom f (pos m) n h = inr (m, refl, ground arith)
ensure_room-HasRoom f (negsuc zero) n h = inl refl
ensure_room-HasRoom f (negsuc (suc m)) n h = ground arith

asked :
    (f : FeatureKey) (n : ℕ) (e : Entitlements) (m : Result Entitlements × World)
    → m.0 ≡ ok e
    → (proceed m (λ g w. (ensure_room f (limit g f) n, w))).0 ≡ ensure_room f (limit e f) n
asked f n e (ok g, w) h = let same : g ≡ e = cc in rw same refl
asked f n e (err x, w) h = cc

lock_and_check_room-asks :
    (user : ℕ) (f : FeatureKey) (n : ℕ) (now : DateTime) (e : Entitlements) (w : World)
    → (entitled user now w).0 ≡ ok e
    → (lock_and_check_room user f n now w).0 ≡ ensure_room f (limit e f) n
unfolding lock_and_check_room
lock_and_check_room-asks user f n now e w h = asked f n e (entitled user now w) h

one_more :
    (id : ℕ) (slug : String) (v : Site)
    → 1
        + count_rows (live_of id) (
            v.links
            ++ (record { id = v.next_id; chatfolio_id = id; slug = slug; is_active = true } ∷ []))
      ≡ suc (1 + count_rows (live_of id) v.links)
one_more id slug v = ground (
  arith,
  count-append (live_of id)
      (record { id = v.next_id; chatfolio_id = id; slug = slug; is_active = true }) v.links,
)

-- A success holds no more than the plan allows.
abbrev pub Fits : ℤ → ℕ → Result ChatfolioLink × Site → Type 0
Fits lim id (ok l, s) = HasRoom lim (link_count id s)
Fits lim id (err e, s) = Unit

-- The check of the slug and the insert.
linked :
    (lim : ℤ) (id : ℕ) (slug : String) (v : Site)
    → HasRoom lim (suc (link_count id v))
    → Fits lim id (proceed (ensure_alias_slug_available slug 0 v) (λ _ t. add_link id slug t))
unfolding ensure_alias_slug_available add_link link_count
linked lim id slug v h =
    elim (Bool-cases (
      any_row (primary_named slug) v.chatfolios
      || any_row (λ l. str_eq l.slug slug && not (l.id == 0)) v.links)) [
        | inl taken ↦ rw taken tt
        | inr free ↦ rw free (elim (Bool-cases (any_row (link_named slug) v.links)) [
          | inl clash ↦ rw clash tt
          | inr new ↦ rw new (rw (one_more id slug v) h)
        ])
      ]

placed :
    (lim : ℤ) (id : ℕ) (slug : String) (v : Site) (w : World) (r : Result (Unit {0}))
    → ensure_room FeatureKey.links_max lim (link_count id v) ≡ r
    → Fits lim id (
        proceed
          (r, record v { world = w })
          (λ _ t. proceed (ensure_alias_slug_available slug 0 t) (λ _ u. add_link id slug u)))
placed lim id slug v w (err x) h = tt
placed lim id slug v w (ok tt) h =
    linked lim id slug (record v { world = w })
      (unfold link_count in ensure_room-HasRoom FeatureKey.links_max lim _ (unfold link_count in h))

-- An alias is added only within the plan: after a success the page holds no more links, its own slug
-- included, than the entitlements that were read allow, or they set no bound.
pub add_alias-HasRoom :
    (x : Naming) (user : ℕ) (slug : String) (now : DateTime) (s v : Site) (c : PublicChatfolio)
    (e : Entitlements)
    → get_or_create_for_user x user s ≡ (ok c, v)
    → (entitled user now v.world).0 ≡ ok e
    → Fits (limit e FeatureKey.links_max) c.id (add_alias x user slug now s)
unfolding add_alias
add_alias-HasRoom x user slug now s v c e page has = rw page (
    placed (limit e FeatureKey.links_max) c.id slug v
      (lock_and_check_room user FeatureKey.links_max (link_count c.id v) now v.world).1
      (lock_and_check_room user FeatureKey.links_max (link_count c.id v) now v.world).0
      (sym
        (lock_and_check_room-asks user FeatureKey.links_max (link_count c.id v) now e v.world has)))
