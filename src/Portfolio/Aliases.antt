-- ===== src/Portfolio/Aliases.antt =====
-- services/portfolio_service.py: the extra links of a page.
use chatfolio_backend.Prelude.{
  ℕ, ◌+◌, ◌-◌, Bool, true, false, ◌&&◌, ◌||◌, not, Option, none, some, List, [], ◌∷◌, ◌++◌, map,
  String, str_eq, ◌==◌, if◌then◌else◌, first_row, any_row, where_rows, update_first, delete_rows,
  count_rows, take, length,
}
use chatfolio_backend.Prelude.Int.{pos_part}
use chatfolio_backend.Errors.{ok, err, integrity, conflict, not_found}
use chatfolio_backend.Action.{Action, pure, raise_if, gets, modify, or_raise, ◌>>=◌, ◌>>◌}
use chatfolio_backend.Catalog.{FeatureKey}
use chatfolio_backend.Time.Calendar.{DateTime}
use chatfolio_backend.Entitlements.{Entitlements, is_unlimited, limit}
use chatfolio_backend.Guard.{entitled, lock_and_check_room}
use chatfolio_backend.Models.Site.{Site, PublicChatfolio, ChatfolioLink}
use chatfolio_backend.Portfolio.{
  Naming, on_world, get_or_create_for_user, primary_named, link_named,
}

abbrev pub of_chatfolio : ℕ → ChatfolioLink → Bool
of_chatfolio id l = l.chatfolio_id == id

abbrev pub alias_on : ChatfolioLink → Bool
alias_on l = l.is_active

abbrev pub live_of : ℕ → ChatfolioLink → Bool
live_of id l = (l.chatfolio_id == id) && l.is_active

-- `_aliases`: oldest first.
unfoldable pub aliases : ℕ → Site → List ChatfolioLink
aliases id s = where_rows (of_chatfolio id) s.links

-- `_link_count`: the primary slug and every active alias.
unfoldable pub link_count : ℕ → Site → ℕ
link_count id s = 1 + count_rows (live_of id) s.links

-- `max(entitlements.limit(LINKS_MAX) - 1, 0)`
abbrev pub extra_links : Entitlements → ℕ
extra_links e = pos_part (limit e FeatureKey.links_max) - 1

abbrev pub contains : List ChatfolioLink → ℕ → Bool
contains ls id = any_row (λ m. m.id == id) ls

-- Each alias with whether the plan honours it.
unfoldable pub honoured : Entitlements → List ChatfolioLink → List (ChatfolioLink × Bool)
honoured e links =
    let allowed = if is_unlimited e FeatureKey.links_max then length links else extra_links e in
    map (λ l. (l, contains (take allowed (where_rows alias_on links)) l.id)) links

unfoldable pub list_aliases : Naming → ℕ → DateTime → Action Site (List (ChatfolioLink × Bool))
list_aliases x user now = do
  c ← get_or_create_for_user x user
  e ← on_world (entitled user now)
  gets (λ s. honoured e (aliases c.id s))

-- `_ensure_alias_slug_available`; no row has the id 0.
unfoldable pub ensure_alias_slug_available : String → ℕ → Action Site (Unit {0})
ensure_alias_slug_available slug exclude s =
    raise_if
      (any_row (primary_named slug) s.chatfolios
        || any_row (λ l. str_eq l.slug slug && not (l.id == exclude)) s.links)
      (conflict "Slug is already taken.") s

unfoldable pub add_link : ℕ → String → Action Site ChatfolioLink
add_link chatfolio slug s =
    let l : ChatfolioLink = record {
      id = s.next_id;
      chatfolio_id = chatfolio;
      slug = slug;
      is_active = true;
    } in
    if any_row (link_named slug) s.links
    then (err integrity, s)
    else (ok l, record s { links = s.links ++ (l ∷ []); next_id = s.next_id + 1 })

abbrev pub check_room : ℕ → ℕ → DateTime → Action Site (Unit {0})
check_room user chatfolio now s =
    on_world (lock_and_check_room user FeatureKey.links_max (link_count chatfolio s) now) s

unfoldable pub add_alias : Naming → ℕ → String → DateTime → Action Site ChatfolioLink
add_alias x user slug now = do
  c ← get_or_create_for_user x user
  check_room user c.id now
  ensure_alias_slug_available slug 0
  add_link c.id slug

-- `_owned_alias`
unfoldable pub owned_alias : ℕ → ℕ → Action Site ChatfolioLink
owned_alias chatfolio alias = do
  l ← gets (λ s. first_row (λ m. m.id == alias) s.links) >>= or_raise (not_found "Alias not found.")
  raise_if (not (l.chatfolio_id == chatfolio)) (not_found "Alias not found.")
  pure l

unfoldable pub change_link : ℕ → (ChatfolioLink → ChatfolioLink) → Site → Site
change_link id f s = record s { links = update_first (λ m. m.id == id) f s.links }

abbrev pub rename_link : Option String → ChatfolioLink → Action Site ChatfolioLink
rename_link none l = pure l
rename_link (some slug) l = if str_eq slug l.slug then pure l else (do
  ensure_alias_slug_available slug l.id
  modify (change_link l.id (λ m. record m { slug = slug }))
  pure (record l { slug = slug }))

abbrev pub set_active : Bool → ChatfolioLink → Action Site ChatfolioLink
set_active b l = do
  modify (change_link l.id (λ m. record m { is_active = b }))
  pure (record l { is_active = b })

abbrev pub switch_link :
    ℕ → PublicChatfolio → Option Bool → DateTime → ChatfolioLink → Action Site ChatfolioLink
switch_link user c (some true) now l =
    if l.is_active then pure l else (do check_room user c.id now; set_active true l)
switch_link user c (some false) now l = set_active false l
switch_link user c none now l = pure l

unfoldable pub update_alias :
    Naming → ℕ → ℕ → Option String → Option Bool → DateTime → Action Site ChatfolioLink
update_alias x user alias slug active now = do
  c ← get_or_create_for_user x user
  l ← owned_alias c.id alias
  renamed ← rename_link slug l
  switch_link user c active now renamed

unfoldable pub delete_alias : Naming → ℕ → ℕ → Action Site (Unit {0})
delete_alias x user alias = do
  c ← get_or_create_for_user x user
  l ← owned_alias c.id alias
  modify (λ s. record s { links = delete_rows (λ m. m.id == l.id) s.links })
