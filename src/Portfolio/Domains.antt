-- ===== src/Portfolio/Domains.antt =====
-- services/domain_service.py: custom domains of a page.
use chatfolio_backend.Prelude.{
  ℕ, ◌+◌, Bool, false, not, Option, none, some, List, [], ◌∷◌, ◌++◌, String, str_eq, ◌==◌,
  if◌then◌else◌, first_row, any_row, where_rows, delete_rows, length,
}
use chatfolio_backend.Errors.{ok, err, integrity, conflict, not_found}
use chatfolio_backend.Action.{Action, pure, raise_if, gets, modify, or_raise, ◌>>=◌, ◌>>◌}
use chatfolio_backend.Catalog.{FeatureKey}
use chatfolio_backend.Time.Calendar.{DateTime}
use chatfolio_backend.Guard.{lock_and_check_room}
use chatfolio_backend.Models.Site.{Site, PublicDomain}
use chatfolio_backend.Portfolio.{Naming, on_world, get_or_create_for_user}

-- `_require_enabled`
abbrev pub require_enabled : Bool → Action Site (Unit {0})
require_enabled enabled = raise_if (not enabled) (not_found "Custom domains are not available yet.")

-- `_domains`: oldest first.
unfoldable pub domains : ℕ → Site → List PublicDomain
domains chatfolio s = where_rows (λ d. d.chatfolio_id == chatfolio) s.domains

abbrev pub head : List PublicDomain → Option PublicDomain
head [] = none
head (d ∷ ds) = some d

unfoldable pub list_domains : Naming → Bool → ℕ → Action Site (List PublicDomain)
list_domains x enabled user = do
  require_enabled enabled
  c ← get_or_create_for_user x user
  gets (domains c.id)

unfoldable pub get_domain : Naming → Bool → ℕ → Action Site (Option PublicDomain)
get_domain x enabled user = do ds ← list_domains x enabled user; pure (head ds)

-- `_ensure_free`
unfoldable pub ensure_free : String → Action Site (Unit {0})
ensure_free domain s =
    raise_if (any_row (λ d. str_eq d.domain domain) s.domains)
      (conflict "Domain is already in use.") s

-- `_create`; the token is what `token_hex` draws.
unfoldable pub create_domain : ℕ → String → String → Action Site PublicDomain
create_domain chatfolio domain token s =
    let d : PublicDomain = record {
      id = s.next_id;
      chatfolio_id = chatfolio;
      domain = domain;
      is_verified = false;
      verification_token = token;
    } in
    if any_row (λ e. str_eq e.domain domain) s.domains
    then (err integrity, s)
    else (ok d, record s { domains = s.domains ++ (d ∷ []); next_id = s.next_id + 1 })

abbrev pub check_domain_room : ℕ → ℕ → DateTime → Action Site (Unit {0})
check_domain_room user current now =
    on_world (lock_and_check_room user FeatureKey.custom_domains_max current now)

unfoldable pub add_domain :
    Naming → Bool → ℕ → String → String → DateTime → Action Site PublicDomain
add_domain x enabled user domain token now = do
  require_enabled enabled
  c ← get_or_create_for_user x user
  ensure_free domain
  λ s. check_domain_room user (length (domains c.id s)) now s
  create_domain c.id domain token

abbrev pub drop_domain : Option PublicDomain → Site → Site
drop_domain none s = s
drop_domain (some d) s = record s { domains = delete_rows (λ e. e.id == d.id) s.domains }

unfoldable pub replace_domain :
    Naming → Bool → ℕ → String → String → DateTime → Action Site PublicDomain
replace_domain x enabled user domain token now = do
  require_enabled enabled
  c ← get_or_create_for_user x user
  ensure_free domain
  modify (λ s. drop_domain (head (domains c.id s)) s)
  λ s. check_domain_room user (length (domains c.id s)) now s
  create_domain c.id domain token

abbrev pub target_domain : Option ℕ → List PublicDomain → Option PublicDomain
target_domain none ds = head ds
target_domain (some id) ds = first_row (λ d. d.id == id) ds

unfoldable pub remove_domain : Naming → Bool → ℕ → Option ℕ → Action Site (Unit {0})
remove_domain x enabled user id = do
  require_enabled enabled
  c ← get_or_create_for_user x user
  d ←
      gets (λ s. target_domain id (domains c.id s))
      >>= or_raise (not_found "No custom domain is configured.")
  modify (drop_domain (some d))
