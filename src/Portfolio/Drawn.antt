-- ===== src/Portfolio/Drawn.antt =====
-- When a new page finds a slug: `_generate_unique_slug` (services/portfolio_service.py).
use Prim.Native.String.{◌++◌}
use chatfolio_backend.Prelude.{
  ℕ, zero, suc, ◌<◌, ◌≡◌, refl, true, false, some, arith, String, Bool, List, [], ◌∷◌, str_eq,
  any_row, All, Bool-cases, inl, inr,
}
use chatfolio_backend.Errors.{ok}
use chatfolio_backend.Models.Site.{Site}
use chatfolio_backend.Portfolio.{
  Naming, slugify, slug_exists, draw_slug, generate_unique_slug, primary_named, link_named,
}
use chatfolio_backend.Portfolio.Kept.{draw_slug-free}

draw_slug-finds :
    (x : Naming) (base : String) (n k : ℕ) (s : Site)
    → k < n
    → slug_exists (base ++ ("-" ++ x.token_hex k)) s ≡ false
    → (slug : String) × (draw_slug x base n s ≡ some slug)
unfolding draw_slug
draw_slug-finds x base zero k s h free = ground arith
draw_slug-finds x base (suc n) k s h free =
    elim (Bool-cases (slug_exists (base ++ ("-" ++ x.token_hex n)) s)) [
      | inr new ↦ rw new (_, refl)
      | inl old ↦ rw old (draw_slug-finds x base n k s (earlier old) free)
    ]
  where
    earlier : slug_exists (base ++ ("-" ++ x.token_hex n)) s ≡ true → k < n
    earlier old = ground (arith, free, old)

-- No page and no alias has the slug.
abbrev pub IsUnused : String → Site → Type 0
IsUnused slug s =
    All (λ c. str_eq c.slug slug ≡ false) s.chatfolios
    × All (λ l. str_eq l.slug slug ≡ false) s.links

none-pass {ℓ} :
    {A : Type ℓ} (p : A → Bool) (l : List A) → any_row p l ≡ false → All (λ x. p x ≡ false) l
none-pass p [] h = tt
none-pass p (x ∷ l) h = (ground arith, none-pass p l (ground arith))

pass-none {ℓ} :
    {A : Type ℓ} (p : A → Bool) (l : List A) → All (λ x. p x ≡ false) l → any_row p l ≡ false
pass-none p [] h = refl
pass-none p (x ∷ l) (h, hs) = ground (arith, h, pass-none p l hs)

-- Whenever one of the five draws gives a slug that no page and no alias has, a slug is found, and no
-- page and no alias has it.
pub generate_unique_slug-finds :
    (x : Naming) (name : String) (k : ℕ) (s : Site)
    → k < 5
    → IsUnused (slugify x name ++ ("-" ++ x.token_hex k)) s
    → (slug : String) × (generate_unique_slug x name s ≡ (ok slug, s)) × IsUnused slug s
unfolding generate_unique_slug slug_exists
generate_unique_slug-finds x name k s h (pages, links) =
    let drawn = slugify x name ++ ("-" ++ x.token_hex k) in
    let free : slug_exists drawn s ≡ false = ground (
      arith,
      pass-none (primary_named drawn) s.chatfolios pages,
      pass-none (link_named drawn) s.links links,
    ) in
    let (slug, e) = draw_slug-finds x (slugify x name) 5 k s h free in
    let new = draw_slug-free x (slugify x name) 5 s slug e in
    (
      slug,
      rw e refl,
      (
        none-pass (primary_named slug) s.chatfolios (ground (arith, new)),
        none-pass (link_named slug) s.links (ground (arith, new)),
      ),
    )
