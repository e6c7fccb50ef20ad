-- ===== src/Portfolio/Changed.antt =====
-- Slugs and ids under the changes of pages and aliases (services/portfolio_service.py).
use chatfolio_backend.Prelude.{
  ℕ, ◌≡◌, sym, Bool-cases, inl, inr, Bool, false, ◌&&◌, not, arith, String, str_eq, str_eq_iff,
  ◌==◌, any_row, delete_rows,
}
use chatfolio_backend.Models.Site.{Site, PublicChatfolio, ChatfolioLink}
use chatfolio_backend.Portfolio.{primary_named, link_named}
use chatfolio_backend.Portfolio.Aliases.{change_link}
use chatfolio_backend.Portfolio.Publishing.{change_chatfolio}
use chatfolio_backend.Portfolio.Tidy.{
  IsTidy, link_is, count-ids, count-names, count-old, count-new, count-delete, count-none,
}

-- A page changes, and keeps its slug.
pub of_page_change :
    (id : ℕ) (f : PublicChatfolio → PublicChatfolio) (s : Site)
    → ((c : PublicChatfolio) → (f c).slug ≡ c.slug)
    → ((c : PublicChatfolio) → (f c).id ≡ c.id)
    → IsTidy s
    → IsTidy (change_chatfolio id f s)
unfolding change_chatfolio
of_page_change id f s slugs ids t = record {
  one_slug =
      λ z. rw (count-names (λ c. c.slug) (λ c. c.id) f z id s.chatfolios slugs) (t.one_slug z);
  one_page = λ n. rw (count-ids (λ c. c.slug) (λ c. c.id) f n id s.chatfolios ids) (t.one_page n);
  one_link = t.one_link;
  fresh_page =
      λ n h. rw (count-ids (λ c. c.slug) (λ c. c.id) f n id s.chatfolios ids) (t.fresh_page n h);
  fresh_link = t.fresh_link;
}

-- A page gets a slug that no other page and no alias has.
pub of_page_rename :
    (new : String) (id : ℕ) (f : PublicChatfolio → PublicChatfolio) (s : Site)
    → ((c : PublicChatfolio) → (f c).slug ≡ new)
    → ((c : PublicChatfolio) → (f c).id ≡ c.id)
    → any_row (λ c. str_eq c.slug new && not (c.id == id)) s.chatfolios ≡ false
    → any_row (link_named new) s.links ≡ false
    → IsTidy s
    → IsTidy (change_chatfolio id f s)
unfolding change_chatfolio
of_page_rename new id f s slugs ids free links t = record {
  one_slug = λ z. elim (Bool-cases (str_eq new z)) [
    | inr other ↦ omega (
      arith,
      t.one_slug z,
      count-old (λ c. c.slug) (λ c. c.id) f new slugs z id s.chatfolios other,
    )
    | inl same ↦ rw (sym ((str_eq_iff new z).0 same)) (
        omega (
          arith,
          t.one_page id,
          count-new (λ c. c.slug) (λ c. c.id) f new slugs id s.chatfolios free,
          count-none (link_named new) s.links links,
        ))
  ];
  one_page = λ n. rw (count-ids (λ c. c.slug) (λ c. c.id) f n id s.chatfolios ids) (t.one_page n);
  one_link = t.one_link;
  fresh_page =
      λ n h. rw (count-ids (λ c. c.slug) (λ c. c.id) f n id s.chatfolios ids) (t.fresh_page n h);
  fresh_link = t.fresh_link;
}

-- The same of an alias.
pub of_link_change :
    (id : ℕ) (f : ChatfolioLink → ChatfolioLink) (s : Site)
    → ((l : ChatfolioLink) → (f l).slug ≡ l.slug)
    → ((l : ChatfolioLink) → (f l).id ≡ l.id)
    → IsTidy s
    → IsTidy (change_link id f s)
unfolding change_link
of_link_change id f s slugs ids t = record {
  one_slug = λ z. rw (count-names (λ l. l.slug) (λ l. l.id) f z id s.links slugs) (t.one_slug z);
  one_page = t.one_page;
  one_link = λ n. rw (count-ids (λ l. l.slug) (λ l. l.id) f n id s.links ids) (t.one_link n);
  fresh_page = t.fresh_page;
  fresh_link =
      λ n h. rw (count-ids (λ l. l.slug) (λ l. l.id) f n id s.links ids) (t.fresh_link n h);
}

pub of_link_rename :
    (new : String) (id : ℕ) (f : ChatfolioLink → ChatfolioLink) (s : Site)
    → ((l : ChatfolioLink) → (f l).slug ≡ new)
    → ((l : ChatfolioLink) → (f l).id ≡ l.id)
    → any_row (primary_named new) s.chatfolios ≡ false
    → any_row (λ l. str_eq l.slug new && not (l.id == id)) s.links ≡ false
    → IsTidy s
    → IsTidy (change_link id f s)
unfolding change_link
of_link_rename new id f s slugs ids pages free t = record {
  one_slug = λ z. elim (Bool-cases (str_eq new z)) [
    | inr other ↦
        omega
          (arith, t.one_slug z, count-old (λ l. l.slug) (λ l. l.id) f new slugs z id s.links other)
    | inl same ↦ rw (sym ((str_eq_iff new z).0 same)) (
        omega (
          arith,
          t.one_link id,
          count-new (λ l. l.slug) (λ l. l.id) f new slugs id s.links free,
          count-none (primary_named new) s.chatfolios pages,
        ))
  ];
  one_page = t.one_page;
  one_link = λ n. rw (count-ids (λ l. l.slug) (λ l. l.id) f n id s.links ids) (t.one_link n);
  fresh_page = t.fresh_page;
  fresh_link =
      λ n h. rw (count-ids (λ l. l.slug) (λ l. l.id) f n id s.links ids) (t.fresh_link n h);
}

pub of_link_delete :
    (q : ChatfolioLink → Bool) (s : Site)
    → IsTidy s
    → IsTidy (record s { links = delete_rows q s.links })
of_link_delete q s t = record {
  one_slug = λ z. omega (arith, t.one_slug z, count-delete (link_named z) q s.links);
  one_page = t.one_page;
  one_link = λ n. omega (arith, t.one_link n, count-delete (link_is n) q s.links);
  fresh_page = t.fresh_page;
  fresh_link = λ n h. omega (arith, t.fresh_link n h, count-delete (link_is n) q s.links);
}
