-- ===== src/Portfolio/Tidy.antt =====
-- Slugs and ids: no two pages or aliases answer to one slug. The writes of
-- services/portfolio_service.py, one by one.
use chatfolio_backend.Prelude.{
  ℕ, ◌+◌, ◌≤◌, ◌≡◌, refl, Bool-cases, inl, inr, Bool, true, false, ◌&&◌, ◌||◌, not, Option, none,
  some, arith, List, [], ◌∷◌, ◌++◌, String, str_eq, str_eq_iff, ◌==◌, if◌then◌else◌, first_row,
  any_row, count_rows, update_first, delete_rows,
}
use chatfolio_backend.Models.Site.{Site, CandidateProfile, PublicChatfolio, ChatfolioLink}
use chatfolio_backend.World.{World}
use chatfolio_backend.Billing.OneActive.{count-any}
use chatfolio_backend.Portfolio.{
  page_of, primary_named, link_named, slug_exists, add_chatfolio, profile_for, found, belongs_to,
}
use chatfolio_backend.Portfolio.Aliases.{add_link}
use chatfolio_backend.Portfolio.Publishing.{approve}

abbrev pub page_is : ℕ → PublicChatfolio → Bool
page_is id c = c.id == id

abbrev pub link_is : ℕ → ChatfolioLink → Bool
link_is id l = l.id == id

-- A slug belongs to one page or alias at most, ids are unique, and the next ones are fresh.
pub record IsTidy (s : Site) : Type 0 where
  pub one_slug :
      (z : String)
      → count_rows (primary_named z) s.chatfolios + count_rows (link_named z) s.links ≤ 1
  pub one_page : (id : ℕ) → count_rows (page_is id) s.chatfolios ≤ 1
  pub one_link : (id : ℕ) → count_rows (link_is id) s.links ≤ 1
  pub fresh_page : (id : ℕ) → s.next_id ≤ id → count_rows (page_is id) s.chatfolios ≡ 0
  pub fresh_link : (id : ℕ) → s.next_id ≤ id → count_rows (link_is id) s.links ≡ 0

-- Rows with a name and an id, one of which gets a new name.
module _ {A : Type 0} (name : A → String) (ident : A → ℕ) (f : A → A) where
  pub count-ids :
      (n id : ℕ) (xs : List A)
      → ((x : A) → ident (f x) ≡ ident x)
      → count_rows (λ x. ident x == n) (update_first (λ x. ident x == id) f xs)
        ≡ count_rows (λ x. ident x == n) xs
  count-ids n id [] same = refl
  count-ids n id (x ∷ xs) same = ground (arith, same x, count-ids n id xs same)

  pub count-names :
      (z : String) (id : ℕ) (xs : List A)
      → ((x : A) → name (f x) ≡ name x)
      → count_rows (λ x. str_eq (name x) z) (update_first (λ x. ident x == id) f xs)
        ≡ count_rows (λ x. str_eq (name x) z) xs
  count-names z id [] same = refl
  count-names z id (x ∷ xs) same = ground (arith, same x, count-names z id xs same)

  module _ (new : String) (renames : (x : A) → name (f x) ≡ new) where
    pub count-old :
        (z : String) (id : ℕ) (xs : List A)
        → str_eq new z ≡ false
        → count_rows (λ x. str_eq (name x) z) (update_first (λ x. ident x == id) f xs)
          ≤ count_rows (λ x. str_eq (name x) z) xs
    count-old z id [] other = omega arith
    count-old z id (x ∷ xs) other = ground (arith, renames x, count-old z id xs other)

    only-own :
        (id : ℕ) (xs : List A)
        → any_row (λ x. str_eq (name x) new && not (ident x == id)) xs ≡ false
        → count_rows (λ x. str_eq (name x) new) xs ≤ count_rows (λ x. ident x == id) xs
    only-own id [] free = omega arith
    only-own id (x ∷ xs) free = ground (arith, only-own id xs)

    pub count-new :
        (id : ℕ) (xs : List A)
        → any_row (λ x. str_eq (name x) new && not (ident x == id)) xs ≡ false
        → count_rows (λ x. str_eq (name x) new) (update_first (λ x. ident x == id) f xs)
          ≤ count_rows (λ x. ident x == id) xs
    count-new id [] free = omega arith
    count-new id (x ∷ xs) free =
        ground (arith, renames x, (str_eq_iff new new).1 refl, only-own id xs, count-new id xs)

pub count-append :
    {A : Type 0} (p : A → Bool) (x : A) (xs : List A)
    → count_rows p (xs ++ (x ∷ [])) ≡ count_rows p xs + (if p x then 1 else 0)
count-append p x [] = ground arith
count-append p x (y ∷ xs) = ground (arith, count-append p x xs)

pub count-delete :
    {A : Type 0} (p q : A → Bool) (xs : List A) → count_rows p (delete_rows q xs) ≤ count_rows p xs
count-delete p q [] = omega arith
count-delete p q (x ∷ xs) = ground (arith, count-delete p q xs)

pub count-none :
    {A : Type 0} (p : A → Bool) (xs : List A) → any_row p xs ≡ false → count_rows p xs ≡ 0
count-none p xs h = ground (arith, count-any p xs)

pub of_world : (s : Site) (w : World) → IsTidy s → IsTidy (record s { world = w })
of_world s w t = record {
  one_slug = t.one_slug;
  one_page = t.one_page;
  one_link = t.one_link;
  fresh_page = t.fresh_page;
  fresh_link = t.fresh_link;
}

pub of_new_profile : (user : ℕ) (s : Site) → IsTidy s → IsTidy (profile_for user s).1
unfolding profile_for
of_new_profile user s t = go (first_row (belongs_to user) s.profiles)
  where
    go : (o : Option CandidateProfile) → IsTidy (found o user s).1
    go (some p) = t
    go none = record {
      one_slug = t.one_slug;
      one_page = t.one_page;
      one_link = t.one_link;
      fresh_page = λ id h. t.fresh_page id (omega arith);
      fresh_link = λ id h. t.fresh_link id (omega arith);
    }

pub of_approve : (profile : ℕ) (s : Site) → IsTidy s → IsTidy (approve profile s)
of_approve profile s t = record {
  one_slug = t.one_slug;
  one_page = t.one_page;
  one_link = t.one_link;
  fresh_page = t.fresh_page;
  fresh_link = t.fresh_link;
}

-- A new page with a slug that is nowhere.
pub of_page :
    (profile : ℕ) (slug : String) (s : Site)
    → slug_exists slug s ≡ false
    → IsTidy s
    → IsTidy (add_chatfolio profile slug s).1
unfolding add_chatfolio slug_exists
of_page profile slug s free t =
    elim (Bool-cases
      (any_row (page_of profile) s.chatfolios || any_row (primary_named slug) s.chatfolios)) [
        | inl clash ↦ rw clash t
        | inr new ↦ rw new (record {
          one_slug = λ z. ground (
            arith,
            t.one_slug z,
            str_eq_iff slug z,
            count-none (primary_named slug) s.chatfolios,
            count-none (link_named slug) s.links,
          );
          one_page = λ id. ground (arith, t.one_page id, t.fresh_page id);
          one_link = t.one_link;
          fresh_page = λ id h. ground (arith, t.fresh_page id);
          fresh_link = λ id h. t.fresh_link id (omega arith);
        })
      ]

-- A new alias with a slug that is nowhere.
pub of_link :
    (chatfolio : ℕ) (slug : String) (s : Site)
    → any_row (primary_named slug) s.chatfolios ≡ false
    → IsTidy s
    → IsTidy (add_link chatfolio slug s).1
unfolding add_link
of_link chatfolio slug s free t = elim (Bool-cases (any_row (link_named slug) s.links)) [
  | inl clash ↦ rw clash t
  | inr new ↦ rw new (record {
    one_slug = λ z. ground (
      arith,
      t.one_slug z,
      str_eq_iff slug z,
      count-none (primary_named slug) s.chatfolios free,
      count-none (link_named slug) s.links new,
      count-append (link_named z)
          (record { id = s.next_id; chatfolio_id = chatfolio; slug = slug; is_active = true })
          s.links,
    );
    one_page = t.one_page;
    one_link = λ id. ground (
      arith,
      t.one_link id,
      t.fresh_link id,
      count-append (link_is id)
          (record { id = s.next_id; chatfolio_id = chatfolio; slug = slug; is_active = true })
          s.links,
    );
    fresh_page = λ id h. t.fresh_page id (omega arith);
    fresh_link = λ id h. ground (
      arith,
      t.fresh_link id,
      count-append (link_is id)
          (record { id = s.next_id; chatfolio_id = chatfolio; slug = slug; is_active = true })
          s.links,
    );
  })
]
