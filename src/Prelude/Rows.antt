-- ===== src/Prelude/Rows.antt =====
-- A query with a stronger condition, on the rows that a weaker one selects.
use chatfolio_backend.Prelude.{
  ◌≡◌, refl, Bool, true, none, some, List, [], ◌∷◌, arith, first_row, where_rows, All, update_first,
  any_row, false, Bool-cases, inl, inr,
}

module _ {ℓ} {A : Type ℓ} (p q : A → Bool) (stronger : (x : A) → q x ≡ true → p x ≡ true) where
  pub first_row-narrow :
      (l : List A) (s : A) → first_row p l ≡ some s → q s ≡ true → first_row q l ≡ some s
  first_row-narrow [] s h k = cc
  first_row-narrow (x ∷ l) s h k = ground (arith, stronger x, first_row-narrow l s)

  pub first_row-narrow_none : (l : List A) → first_row p l ≡ none → first_row q l ≡ none
  first_row-narrow_none [] h = refl
  first_row-narrow_none (x ∷ l) h = ground (arith, stronger x, first_row-narrow_none l)

  pub where_rows-narrow :
      (l : List A) → All (λ x. q x ≡ true) (where_rows p l) → where_rows q l ≡ where_rows p l
  where_rows-narrow [] h = refl
  where_rows-narrow (x ∷ l) h = ground (arith, stronger x, where_rows-narrow l)

-- What a query finds passes its condition.
pub first_row-passes {ℓ} :
    {A : Type ℓ} (p : A → Bool) (s : A) (l : List A) → first_row p l ≡ some s → p s ≡ true
first_row-passes p s [] h = cc
first_row-passes p s (x ∷ l) h = ground (arith, first_row-passes p s l)

-- A change of the row that a query returned, which leaves the query's condition as it is.
module _ {ℓ} {A : Type ℓ} (p : A → Bool) (f : A → A) (stays : (x : A) → p (f x) ≡ p x) where
  pub update_first-found :
      (l : List A) (s : A) → first_row p l ≡ some s → first_row p (update_first p f l) ≡ some (f s)
  update_first-found [] s h = cc
  update_first-found (x ∷ l) s h = ground (arith, stays x, update_first-found l s)

  pub update_first-twice :
      (g k : A → A)
      → ((x : A) → g (f x) ≡ k x)
      → (l : List A) → update_first p g (update_first p f l) ≡ update_first p k l
  update_first-twice g k same [] = refl
  update_first-twice g k same (x ∷ l) =
      ground (arith, stays x, same x, update_first-twice g k same l)

pub update_first-idle {ℓ} :
    {A : Type ℓ} (p : A → Bool) (f : A → A)
    → ((x : A) → f x ≡ x)
    → (l : List A) → update_first p f l ≡ l
update_first-idle p f same [] = refl
update_first-idle p f same (x ∷ l) = ground (arith, same x, update_first-idle p f same l)

-- A change of another row.
pub update_first-other {ℓ} :
    {A : Type ℓ} (p q : A → Bool) (f : A → A)
    → ((x : A) → p x ≡ true → q x ≡ false)
    → ((x : A) → p x ≡ true → q (f x) ≡ false)
    → (l : List A) → first_row q (update_first p f l) ≡ first_row q l
update_first-other p q f before after [] = refl
update_first-other p q f before after (x ∷ l) =
    ground (arith, before x, after x, update_first-other p q f before after l)

pub any_row-none {ℓ} :
    {A : Type ℓ} (p : A → Bool) (l : List A) → any_row p l ≡ false → first_row p l ≡ none
any_row-none p [] h = refl
any_row-none p (x ∷ l) h = ground (arith, any_row-none p l)

pub any_row-some {ℓ} :
    {A : Type ℓ} (p : A → Bool) (l : List A)
    → any_row p l ≡ true
    → (s : A) × (first_row p l ≡ some s)
any_row-some p [] h = ground arith
any_row-some p (x ∷ l) h = elim (Bool-cases (p x)) [
  | inl hit ↦ (x, ground (arith, hit))
  | inr miss ↦ let (s, e) = any_row-some p l (ground (arith, miss)) in (s, ground (arith, miss, e))
]
