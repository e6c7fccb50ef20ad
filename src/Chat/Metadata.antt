-- ===== src/Chat/Metadata.antt =====
-- services/chat_service.py: `_merge_recruiter_metadata`, what is known of a visitor. The first mention
-- of each field wins.
use chatfolio_backend.Prelude.{
  ℕ, zero, suc, ◌≡◌, refl, ap, sym, ◌∙◌, Bool, true, false, Option, none, some, List, [], ◌∷◌,
  String, ◌==◌, is_none, if◌then◌else◌, inl, inr, Bool-cases, arith, or_else, first_row, any_row,
  update_first,
}
use chatfolio_backend.Prelude.Rows.{
  any_row-some, any_row-none, update_first-found, update_first-other,
}
use chatfolio_backend.Models.Chat.{MetadataField, RecruiterMetadata}

-- The position of a column, by which columns are compared.
abbrev index : MetadataField → ℕ
index MetadataField.name = 0
index MetadataField.company = 1
index MetadataField.role = 2
index MetadataField.required_skills = 3
index MetadataField.experience_expectation = 4
index MetadataField.location_pref = 5
index MetadataField.timeline = 6

abbrev pub eq_field : MetadataField → MetadataField → Bool
eq_field f g = index f == index g

-- `setattr(metadata, field, value)`
unfoldable pub set_attribute : MetadataField → String → RecruiterMetadata → RecruiterMetadata
set_attribute f v m = record m { attribute = λ g. if eq_field f g then some v else m.attribute g }

unfoldable pub first_wins : MetadataField × String → RecruiterMetadata → RecruiterMetadata
first_wins (f, v) m = if is_none (m.attribute f) then set_attribute f v m else m

-- The loop over what was extracted.
unfoldable pub fill : List (MetadataField × String) → RecruiterMetadata → RecruiterMetadata
fill [] m = m
fill (e ∷ es) m = fill es (first_wins e m)

abbrev pub known_in : ℕ → RecruiterMetadata → Bool
known_in id m = m.session_id == id

abbrev pub no_metadata : ℕ → RecruiterMetadata
no_metadata id = record { session_id = id; attribute = λ f. none }

unfoldable pub fill_row :
    ℕ → List (MetadataField × String) → List RecruiterMetadata → List RecruiterMetadata
fill_row id es rows =
    if any_row (known_in id) rows
    then update_first (known_in id) (fill es) rows
    else fill es (no_metadata id) ∷ rows

unfoldable pub merge_recruiter_metadata :
    ℕ → List (MetadataField × String) → List RecruiterMetadata → List RecruiterMetadata
merge_recruiter_metadata id [] rows = rows
merge_recruiter_metadata id (e ∷ es) rows = fill_row id (e ∷ es) rows

-- What the table knows of a column in a session.
abbrev attribute_of : Option RecruiterMetadata → MetadataField → Option String
attribute_of none f = none
attribute_of (some m) f = m.attribute f

unfoldable pub known : ℕ → MetadataField → List RecruiterMetadata → Option String
known id f rows = attribute_of (first_row (known_in id) rows) f

abbrev mentioned_value : Option (MetadataField × String) → Option String
mentioned_value none = none
mentioned_value (some e) = some e.1

-- The first value that was given for a column.
unfoldable pub first_mention : MetadataField → List (MetadataField × String) → Option String
first_mention f es = mentioned_value (first_row (λ e. eq_field e.0 f) es)

field_at : ℕ → MetadataField
field_at zero = MetadataField.name
field_at (suc zero) = MetadataField.company
field_at (suc (suc zero)) = MetadataField.role
field_at (suc (suc (suc zero))) = MetadataField.required_skills
field_at (suc (suc (suc (suc zero)))) = MetadataField.experience_expectation
field_at (suc (suc (suc (suc (suc zero))))) = MetadataField.location_pref
field_at (suc (suc (suc (suc (suc (suc n)))))) = MetadataField.timeline

field_at-index : (f : MetadataField) → field_at (index f) ≡ f
unfolding field_at
field_at-index MetadataField.name = refl
field_at-index MetadataField.company = refl
field_at-index MetadataField.role = refl
field_at-index MetadataField.required_skills = refl
field_at-index MetadataField.experience_expectation = refl
field_at-index MetadataField.location_pref = refl
field_at-index MetadataField.timeline = refl

eq_field→≡ : (f g : MetadataField) → eq_field f g ≡ true → f ≡ g
eq_field→≡ f g h = sym (field_at-index f) ∙ ap field_at (ground arith) ∙ field_at-index g

-- One entry fills its column when that is empty, and no other.
attribute-first_wins :
    (f g : MetadataField) (v : String) (m : RecruiterMetadata)
    → (first_wins (f, v) m).attribute g
      ≡ or_else (m.attribute g) (if eq_field f g then some v else none)
unfolding first_wins set_attribute
attribute-first_wins f g v m = elim (Bool-cases (eq_field f g)) [
  | inl same ↦ ground (arith, same, ap m.attribute (eq_field→≡ f g same))
  | inr other ↦ ground (arith, other)
]

attribute-fill :
    (g : MetadataField) (es : List (MetadataField × String)) (m : RecruiterMetadata)
    → (fill es m).attribute g ≡ or_else (m.attribute g) (first_mention g es)
unfolding fill first_mention
attribute-fill g [] m = ground arith
attribute-fill g ((f, v) ∷ es) m =
    attribute-fill g es (first_wins (f, v) m)
    ∙ unfold first_mention in
      (rw (attribute-first_wins f g v m) (elim (Bool-cases (eq_field f g)) [
        | inl same ↦ ground (arith, same)
        | inr other ↦ ground (arith, other)
      ]))

fill-known_in :
    (es : List (MetadataField × String)) (m : RecruiterMetadata)
    → (fill es m).session_id ≡ m.session_id
unfolding fill first_wins set_attribute
fill-known_in [] m = refl
fill-known_in (e ∷ es) m = fill-known_in es (first_wins e m) ∙ (ground arith)

known-fill_row :
    (id : ℕ) (f : MetadataField) (es : List (MetadataField × String))
    (rows : List RecruiterMetadata)
    → known id f (fill_row id es rows) ≡ or_else (known id f rows) (first_mention f es)
unfolding known fill_row
known-fill_row id f es rows = elim (Bool-cases (any_row (known_in id) rows)) [
  | inl there ↦
      let (m, e) = any_row-some (known_in id) rows there in
      rw
        (
          there,
          e,
          update_first-found (known_in id) (fill es) (λ m. ap (λ i. i == id) (fill-known_in es m))
              rows m e,
        )
        (attribute-fill f es m)
  | inr new ↦
      rw (new, any_row-none (known_in id) rows new)
        (rw (fill-known_in es (no_metadata id), same) (attribute-fill f es (no_metadata id)))
]
  where
    same : (id == id) ≡ true
    same = ground arith

known-fill_row_other :
    (id other : ℕ) (f : MetadataField) (es : List (MetadataField × String))
    (rows : List RecruiterMetadata)
    → (other == id) ≡ false
    → known id f (fill_row other es rows) ≡ known id f rows
unfolding known fill_row
known-fill_row_other id other f es rows ne = elim (Bool-cases (any_row (known_in other) rows)) [
  | inl there ↦
      rw
        (
          there,
          update_first-other (known_in other) (known_in id) (fill es) (λ m h. ground (arith, ne))
              (λ m h. rw (fill-known_in es m) (ground (arith, ne))) rows,
        )
        refl
  | inr new ↦ rw (new, fill-known_in es (no_metadata other), ne) refl
]

known-merge :
    (id other : ℕ) (f : MetadataField) (es : List (MetadataField × String))
    (rows : List RecruiterMetadata)
    → known id f (merge_recruiter_metadata other es rows)
      ≡ or_else (known id f rows) (first_mention f (if other == id then es else []))
unfolding merge_recruiter_metadata
known-merge id other f [] rows = unfold first_mention in ground arith
known-merge id other f (e ∷ es) rows = elim (Bool-cases (other == id)) [
  | inl same ↦ rw (equal same, itself) (known-fill_row id f (e ∷ es) rows)
  | inr ne ↦
      unfold first_mention in ground (arith, ne, known-fill_row_other id other f (e ∷ es) rows ne)
]
  where
    equal : (other == id) ≡ true → other ≡ id
    equal h = ground arith

    itself : (id == id) ≡ true
    itself = ground arith

-- Messages of any sessions, in the order of their arrival, each with what was extracted from it.
unfoldable pub merge_all :
    List (ℕ × List (MetadataField × String)) → List RecruiterMetadata → List RecruiterMetadata
merge_all [] rows = rows
merge_all ((id, es) ∷ ms) rows = merge_all ms (merge_recruiter_metadata id es rows)

-- What one session's messages gave for a column, in the order of the messages.
unfoldable pub first_in :
    ℕ → MetadataField → List (ℕ × List (MetadataField × String)) → Option String
first_in id f [] = none
first_in id f ((other, es) ∷ ms) =
    let rest = first_in id f ms in if other == id then or_else (first_mention f es) rest else rest

-- After any messages of any sessions, a column holds what the table held for the session before, or
-- else the first value that one of the session's messages gave for it: a later message changes
-- nothing, nor does one of another session.
pub merge_all-first :
    (id : ℕ) (f : MetadataField) (ms : List (ℕ × List (MetadataField × String)))
    (rows : List RecruiterMetadata)
    → known id f (merge_all ms rows) ≡ or_else (known id f rows) (first_in id f ms)
unfolding merge_all first_in
merge_all-first id f [] rows = ground arith
merge_all-first id f ((other, es) ∷ ms) rows =
    rw
      (
        merge_all-first id f ms (merge_recruiter_metadata other es rows),
        known-merge id other f es rows,
      )
      (unfold first_mention in ground arith)
