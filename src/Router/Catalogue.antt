-- ===== src/Router/Catalogue.antt =====
-- The lists of ModelRouter (llm/model_router.py): the choices that a user is shown, and the
-- catalogue that the tables give.
use Prim.Native.String.{compare}
use Prim.Native.Nat.{Ordering}
use chatfolio_backend.Prelude.{
  ℕ, Bool, true, false, ◌&&◌, ◌||◌, not, Option, none, some, List, [], ◌∷◌, ◌++◌, String, str_eq,
  ◌==◌, ltb, if◌then◌else◌, any_row, where_rows, is_none, map,
}
use chatfolio_backend.Router.{
  LlmSettings, row_id, ResolvedModel, LlmModel, ModelCatalog, is_default, configured, in_plan,
}

pub data LockedReason : Type 0 where
  plan unavailable : LockedReason

pub record ModelChoice : Type 0 where
  pub model : ResolvedModel
  pub allowed : Bool
  pub locked_reason : Option LockedReason

unfoldable pub locked :
    LlmSettings → ModelCatalog → String → ℕ × ResolvedModel → Option LockedReason
locked s c slug (id, raw) =
    if not (in_plan id slug c)
    then some plan
    else if configured s raw
    then none
    else some unavailable

abbrev pub choice_of : LlmSettings → ModelCatalog → String → ℕ × ResolvedModel → ModelChoice
choice_of s c slug m = record {
  model = m.1;
  allowed = is_none (locked s c slug m);
  locked_reason = locked s c slug m;
}

-- The choices that `choices_for` lists: the default first, then the other models.
unfoldable pub choices : LlmSettings → ModelCatalog → String → ResolvedModel → List ModelChoice
choices s c slug d =
    record { model = d; allowed = true; locked_reason = none }
    ∷ map (choice_of s c slug) (where_rows (λ m. not (is_default d m.1)) c.models)

abbrev pub text_before : String → String → Bool
text_before s t = elim (compare s t) [ Ordering.lt ↦ true | _ ↦ false ]

-- `sorted(models, key=lambda m: (m.sort_order, m.display_name))`
abbrev pub before : LlmModel → LlmModel → Bool
before a b =
    ltb a.sort_order b.sort_order
    || ((a.sort_order == b.sort_order) && text_before a.display_name b.display_name)

unfoldable pub insert_model : LlmModel → List LlmModel → List LlmModel
insert_model m [] = m ∷ []
insert_model m (x ∷ xs) =
    let rest = insert_model m xs in if before x m then x ∷ rest else m ∷ x ∷ xs

unfoldable pub sorted_models : List LlmModel → List LlmModel
sorted_models [] = []
sorted_models (m ∷ ms) = insert_model m (sorted_models ms)

abbrev pub to_entry : LlmModel → ℕ × ResolvedModel
to_entry m = (
  m.id,
  record {
    id = row_id m.id;
    provider = m.provider;
    model_id = m.model_id;
    display_name = m.display_name;
    supports_json_mode = m.supports_json_mode;
    is_fallback = false;
  },
)

-- `plans.setdefault(slug, []).append(id)`
unfoldable pub append_link : String → ℕ → List (String × List ℕ) → List (String × List ℕ)
append_link slug id [] = (slug, id ∷ []) ∷ []
append_link slug id ((s, ids) ∷ l) =
    if str_eq s slug then (s, ids ++ id ∷ []) ∷ l else (s, ids) ∷ append_link slug id l

unfoldable pub link_plans :
    List LlmModel → List (String × ℕ) → List (String × List ℕ) → List (String × List ℕ)
link_plans active [] l = l
link_plans active ((slug, id) ∷ links) l =
    link_plans active links (if any_row (λ m. m.id == id) active then append_link slug id l else l)

-- `_catalog` without the cache, from the rows of models and the links of plans to models.
unfoldable pub build_catalog : List LlmModel → List (String × ℕ) → ModelCatalog
build_catalog rows links =
    let active = where_rows (λ m. m.is_active) rows in
    record { models = map to_entry (sorted_models active); plans = link_plans active links [] }
