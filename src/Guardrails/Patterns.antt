-- ===== src/Guardrails/Patterns.antt =====
-- The table of patterns (backend/app/repositories/guardrail_pattern_repository.py) and the endpoints of
-- backend/app/api/settings.py that change it. The id of a new row is an argument, and so is what the
-- seeding read of the table before it inserts. The rows' timestamps are not modelled.
use eaistack.Base.{
  ℕ, String, Bool, true, false, Option, none, some, List, [], ◌∷◌, ◌++◌, map, contains, select,
  first, ◌==◌, string_eq, bool_eq, if◌then◌else◌,
}
use eaistack.Base.Dict.{Dict}
use eaistack.Base.Result.{Result, ok, err}
use eaistack.Settings.Trail.{AuditLog, record_entry, change}

pub data PatternSource : Type 0 where
  built_in custom : PatternSource

pub record GuardrailPattern : Type 0 where
  pub id : String
  pub source : PatternSource
  pub label : String
  pub pattern_text : Option String
  pub enabled : Bool
  pub created_by : Option String

abbrev pub Patterns : Type 0
Patterns = List GuardrailPattern

abbrev pub ids : Patterns → List String
ids rows = map (λ (r : GuardrailPattern). r.id) rows

unfoldable pub get : String → Patterns → Option GuardrailPattern
get pattern_id rows = first (λ (r : GuardrailPattern). r.id == pattern_id) rows

unfoldable pub existing_built_in_ids : List String → Patterns → List String
existing_built_in_ids candidate_ids rows = select (contains candidate_ids) (ids rows)

abbrev pub built_in_row : String → String → GuardrailPattern
built_in_row id label = record {
  id = id;
  source = built_in;
  label = label;
  pattern_text = none;
  enabled = true;
  created_by = none;
}

-- An insertion of which a duplicate key is no failure.
abbrev pub insert_or_skip : GuardrailPattern → Patterns → Patterns
insert_or_skip row rows = if contains (ids rows) row.id then rows else rows ++ row ∷ []

unfoldable pub ensure_built_ins_seeded : Dict String String → List String → Patterns → Patterns
ensure_built_ins_seeded [] existing_ids rows = rows
ensure_built_ins_seeded ((id, label) ∷ built_ins) existing_ids rows =
    let skipped = ensure_built_ins_seeded built_ins existing_ids rows in
    let inserted =
      ensure_built_ins_seeded built_ins existing_ids
        (insert_or_skip (built_in_row id label) rows) in
    if contains existing_ids id then skipped else inserted

abbrev pub custom_row : String → String → String → String → GuardrailPattern
custom_row id label pattern_text created_by = record {
  id = id;
  source = custom;
  label = label;
  pattern_text = some pattern_text;
  enabled = true;
  created_by = some created_by;
}

unfoldable pub set_enabled : String → Bool → Patterns → Patterns
set_enabled pattern_id enabled [] = []
set_enabled pattern_id enabled (r ∷ rows) =
    let rest = set_enabled pattern_id enabled rows in
    if r.id == pattern_id then record r { enabled = enabled } ∷ rows else r ∷ rest

abbrev pub is_custom : PatternSource → Bool
is_custom custom = true
is_custom built_in = false

unfoldable pub delete_custom : String → Patterns → Patterns
delete_custom pattern_id [] = []
delete_custom pattern_id (r ∷ rows) =
    let rest = delete_custom pattern_id rows in
    if r.id == pattern_id then (if is_custom r.source then rows else r ∷ rows) else r ∷ rest

pub record Store : Type 0 where
  pub rows : Patterns
  pub log : List AuditLog

pub data PatternError : Type 0 where
  -- An IntegrityError of the insertion.
  duplicate_id : PatternError
  guardrail_pattern_not_found : PatternError
  guardrail_pattern_not_custom : PatternError

abbrev pub pattern_update : String
pattern_update = "guardrail.pattern_update"

unfoldable pub create_guardrail_pattern :
    String → String → String → String → ℕ → Store → Result PatternError Store
create_guardrail_pattern actor id label pattern_text now s =
    if contains (ids s.rows) id
    then err duplicate_id
    else ok (record {
      rows = s.rows ++ custom_row id label pattern_text actor ∷ [];
      log = record_entry (change pattern_update actor now id none (some pattern_text)) s.log;
    })

abbrev pub state_name : Bool → String
state_name true = "enabled"
state_name false = "disabled"

abbrev pub toggled :
    String → String → Bool → ℕ → Option GuardrailPattern → Store → Result PatternError Store
toggled actor pattern_id enabled now none s = err guardrail_pattern_not_found
toggled actor pattern_id enabled now (some existing) s =
    let rows = set_enabled pattern_id enabled s.rows in
    let entry =
      change pattern_update actor now pattern_id (some (state_name existing.enabled))
        (some (state_name enabled)) in
    if existing.enabled == enabled
    then ok (record { rows = rows; log = s.log })
    else ok (record { rows = rows; log = record_entry entry s.log })

unfoldable pub update_guardrail_pattern :
    String → String → Bool → ℕ → Store → Result PatternError Store
update_guardrail_pattern actor pattern_id enabled now s =
    toggled actor pattern_id enabled now (get pattern_id s.rows) s

abbrev pub deleted :
    String → String → ℕ → Option GuardrailPattern → Store → Result PatternError Store
deleted actor pattern_id now none s = err guardrail_pattern_not_found
deleted actor pattern_id now (some existing) s =
    let entry = change pattern_update actor now pattern_id existing.pattern_text none in
    if is_custom existing.source
    then ok (record { rows = delete_custom pattern_id s.rows; log = record_entry entry s.log })
    else err guardrail_pattern_not_custom

unfoldable pub delete_guardrail_pattern : String → String → ℕ → Store → Result PatternError Store
delete_guardrail_pattern actor pattern_id now s =
    deleted actor pattern_id now (get pattern_id s.rows) s

-- What happens to the table: a request of an administrator, or a seeding that has read some ids before.
pub data Event : Type 0 where
  create : String → String → String → String → ℕ → Event
  toggle : String → String → Bool → ℕ → Event
  delete : String → String → ℕ → Event
  seed : List String → Event

unfoldable pub handle : Dict String String → Event → Store → Result PatternError Store
handle built_ins (create actor id label pattern_text now) s =
    create_guardrail_pattern actor id label pattern_text now s
handle built_ins (toggle actor pattern_id enabled now) s =
    update_guardrail_pattern actor pattern_id enabled now s
handle built_ins (delete actor pattern_id now) s = delete_guardrail_pattern actor pattern_id now s
handle built_ins (seed existing_ids) s =
    ok (record s { rows = ensure_built_ins_seeded built_ins existing_ids s.rows })

-- A refused request changes nothing.
abbrev pub settled : Store → Result PatternError Store → Store
settled s (ok after) = after
settled s (err e) = s

unfoldable pub handle_all : Dict String String → List Event → Store → Store
handle_all built_ins [] s = s
handle_all built_ins (e ∷ events) s = handle_all built_ins events (settled s (handle built_ins e s))
