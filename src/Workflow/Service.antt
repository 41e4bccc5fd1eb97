-- ===== src/Workflow/Service.antt =====
-- backend/app/services/workflow_service.py: drafts, publishing, rollback and the sync of the built-in
-- workflows, on the tables of versions, pointers and audit entries. An operation that raises leaves the
-- store as it was. YAML loading is a parameter.
pub mod Operations
pub mod Commands
pub mod Keeps
pub mod Trail
pub mod Resolve
pub mod Publishing
pub mod Pointers
use eaistack.Base.{
  ℕ, ◌+◌, String, Bool, true, false, not, Option, none, some, List, [], ◌∷◌, ltb, leb,
  if◌then◌else◌, ◌==◌, string_eq, length,
}
use eaistack.Base.Dict
use eaistack.Base.Dict.{Dict}
use eaistack.Base.Text.{Text, codes, strip}
use eaistack.Base.Result.{Result, ok, err, ◌>>=◌, ◌>>◌, raise_if}
use eaistack.Workflow.Schema.{WorkflowDef, Fields}
use eaistack.Workflow.Schema.Errors.{ValidationError}
use eaistack.Workflow.Schema.Parse.{Pydantic, parse_workflow_definition}
use eaistack.Workflow.Versions
use eaistack.Workflow.Versions.{
  Platform, Source, builtin, admin, is_builtin, WorkflowVersion, NewVersion, Versions,
  latest_for_workflow, latest_builtin_for_workflow,
}

pub data Document : Type 0 where
  mapping : Fields → Document
  other_document : Document

-- `yaml.safe_load` gives a document or an error's text.
pub record Parsing : Type 0 where
  pub safe_load : String → Result String Document
  pub pydantic : Pydantic

pub data Problem : Type 0 where
  too_large not_a_mapping note_required note_too_long not_older : Problem
  not_yaml renamed : String → Problem
  invalid : ValidationError → Problem

pub data ServiceError : Type 0 where
  draft_rejected : Problem → ServiceError
  workflow_not_found version_not_found already_exists : String → ServiceError

pub data Action : Type 0 where
  draft_saved created published rolled_back builtin_synced : Action

pub record AuditEntry : Type 0 where
  pub actor_user_id : String
  pub action : Action
  pub field_name : String
  pub old_value : Option String
  pub new_value : String
  pub created_at : ℕ

pub record Pointer : Type 0 where
  pub version_id : String
  pub updated_by : String
  pub updated_at : ℕ

-- The tables; versions and audit entries newest first, `drawn` counts the ids that were given.
pub record Store : Type 0 where
  pub versions : Versions
  pub pointers : Dict String Pointer
  pub audit : List AuditEntry
  pub drawn : ℕ

abbrev pub empty_store : Store
empty_store = record { versions = []; pointers = []; audit = []; drawn = 0 }

-- What an operation gives: an error, or its value and the store it leaves.
abbrev pub Outcome : Type 0
Outcome = Result ServiceError (WorkflowVersion × Store)

abbrev pub max_workflow_yaml_bytes : ℕ
max_workflow_yaml_bytes = 65536

abbrev pub max_change_note_chars : ℕ
max_change_note_chars = 2000

-- `len(text.encode("utf-8"))`
unfoldable pub utf8_length : Text → ℕ
utf8_length [] = 0
utf8_length (c ∷ s) =
    (if ltb c 128 then 1 else if ltb c 2048 then 2 else if ltb c 65536 then 3 else 4)
    + utf8_length s

unfoldable pub loaded : Result String Document → Result ServiceError Fields
loaded (err message) = err (draft_rejected (not_yaml message))
loaded (ok (mapping raw)) = ok raw
loaded (ok other_document) = err (draft_rejected not_a_mapping)

unfoldable pub as_rejection : Result ValidationError WorkflowDef → Result ServiceError WorkflowDef
as_rejection (ok d) = ok d
as_rejection (err e) = err (draft_rejected (invalid e))

unfoldable pub parse_yaml_definition : Parsing → String → Result ServiceError WorkflowDef
parse_yaml_definition q yaml_text = do
  raise_if (ltb max_workflow_yaml_bytes (utf8_length (codes yaml_text))) (draft_rejected too_large)
  raw ← loaded (q.safe_load yaml_text)
  as_rejection (parse_workflow_definition q.pydantic raw)

unfoldable pub parse_draft_yaml : Parsing → String → String → Result ServiceError WorkflowDef
parse_draft_yaml q name yaml_text = do
  d ← parse_yaml_definition q yaml_text
  raise_if (not (d.name == name)) (draft_rejected (renamed name))
  ok d

unfoldable pub validated_change_note : Text → Result ServiceError Text
validated_change_note change_note =
    let note = strip change_note in
    if leb (length note) 0
    then err (draft_rejected note_required)
    else if ltb max_change_note_chars (length note)
    then err (draft_rejected note_too_long)
    else ok note

abbrev pub version_id_of : Option Pointer → Option String
version_id_of none = none
version_id_of (some p) = some p.version_id

unfoldable pub get_active_version_id : String → Store → Option String
get_active_version_id name s = version_id_of (Dict.lookup name s.pointers)

-- `versions.add` on the store: the row, and the store with it.
unfoldable pub add_version : Platform → NewVersion → Store → WorkflowVersion × Store
add_version p new s =
    let (version, versions) = Versions.add p (p.uuid s.drawn) new s.versions in
    (
      version,
      record { versions = versions; pointers = s.pointers; audit = s.audit; drawn = s.drawn + 1 },
    )

unfoldable pub record_audit : AuditEntry → Store → Store
record_audit e s = record {
  versions = s.versions;
  pointers = s.pointers;
  audit = e ∷ s.audit;
  drawn = s.drawn;
}

unfoldable pub set_active : String → String → String → ℕ → Store → Store
set_active name version_id updated_by now s = record {
  versions = s.versions;
  pointers =
      Dict.insert name
        (record { version_id = version_id; updated_by = updated_by; updated_at = now }) s.pointers;
  audit = s.audit;
  drawn = s.drawn;
}

abbrev pub entry : String → Action → String → Option String → String → ℕ → AuditEntry
entry actor action name old new now = record {
  actor_user_id = actor;
  action = action;
  field_name = name;
  old_value = old;
  new_value = new;
  created_at = now;
}
