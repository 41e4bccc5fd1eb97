-- ===== src/Workflow/Service/Operations.antt =====
-- The operations of backend/app/services/workflow_service.py that write.
use eaistack.Base.{
  ℕ, String, Bool, true, false, not, Option, none, some, List, [], ◌∷◌, leb, if◌then◌else◌, ◌==◌,
  string_eq,
}
use eaistack.Base.Text.{Text, codes}
use eaistack.Base.Result.{Result, ok, err, ◌>>=◌, ◌>>◌, raise_if}
use eaistack.Workflow.Versions
use eaistack.Workflow.Versions.{
  Platform, Source, builtin, admin, is_builtin, WorkflowVersion, NewVersion, Versions,
  latest_for_workflow, latest_builtin_for_workflow,
}
use eaistack.Workflow.Service.{
  Parsing, not_older, ServiceError, draft_rejected, workflow_not_found, version_not_found,
  already_exists, Action, draft_saved, created, published, rolled_back, builtin_synced, Store,
  Outcome, parse_yaml_definition, parse_draft_yaml, validated_change_note, get_active_version_id,
  add_version, record_audit, set_active, entry,
}

-- What an administrator sends: who, when, the YAML and the change note.
pub record Draft : Type 0 where
  pub yaml_text : String
  pub change_note : Text
  pub actor_user_id : String
  pub now : ℕ

abbrev pub is_none {ℓ} : {A : Type ℓ} → Option A → Bool
is_none none = true
is_none (some a) = false

abbrev new_admin_version : String → Text → Option String → Draft → NewVersion
new_admin_version name note parent draft = record {
  workflow_name = name;
  yaml_text = draft.yaml_text;
  source = admin;
  author_user_id = draft.actor_user_id;
  change_note = note;
  parent_version_id = parent;
  now = draft.now;
}

-- Adds an admin version and its audit entry.
unfoldable pub write_draft :
    Platform → Action → String → Text → Option String → Draft → Store → WorkflowVersion × Store
write_draft p action name note parent draft s =
    let (version, added) = add_version p (new_admin_version name note parent draft) s in
    (
      version,
      record_audit (entry draft.actor_user_id action name parent version.id draft.now) added,
    )

unfoldable pub save_draft : Platform → Parsing → String → Draft → Store → Outcome
save_draft p q name draft s = do
  raise_if (is_none (latest_for_workflow name s.versions)) (workflow_not_found name)
  note ← validated_change_note draft.change_note
  definition ← parse_draft_yaml q name draft.yaml_text
  ok (write_draft p draft_saved name note (get_active_version_id name s) draft s)

unfoldable pub create_workflow : Platform → Parsing → Draft → Store → Outcome
create_workflow p q draft s = do
  definition ← parse_yaml_definition q draft.yaml_text
  raise_if (not (is_none (latest_for_workflow definition.name s.versions)))
      (already_exists definition.name)
  note ← validated_change_note draft.change_note
  again ← parse_draft_yaml q definition.name draft.yaml_text
  ok (write_draft p created definition.name note none draft s)

unfoldable pub apply_publish :
    String → WorkflowVersion → Option String → Action → String → ℕ → Store → Store
apply_publish name version previous_id action actor now s =
    record_audit (entry actor action name previous_id version.id now)
      (set_active name version.id actor now s)

abbrev pub owned_by : String → String → Option WorkflowVersion → Result ServiceError WorkflowVersion
owned_by name id none = err (version_not_found id)
owned_by name id (some version) =
    if not (version.workflow_name == name) then err (version_not_found id) else ok version

unfoldable pub get_version_of : String → String → Store → Result ServiceError WorkflowVersion
get_version_of name id s = owned_by name id (Versions.get id s.versions)

unfoldable pub publish : Parsing → String → String → String → ℕ → Store → Outcome
publish q name id actor now s = do
  version ← get_version_of name id s
  definition ← parse_draft_yaml q name version.yaml_text
  ok (version, apply_publish name version (get_active_version_id name s) published actor now s)

-- `versions.get(id) if id else None`
unfoldable pub version_at : Option String → Store → Option WorkflowVersion
version_at none s = none
version_at (some id) s = Versions.get id s.versions

abbrev pub is_not_older : WorkflowVersion → Option WorkflowVersion → Bool
is_not_older version none = true
is_not_older version (some current) = leb current.sequence version.sequence

unfoldable pub rollback : Parsing → String → String → String → ℕ → Store → Outcome
rollback q name id actor now s = do
  version ← get_version_of name id s
  raise_if (is_not_older version (version_at (get_active_version_id name s) s))
      (draft_rejected not_older)
  definition ← parse_draft_yaml q name version.yaml_text
  ok (version, apply_publish name version (get_active_version_id name s) rolled_back actor now s)

abbrev pub system_actor : String
system_actor = "system"

abbrev builtin_note : Text
builtin_note = codes "Built-in definition shipped with this release."

abbrev pub has_text : String → Option WorkflowVersion → Bool
has_text yaml_text none = false
has_text yaml_text (some v) = v.yaml_text == yaml_text

-- `active is None or active.source == "builtin"`
abbrev pub is_replaceable : Option WorkflowVersion → Bool
is_replaceable none = true
is_replaceable (some v) = is_builtin v.source

abbrev id_of : Option WorkflowVersion → Option String
id_of none = none
id_of (some v) = some v.id

abbrev pub new_builtin_version : String → String → Option WorkflowVersion → ℕ → NewVersion
new_builtin_version name yaml_text latest now = record {
  workflow_name = name;
  yaml_text = yaml_text;
  source = builtin;
  author_user_id = system_actor;
  change_note = builtin_note;
  parent_version_id = id_of latest;
  now = now;
}

-- The turn of the loop for a built-in whose text changed.
unfoldable pub record_builtin : Platform → ℕ → String → String → Store → Store
record_builtin p now name yaml_text s =
    let latest = latest_builtin_for_workflow name s.versions in
    let active_id = get_active_version_id name s in
    let active = version_at active_id s in
    let (version, added) = add_version p (new_builtin_version name yaml_text latest now) s in
    if is_replaceable active
    then apply_publish name version active_id builtin_synced system_actor now added
    else added

unfoldable pub sync_one : Platform → ℕ → String → String → Store → Store
sync_one p now name yaml_text s =
    if has_text yaml_text (latest_builtin_for_workflow name s.versions)
    then s
    else record_builtin p now name yaml_text s

unfoldable pub sync_builtin_versions : Platform → ℕ → List (String × String) → Store → Store
sync_builtin_versions p now [] s = s
sync_builtin_versions p now ((name, yaml_text) ∷ sources) s =
    sync_builtin_versions p now sources (sync_one p now name yaml_text s)
