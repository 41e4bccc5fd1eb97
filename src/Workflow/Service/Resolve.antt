-- ===== src/Workflow/Service/Resolve.antt =====
-- `resolve_active_workflow` and `_ensure_builtins_recorded` of backend/app/services/workflow_service.py.
-- The sources of the built-ins, which the program reads from files, are an argument. The parsing of the
-- stored YAML and the building of the agent definition are not part of it.
use eaistack.Base.{ℕ, String, Option, none, some, List, if◌then◌else◌}
use eaistack.Workflow.Versions
use eaistack.Workflow.Versions.{Platform, WorkflowVersion, latest_for_workflow}
use eaistack.Workflow.Service.{Store, get_active_version_id}
use eaistack.Workflow.Service.Operations.{sync_builtin_versions, is_none}

pub data Resolution : Type 0 where
  resolved : WorkflowVersion → Resolution
  unpublished : String → Resolution
  -- The assertion failed: the pointer names a version that is not stored.
  dangling : String → Resolution

abbrev pub default_workflow : String
default_workflow = "chat"

unfoldable pub ensure_builtins_recorded : Platform → ℕ → List (String × String) → Store → Store
ensure_builtins_recorded p now sources s =
    if is_none (latest_for_workflow default_workflow s.versions)
    then sync_builtin_versions p now sources s
    else s

abbrev pub stored_version : String → Option WorkflowVersion → Resolution
stored_version id none = dangling id
stored_version id (some v) = resolved v

abbrev pub resolve_id : String → Option String → Store → Resolution
resolve_id name none s = unpublished name
resolve_id name (some id) s = stored_version id (Versions.get id s.versions)

-- A workflow that is not published has the built-ins synced first.
unfoldable pub prepared : Platform → ℕ → List (String × String) → String → Store → Store
prepared p now sources name s =
    if is_none (get_active_version_id name s) then ensure_builtins_recorded p now sources s else s

unfoldable pub resolve_active_workflow :
    Platform → ℕ → List (String × String) → String → Store → Resolution × Store
resolve_active_workflow p now sources name s =
    let ready = prepared p now sources name s in
    (resolve_id name (get_active_version_id name ready) ready, ready)
