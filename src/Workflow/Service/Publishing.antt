-- ===== src/Workflow/Service/Publishing.antt =====
-- What a rollback does, and what the startup sync leaves alone.
use eaistack.Base.{
  if◌then◌else◌, ◌==◌, ℕ, ◌<◌, String, false, Option, none, some, List, [], ◌∷◌, ◌≡◌, ◌≢◌, refl,
  string_eq, arith, Bool-cases, subst, ◌∙◌, inl, inr,
}
use eaistack.Base.Result.{Result, ok, >>=-eq-ok, >>-ok_iff, raise_if-ok_iff, raise_if}
use eaistack.Workflow.Schema.{WorkflowDef}
use eaistack.Workflow.Versions
use eaistack.Workflow.Versions.{
  Platform, Source, admin, is_builtin, WorkflowVersion, NewVersion, Versions,
  latest_builtin_for_workflow,
}
use eaistack.Workflow.Service.{
  Parsing, ServiceError, draft_rejected, not_older, Store, Action, rolled_back, AuditEntry,
  parse_draft_yaml, get_active_version_id, add_version, record_audit, set_active, entry,
}
use eaistack.Workflow.Service.Operations.{
  rollback, apply_publish, get_version_of, version_at, is_not_older, sync_builtin_versions,
  sync_one, record_builtin, is_replaceable, has_text,
}
use eaistack.Workflow.Service.Keeps.{get_version_of-eq-ok}
use eaistack.Workflow.Service.Trail.{active_after_publish}
use eaistack.Workflow.Service.Pointers.{IsFresh, AreDrawn, add_version-AreDrawn, get-add_other}

-- What moving the pointer of `name` to `v` changes in the store, and what it leaves.
abbrev pub IsMoved : String → WorkflowVersion → AuditEntry → Store → Store → Type 0
IsMoved name v e before after =
    ((other : String)
      → get_active_version_id other after
        ≡ (if name == other then some v.id else get_active_version_id other before))
    × (after.versions ≡ before.versions)
    × (after.audit ≡ e ∷ before.audit)

versions_kept :
    (name : String) (v : WorkflowVersion) (prev : Option String) (a : Action) (actor : String)
    (now : ℕ) (s : Store)
    → (apply_publish name v prev a actor now s).versions ≡ s.versions
unfolding apply_publish record_audit set_active
versions_kept name v prev a actor now s = refl

audit_kept :
    (name : String) (v : WorkflowVersion) (prev : Option String) (a : Action) (actor : String)
    (now : ℕ) (s : Store)
    → (apply_publish name v prev a actor now s).audit ≡ entry actor a name prev v.id now ∷ s.audit
unfolding apply_publish record_audit set_active
audit_kept name v prev a actor now s = refl

apply_publish-IsMoved :
    (name : String) (v : WorkflowVersion) (prev : Option String) (a : Action) (actor : String)
    (now : ℕ) (s : Store)
    → IsMoved name v (entry actor a name prev v.id now) s (apply_publish name v prev a actor now s)
apply_publish-IsMoved name v prev a actor now s = (
  λ other. active_after_publish name other v prev a actor now s,
  versions_kept name v prev a actor now s,
  audit_kept name v prev a actor now s,
)

eq_of_ok : {A : Type 0} {a b : A} → ◌≡◌ {A = Result ServiceError A} (ok a) (ok b) → a ≡ b
eq_of_ok h = cc

older_than_active :
    (v : WorkflowVersion) (o : Option WorkflowVersion)
    → is_not_older v o ≡ false
    → (current : WorkflowVersion) × (o ≡ some current) × (v.sequence < current.sequence)
older_than_active v none h = cc
older_than_active v (some current) h = (current, refl, ground arith)

-- A rollback to `v`: older than the version published before, stored, valid, and published now.
abbrev pub IsRolledBack : Parsing → String → String → ℕ → Store → WorkflowVersion × Store → Type 0
IsRolledBack q name actor now s (v, after) =
    ((current : WorkflowVersion) × (version_at (get_active_version_id name s) s ≡ some current)
      × (v.sequence < current.sequence))
    × (Versions.get v.id s.versions ≡ some v)
    × (v.workflow_name ≡ name)
    × ((d : WorkflowDef) × (parse_draft_yaml q name v.yaml_text ≡ ok d))
    × IsMoved name v (entry actor rolled_back name (get_active_version_id name s) v.id now) s after

-- A rollback that succeeds moves the pointer to a stored version of the workflow that is older than
-- the published one and whose YAML still parses under that name; it writes one audit entry with the
-- version published before, and changes no version and no other workflow's pointer.
pub rollback-eq-ok :
    (q : Parsing) (name id actor : String) (now : ℕ) (s : Store) (v : WorkflowVersion)
    (after : Store)
    → rollback q name id actor now s ≡ ok (v, after)
    → IsRolledBack q name actor now s (v, after)
unfolding rollback
rollback-eq-ok q name id actor now s v after h =
    let (w, found, checks) = >>=-eq-ok (get_version_of name id s) _ h in
    let active = version_at (get_active_version_id name s) s in
    let (passed, parses) =
      (>>-ok_iff (raise_if (is_not_older w active) (draft_rejected not_older)) _ (v, after)).0
        checks in
    let (d, parsed, last) = >>=-eq-ok (parse_draft_yaml q name w.yaml_text) _ parses in
    let (stored, own) = get_version_of-eq-ok name id s w found in
    let older = (raise_if-ok_iff (is_not_older w active) (draft_rejected not_older)).0 passed in
    subst (IsRolledBack q name actor now s) (eq_of_ok last) (
      older_than_active w active older,
      stored,
      own,
      (d, parsed),
      apply_publish-IsMoved name w (get_active_version_id name s) rolled_back actor now s,
    )

-- The version `v` is published under `id`, and the ids are drawn.
abbrev IsActive : Platform → String → String → WorkflowVersion → Store → Type 0
IsActive p name id v s =
    AreDrawn p s.drawn s.versions
    × (get_active_version_id name s ≡ some id)
    × (Versions.get id s.versions ≡ some v)

added-IsActive :
    (p : Platform) (new : NewVersion) (name id : String) (v : WorkflowVersion) (s : Store)
    → IsFresh p
    → IsActive p name id v s
    → IsActive p name id v (add_version p new s).1
unfolding add_version get_active_version_id
added-IsActive p new name id v s fresh (drawn, active, found) =
    (add_version-AreDrawn p new s drawn, active, get-add_other p new s id v fresh drawn found)

published-IsActive :
    (p : Platform) (name id : String) (v : WorkflowVersion) (other : String) (w : WorkflowVersion)
    (prev : Option String) (a : Action) (actor : String) (now : ℕ) (s : Store)
    → other ≢ name
    → IsActive p name id v s
    → IsActive p name id v (apply_publish other w prev a actor now s)
published-IsActive p name id v other w prev a actor now s differ (drawn, active, found) = (
  (unfold apply_publish record_audit set_active in drawn),
  active_after_publish other name w prev a actor now s
      ∙ ground (arith, string_eq.beq_iff other name, active),
  (unfold apply_publish record_audit set_active in found),
)

not_replaceable :
    (id : String) (v : WorkflowVersion) (s : Store)
    → Versions.get id s.versions ≡ some v
    → v.source ≡ admin
    → is_replaceable (version_at (some id) s) ≡ false
unfolding version_at
not_replaceable id v s found source = rw (found, source) refl

sync_one-IsActive :
    (p : Platform) (now : ℕ) (other yaml_text : String) (name id : String) (v : WorkflowVersion)
    (s : Store)
    → IsFresh p
    → v.source ≡ admin
    → IsActive p name id v s
    → IsActive p name id v (sync_one p now other yaml_text s)
unfolding sync_one record_builtin
sync_one-IsActive p now other yaml_text name id v s fresh source h =
    elim (Bool-cases (has_text yaml_text (latest_builtin_for_workflow other s.versions))) [
      | inl known ↦ rw known h
      | inr changed ↦
          elim (Bool-cases (is_replaceable (version_at (get_active_version_id other s) s))) [
            | inl free ↦
                let differ : other ≢ name =
                  λ same. let still = not_replaceable id v s h.2 source in let here = h.1 in cc in
                rw (changed, free)
                  (published-IsActive p name id v other _ _ _ _ now _ differ
                    (added-IsActive p _ name id v s fresh h))
            | inr taken ↦ rw (changed, taken) (added-IsActive p _ name id v s fresh h)
          ]
    ]

sync-IsActive :
    (p : Platform) (now : ℕ) (sources : List (String × String)) (name id : String)
    (v : WorkflowVersion) (s : Store)
    → IsFresh p
    → v.source ≡ admin
    → IsActive p name id v s
    → IsActive p name id v (sync_builtin_versions p now sources s)
unfolding sync_builtin_versions
sync-IsActive p now [] name id v s fresh source h = h
sync-IsActive p now ((other, yaml_text) ∷ sources) name id v s fresh source h =
    sync-IsActive p now sources name id v (sync_one p now other yaml_text s) fresh source
      (sync_one-IsActive p now other yaml_text name id v s fresh source h)

-- Where ids are drawn only once, a sync of the built-ins leaves a workflow whose published version an
-- administrator wrote as it is: the same version stays published and stays as it was stored.
pub sync_builtin_versions-protects_admin :
    (p : Platform) (now : ℕ) (sources : List (String × String)) (name id : String)
    (v : WorkflowVersion) (s : Store)
    → IsFresh p
    → AreDrawn p s.drawn s.versions
    → get_active_version_id name s ≡ some id
    → Versions.get id s.versions ≡ some v
    → v.source ≡ admin
    → (get_active_version_id name (sync_builtin_versions p now sources s) ≡ some id)
      × (Versions.get id (sync_builtin_versions p now sources s).versions ≡ some v)
sync_builtin_versions-protects_admin p now sources name id v s fresh drawn active found source =
    let (drawn', active', found') =
      sync-IsActive p now sources name id v s fresh source (drawn, active, found) in
    (active', found')
