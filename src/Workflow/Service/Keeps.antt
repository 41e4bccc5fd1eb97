-- ===== src/Workflow/Service/Keeps.antt =====
-- What the three writes to the store keep, every command keeps.
use eaistack.Base.{
  ℕ, String, Bool, true, false, Option, none, some, List, [], ◌∷◌, ◌==◌, ◌≡◌, refl, string_eq,
  Bool-cases, beq_self, eq_of_beq, subst, sym, ◌∙◌, ap, inl, inr, eq_of_some,
}
use eaistack.Base.Text.{Text}
use eaistack.Base.Result.{Result, ok, err, ◌>>=◌, ◌>>◌}
use eaistack.Workflow.Versions
use eaistack.Workflow.Versions.{
  Platform, WorkflowVersion, NewVersion, Versions, latest_builtin_for_workflow,
}
use eaistack.Workflow.Service.{
  Parsing, Store, ServiceError, Outcome, Action, draft_saved, created, published, rolled_back,
  builtin_synced, AuditEntry, get_active_version_id, add_version, record_audit, empty_store,
  parse_draft_yaml, parse_yaml_definition, validated_change_note,
}
use eaistack.Workflow.Service.Operations.{
  Draft, write_draft, save_draft, create_workflow, publish, rollback, sync_builtin_versions,
  sync_one, record_builtin, apply_publish, get_version_of, has_text, owned_by, is_replaceable,
  version_at, new_builtin_version, system_actor,
}
use eaistack.Workflow.Service.Commands.{
  Command, save, create, publish_version, rollback_to, sync, committed, run, run_all,
}

-- Whether an audit entry records a move of a pointer.
abbrev pub moves_pointer : Action → Bool
moves_pointer draft_saved = false
moves_pointer created = false
moves_pointer published = true
moves_pointer rolled_back = true
moves_pointer builtin_synced = true

pub id-get :
    (id : String) (vs : Versions) (v : WorkflowVersion) → Versions.get id vs ≡ some v → v.id ≡ id
unfolding Versions.get
id-get id [] v h = cc
id-get id (w ∷ vs) v h = elim (Bool-cases (w.id == id)) [
  | inl same ↦
      subst (λ (x : WorkflowVersion). x.id ≡ id) (eq_of_some (rw same at h))
        (eq_of_beq w.id id same)
  | inr other ↦ id-get id vs v (rw other at h)
]

owned_by-eq-ok :
    (name id : String) (o : Option WorkflowVersion) (v : WorkflowVersion)
    → owned_by name id o ≡ ok v
    → (o ≡ some v) × (v.workflow_name ≡ name)
owned_by-eq-ok name id none v h = cc
owned_by-eq-ok name id (some w) v h = elim (Bool-cases (w.workflow_name == name)) [
  | inl same ↦
      let w_is_v : w ≡ v = cc (rw same at h) in
      (
        ap some w_is_v,
        ap (λ (x : WorkflowVersion). x.workflow_name) (sym w_is_v)
            ∙ eq_of_beq w.workflow_name name same,
      )
  | inr other ↦ cc (rw other at h)
]

pub get_version_of-eq-ok :
    (name id : String) (s : Store) (v : WorkflowVersion)
    → get_version_of name id s ≡ ok v
    → (Versions.get v.id s.versions ≡ some v) × (v.workflow_name ≡ name)
unfolding get_version_of
get_version_of-eq-ok name id s v h =
    let (found, own) = owned_by-eq-ok name id (Versions.get id s.versions) v h in
    (
      subst (λ i. Versions.get i s.versions ≡ some v) (sym (id-get id s.versions v found)) found,
      own,
    )

get-add_version :
    (p : Platform) (new : NewVersion) (s : Store)
    → Versions.get (add_version p new s).0.id (add_version p new s).1.versions
      ≡ some (add_version p new s).0
unfolding add_version Versions.add Versions.get
get-add_version p new s = rw (beq_self (add_version p new s).0.id) refl

name-add_version :
    (p : Platform) (new : NewVersion) (s : Store)
    → (add_version p new s).0.workflow_name ≡ new.workflow_name
unfolding add_version Versions.add Versions.next_version
name-add_version p new s = refl

module _ (P : Store → Type 0) where
  abbrev Keeps : Outcome → Type 0
  Keeps (err e) = Unit
  Keeps (ok (version, s)) = P s

  Keeps->>= :
      {A : Type 0} (r : Result ServiceError A) (f : A → Outcome)
      → ((a : A) → r ≡ ok a → Keeps (f a))
      → Keeps (r >>= f)
  Keeps->>= (ok a) f h = h a refl
  Keeps->>= (err e) f h = tt

  Keeps->> : (r : Result ServiceError (Unit {0})) (o : Outcome) → Keeps o → Keeps (r >> o)
  Keeps->> (ok u) o h = h
  Keeps->> (err e) o h = tt

  committed-keeps : (s : Store) (o : Outcome) → P s → Keeps o → P (committed s o)
  unfolding committed
  committed-keeps s (ok (v, after)) h k = k
  committed-keeps s (err e) h k = h

-- A property that adding a version, auditing a change that moves no pointer, and an audited publish of
-- a stored version keep.
pub record IsKept (p : Platform) (P : Store → Type 0) : Type 0 where
  pub empty : P empty_store
  pub add : (new : NewVersion) (s : Store) → P s → P (add_version p new s).1
  pub audit :
      (e : AuditEntry) (s : Store) → moves_pointer e.action ≡ false → P s → P (record_audit e s)
  pub publish :
      (name : String) (v : WorkflowVersion) (a : Action) (actor : String) (now : ℕ) (s : Store)
      → Versions.get v.id s.versions ≡ some v
      → v.workflow_name ≡ name
      → moves_pointer a ≡ true
      → P s
      → P (apply_publish name v (get_active_version_id name s) a actor now s)

module _ (p : Platform) (q : Parsing) (P : Store → Type 0) (kept : IsKept p P) where
  write_draft-keeps :
      (a : Action) (name : String) (note : Text) (parent : Option String) (draft : Draft)
      (s : Store)
      → moves_pointer a ≡ false
      → P s
      → P (write_draft p a name note parent draft s).1
  unfolding write_draft
  write_draft-keeps a name note parent draft s still h = kept.audit _ _ still (kept.add _ s h)

  save_draft-Keeps :
      (name : String) (draft : Draft) (s : Store) → P s → Keeps P (save_draft p q name draft s)
  unfolding save_draft
  save_draft-Keeps name draft s h = Keeps->> P _ _ (
      Keeps->>= P (validated_change_note draft.change_note) _ λ note hn.
        Keeps->>= P (parse_draft_yaml q name draft.yaml_text) _ λ d hd.
          write_draft-keeps draft_saved name note (get_active_version_id name s) draft s refl h)

  create_workflow-Keeps : (draft : Draft) (s : Store) → P s → Keeps P (create_workflow p q draft s)
  unfolding create_workflow
  create_workflow-Keeps draft s h = Keeps->>= P (parse_yaml_definition q draft.yaml_text) _ λ d hd.
      Keeps->> P _ _ (
        Keeps->>= P (validated_change_note draft.change_note) _ λ note hn.
          Keeps->>= P (parse_draft_yaml q d.name draft.yaml_text) _
            λ again ha. write_draft-keeps created d.name note none draft s refl h)

  publish-Keeps :
      (name id actor : String) (now : ℕ) (s : Store) → P s → Keeps P (publish q name id actor now s)
  unfolding publish
  publish-Keeps name id actor now s h = Keeps->>= P (get_version_of name id s) _ λ v found.
      Keeps->>= P (parse_draft_yaml q name v.yaml_text) _ λ d hd.
        let (stored, own) = get_version_of-eq-ok name id s v found in
        kept.publish name v published actor now s stored own refl h

  rollback-Keeps :
      (name id actor : String) (now : ℕ) (s : Store)
      → P s
      → Keeps P (rollback q name id actor now s)
  unfolding rollback
  rollback-Keeps name id actor now s h = Keeps->>= P (get_version_of name id s) _ λ v found.
      Keeps->> P _ _ (
        Keeps->>= P (parse_draft_yaml q name v.yaml_text) _ λ d hd.
          let (stored, own) = get_version_of-eq-ok name id s v found in
          kept.publish name v rolled_back actor now s stored own refl h)

  publish_added :
      (new : NewVersion) (a : Action) (actor : String) (now : ℕ) (s : Store)
      → moves_pointer a ≡ true
      → P s
      → P (
          apply_publish new.workflow_name
            (add_version p new s).0
            (get_active_version_id new.workflow_name s)
            a
            actor
            now
            (add_version p new s).1)
  unfolding add_version get_active_version_id
  publish_added new a actor now s moves h =
      kept.publish new.workflow_name (add_version p new s).0 a actor now (add_version p new s).1
        (get-add_version p new s) (name-add_version p new s) moves (kept.add new s h)

  record_builtin-keeps :
      (now : ℕ) (name yaml_text : String) (s : Store)
      → P s
      → P (record_builtin p now name yaml_text s)
  unfolding record_builtin
  record_builtin-keeps now name yaml_text s h =
      elim (Bool-cases (is_replaceable (version_at (get_active_version_id name s) s))) [
        | inl free ↦
            let new =
              new_builtin_version name yaml_text (latest_builtin_for_workflow name s.versions)
                now in
            rw free (publish_added new builtin_synced system_actor now s refl h)
        | inr other ↦ rw other (kept.add _ s h)
      ]

  sync_one-keeps :
      (now : ℕ) (name yaml_text : String) (s : Store) → P s → P (sync_one p now name yaml_text s)
  unfolding sync_one
  sync_one-keeps now name yaml_text s h =
      elim (Bool-cases (has_text yaml_text (latest_builtin_for_workflow name s.versions))) [
        | inl known ↦ rw known h
        | inr other ↦ rw other (record_builtin-keeps now name yaml_text s h)
      ]

  sync-keeps :
      (now : ℕ) (sources : List (String × String)) (s : Store)
      → P s
      → P (sync_builtin_versions p now sources s)
  unfolding sync_builtin_versions
  sync-keeps now [] s h = h
  sync-keeps now ((name, yaml_text) ∷ sources) s h =
      sync-keeps now sources (sync_one p now name yaml_text s)
        (sync_one-keeps now name yaml_text s h)

  run-keeps : (c : Command) (s : Store) → P s → P (run p q c s)
  unfolding run
  run-keeps (save name draft) s h = committed-keeps P s _ h (save_draft-Keeps name draft s h)
  run-keeps (create draft) s h = committed-keeps P s _ h (create_workflow-Keeps draft s h)
  run-keeps (publish_version name id actor now) s h =
      committed-keeps P s _ h (publish-Keeps name id actor now s h)
  run-keeps (rollback_to name id actor now) s h =
      committed-keeps P s _ h (rollback-Keeps name id actor now s h)
  run-keeps (sync now sources) s h = sync-keeps now sources s h

  pub run_all-keeps : (cs : List Command) → P (run_all p q cs)
  unfolding run_all
  run_all-keeps [] = kept.empty
  run_all-keeps (c ∷ cs) = run-keeps c (run_all p q cs) (run_all-keeps cs)
