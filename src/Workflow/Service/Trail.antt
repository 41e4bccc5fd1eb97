-- ===== src/Workflow/Service/Trail.antt =====
-- The audit trail accounts for every published version.
use eaistack.Base.{
  ℕ, String, true, false, Option, none, some, List, [], ◌∷◌, if◌then◌else◌, ◌==◌, ◌≡◌, refl,
  string_eq, arith, sym,
}
use eaistack.Base.Dict
use eaistack.Workflow.Versions.{Platform, WorkflowVersion, NewVersion, rows_of}
use eaistack.Workflow.Versions.Intact.{
  IsSound, IsNumbered, add-IsSound, empty-IsSound, sound-verifies,
}
use eaistack.Workflow.Versions.Chain.{verify_chain}
use eaistack.Workflow.Service.{
  Parsing, Store, Action, AuditEntry, get_active_version_id, add_version, record_audit, set_active,
  empty_store,
}
use eaistack.Workflow.Service.Operations.{apply_publish}
use eaistack.Workflow.Service.Commands.{Command, run_all}
use eaistack.Workflow.Service.Keeps.{moves_pointer, run_all-keeps}

-- The published version of a workflow as the audit trail tells it: the new value of the newest entry
-- that moved its pointer.
unfoldable pub replayed : String → List AuditEntry → Option String
replayed name [] = none
replayed name (e ∷ es) =
    if moves_pointer e.action
    then if e.field_name == name then some e.new_value else replayed name es
    else replayed name es

-- Every entry that moved a pointer names the version that was published before.
abbrev pub IsLinked : List AuditEntry → Type 0
IsLinked [] = Unit
IsLinked (e ∷ es) =
    (moves_pointer e.action ≡ true → e.old_value ≡ replayed e.field_name es) × IsLinked es

-- The trail and the pointers tell the same, and the trail is linked.
abbrev pub IsAudited : Store → Type 0
IsAudited s =
    ((name : String) → replayed name s.audit ≡ get_active_version_id name s) × IsLinked s.audit

add_version-IsAudited :
    (p : Platform) (new : NewVersion) (s : Store) → IsAudited s → IsAudited (add_version p new s).1
unfolding add_version get_active_version_id
add_version-IsAudited p new s h = h

record_audit-IsAudited :
    (e : AuditEntry) (s : Store)
    → moves_pointer e.action ≡ false
    → IsAudited s
    → IsAudited (record_audit e s)
unfolding record_audit replayed get_active_version_id
record_audit-IsAudited e s still h = (λ other. rw still (h.0 other), (λ moves. cc, h.1))

pub active_after_publish :
    (name other : String) (v : WorkflowVersion) (prev : Option String) (a : Action) (actor : String)
    (now : ℕ) (s : Store)
    → get_active_version_id other (apply_publish name v prev a actor now s)
      ≡ (if name == other then some v.id else get_active_version_id other s)
unfolding apply_publish record_audit set_active get_active_version_id
active_after_publish name other v prev a actor now s = rw Dict.lookup-insert (ground arith)

empty_replayed : (name : String) → replayed name [] ≡ get_active_version_id name empty_store
unfolding replayed get_active_version_id Dict.lookup
empty_replayed name = refl

apply_publish-IsAudited :
    (name : String) (v : WorkflowVersion) (a : Action) (actor : String) (now : ℕ) (s : Store)
    → moves_pointer a ≡ true
    → IsAudited s
    → IsAudited (apply_publish name v (get_active_version_id name s) a actor now s)
unfolding apply_publish record_audit set_active replayed
apply_publish-IsAudited name v a actor now s moves h = (
  λ other.
      rw
        (
          active_after_publish name other v (get_active_version_id name s) a actor now s,
          moves,
          h.0 other,
        )
        refl,
  (λ m. sym (h.0 name), h.1),
)

-- After any commands, replaying the audit trail gives the published version of every workflow, and
-- each entry that moved a pointer names as its old value the version published before it.
pub run_all-IsAudited :
    (p : Platform) (q : Parsing) (cs : List Command) → IsAudited (run_all p q cs)
run_all-IsAudited p q = run_all-keeps p q IsAudited (record {
  empty = (empty_replayed, tt);
  add = add_version-IsAudited p;
  audit = record_audit-IsAudited;
  publish = λ name v a actor now s stored own moves h.
      apply_publish-IsAudited name v a actor now s moves h;
})

-- After any commands every workflow's versions are numbered from 1 without a gap and each matches
-- the one below it, so `verify_chain` passes them.
pub run_all-verifies :
    (p : Platform) (q : Parsing) (cs : List Command) (name : String)
    → IsNumbered (rows_of name (run_all p q cs).versions)
      × (verify_chain p (rows_of name (run_all p q cs).versions) ≡ none)
unfolding add_version record_audit apply_publish set_active
run_all-verifies p q cs name = sound-verifies p (run_all p q cs).versions name (
    run_all-keeps p q (λ s. IsSound p s.versions)
      (record {
        empty = empty-IsSound p;
        add = λ new s h. add-IsSound p (p.uuid s.drawn) new s.versions h;
        audit = λ e s still h. h;
        publish = λ name v a actor now s stored own moves h. h;
      })
      cs)
