-- ===== src/Workflow/Versions/Chain.antt =====
-- `verify_chain` of backend/app/workflows/version_chain.py.
use eaistack.Base.{
  Bool, ◌||◌, not, Option, none, some, [], ◌∷◌, ltb, if◌then◌else◌, ◌==◌, nat_eq, list_eq,
  option_eq,
}
use eaistack.Base.Text.{Text}
use eaistack.Workflow.Versions.{
  Platform, WorkflowVersion, Versions, compute_content_hash, compute_chain_hash,
}

-- Stable: a version goes before those of its own sequence that came after it.
unfoldable pub insert_sorted : WorkflowVersion → Versions → Versions
insert_sorted v [] = v ∷ []
insert_sorted v (w ∷ ws) = if ltb w.sequence v.sequence then w ∷ insert_sorted v ws else v ∷ w ∷ ws

-- `sorted(versions, key=lambda v: v.sequence)`
unfoldable pub sort_by_sequence : Versions → Versions
sort_by_sequence [] = []
sort_by_sequence (v ∷ vs) = insert_sorted v (sort_by_sequence vs)

-- Whether a version does not match its own fields or its predecessor.
unfoldable pub is_broken : Platform → Option Text → WorkflowVersion → Bool
is_broken p previous v =
    not (v.content_hash == compute_content_hash p v.yaml_text)
    || not (v.prev_chain_hash == previous)
    || not (
        v.chain_hash
        == compute_chain_hash p previous v.workflow_name v.sequence
            (compute_content_hash p v.yaml_text) v.author_user_id v.change_note v.created_at)

unfoldable pub verify_from : Platform → Option Text → Versions → Option WorkflowVersion
verify_from p previous [] = none
verify_from p previous (v ∷ vs) =
    if is_broken p previous v then some v else verify_from p (some v.chain_hash) vs

unfoldable pub verify_chain : Platform → Versions → Option WorkflowVersion
verify_chain p vs = verify_from p none (sort_by_sequence vs)
