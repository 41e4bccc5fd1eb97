-- ===== src/Workflow/Versions/Turns.antt =====
-- `ChatTurnVersionRepository.record` of backend/app/repositories/workflow_version_repository.py: which
-- version answered a chat turn. The id of the row comes from the database and is an argument.
use eaistack.Base.{ℕ, String, Bool, List, ◌∷◌}

pub record ChatTurnVersion : Type 0 where
  pub id : String
  pub user_id : String
  pub thread_id : String
  pub workflow_name : String
  pub workflow_version_id : String
  pub is_test_run : Bool
  pub created_at : ℕ

-- What the caller gives.
pub record NewTurn : Type 0 where
  pub user_id : String
  pub thread_id : String
  pub workflow_name : String
  pub workflow_version_id : String
  pub is_test_run : Bool
  pub now : ℕ

unfoldable pub record_turn :
    String → NewTurn → List ChatTurnVersion → ChatTurnVersion × List ChatTurnVersion
record_turn id new turns =
    let turn : ChatTurnVersion = record {
      id = id;
      user_id = new.user_id;
      thread_id = new.thread_id;
      workflow_name = new.workflow_name;
      workflow_version_id = new.workflow_version_id;
      is_test_run = new.is_test_run;
      created_at = new.now;
    } in
    (turn, turn ∷ turns)
