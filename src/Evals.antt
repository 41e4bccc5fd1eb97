-- ===== src/Evals.antt =====
-- The eval runs of a workflow and their scoring (backend/app/workflows/eval_scoring.py,
-- backend/app/repositories/workflow_eval_repository.py and backend/app/services/workflow_eval_service.py).
pub mod Scoring
pub mod Scored
pub mod Suite
pub mod Runs
mod Tests
