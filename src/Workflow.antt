-- ===== src/Workflow.antt =====
-- The workflow engine (backend/app/workflows, backend/app/services/workflow_service.py and
-- backend/app/repositories/workflow_version_repository.py).
pub mod Schema
pub mod Versions
pub mod Primitives
pub mod Service
pub mod Views
pub mod Compiler
mod Tests
