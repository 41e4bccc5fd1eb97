-- ===== src/Lib.antt =====
-- A verification library for EAIStack: the parts of the backend that decide who may ask how much and
-- what, which workflow answers and how its review loop ends, how workflows are evaluated, what
-- administrators set and what is logged of it, and what is kept of a user's data and for how long. It
-- is a shallow embedding of Python code under backend/app and mcp-servers.
--
-- Parts and how they interact. A chat request passes the rate limiter
-- (services/rate_limiter_service.py), which looks its user's bucket up, lets the token bucket
-- (ratelimit/token_bucket.py) refill and consume, and stores what that returns. The request for a
-- token is limited by the caller's address (core/client_ip.py). The workflow service
-- (services/workflow_service.py) then resolves the published version of the workflow. Between the two
-- the input guardrail (guardrails/input_guardrail.py) refuses a message by the patterns that
-- administrators switch on and off, and the output guardrail (guardrails/output_guardrail.py) takes a
-- leaked prompt out of the reply (services/chat_turn_service.py puts them together). The settings
-- screen (api/settings.py) writes one row of overrides and logs what it changes. Administrators save,
-- create, publish and roll back versions; each write validates the YAML (workflows/schema.py), appends
-- to the version store (repositories/workflow_version_repository.py) under a hash chain
-- (workflows/version_chain.py), moves the pointer of the workflow and writes an audit entry
-- (repositories/audit_log_repository.py). For a turn the compiler (workflows/compiler.py) builds a
-- graph of the definition, which runs the steps of workflows/primitives.py. Before a version is
-- published its test suite may be run (services/workflow_eval_service.py over
-- repositories/workflow_eval_repository.py) and scored (workflows/eval_scoring.py, which takes the
-- choice of a branch from the primitives). The conversations, documents with their embeddings and
-- objects, API keys and turn records that all this leaves are purged by the retention sweep
-- (services/retention_service.py).
--
-- Files and code:
--   Base: names shared by all modules, with Boolean tests, lists, dicts in insertion order (Base/Dict),
--     text as code points (Base/Text), errors as values (Base/Result) and integers (Base/Int).
--   RateLimit/Config: `resolve_field` of services/config_resolution.py and `resolve_rate_limit_config` of
--     services/rate_limit_config_service.py.
--   RateLimit/Bucket: `check_and_consume` of ratelimit/token_bucket.py; Budget has its theorems.
--   RateLimit/Limiter: `check_chat_rate_limit`, `check_auth_rate_limit`, `_check_and_consume_bucket` and
--     `_evict_stale_buckets` of services/rate_limiter_service.py; theorems in Eviction and Isolation.
--   RateLimit/ClientIp: `resolve_client_ip` of core/client_ip.py.
--   Workflow/Schema: the definition types of workflows/schema.py. Targets has `_step_targets` and
--     `_reachable_steps`, Validate and Suite have `_validate_definition` and `_validate_eval_cases`, Parse
--     has `parse_workflow_definition`, Errors a constructor for each error; theorems in Fuel, Reachable and
--     Accepted.
--   Workflow/Versions: the methods of `WorkflowVersionRepository`; Chain has `verify_chain`; theorems in
--     Intact and Tamper. Turns has the record of which version answered a chat turn.
--   Workflow/Service: the tables, `parse_draft_yaml` and its helpers; Operations has `save_draft`,
--     `create_workflow`, `publish`, `rollback` and `sync_builtin_versions`; Resolve has
--     `resolve_active_workflow`; Commands runs any sequence of them. Keeps reduces an invariant of every
--     command to the writes of the store; theorems in Trail, Pointers and Publishing.
--   Workflow/Views: `entry_prompt` of workflows/schema.py, and `workflow_graph`, `is_available` and
--     `resolve_version_for_test` of the service.
--   Workflow/Compiler: `compile_workflow` of workflows/compiler.py as the nodes and edges that it adds;
--     lemmas in Names, Sound and Attached, theorem in Closed.
--   Workflow/Primitives: `choose_route_branch` of workflows/primitives.py. Review has `build_review_loop`
--     (`worker_node`, `reviewer_node`, `finalize_draft`, `route_after_review`) as one loop, Turn has
--     `extract_sources_from_messages` and `tools_called_in_current_turn`; theorems in Bounded and
--     Grounding.
--   Evals: Scoring has workflows/eval_scoring.py, with theorems in Scored and Suite. Runs has the rows and
--     `WorkflowEvalRunRepository`, Runs/Steps the requests of services/workflow_eval_service.py and their
--     interleavings; theorems in Slot, Kept, Verdict and Final.
--   ApiKeys: `APIKeyRepository` and the endpoints of api/apikeys.py; theorem in Isolation.
--   Documents: the rows and `KnowledgeBaseRepository`; Documents/Keys has storage/object_keys.py; theorems
--     in Keys/Separate.
--     Documents/Api has the endpoints of api/knowledge_base.py with storage/document_store.py and
--     services/embedding_service.py; lemmas in Api/Referred, theorem in Api/Tidy.
--   Guardrails: Patterns has `GuardrailPatternRepository` and the endpoints of api/settings.py that change
--     its table, Input has guardrails/input_guardrail.py, services/guardrail_config_service.py,
--     `check_input_guardrail` and `admit_chat_message`, Output has guardrails/output_guardrail.py, and Turn
--     has `filter_agent_response` and `run_chat_turn`; lemmas in Trips and Covers, theorems in Toggled,
--     Admission and Longest.
--   Settings: Row has the settings row and `SystemSettingsRepository.upsert`, Trail the audit entries of
--     api/settings.py, Update its `update_settings` with services/system_settings_service.py and
--     services/rag_config_service.py, and Dashboard the other config services, services/dashboard_service.py
--     and its counts; lemmas in Replay, Accepted and Counted, theorems in Audited and Configured.
--   Retention: `resolve_retention_config` and the cutoffs of services/retention_service.py. Batches has
--     `_delete_in_batches`, Sweep the purges and `run_retention_sweep` with the rollback of
--     cli/retention_sweep.py, Spec what a sweep means row by row; lemmas in Cutoffs, theorems in Purges,
--     Exact and Orphans.
--   Chunking: `_pack_atoms_into_chunks`, `_merge_small_tail` and `_tail_tokens` of
--     services/chunking_service.py; lemmas on words in Words, theorem in Bounded.
--   Search: `search_knowledge_base_with_sources` of mcp-servers/doc-search/app/search.py after the ranking;
--     theorems in Distinct.
--   Threads: `ThreadRepository` of repositories/thread_repository.py, which says whose a conversation is.
--
-- State and errors. The process-wide dict of buckets and the database are values that an operation
-- takes and returns. An exception is the error of a result, and a request that raises leaves the store
-- as it was. A `datetime` is a number: microseconds in the rate limiter, seconds
-- since the first date in the retention sweep, an instant elsewhere.
--
-- Fuel. The search of `_reachable_steps` takes two rounds more than the graph has edges. Every round
-- takes one name off the frontier, and a step's targets are put there once, so this is enough
-- (Workflow/Schema/Fuel). A review loop takes as many rounds as its limit, each of which counts one
-- (Workflow/Primitives/Bounded), and a worker its five tool rounds, after which the code's own loop
-- stops. The batches of a deletion take as many rounds as there are ids (Retention/Batches).
--
-- Bounds and units. Numbers are unbounded, as Python's are. An amount of tokens is counted in units of
-- 1 / 60,000,000 token, in which elapsed microseconds times the rate in a minute is whole.
--
-- Parameters, for code outside the repository: SHA-256, `str`, `isoformat` and the drawn row ids
-- (`Platform`), YAML loading (`Parsing`), Pydantic's `model_validate` and jsonschema's `check_schema`
-- (`Pydantic`), `int` and `str` of numbers (`Numerals`), the models, the tools and `str.format` in a
-- review loop (`Loop`), the names that LangGraph takes for nodes (`LangGraph`), case folding, JSON and its schemas in scoring (`Judge`), `str.lower`, regular
-- expressions and the database's order of strings in the guardrails (`Python`), and what fails during
-- a request on documents (`Faults`). Of the repository's own code, the chunking of a document that is
-- indexed and the embedding provider are taken as a parameter there (`Indexer`), and so is the text
-- that is extracted from a file. What a theorem needs of them is among its hypotheses: distinct ids
-- (`IsFresh`), a hash without collisions and text without NUL (`Laws`), `int` that reads what `str`
-- prints (`IsNumeral`), prompts that format (`IsTemplate`), JSON libraries that raise nothing but what
-- the scoring catches (`JsonIsHandled`).
--
-- Not modelled: the rounding of floats, locks, HTTP, the database's transactions and constraints
-- except where a step is one, what LangGraph makes of a graph and the models that run in it, the
-- ranking of passages, the response of the settings screen, the extraction of text from files, the
-- frontend and the deployment.
pub mod ApiKeys
pub mod Base
pub mod Chunking
pub mod Documents
pub mod Evals
pub mod Guardrails
pub mod RateLimit
pub mod Retention
pub mod Search
pub mod Settings
pub mod Threads
pub mod Workflow
