-- ===== src/Workflow/Service/Commands.antt =====
-- The requests of the admin API and the startup sync, run one after another on a store. A request that
-- raises is rolled back.
use eaistack.Base.{ℕ, String, List, [], ◌∷◌}
use eaistack.Base.Result.{ok, err}
use eaistack.Workflow.Versions.{Platform}
use eaistack.Workflow.Service.{Parsing, Store, Outcome, empty_store}
use eaistack.Workflow.Service.Operations.{
  Draft, save_draft, create_workflow, publish, rollback, sync_builtin_versions,
}

pub data Command : Type 0 where
  save : String → Draft → Command
  create : Draft → Command
  -- The workflow, the version, the actor and the time.
  publish_version rollback_to : String → String → String → ℕ → Command
  sync : ℕ → List (String × String) → Command

unfoldable pub committed : Store → Outcome → Store
committed s (err e) = s
committed s (ok (version, after)) = after

unfoldable pub run : Platform → Parsing → Command → Store → Store
run p q (save name draft) s = committed s (save_draft p q name draft s)
run p q (create draft) s = committed s (create_workflow p q draft s)
run p q (publish_version name id actor now) s = committed s (publish q name id actor now s)
run p q (rollback_to name id actor now) s = committed s (rollback q name id actor now s)
run p q (sync now sources) s = sync_builtin_versions p now sources s

-- The store after the commands, the last one first.
unfoldable pub run_all : Platform → Parsing → List Command → Store
run_all p q [] = empty_store
run_all p q (c ∷ earlier) = run p q c (run_all p q earlier)
