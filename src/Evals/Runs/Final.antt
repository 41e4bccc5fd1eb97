-- ===== src/Evals/Runs/Final.antt =====
-- No request makes an eval run that has ended run again.
use eaistack.Base.{String}
use eaistack.Evals.Runs.{Db}
use eaistack.Evals.Runs.Verdict.{IsEnded}
use eaistack.Evals.Runs.Steps.{Steps}

module _ (id : String) where
  abbrev Final : Db → Type 0
  Final = IsEnded id
