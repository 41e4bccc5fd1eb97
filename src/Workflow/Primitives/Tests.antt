-- ===== src/Workflow/Primitives/Tests.antt =====
-- Witnesses: a loop of two rounds whose draft is approved in the second, a route and a turn.
use Prim.Native.String.{String}
use eaistack.Base.{
  ℕ, zero, suc, ◌-◌, true, none, some, List, [], ◌∷◌, ◌++◌, ◌≡◌, ◌≢◌, refl, ap, arith, string_eq,
  ◌==◌, if◌then◌else◌,
}
use eaistack.Base.Dict
use eaistack.Workflow.Primitives.{Numerals}
use eaistack.Workflow.Primitives.Review.{
  Message, human, ai, tool, Source, WorkflowState, Loop, review_rounds_key, run_loop,
}
use eaistack.Workflow.Primitives.Turn.{
  extract_sources_from_messages, tools_called_in_current_turn, called,
}
use eaistack.Workflow.Primitives.Bounded.{IsNumeral, IsEnded, IsTemplate, run_loop-IsEnded}
use eaistack.Workflow.Primitives.Grounding.{IsGrounding, extract_sources_from_messages_lem}

-- Numbers as tallies after a zero.
abbrev tally : ℕ → String
tally zero = "0"
tally (suc n) = String.◌∷◌ "1" (tally n)

abbrev strokes : String → ℕ
strokes String.[] = 0
strokes (String.◌∷◌ c s) = suc (strokes s)

abbrev tallies : Numerals
tallies = record { str = tally; int = λ s. some (strokes s - 1) }

strokes-tally : (k : ℕ) → strokes (tally k) ≡ suc k
strokes-tally zero = refl
strokes-tally (suc k) = ap suc (strokes-tally k)

tallies-IsNumeral : IsNumeral tallies
tallies-IsNumeral = record {
  int-str = λ k. ap some (omega (arith, strokes-tally k));
  int_zero = refl;
}

abbrev drafting : Loop
drafting = record {
  worker_step = "drafter";
  reviewer_step = "reviewer";
  has_tools = true;
  worker_prompt = "{draft}";
  reviewer_prompt = "{draft}";
  format = λ template task draft issues. if template == "{draft}" then some draft else none;
  worker_llm = λ prompt messages.
      if prompt == ""
      then record { content = "first"; tool_calls = [] }
      else record { content = "second"; tool_calls = "search" ∷ [] };
  run_tools = λ messages. tool "found" [] ∷ [];
  reviewer_llm =
      λ prompt. if prompt == "second" then some (record { approved = true; issues = [] }) else none;
  dump = λ r. "review";
  max_iterations = 3;
}

abbrev asked : WorkflowState
asked = record {
  messages = human "question" ∷ [];
  step_outputs = [];
  task = "question";
  draft = "";
  review = none;
  draft_tool_exchange = [];
}

drafting-apart : drafting.worker_step ≢ review_rounds_key drafting.reviewer_step
unfolding review_rounds_key
drafting-apart same = cc

drafting-IsTemplate : IsTemplate drafting "{draft}"
drafting-IsTemplate task draft issues = (draft, refl)

run_loop-IsEnded_example :
    IsEnded tallies drafting asked.messages (run_loop tallies drafting 3 asked)
unfolding Dict.lookup
run_loop-IsEnded_example =
    run_loop-IsEnded tallies tallies-IsNumeral drafting drafting-apart drafting-IsTemplate
      drafting-IsTemplate (omega arith) asked refl

abbrev source : Source
source = record { knowledge_base_id = "doc"; title = "Guide"; heading_path = none }

abbrev turn : List Message
turn = ai "" ("search" ∷ []) ∷ tool "hits" (source ∷ source ∷ []) ∷ ai "answer" [] ∷ []

extract_sources_from_messages_lem_example :
    IsGrounding turn
      (extract_sources_from_messages ((tool "old" (source ∷ []) ∷ []) ++ human "q" ∷ turn))
    × (tools_called_in_current_turn ((tool "old" (source ∷ []) ∷ []) ++ human "q" ∷ turn)
        ≡ called turn)
extract_sources_from_messages_lem_example =
    extract_sources_from_messages_lem (tool "old" (source ∷ []) ∷ []) "q" turn (tt, (tt, (tt, tt)))
