-- ===== src/Workflow/Primitives/Review.antt =====
-- `build_review_loop` of backend/app/workflows/primitives.py as the steps of its graph. The worker's and
-- the reviewer's models and the tools are arguments: functions of what they are given. A model call of
-- the worker that raises ends the turn and is not modelled; one of the reviewer is `none`.
use Prim.Native.String.{◌++◌ as ◌<>◌}
use eaistack.Base.{
  ℕ, zero, suc, ◌+◌, String, Bool, true, false, Option, none, some, List, [], ◌∷◌, ◌++◌, leb,
  if◌then◌else◌, string_eq,
}
use eaistack.Base.Dict
use eaistack.Base.Dict.{Dict}
use eaistack.Workflow.Primitives.{Numerals}

pub record ReviewResult : Type 0 where
  pub approved : Bool
  pub issues : List String

-- A document that grounds a search result.
pub record Source : Type 0 where
  pub knowledge_base_id : String
  pub title : String
  pub heading_path : Option String

-- A message of the conversation; an AI message names the tools that it calls.
pub data Message : Type 0 where
  human : String → Message
  ai : String → List String → Message
  -- Its artifact lists the sources.
  tool : String → List Source → Message

pub record WorkflowState : Type 0 where
  pub messages : List Message
  pub step_outputs : Dict String String
  pub task : String
  pub draft : String
  pub review : Option ReviewResult
  pub draft_tool_exchange : List Message

-- What a worker's model answers: text, and the tools that it calls.
pub record Response : Type 0 where
  pub content : String
  pub tool_calls : List String

-- One review loop as it was built. A model reads the rendered prompt and the messages. `format` is
-- `str.format` of a template with a task, a draft and the issues of a review; `none` is what it raises.
pub record Loop : Type 0 where
  pub worker_step : String
  pub reviewer_step : String
  pub has_tools : Bool
  pub worker_prompt : String
  pub reviewer_prompt : String
  pub format : String → String → String → String → Option String
  pub worker_llm : String → List Message → Response
  pub run_tools : List Message → List Message
  pub reviewer_llm : String → Option ReviewResult
  pub dump : ReviewResult → String
  pub max_iterations : ℕ

abbrev pub worker_max_tool_call_rounds : ℕ
worker_max_tool_call_rounds = 5

unfoldable pub review_rounds_key : String → String
review_rounds_key reviewer_step = "__" <> reviewer_step <> "_rounds"

abbrev is_empty : List String → Bool
is_empty [] = true
is_empty (x ∷ xs) = false

abbrev as_message : Response → Message
as_message r = ai r.content r.tool_calls

-- `"; ".join(issues)`
abbrev pub join_issues : List String → String
join_issues [] = ""
join_issues (issue ∷ []) = issue
join_issues (issue ∷ issues) = issue <> ("; " <> join_issues issues)

abbrev pub issues_of : Option ReviewResult → String
issues_of none = ""
issues_of (some review) = join_issues review.issues

unfoldable pub format_prompt : Loop → String → WorkflowState → Option String
format_prompt l template s = l.format template s.task s.draft (issues_of s.review)

-- The `while` loop of `worker_node`, on the rounds that are left: the last response and the exchange.
unfoldable pub worker_rounds :
    Loop → String → ℕ → List Message → List Message → Response → Response × List Message
worker_rounds l prompt zero conversation exchange response = (response, exchange)
worker_rounds l prompt (suc left) conversation exchange response =
    let asked = conversation ++ as_message response ∷ [] in
    let results = l.run_tools asked in
    let next =
      worker_rounds l prompt left (asked ++ results) (exchange ++ as_message response ∷ results)
        (l.worker_llm prompt (asked ++ results)) in
    if l.has_tools
    then if is_empty response.tool_calls then (response, exchange) else next
    else (response, exchange)

-- What the worker writes, once its prompt is rendered.
unfoldable pub with_draft : Loop → WorkflowState → String → WorkflowState
with_draft l s prompt =
    let (response, exchange) =
      worker_rounds l prompt worker_max_tool_call_rounds s.messages []
        (l.worker_llm prompt s.messages) in
    record s {
      draft = response.content;
      draft_tool_exchange = exchange;
      step_outputs = Dict.insert l.worker_step response.content s.step_outputs;
    }

unfoldable pub worker_node : Loop → WorkflowState → Option WorkflowState
worker_node l s = elim (format_prompt l l.worker_prompt s) [
  | none ↦ none
  | some prompt ↦ some (with_draft l s prompt)
]

-- `int(recorded)`, with `"0"` where nothing is recorded; `none` is a ValueError.
abbrev pub as_count : Numerals → Option String → Option ℕ
as_count n none = n.int "0"
as_count n (some recorded) = n.int recorded

unfoldable pub rounds_completed : Numerals → Loop → WorkflowState → Option ℕ
rounds_completed n l s = as_count n (Dict.lookup (review_rounds_key l.reviewer_step) s.step_outputs)

abbrev pub unparsed : ReviewResult
unparsed = record { approved = false; issues = "reviewer output could not be parsed" ∷ [] }

abbrev or_unparsed : Option ReviewResult → ReviewResult
or_unparsed none = unparsed
or_unparsed (some r) = r

unfoldable pub with_review : Numerals → Loop → WorkflowState → String → ℕ → WorkflowState
with_review n l s prompt rounds =
    let review = or_unparsed (l.reviewer_llm prompt) in
    record s {
      review = some review;
      step_outputs =
          Dict.insert (review_rounds_key l.reviewer_step) (n.str (rounds + 1))
            (Dict.insert l.reviewer_step (l.dump review) s.step_outputs);
    }

unfoldable pub reviewer_node : Numerals → Loop → WorkflowState → Option WorkflowState
reviewer_node n l s = elim (format_prompt l l.reviewer_prompt s) [
  | none ↦ none
  | some prompt ↦ elim (rounds_completed n l s) [
    | none ↦ none
    | some rounds ↦ some (with_review n l s prompt rounds)
  ]
]

unfoldable pub finalize_draft : WorkflowState → WorkflowState
finalize_draft s = record s {
  messages = s.messages ++ (s.draft_tool_exchange ++ ai s.draft [] ∷ []);
}

abbrev pub is_approved : Option ReviewResult → Bool
is_approved none = false
is_approved (some r) = r.approved

pub data Next : Type 0 where
  finalize again : Next

abbrev pub next_after : Loop → Option ReviewResult → ℕ → Next
next_after l review rounds =
    if is_approved review then finalize else if leb l.max_iterations rounds then finalize else again

unfoldable pub route_after_review : Numerals → Loop → WorkflowState → Option Next
route_after_review n l s = elim (rounds_completed n l s) [
  | none ↦ none
  | some rounds ↦ some (next_after l s.review rounds)
]

abbrev pub follow : Option WorkflowState → WorkflowState → Next → Option WorkflowState
follow later s finalize = some (finalize_draft s)
follow later s again = later

-- The worker and the reviewer after it.
unfoldable pub one_round : Numerals → Loop → WorkflowState → Option WorkflowState
one_round n l s = elim (worker_node l s) [ none ↦ none | some drafted ↦ reviewer_node n l drafted ]

-- What the graph does from the worker on; `again` is the edge back to it. The fuel is the number of
-- rounds that it may start; `none` is an error or the end of the fuel.
unfoldable pub run_loop : Numerals → Loop → ℕ → WorkflowState → Option WorkflowState
run_loop n l zero s = none
run_loop n l (suc fuel) s = elim (one_round n l s) [
  | none ↦ none
  | some reviewed ↦
      let later = run_loop n l fuel reviewed in
      elim (route_after_review n l reviewed) [
        | none ↦ none
        | some next ↦ follow later reviewed next
      ]
]
