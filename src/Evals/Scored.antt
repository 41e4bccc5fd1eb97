-- ===== src/Evals/Scored.antt =====
-- What the checks of one scored run give, once the suite is accepted.
use eaistack.Base.Int.{ℤ}
use eaistack.Base.{
  ℕ, String, Bool, false, ◌&&◌, Option, none, some, List, [], ◌∷◌, ◌++◌, map, string_eq, ◌≡◌, ◌≢◌,
  inl, inr, refl, ◌∙◌, arith, Option-cases,
}
use eaistack.Base.Dict
use eaistack.Base.Dict.{Dict}
use eaistack.Base.Result.{ok, err, ◌>>=◌, raise_if-ok_iff}
use eaistack.Workflow.Schema.{
  agent, review_loop, route, EvalCaseDef, RouteExpectation, ReviewRoundsExpectation, WorkflowDef,
  is_empty, is_nil, is_none, Fields, Json,
}
use eaistack.Workflow.Schema.Targets.{keys}
use eaistack.Workflow.Schema.Suite.{check_route, check_rounds}
use eaistack.Workflow.Primitives.Bounded.{IsDeclared, choose_route_branch_lem}
use eaistack.Workflow.Primitives.Review.{review_rounds_key}
use eaistack.Evals.Scoring.{
  Judge, Loaded, parsed, invalid_json, loads_raised, Located, no_error, error_at, search_raised,
  CaseRunObservation, CheckResult, Results, judge_route, route_result, judge_rounds,
  review_rounds_result, tool_called_result, reply_contains_result, reply_json_schema_result,
  check_results,
}

-- A recorded count of rounds is a number.
abbrev pub IsCount : Judge → Option String → Type 0
IsCount j none = Unit
IsCount j (some recorded) = j.numerals.int recorded ≢ none

abbrev pub CountsAreNumbers : Judge → CaseRunObservation → Type 0
CountsAreNumbers j o =
    (reviewer : String) → IsCount j (Dict.lookup (review_rounds_key reviewer) o.step_outputs)

-- Neither parsing the reply nor matching it against a schema raises what is not caught.
abbrev pub JsonIsHandled : Judge → String → Option Fields → Type 0
JsonIsHandled j reply none = Unit
JsonIsHandled j reply (some schema) =
    (j.loads reply ≢ loads_raised)
    × ((value : Json)
        → j.loads reply ≡ parsed value
        → j.error_location schema value ≢ search_raised)

-- Nothing was raised, and there is no result exactly if no check asks for one.
abbrev pub Answers : Bool → Results → Type 0
Answers idle (err e) = ⊥
Answers idle (ok results) = is_nil results ≡ idle

judge_route-Answers :
    (step expected : String) (taken : Option String)
    → taken ≢ none
    → Answers false (judge_route step expected taken)
unfolding judge_route
judge_route-Answers step expected none h = h refl
judge_route-Answers step expected (some taken) h = refl

judge_rounds-Answers :
    (j : Judge) (step : String) (limit : ℤ) (rounds : Option ℕ)
    → rounds ≢ none
    → Answers false (judge_rounds j step limit rounds)
unfolding judge_rounds
judge_rounds-Answers j step limit none h = h refl
judge_rounds-Answers j step limit (some rounds) h = refl

keys-nonempty :
    {V : Type 0} (k : String) (d : Dict String V) → is_none (Dict.lookup k d) ≡ false → keys d ≢ []
unfolding Dict.lookup
keys-nonempty k [] h = cc
keys-nonempty k ((j, v) ∷ d) h = λ e. cc

IsDeclared-not-none :
    (branches : List String) (b : Option String) → IsDeclared branches b → b ≢ none
IsDeclared-not-none branches none h = absurd h
IsDeclared-not-none branches (some b) h = λ e. cc

route_result-Answers :
    (d : WorkflowDef) (o : CaseRunObservation) (name : String) (e : Option RouteExpectation)
    → check_route d.steps name e ≡ ok tt
    → Answers (is_none e) (route_result d o e)
unfolding route_result check_route
route_result-Answers d o name none h = refl
route_result-Answers d o name (some e) h = elim (Option-cases (Dict.lookup e.step d.steps)) [
  | inl missing ↦ cc (rw (check_route, missing) at h)
  | inr (agent step, found) ↦ cc (rw (check_route, found) at h)
  | inr (review_loop step, found) ↦ cc (rw (check_route, found) at h)
  | inr (route step, found) ↦ elim (Option-cases (Dict.lookup e.step o.step_outputs)) [
    | inl idle ↦ rw (route_result, found, idle) refl
    | inr (output, ran) ↦
        rw (route_result, found, ran)
          (judge_route-Answers e.step e.branch _ (
            IsDeclared-not-none _ _ (
              choose_route_branch_lem output (keys step.branches) (
                keys-nonempty e.branch step.branches
                  ((raise_if-ok_iff _ _).0 (rw (check_route, found) at h))))))
  ]
]

rounds_result-Answers :
    (j : Judge) (d : WorkflowDef) (o : CaseRunObservation) (name : String)
    (e : Option ReviewRoundsExpectation)
    → CountsAreNumbers j o
    → check_rounds d.steps name e ≡ ok tt
    → Answers (is_none e) (review_rounds_result j d o e)
unfolding review_rounds_result check_rounds
rounds_result-Answers j d o name none counts h = refl
rounds_result-Answers j d o name (some e) counts h =
    elim (Option-cases (Dict.lookup e.step d.steps)) [
      | inl missing ↦ cc (rw (check_rounds, missing) at h)
      | inr (agent step, found) ↦ cc (rw (check_rounds, found) at h)
      | inr (route step, found) ↦ cc (rw (check_rounds, found) at h)
      | inr (review_loop step, found) ↦
          elim (Option-cases (Dict.lookup (review_rounds_key step.reviewer_step) o.step_outputs)) [
            | inl idle ↦ rw (review_rounds_result, found, idle) refl
            | inr (taken, ran) ↦
                rw (review_rounds_result, found, ran)
                  (judge_rounds-Answers j e.step e.rounds _ (rw ran at (counts step.reviewer_step)))
          ]
    ]

tool_called_result_nil :
    (o : CaseRunObservation) (e : Option String) → is_nil (tool_called_result o e) ≡ is_none e
unfolding tool_called_result
tool_called_result_nil o none = refl
tool_called_result_nil o (some tool) = refl

module _ (j : Judge) (o : CaseRunObservation) (schema : Fields) where
  abbrev Judged : Type 0
  Judged = Answers false (reply_json_schema_result j o (some schema))

  located-Judged :
      (value : Json) (l : Located)
      → j.loads o.reply ≡ parsed value
      → j.error_location schema value ≡ l
      → l ≢ search_raised
      → Judged
  unfolding reply_json_schema_result
  located-Judged value no_error e f h = rw (reply_json_schema_result, e, f) refl
  located-Judged value (error_at location) e f h = rw (reply_json_schema_result, e, f) refl
  located-Judged value search_raised e f h = absurd (h refl)

  loaded-Judged :
      (l : Loaded) → j.loads o.reply ≡ l → JsonIsHandled j o.reply (some schema) → Judged
  unfolding reply_json_schema_result
  loaded-Judged loads_raised e h = absurd (h.0 e)
  loaded-Judged invalid_json e h = rw (reply_json_schema_result, e) refl
  loaded-Judged (parsed value) e h =
      located-Judged value (j.error_location schema value) e refl (h.1 value e)

schema_result-Answers :
    (j : Judge) (o : CaseRunObservation) (e : Option Fields)
    → JsonIsHandled j o.reply e
    → Answers (is_none e) (reply_json_schema_result j o e)
unfolding reply_json_schema_result
schema_result-Answers j o none h = refl
schema_result-Answers j o (some schema) h = loaded-Judged j o schema (j.loads o.reply) refl h

nil-append {ℓ} : {A : Type ℓ} (xs ys : List A) → is_nil (xs ++ ys) ≡ (is_nil xs && is_nil ys)
nil-append [] ys = refl
nil-append (x ∷ xs) ys = refl

pub nil-map : {A B : Type 0} (f : A → B) (xs : List A) → is_nil (map f xs) ≡ is_nil xs
nil-map f [] = refl
nil-map f (x ∷ xs) = refl

>>=-Answers :
    (a b : Bool) (call : Results) (next : List CheckResult → Results)
    → Answers a call
    → ((results : List CheckResult) → is_nil results ≡ a → Answers b (next results))
    → Answers b (call >>= next)
>>=-Answers a b (err e) next h more = absurd h
>>=-Answers a b (ok results) next h more = more results h

all_nil :
    (a b c : List CheckResult) (texts : List String) (f : String → CheckResult)
    (e : List CheckResult)
    → is_nil (a ++ b ++ c ++ map f texts ++ e)
      ≡ (is_nil a && is_nil b && is_nil c && is_nil texts && is_nil e)
all_nil a b c texts f e = ground (
  arith,
  nil-append a (b ++ c ++ map f texts ++ e),
  nil-append b (c ++ map f texts ++ e),
  nil-append c (map f texts ++ e),
  nil-append (map f texts) e,
  nil-map f texts,
)

pub check_results-Answers :
    (j : Judge) (case : EvalCaseDef) (d : WorkflowDef) (o : CaseRunObservation)
    → CountsAreNumbers j o
    → JsonIsHandled j o.reply case.expect.reply_json_schema
    → check_route d.steps case.name case.expect.route ≡ ok tt
    → check_rounds d.steps case.name case.expect.review_rounds_at_most ≡ ok tt
    → Answers (is_empty case.expect) (check_results j case d o)
unfolding check_results is_empty
check_results-Answers j case d o counts handled routes rounds =
    let e = case.expect in
    >>=-Answers (is_none e.route) _ _ _ (route_result-Answers d o case.name e.route routes)
      λ routed r.
        >>=-Answers (is_none e.review_rounds_at_most) _ _ _
          (rounds_result-Answers j d o case.name e.review_rounds_at_most counts rounds)
          λ reviewed v.
            >>=-Answers (is_none e.reply_json_schema) _ _ _
              (schema_result-Answers j o e.reply_json_schema handled)
              λ matched s.
                all_nil routed reviewed (tool_called_result o e.tool_called) e.reply_contains
                  (reply_contains_result j o) matched
                ∙ rw (r, v, tool_called_result_nil o e.tool_called, s) refl
