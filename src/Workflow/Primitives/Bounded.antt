-- ===== src/Workflow/Primitives/Bounded.antt =====
-- The review loop of backend/app/workflows/primitives.py ends: what its last state says.
use eaistack.Base.{
  ℕ, zero, suc, ◌+◌, ◌≤◌, ◌<◌, In, String, true, Option, none, some, List, [], ◌∷◌, ◌++◌, leb,
  string_eq, ◌≡◌, ◌≢◌, ◌⊎◌, inl, inr, refl, sym, subst, ap, ◌∙◌, arith, Bool-cases,
}
use eaistack.Base.Text.{codes}
use eaistack.Base.Dict
use eaistack.Base.Dict.{Dict}
use eaistack.Workflow.Primitives.{Numerals, occurs, find_branch, or_first, choose_route_branch}
use eaistack.Workflow.Primitives.Review.{
  WorkflowState, Loop, Message, as_count, with_review, with_draft, format_prompt, issues_of,
  one_round, worker_node, reviewer_node, finalize_draft, route_after_review, rounds_completed,
  is_approved, review_rounds_key, run_loop, next_after, follow,
}

-- Python's `int` reads what `str` prints.
pub record IsNumeral (n : Numerals) : Type 0 where
  pub int-str : (k : ℕ) → n.int (n.str k) ≡ some k
  pub int_zero : n.int "0" ≡ some 0

abbrev IsWithin : ℕ → Option ℕ → Type 0
IsWithin limit none = ⊥
IsWithin limit (some k) = (1 ≤ k) × (k ≤ limit)

-- What a loop leaves of the conversation `said` that it started from.
abbrev pub IsEnded : Numerals → Loop → List Message → Option WorkflowState → Type 0
IsEnded n l said none = ⊥
IsEnded n l said (some s) =
    (s.messages ≡ said ++ (s.draft_tool_exchange ++ Message.ai s.draft [] ∷ []))
    × IsWithin l.max_iterations (rounds_completed n l s)
    × ((is_approved s.review ≡ true) ⊎ (rounds_completed n l s ≡ some l.max_iterations))

-- The template has no placeholder but the three that are filled, and no stray brace: formatting it raises
-- nothing, whatever the fields hold.
abbrev pub IsTemplate : Loop → String → Type 0
IsTemplate l template =
    (task draft issues : String)
    → (prompt : String) × (l.format template task draft issues ≡ some prompt)

rounds-worker :
    (n : Numerals) (l : Loop) (s : WorkflowState) (prompt : String)
    → l.worker_step ≢ review_rounds_key l.reviewer_step
    → rounds_completed n l (with_draft l s prompt) ≡ rounds_completed n l s
unfolding rounds_completed with_draft
rounds-worker n l s prompt apart = ap (as_count n) (Dict.lookup-insert_ne _ _ _ _ apart)

rounds_fresh :
    (n : Numerals)
    → IsNumeral n
    → (l : Loop) (s : WorkflowState)
    → Dict.lookup (review_rounds_key l.reviewer_step) s.step_outputs ≡ none
    → rounds_completed n l s ≡ some 0
unfolding rounds_completed
rounds_fresh n law l s fresh = ap (as_count n) fresh ∙ law.int_zero

messages-worker :
    (l : Loop) (s : WorkflowState) (prompt : String) → (with_draft l s prompt).messages ≡ s.messages
unfolding with_draft
messages-worker l s prompt = refl

rounds-with_review :
    (n : Numerals)
    → IsNumeral n
    → (l : Loop) (s : WorkflowState) (prompt : String) (k : ℕ)
    → rounds_completed n l (with_review n l s prompt k) ≡ some (k + 1)
unfolding rounds_completed with_review
rounds-with_review n law l s prompt k =
    ap (as_count n) (Dict.lookup-insert_self _ _ _) ∙ law.int-str (k + 1)

messages-with_review :
    (n : Numerals) (l : Loop) (s : WorkflowState) (prompt : String) (k : ℕ)
    → (with_review n l s prompt k).messages ≡ s.messages
unfolding with_review
messages-with_review n l s prompt k = refl

worker_node_lem :
    (l : Loop) (s : WorkflowState)
    → IsTemplate l l.worker_prompt
    → (prompt : String) × (worker_node l s ≡ some (with_draft l s prompt))
unfolding worker_node format_prompt
worker_node_lem l s whole =
    let (prompt, made) = whole s.task s.draft (issues_of s.review) in
    (prompt, rw (worker_node, made) refl)

reviewer_node_lem :
    (n : Numerals) (l : Loop) (s : WorkflowState) (k : ℕ)
    → IsTemplate l l.reviewer_prompt
    → rounds_completed n l s ≡ some k
    → (prompt : String) × (reviewer_node n l s ≡ some (with_review n l s prompt k))
unfolding reviewer_node format_prompt
reviewer_node_lem n l s k whole h =
    let (prompt, made) = whole s.task s.draft (issues_of s.review) in
    (prompt, rw (reviewer_node, made, h) refl)

-- What a round of the loop leaves.
abbrev HasReviewed : Numerals → Loop → WorkflowState → ℕ → Type 0
HasReviewed n l s k =
    (r : WorkflowState) × (one_round n l s ≡ some r)
    × (rounds_completed n l r ≡ some k)
    × (r.messages ≡ s.messages)

one_round-HasReviewed :
    (n : Numerals)
    → IsNumeral n
    → (l : Loop) → l.worker_step ≢ review_rounds_key l.reviewer_step
    → IsTemplate l l.worker_prompt
    → IsTemplate l l.reviewer_prompt
    → (k : ℕ) (s : WorkflowState) → rounds_completed n l s ≡ some k
    → HasReviewed n l s (k + 1)
unfolding one_round
one_round-HasReviewed n law l apart worker reviewer k s h =
    let (prompt, drafted) = worker_node_lem l s worker in
    let d = with_draft l s prompt in
    let (asked, reviewed) =
      reviewer_node_lem n l d k reviewer (rounds-worker n l s prompt apart ∙ h) in
    (
      with_review n l d asked k,
      rw (one_round, drafted) reviewed,
      rounds-with_review n law l d asked k,
      messages-with_review n l d asked k ∙ messages-worker l s prompt,
    )

route_after_review_lem :
    (n : Numerals) (l : Loop) (s : WorkflowState) (k : ℕ)
    → rounds_completed n l s ≡ some k
    → route_after_review n l s ≡ some (next_after l s.review k)
unfolding route_after_review
route_after_review_lem n l s k h = rw (route_after_review, h) refl

-- One round of a loop whose count is a number.
run_loop-suc :
    (n : Numerals) (l : Loop) (s r : WorkflowState) (fuel k : ℕ)
    → one_round n l s ≡ some r
    → rounds_completed n l r ≡ some k
    → run_loop n l (suc fuel) s ≡ follow (run_loop n l fuel r) r (next_after l r.review k)
unfolding run_loop
run_loop-suc n l s r fuel k made h = rw (run_loop, made, route_after_review_lem n l r k h) refl

finish :
    (n : Numerals) (l : Loop) (k : ℕ) (r : WorkflowState) (later : Option WorkflowState)
    → rounds_completed n l r ≡ some k
    → 1 ≤ k
    → k ≤ l.max_iterations
    → (k < l.max_iterations → IsEnded n l r.messages later)
    → IsEnded n l r.messages (follow later r (next_after l r.review k))
unfolding finalize_draft rounds_completed
finish n l k r later h positive bound more = elim (Bool-cases (is_approved r.review)) [
  | inl accept ↦ rw accept (refl, rw h (positive, bound), inl accept)
  | inr reject ↦ elim (Bool-cases (leb l.max_iterations k)) [
    | inl over ↦ rw (reject, over) (refl, rw h (positive, bound), inr (h ∙ ap some (ground arith)))
    | inr under ↦ rw (reject, under) (more (ground arith))
  ]
]

run_loop_go :
    (n : Numerals)
    → IsNumeral n
    → (l : Loop) → l.worker_step ≢ review_rounds_key l.reviewer_step
    → IsTemplate l l.worker_prompt
    → IsTemplate l l.reviewer_prompt
    → (fuel k : ℕ) (s : WorkflowState) → rounds_completed n l s ≡ some k
    → k + fuel ≡ l.max_iterations
    → 1 ≤ fuel
    → IsEnded n l s.messages (run_loop n l fuel s)
run_loop_go n law l apart worker reviewer zero k s h bound started = absurd (omega arith)
run_loop_go n law l apart worker reviewer (suc fuel) k s h bound started =
    let (r, made, counted, same) = one_round-HasReviewed n law l apart worker reviewer k s h in
    subst (λ said. IsEnded n l said (run_loop n l (suc fuel) s)) same
      (subst (IsEnded n l r.messages) (sym (run_loop-suc n l s r fuel (k + 1) made counted)) (
        finish n l (k + 1) r (run_loop n l fuel r) counted (omega arith) (omega arith) (λ more.
          run_loop_go n law l apart worker reviewer fuel (k + 1) r counted (omega arith)
            (omega arith))))

-- A review loop of at least one iteration, whose worker's model and tools answer, ends when its round count
-- is not yet recorded, its worker is not named like the count's key, both its prompts are templates that
-- format for any fields, and `int` reads back what `str` prints: at most `max_iterations` rounds give a
-- last state. Its conversation is the one before plus the exchange of the last draft's tools and one
-- message with that draft, its count is between one and the limit, and the last verdict approved the
-- draft or the count is the limit.
pub run_loop-IsEnded :
    (n : Numerals)
    → IsNumeral n
    → (l : Loop) → l.worker_step ≢ review_rounds_key l.reviewer_step
    → IsTemplate l l.worker_prompt
    → IsTemplate l l.reviewer_prompt
    → 1 ≤ l.max_iterations
    → (s : WorkflowState) → Dict.lookup (review_rounds_key l.reviewer_step) s.step_outputs ≡ none
    → IsEnded n l s.messages (run_loop n l l.max_iterations s)
run_loop-IsEnded n law l apart worker reviewer positive s fresh =
    run_loop_go n law l apart worker reviewer l.max_iterations 0 s (rounds_fresh n law l s fresh)
      (omega arith) positive

abbrev pub IsDeclared : List String → Option String → Type 0
IsDeclared branches none = ⊥
IsDeclared branches (some branch) = In branch branches

later_found :
    (found : Option String) (branch : String) (branches : List String)
    → (found ≡ none) ⊎ IsDeclared branches found
    → (found ≡ none) ⊎ IsDeclared (branch ∷ branches) found
later_found none branch branches h = inl refl
later_found (some b) branch branches (inl e) = cc
later_found (some b) branch branches (inr h) = inr (inr h)

or_first-IsDeclared :
    (branches : List String) (found : Option String)
    → branches ≢ []
    → (found ≡ none) ⊎ IsDeclared branches found
    → IsDeclared branches (or_first branches found)
or_first-IsDeclared branches (some b) h (inl e) = cc
or_first-IsDeclared branches (some b) h (inr m) = m
or_first-IsDeclared [] none h m = h refl
or_first-IsDeclared (b ∷ branches) none h m = inl refl

find_branch-IsFound :
    (output : String) (branches : List String)
    → (find_branch output branches ≡ none) ⊎ IsDeclared branches (find_branch output branches)
unfolding find_branch
find_branch-IsFound output [] = inl refl
find_branch-IsFound output (branch ∷ branches) =
    elim (Bool-cases (occurs (codes branch) (codes output))) [
      | inl found ↦ rw found (inr (inl refl))
      | inr missed ↦ rw missed (
          later_found (find_branch output branches) branch branches
            (find_branch-IsFound output branches))
    ]

-- The branch that a route's output selects is one of the declared branches, and a route that declares
-- any branch selects one.
pub choose_route_branch_lem :
    (output : String) (branches : List String)
    → branches ≢ []
    → IsDeclared branches (choose_route_branch output branches)
unfolding choose_route_branch
choose_route_branch_lem output branches some_branch =
    or_first-IsDeclared branches (find_branch output branches) some_branch
      (find_branch-IsFound output branches)
