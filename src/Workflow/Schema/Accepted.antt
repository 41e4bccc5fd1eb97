-- ===== src/Workflow/Schema/Accepted.antt =====
-- What it means that `_validate_definition` accepts a definition.
use eaistack.Base.{
  ◌≡◌, refl, ◌↔◌, String, Bool, false, not, some, List, [], ◌∷◌, All, All-map, All-In, All-of-In,
  In, contains, In-of-contains, contains-of-In, select-nil_iff, string_eq, inl, inr, Bool-cases,
  arith, ◌==◌,
}
use eaistack.Base.Dict
use eaistack.Base.Dict.{Dict}
use eaistack.Base.Int.{ℤ, pos, ◌≤ℤ◌, leb_ℤ}
use eaistack.Base.Result.{ok, raise_if, both-ok_iff, guard-ok_iff, raise_if-ok_iff}
use eaistack.Workflow.Schema.{StepDef, agent, review_loop, route, WorkflowDef, Fields}
use eaistack.Workflow.Schema.Errors.{ValidationError, undefined_entry}
use eaistack.Workflow.Schema.Targets.{keys, step_targets}
use eaistack.Workflow.Schema.Reachable.{Reach, reachable_steps_correct}
use eaistack.Workflow.Schema.Fuel.{reachable_steps_total}
use eaistack.Workflow.Schema.Validate.{
  tool_registry, is_registered_tool, review_loop_max_iterations_ceiling, reject_first, check_tools,
  check_step_body, check_step, check_steps, check_reachable, check_all_reachable,
}
use eaistack.Workflow.Schema.Suite.{validate_definition, validate_eval_cases}

abbrev AreRegistered : List String → Type 0
AreRegistered tools = All (λ tool. In tool tool_registry) tools

-- A step uses registered tools, keeps to the ceiling and leads to defined steps.
abbrev pub IsSoundBody : StepDef → Type 0
IsSoundBody (agent step) = AreRegistered step.tools
IsSoundBody (review_loop step) =
    (step.max_iterations ≤ℤ pos review_loop_max_iterations_ceiling)
    × AreRegistered step.worker_tools
IsSoundBody (route step) = Unit

abbrev pub IsSoundStep : List String → StepDef → Type 0
IsSoundStep names step = IsSoundBody step × All (λ target. In target names) (step_targets step)

pub record WellFormed (d : WorkflowDef) : Type 0 where
  pub entry_defined : In d.entry (keys d.steps)
  pub steps_sound : All (λ entry. IsSoundStep (keys d.steps) entry.1) d.steps
  pub all_reachable : All (Reach d.entry d.steps) (keys d.steps)

not-contains_iff : (xs : List String) (a : String) → (not (contains xs a) ≡ false) ↔ In a xs
not-contains_iff xs a =
    (λ h. In-of-contains xs a (ground arith), λ h. rw (contains-of-In xs a h) refl)

reject_first-ok_iff :
    (bad : String → Bool) (error : String → ValidationError) (xs : List String)
    → (reject_first bad error xs ≡ ok tt) ↔ All (λ x. bad x ≡ false) xs
unfolding reject_first
reject_first-ok_iff bad error [] = (λ h. tt, λ h. refl)
reject_first-ok_iff bad error (x ∷ xs) =
    both-ok_iff (raise_if (bad x) (error x)) (reject_first bad error xs)
      (raise_if-ok_iff (bad x) (error x)) (reject_first-ok_iff bad error xs)

-- The checks of membership that the validation makes over a list of names.
members-ok_iff :
    (names : List String) (error : String → ValidationError) (xs : List String)
    → (reject_first (λ x. not (contains names x)) error xs ≡ ok tt) ↔ All (λ x. In x names) xs
members-ok_iff names error xs =
    let each = reject_first-ok_iff (λ x. not (contains names x)) error xs in
    (
      λ h. All-map (λ x. (not-contains_iff names x).0) xs (each.0 h),
      λ h. each.1 (All-map (λ x. (not-contains_iff names x).1) xs h),
    )

ceiling-ok_iff :
    (n : ℤ)
    → (not (leb_ℤ n (pos review_loop_max_iterations_ceiling)) ≡ false)
      ↔ (n ≤ℤ pos review_loop_max_iterations_ceiling)
ceiling-ok_iff n = ground arith

check_step_body-ok_iff :
    (name : String) (step : StepDef) → (check_step_body name step ≡ ok tt) ↔ IsSoundBody step
unfolding check_step_body check_tools is_registered_tool
check_step_body-ok_iff name (agent step) = members-ok_iff tool_registry _ step.tools
check_step_body-ok_iff name (review_loop step) =
    let over = not (leb_ℤ step.max_iterations (pos review_loop_max_iterations_ceiling)) in
    both-ok_iff (raise_if over _)
      (reject_first (λ tool. not (contains tool_registry tool)) _ step.worker_tools)
      (guard-ok_iff over _ (ceiling-ok_iff step.max_iterations))
      (members-ok_iff tool_registry _ step.worker_tools)
check_step_body-ok_iff name (route step) = (λ h. tt, λ h. refl)

check_steps-ok_iff :
    (names : List String) (steps : Dict String StepDef)
    → (check_steps names steps ≡ ok tt) ↔ All (λ entry. IsSoundStep names entry.1) steps
unfolding check_steps check_step
check_steps-ok_iff names [] = (λ h. tt, λ h. refl)
check_steps-ok_iff names ((name, step) ∷ steps) =
    both-ok_iff (check_step names name step) (check_steps names steps)
      (both-ok_iff (check_step_body name step) _ (check_step_body-ok_iff name step)
        (members-ok_iff names _ (step_targets step)))
      (check_steps-ok_iff names steps)

lookup-of-In :
    (k : String) (steps : Dict String StepDef)
    → In k (keys steps)
    → (step : StepDef) × (Dict.lookup k steps ≡ some step)
unfolding Dict.lookup
lookup-of-In k [] m = absurd m
lookup-of-In k ((j, s) ∷ steps) m = elim (Bool-cases (j == k)) [
  | inl same ↦ (s, rw same)
  | inr other ↦ elim m [
    | inl head ↦ cc ((string_eq.beq_iff j k).1 head)
    | inr later ↦
        let (step, found) = lookup-of-In k steps later in (step, rw (other, Dict.lookup) found)
  ]
]

check_reachable-ok_iff :
    (names reachable : List String)
    → (check_reachable names reachable ≡ ok tt) ↔ All (λ name. In name reachable) names
unfolding check_reachable
check_reachable-ok_iff names reachable =
    let none_left = select-nil_iff (λ name. not (contains reachable name)) names in
    (
      λ h. All-map (λ x. (not-contains_iff reachable x).0) names (none_left.0 (ground arith)),
      λ h.
          rw
            (none_left.1 (All-map (λ x. (not-contains_iff reachable x).1) names h), check_reachable)
            refl,
    )

check_all_reachable-ok_iff :
    (d : WorkflowDef) → (check_all_reachable d ≡ ok tt) ↔ All (Reach d.entry d.steps) (keys d.steps)
unfolding check_all_reachable
check_all_reachable-ok_iff d =
    let (reachable, found) = reachable_steps_total d in
    let (sound, complete) = reachable_steps_correct d reachable found in
    let left_over = check_reachable-ok_iff (keys d.steps) reachable in
    rw (found, check_all_reachable)
      (
        λ h. All-map sound (keys d.steps) (left_over.0 h),
        λ h. left_over.1 (
            All-of-In (keys d.steps) λ name m.
              let (step, here) = lookup-of-In name d.steps m in
              complete name step (All-In (Reach d.entry d.steps) (keys d.steps) name h m) here),
      )

-- The validation accepts a definition exactly if its entry is defined, every step uses registered
-- tools, keeps to the ceiling on review rounds and leads to defined steps only, every step is
-- reached from the entry by a path of edges, and the suite of test cases is accepted.
pub validate_definition-ok_iff :
    (schema_error : Fields → Bool) (d : WorkflowDef)
    → (validate_definition schema_error d ≡ ok tt)
      ↔ (WellFormed d × (validate_eval_cases schema_error d ≡ ok tt))
unfolding validate_definition
validate_definition-ok_iff schema_error d =
    let names = keys d.steps in
    let undefined = not (contains names d.entry) in
    let graph =
      both-ok_iff (check_all_reachable d) (validate_eval_cases schema_error d)
        (check_all_reachable-ok_iff d) (λ h. h, λ h. h) in
    let steps =
      both-ok_iff (check_steps names d.steps) _ (check_steps-ok_iff names d.steps) graph in
    let all =
      both-ok_iff (raise_if undefined (undefined_entry d.entry)) _
        (guard-ok_iff undefined _ (not-contains_iff names d.entry)) steps in
    (
      λ h.
          let parts = all.0 h in
          (
            record {
              entry_defined = parts.0;
              steps_sound = parts.1.0;
              all_reachable = parts.1.1.0;
            },
            parts.1.1.1,
          ),
      λ h. all.1 (h.0.entry_defined, (h.0.steps_sound, (h.0.all_reachable, h.1))),
    )
