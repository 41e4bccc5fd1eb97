-- ===== src/Workflow/Compiler/Closed.antt =====
-- Which accepted definitions compile, and that their graphs have no loose ends.
use eaistack.Base.{
  String, Bool, false, not, List, [], ◌∷◌, string_eq, ◌≡◌, refl, arith, inl, inr, In, All, All-map,
  All-In, ap, sym, ◌∙◌, subst, Bool-cases, Option, true, if◌then◌else◌,
}
use eaistack.Base.Dict.{Dict}
use eaistack.Base.Int.{ℤ, pos, ◌≤ℤ◌, leb_ℤ}
use eaistack.Base.Result.{ok, ok-injective, raise_if, >>=-eq-ok, >>-ok_iff, raise_if-ok_iff}
use eaistack.Workflow.Schema.{
  StepDef, AgentStepDef, agent, review_loop, route, WorkflowDef, Fields, is_nil,
}
use eaistack.Workflow.Schema.Targets.{values}
use eaistack.Workflow.Schema.Suite.{validate_definition}
use eaistack.Workflow.Schema.Accepted.{WellFormed, validate_definition-ok_iff}
use eaistack.Workflow.Compiler.{
  Target, node, finish, Edge, LangGraph, Graph, cannot_build, entry_node, entry_nodes, build_tools,
  grown, add_node, next_target, branch_targets, tool_node_name, finalize_node, attach_default_edge,
  attach_tools, attach_agent_step, add_review_loop, attach_review_loop_step, attach_route_step,
  attach_step, attach_steps, empty_graph, compile_workflow,
}
use eaistack.Workflow.Compiler.Names.{
  step_nodes, all_nodes, AllTaken, onto, AllTaken-append, add_node_taken,
}
use eaistack.Workflow.Compiler.Sound.{IsBuildable, Leads}
use eaistack.Workflow.Compiler.Attached.{target_of-Leads, attach_steps-AllAttached}

-- The end, or a node of the graph.
abbrev pub IsPlaced : List String → Target → Type 0
IsPlaced nodes finish = Unit
IsPlaced nodes (node n) = In n nodes

-- The edge goes from a node of the graph to one or to the end.
abbrev pub IsTied : List String → Edge → Type 0
IsTied nodes e = In e.source nodes × IsPlaced nodes e.target

entries_placed :
    (nodes : List String) (steps : Dict String StepDef)
    → All (λ (entry : String × StepDef). In (entry_node entry.0 entry.1) nodes) steps
    → All (λ n. In n nodes) (values (entry_nodes steps))
unfolding entry_nodes
entries_placed nodes [] h = tt
entries_placed nodes ((name, step) ∷ steps) h = (h.0, entries_placed nodes steps h.1)

placed :
    (entries nodes : List String) (t : Target)
    → All (λ n. In n nodes) entries
    → Leads entries nodes t
    → IsPlaced nodes t
placed entries nodes finish h l = tt
placed entries nodes (node n) h (inl here) = here
placed entries nodes (node n) h (inr later) = All-In (λ m. In m nodes) entries n h later

some_round : (n : ℤ) → not (leb_ℤ (pos 1) n) ≡ false → pos 1 ≤ℤ n
some_round n h = ground arith

module _ (lib : LangGraph) where
  -- What an attached step shows: its builder and LangGraph took it.
  abbrev Built : String → StepDef → Graph → Graph → Type 0
  Built name step g after =
      IsBuildable step
      × AllTaken lib g.nodes (step_nodes name step)
      × (after.nodes ≡ onto (step_nodes name step) g.nodes)

  default_nodes :
      (entries : Dict String String) (name : String) (step : Option String) (g after : Graph)
      → attach_default_edge entries name step g ≡ ok after
      → after.nodes ≡ g.nodes
  unfolding attach_default_edge
  default_nodes entries name step g after h =
      let (t, found, made) = >>=-eq-ok (next_target entries step) _ h in
      sym (ap (λ (x : Graph). x.nodes) (ok-injective _ after made))

  tools_nodes :
      (entries : Dict String String) (name : String) (step : Option String) (g after : Graph)
      → attach_tools lib entries name step g ≡ ok after
      → (lib.takes g.nodes (tool_node_name name) ≡ true)
        × (after.nodes ≡ tool_node_name name ∷ g.nodes)
  unfolding attach_tools
  tools_nodes entries name step g after h =
      let (with_tools, more, rest) = >>=-eq-ok (add_node lib (tool_node_name name) g) _ h in
      let (taken, same) = add_node_taken lib (tool_node_name name) g with_tools more in
      let (t, found, made) = >>=-eq-ok (next_target entries step) _ rest in
      (
        taken,
        sym (ap (λ (x : Graph). x.nodes) (ok-injective _ after made))
            ∙ sym (ap (λ (x : Graph). x.nodes) same),
      )

  attach_agent_step-Built :
      (entries : Dict String String) (name : String) (step : AgentStepDef) (g after : Graph)
      → attach_agent_step lib entries name step g ≡ ok after
      → Built name (agent step) g after
  unfolding attach_agent_step
  attach_agent_step-Built entries name step g after h =
      let tools = (>>-ok_iff (build_tools step.tools) _ after).0 h in
      let (with_step, added, rest) = >>=-eq-ok (add_node lib name g) _ tools.1 in
      let (taken, same) = add_node_taken lib name g with_step added in
      let made =
        subst
          (λ (x : Graph).
            (if is_nil step.tools
              then attach_default_edge entries name step.next x
              else attach_tools lib entries name step.next x)
            ≡ ok after)
          (sym same) rest in
      elim (Bool-cases (is_nil step.tools)) [
        | inl bare ↦ (
          tt,
          rw bare (taken, tt),
          rw bare (default_nodes entries name step.next (grown name g) after (rw bare at made)),
        )
        | inr many ↦
            let (free, nodes) =
              tools_nodes entries name step.next (grown name g) after (rw many at made) in
            (tt, rw many (taken, (free, tt)), rw many nodes)
      ]

  add_review_loop-Built :
      (worker reviewer : String) (g after : Graph)
      → add_review_loop lib worker reviewer g ≡ ok after
      → AllTaken lib g.nodes (worker ∷ reviewer ∷ finalize_node worker ∷ [])
        × (after.nodes ≡ finalize_node worker ∷ reviewer ∷ worker ∷ g.nodes)
  unfolding add_review_loop
  add_review_loop-Built worker reviewer g after h =
      let (a, made_a, rest_a) = >>=-eq-ok (add_node lib worker g) _ h in
      let (taken_a, same_a) = add_node_taken lib worker g a made_a in
      let (b, made_b, rest_b) = >>=-eq-ok (add_node lib reviewer a) _ rest_a in
      let (taken_b, same_b) = add_node_taken lib reviewer a b made_b in
      let (c, made_c, rest_c) = >>=-eq-ok (add_node lib (finalize_node worker) b) _ rest_b in
      let (taken_c, same_c) = add_node_taken lib (finalize_node worker) b c made_c in
      let nodes_a = sym (ap (λ (x : Graph). x.nodes) same_a) in
      let nodes_b = sym (ap (λ (x : Graph). x.nodes) same_b) in
      let nodes_c = sym (ap (λ (x : Graph). x.nodes) same_c) in
      let last = sym (ap (λ (x : Graph). x.nodes) (ok-injective _ after rest_c)) in
      ((taken_a, (cc, (cc, tt))), cc)

  -- What is attached was buildable, and LangGraph took its names.
  attach_step-Built :
      (entries : Dict String String) (name : String) (step : StepDef) (g after : Graph)
      → attach_step lib entries name step g ≡ ok after
      → Built name step g after
  unfolding attach_step attach_review_loop_step attach_route_step
  attach_step-Built entries name (agent step) g after h =
      attach_agent_step-Built entries name step g after h
  attach_step-Built entries name (review_loop step) g after h =
      let tools = (>>-ok_iff (build_tools step.worker_tools) _ after).0 h in
      let refused = not (leb_ℤ (pos 1) step.max_iterations) in
      let rounds = (>>-ok_iff (raise_if refused (cannot_build name)) _ after).0 tools.1 in
      let (taken, nodes) =
        add_review_loop-Built step.worker_step step.reviewer_step g after rounds.1 in
      (some_round step.max_iterations ((raise_if-ok_iff _ _).0 rounds.0), taken, nodes)
  attach_step-Built entries name (route step) g after h =
      let (with_step, added, rest) = >>=-eq-ok (add_node lib name g) _ h in
      let (taken, same) = add_node_taken lib name g with_step added in
      let checked =
        (>>-ok_iff (raise_if (is_nil step.branches) (cannot_build name)) _ after).0 rest in
      let (targets, found, made) = >>=-eq-ok (branch_targets entries step.branches) _ checked.1 in
      (
        (raise_if-ok_iff _ _).0 checked.0,
        (taken, tt),
        sym (ap (λ (x : Graph). x.nodes) (ok-injective _ after made))
            ∙ sym (ap (λ (x : Graph). x.nodes) same),
      )

  attach_steps-Built :
      (entries : Dict String String) (steps : Dict String StepDef) (g after : Graph)
      → attach_steps lib entries steps g ≡ ok after
      → All (λ (entry : String × StepDef). IsBuildable entry.1) steps
        × AllTaken lib g.nodes (all_nodes steps)
  unfolding attach_steps
  attach_steps-Built entries [] g after h = (tt, tt)
  attach_steps-Built entries ((name, step) ∷ steps) g after h =
      let (middle, made, rest) =
        >>=-eq-ok (attach_step lib entries name step g) (attach_steps lib entries steps) h in
      let (buildable, taken, nodes) = attach_step-Built entries name step g middle made in
      let (all_buildable, all_taken) = attach_steps-Built entries steps middle after rest in
      (
        (buildable, all_buildable),
        (AllTaken-append lib g.nodes (step_nodes name step) (all_nodes steps)).1
            (taken, subst (λ present. AllTaken lib present (all_nodes steps)) nodes all_taken),
      )

abbrev pub Compiles : LangGraph → WorkflowDef → Type 0
Compiles lib d =
    (g : Graph) × (entry : Target) × (compile_workflow lib d ≡ ok (g, entry))
    × IsPlaced g.nodes entry
    × All (IsTied g.nodes) g.edges

-- Every step can be built, and LangGraph takes the name of every node in its turn.
abbrev pub CanBuild : LangGraph → WorkflowDef → Type 0
CanBuild lib d = All (λ entry. IsBuildable entry.1) d.steps × AllTaken lib [] (all_nodes d.steps)

WellFormed-Compiles :
    (lib : LangGraph) (d : WorkflowDef) → WellFormed d → CanBuild lib d → Compiles lib d
unfolding compile_workflow
WellFormed-Compiles lib d formed built =
    let (g, made, sound, grown, begins) =
      attach_steps-AllAttached lib d.steps d.steps empty_graph formed.steps_sound built.0 built.1
        tt in
    let entries = entries_placed g.nodes d.steps begins in
    let (t, e, leads) = target_of-Leads d.steps g.nodes d.entry formed.entry_defined in
    (
      g,
      t,
      rw (made, e) refl,
      placed (values (entry_nodes d.steps)) g.nodes t entries leads,
      All-map (λ x s. (s.0, placed (values (entry_nodes d.steps)) g.nodes x.target entries s.1))
          g.edges sound,
    )

-- A definition that the validation accepts compiles exactly if every review loop of it allows a round,
-- every route of it has a branch, and LangGraph takes the name of each node (those of the steps in order:
-- an agent and its tools, the worker, reviewer and last node of a loop, a route) for a graph with the nodes
-- before it. Its graph then begins at one of its nodes, and every edge goes from one of its nodes to one of
-- its nodes or to the end.
pub compile_workflow-ok_iff :
    (schema_error : Fields → Bool) (lib : LangGraph) (d : WorkflowDef)
    → validate_definition schema_error d ≡ ok tt
    → (CanBuild lib d → Compiles lib d)
      × ((compiled : Graph × Target) → compile_workflow lib d ≡ ok compiled → CanBuild lib d)
unfolding compile_workflow
compile_workflow-ok_iff schema_error lib d accepted = (
  WellFormed-Compiles lib d ((validate_definition-ok_iff schema_error d).0 accepted).0,
  λ compiled made.
      let (g, attached, rest) =
        >>=-eq-ok (attach_steps lib (entry_nodes d.steps) d.steps empty_graph) _ made in
      attach_steps-Built lib (entry_nodes d.steps) d.steps empty_graph g attached,
)
