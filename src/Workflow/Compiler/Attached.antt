-- ===== src/Workflow/Compiler/Attached.antt =====
-- A sound and buildable step is attached to the graph.
use eaistack.Base.{
  String, true, Option, none, some, List, [], ◌∷◌, ◌==◌, string_eq, ◌≡◌, refl, arith, Bool-cases,
  inl, inr, In, All, contains-of-In, subst, sym,
}
use eaistack.Base.Dict
use eaistack.Base.Dict.{Dict}
use eaistack.Base.Int.{ℤ, pos, ◌≤ℤ◌, leb_ℤ}
use eaistack.Base.Result.{ok}
use eaistack.Workflow.Schema.{StepDef, agent, review_loop, route, is_nil}
use eaistack.Workflow.Schema.Targets.{keys, values, next_targets, step_targets}
use eaistack.Workflow.Schema.Validate.{tool_registry, is_registered_tool}
use eaistack.Workflow.Schema.Accepted.{IsSoundStep}
use eaistack.Workflow.Compiler.{
  Target, node, finish, LangGraph, Graph, grown, add_edge, add_conditional_edges, entry_node,
  entry_nodes, target_of, next_target, build_tools, tool_node_name, tool_edges, attach_default_edge,
  attach_tools, attach_agent_step, finalize_node, loop_edges, add_review_loop,
  attach_review_loop_step, branch_targets, attach_route_step, attach_step, attach_steps,
}
use eaistack.Workflow.Compiler.Names.{
  step_nodes, all_nodes, AllTaken, onto, AllTaken-append, add_node-ok,
}
use eaistack.Workflow.Compiler.Sound.{
  IsBuildable, Leads, IsSound, Extends, add_plain, add_tools, add_loop, add_route,
}

-- Lookups in the map of the entry nodes.
lookup-entry_nodes :
    (name : String) (steps : Dict String StepDef)
    → In name (keys steps)
    → (n : String) × (Dict.lookup name (entry_nodes steps) ≡ some n)
      × In n (values (entry_nodes steps))
unfolding Dict.lookup entry_nodes
lookup-entry_nodes name [] m = absurd m
lookup-entry_nodes name ((k, step) ∷ steps) m = elim (Bool-cases (k == name)) [
  | inl same ↦ (entry_node k step, rw same refl, inl refl)
  | inr other ↦ elim m [
    | inl same ↦ absurd (cc ((string_eq.beq_iff k name).1 same, other))
    | inr later ↦ let (n, e, i) = lookup-entry_nodes name steps later in (n, rw other e, inr i)
  ]
]

pub target_of-Leads :
    (steps : Dict String StepDef) (nodes : List String) (name : String)
    → In name (keys steps)
    → (t : Target) × (target_of (entry_nodes steps) name ≡ ok t)
      × Leads (values (entry_nodes steps)) nodes t
unfolding target_of
target_of-Leads steps nodes name m =
    let (n, e, i) = lookup-entry_nodes name steps m in (node n, rw e refl, inr i)

next_target-Leads :
    (steps : Dict String StepDef) (nodes : List String) (next : Option String)
    → All (λ target. In target (keys steps)) (next_targets next)
    → (t : Target) × (next_target (entry_nodes steps) next ≡ ok t)
      × Leads (values (entry_nodes steps)) nodes t
unfolding next_target next_targets
next_target-Leads steps nodes none h = (finish, refl, tt)
next_target-Leads steps nodes (some name) h = elim (Bool-cases (name == "")) [
  | inl blank ↦ (finish, rw blank refl, tt)
  | inr named ↦
      let (t, e, l) = target_of-Leads steps nodes name (rw named at h).0 in (t, rw named e, l)
]

branch_targets-Leads :
    (steps : Dict String StepDef) (nodes : List String) (branches : Dict String String)
    → All (λ target. In target (keys steps)) (values branches)
    → (ts : Dict String Target) × (branch_targets (entry_nodes steps) branches ≡ ok ts)
      × All (λ t. Leads (values (entry_nodes steps)) nodes t.1) ts
unfolding branch_targets
branch_targets-Leads steps nodes [] h = ([], refl, tt)
branch_targets-Leads steps nodes ((name, step) ∷ branches) h =
    let (t, e, l) = target_of-Leads steps nodes step h.0 in
    let (ts, es, ls) = branch_targets-Leads steps nodes branches h.1 in
    ((name, t) ∷ ts, rw (e, es) refl, (l, ls))

build_tools-ok :
    (tools : List String) → All (λ tool. In tool tool_registry) tools → build_tools tools ≡ ok tt
unfolding build_tools is_registered_tool
build_tools-ok [] h = refl
build_tools-ok (tool ∷ tools) h =
    rw (contains-of-In tool_registry tool h.0, build_tools-ok tools h.1) refl

at_least_one : (n : ℤ) → pos 1 ≤ℤ n → leb_ℤ (pos 1) n ≡ true
at_least_one n h = ground arith

module _ (lib : LangGraph) (steps : Dict String StepDef) where
  abbrev all_entries : List String
  all_entries = values (entry_nodes steps)

  abbrev Attached : String → StepDef → Graph → Type 0
  Attached name step g =
      (after : Graph) × (attach_step lib (entry_nodes steps) name step g ≡ ok after)
      × Extends all_entries (entry_node name step) g after
      × (after.nodes ≡ onto (step_nodes name step) g.nodes)

  -- A sound step that its builder takes is attached, where LangGraph takes the names of its nodes.
  attach_step-Attached :
      (name : String) (step : StepDef) (g : Graph)
      → IsSoundStep (keys steps) step
      → IsBuildable step
      → AllTaken lib g.nodes (step_nodes name step)
      → IsSound all_entries g
      → Attached name step g
  unfolding attach_step attach_agent_step attach_default_edge attach_tools attach_review_loop_step
      add_review_loop attach_route_step step_targets
  attach_step-Attached name (agent step) g sound built taken h =
      let (t, e, l) = next_target-Leads steps g.nodes step.next sound.1 in
      elim (Bool-cases (is_nil step.tools)) [
        | inl bare ↦ (
          add_edge name t (grown name g),
          rw
              (
                build_tools-ok step.tools sound.0,
                add_node-ok lib name g (rw bare at taken).0,
                e,
                bare,
              )
              refl,
          add_plain all_entries name t g h l,
          rw bare refl,
        )
        | inr tools ↦
            let named = rw tools at taken in
            (
              tool_edges name t (grown (tool_node_name name) (grown name g)),
              rw
                  (
                    build_tools-ok step.tools sound.0,
                    add_node-ok lib name g named.0,
                    tools,
                    add_node-ok lib (tool_node_name name) (grown name g) named.1.0,
                    e,
                  )
                  refl,
              add_tools all_entries name t g h l,
              rw tools refl,
            )
      ]
  attach_step-Attached name (review_loop step) g sound built taken h =
      let worker = step.worker_step in
      let reviewer = step.reviewer_step in
      let end = finalize_node step.worker_step in
      (
        loop_edges worker reviewer (grown end (grown reviewer (grown worker g))),
        rw
            (
              build_tools-ok step.worker_tools sound.0.1,
              at_least_one step.max_iterations built,
              add_node-ok lib worker g taken.0,
              add_node-ok lib reviewer (grown worker g) taken.1.0,
              add_node-ok lib end (grown reviewer (grown worker g)) taken.1.1.0,
            )
            refl,
        add_loop all_entries worker reviewer g h,
        refl,
      )
  attach_step-Attached name (route step) g sound built taken h =
      let (ts, e, ls) = branch_targets-Leads steps g.nodes step.branches sound.1 in
      (
        add_conditional_edges name ts (grown name g),
        rw (add_node-ok lib name g taken.0, built, e) refl,
        add_route all_entries name ts g h ls,
        refl,
      )

  abbrev Begins : List String → String × StepDef → Type 0
  Begins nodes entry = In (entry_node entry.0 entry.1) nodes

  abbrev AllAttached : Dict String StepDef → Graph → Type 0
  AllAttached rest g =
      (after : Graph) × (attach_steps lib (entry_nodes steps) rest g ≡ ok after)
      × IsSound all_entries after
      × ((n : String) → In n g.nodes → In n after.nodes)
      × All (Begins after.nodes) rest

  pub attach_steps-AllAttached :
      (rest : Dict String StepDef) (g : Graph)
      → All (λ entry. IsSoundStep (keys steps) entry.1) rest
      → All (λ entry. IsBuildable entry.1) rest
      → AllTaken lib g.nodes (all_nodes rest)
      → IsSound all_entries g
      → AllAttached rest g
  unfolding attach_steps
  attach_steps-AllAttached [] g sound built taken h = (g, refl, h, (λ n m. m), tt)
  attach_steps-AllAttached ((name, step) ∷ rest) g sound built taken h =
      let (first, later) =
        (AllTaken-append lib g.nodes (step_nodes name step) (all_nodes rest)).0 taken in
      let (middle, made, (ok_middle, grown, begins), nodes) =
        attach_step-Attached name step g sound.0 built.0 first h in
      let (after, e, ok_after, kept, all) =
        attach_steps-AllAttached rest middle sound.1 built.1
          (subst (λ present. AllTaken lib present (all_nodes rest)) (sym nodes) later) ok_middle in
      (
        after,
        rw (made, e) refl,
        ok_after,
        (λ n m. kept n (grown n m)),
        (kept (entry_node name step) begins, all),
      )
