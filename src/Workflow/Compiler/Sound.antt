-- ===== src/Workflow/Compiler/Sound.antt =====
-- Edges whose ends are nodes or first nodes of steps, and what each kind of step adds to them.
use eaistack.Base.{
  String, false, List, [], ◌∷◌, string_eq, ◌≡◌, ◌⊎◌, refl, inl, inr, In, All, All-map,
}
use eaistack.Base.Dict.{Dict}
use eaistack.Base.Int.{pos, ◌≤ℤ◌}
use eaistack.Workflow.Schema.{StepDef, agent, review_loop, route, is_nil}
use eaistack.Workflow.Compiler.{
  Target, node, finish, Edge, Graph, grown, add_edge, labelled, add_conditional_edges,
  tool_node_name, tool_edges, finalize_node, loop_edges,
}

-- A step that its builder does not refuse: a loop of at least one round, a route with a branch.
abbrev pub IsBuildable : StepDef → Type 0
IsBuildable (agent step) = Unit
IsBuildable (review_loop step) = pos 1 ≤ℤ step.max_iterations
IsBuildable (route step) = is_nil step.branches ≡ false

-- A target that is the end, a node, or the first node of a step.
abbrev pub Leads : List String → List String → Target → Type 0
Leads entries nodes finish = Unit
Leads entries nodes (node n) = In n nodes ⊎ In n entries

abbrev Sound : List String → List String → Edge → Type 0
Sound entries nodes e = In e.source nodes × Leads entries nodes e.target

Leads-more :
    (entries nodes : List String) (n : String) (t : Target)
    → Leads entries nodes t
    → Leads entries (n ∷ nodes) t
Leads-more entries nodes n finish h = tt
Leads-more entries nodes n (node m) (inl here) = inl (inr here)
Leads-more entries nodes n (node m) (inr later) = inr later

module _ (entries : List String) where
  abbrev pub IsSound : Graph → Type 0
  IsSound g = All (Sound entries g.nodes) g.edges

  grown-IsSound : (n : String) (g : Graph) → IsSound g → IsSound (grown n g)
  grown-IsSound n g h =
      All-map (λ e s. (inr s.0, Leads-more entries g.nodes n e.target s.1)) g.edges h

  labelled-IsSound :
      (nodes : List String) (source : String) (targets : Dict String Target) (edges : List Edge)
      → In source nodes
      → All (λ t. Leads entries nodes t.1) targets
      → All (Sound entries nodes) edges
      → All (Sound entries nodes) (labelled source targets edges)
  labelled-IsSound nodes source [] edges here ts h = h
  labelled-IsSound nodes source ((name, target) ∷ targets) edges here ts h =
      ((here, ts.0), labelled-IsSound nodes source targets edges here ts.1 h)

  -- What a step makes of a graph: its edges stay sound, no node is lost, and the step begins at a node.
  abbrev pub Extends : String → Graph → Graph → Type 0
  Extends first g after =
      IsSound after × ((n : String) → In n g.nodes → In n after.nodes) × In first after.nodes

  pub add_plain :
      (name : String) (next : Target) (g : Graph)
      → IsSound g
      → Leads entries g.nodes next
      → Extends name g (add_edge name next (grown name g))
  add_plain name next g h leads = (
    ((inl refl, Leads-more entries g.nodes name next leads), grown-IsSound name g h),
    (λ n m. inr m),
    inl refl,
  )

  pub add_tools :
      (name : String) (next : Target) (g : Graph)
      → IsSound g
      → Leads entries g.nodes next
      → Extends name g (tool_edges name next (grown (tool_node_name name) (grown name g)))
  add_tools name next g h leads =
      let tool = tool_node_name name in
      let made = grown tool (grown name g) in
      let sound = grown-IsSound tool (grown name g) (grown-IsSound name g h) in
      let next_leads =
        Leads-more entries (name ∷ g.nodes) tool next
          (Leads-more entries g.nodes name next leads) in
      (
        (
          (inl refl, inl (inr (inl refl))),
          labelled-IsSound made.nodes name (("__tool__", node tool) ∷ ("__end__", next) ∷ [])
              made.edges (inr (inl refl)) (inl (inl refl), (next_leads, tt)) sound,
        ),
        (λ n m. inr (inr m)),
        inr (inl refl),
      )

  pub add_loop :
      (worker reviewer : String) (g : Graph)
      → IsSound g
      → Extends worker g (
          loop_edges worker reviewer
            (grown (finalize_node worker) (grown reviewer (grown worker g))))
  add_loop worker reviewer g h =
      let end = finalize_node worker in
      let made = grown end (grown reviewer (grown worker g)) in
      let sound =
        grown-IsSound end (grown reviewer (grown worker g))
          (grown-IsSound reviewer (grown worker g) (grown-IsSound worker g h)) in
      (
        (
          (inl refl, tt),
          labelled-IsSound made.nodes reviewer
              ((worker, node worker) ∷ ("__finalize__", node end) ∷ [])
              (add_edge worker (node reviewer) made).edges (inr (inl refl))
              (inl (inr (inr (inl refl))), (inl (inl refl), tt))
              ((inr (inr (inl refl)), inl (inr (inl refl))), sound),
        ),
        (λ n m. inr (inr (inr m))),
        inr (inr (inl refl)),
      )

  pub add_route :
      (name : String) (targets : Dict String Target) (g : Graph)
      → IsSound g
      → All (λ t. Leads entries g.nodes t.1) targets
      → Extends name g (add_conditional_edges name targets (grown name g))
  add_route name targets g h leads = (
    labelled-IsSound (name ∷ g.nodes) name targets g.edges (inl refl)
        (All-map (λ t. Leads-more entries g.nodes name t.1) targets leads) (grown-IsSound name g h),
    (λ n m. inr m),
    inl refl,
  )
