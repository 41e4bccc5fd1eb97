-- ===== src/Workflow/Compiler/Names.antt =====
-- The names that the steps of a definition give LangGraph, in the order in which they are added.
use eaistack.Base.{
  String, true, List, [], ◌∷◌, ◌++◌, if◌then◌else◌, ◌≡◌, ◌↔◌, refl, Bool-cases, inl, inr,
}
use eaistack.Base.Dict.{Dict}
use eaistack.Base.Result.{ok, ok-injective}
use eaistack.Workflow.Schema.{StepDef, agent, review_loop, route, is_nil}
use eaistack.Workflow.Compiler.{LangGraph, Graph, grown, add_node, tool_node_name, finalize_node}

abbrev pub step_nodes : String → StepDef → List String
step_nodes name (agent step) =
    if is_nil step.tools then name ∷ [] else name ∷ tool_node_name name ∷ []
step_nodes name (review_loop step) =
    step.worker_step ∷ step.reviewer_step ∷ finalize_node step.worker_step ∷ []
step_nodes name (route step) = name ∷ []

abbrev pub all_nodes : Dict String StepDef → List String
all_nodes [] = []
all_nodes ((name, step) ∷ steps) = step_nodes name step ++ all_nodes steps

-- LangGraph takes each of some names, for a graph with these nodes and the names before it.
abbrev pub AllTaken : LangGraph → List String → List String → Type 0
AllTaken lib present [] = Unit
AllTaken lib present (name ∷ names) =
    (lib.takes present name ≡ true) × AllTaken lib (name ∷ present) names

abbrev pub onto : List String → List String → List String
onto [] present = present
onto (name ∷ names) present = onto names (name ∷ present)

pub AllTaken-append :
    (lib : LangGraph) (present names more : List String)
    → AllTaken lib present (names ++ more)
      ↔ (AllTaken lib present names × AllTaken lib (onto names present) more)
AllTaken-append lib present [] more = (λ h. (tt, h), λ h. h.1)
AllTaken-append lib present (name ∷ names) more =
    let (to, from) = AllTaken-append lib (name ∷ present) names more in
    (λ h. ((h.0, (to h.1).0), (to h.1).1), λ h. (h.0.0, from (h.0.1, h.1)))

module _ (lib : LangGraph) (name : String) (g : Graph) where
  pub add_node-ok : lib.takes g.nodes name ≡ true → add_node lib name g ≡ ok (grown name g)
  unfolding add_node
  add_node-ok h = rw h refl

  pub add_node_taken :
      (after : Graph)
      → add_node lib name g ≡ ok after
      → (lib.takes g.nodes name ≡ true) × (grown name g ≡ after)
  unfolding add_node
  add_node_taken after h = elim (Bool-cases (lib.takes g.nodes name)) [
    | inl taken ↦ (taken, ok-injective (grown name g) after (rw (add_node, taken) at h))
    | inr refused ↦ cc (rw (add_node, refused) at h)
  ]
