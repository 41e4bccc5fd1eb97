-- ===== src/Workflow/Compiler.antt =====
-- backend/app/workflows/compiler.py, with the nodes and edges of `build_review_loop`
-- (backend/app/workflows/primitives.py): the nodes and edges that a definition gives its graph. The
-- nodes' functions are those of Primitives. Of LangGraph, which names its `add_node` takes is a parameter;
-- what its `compile` makes of the finished graph is not modelled.
pub mod Sound
pub mod Names
pub mod Attached
pub mod Closed
use Prim.Native.String.{◌++◌ as ◌<>◌}
use eaistack.Base.{
  ℕ, String, Bool, not, Option, none, some, List, [], ◌∷◌, ◌++◌, ◌==◌, string_eq, if◌then◌else◌,
}
use eaistack.Base.Dict
use eaistack.Base.Dict.{Dict}
use eaistack.Base.Int.{pos, leb_ℤ}
use eaistack.Base.Result.{Result, ok, err, raise_if, ◌>>=◌, ◌>>◌}
use eaistack.Workflow.Schema.{
  StepDef, agent, review_loop, route, AgentStepDef, ReviewLoopStepDef, RouteStepDef, WorkflowDef,
  is_nil,
}
use eaistack.Workflow.Schema.Validate.{is_registered_tool}

pub data Target : Type 0 where
  node : String → Target
  -- `END`
  finish : Target

-- An edge; that of a condition has a label.
pub record Edge : Type 0 where
  pub source : String
  pub label : Option String
  pub target : Target

-- What the compiler calls outside the program.
pub record LangGraph : Type 0 where
  -- Whether `StateGraph.add_node` takes a name for a graph with these nodes. It raises ValueError for one of
  -- them, for a reserved name and for a field of the state.
  pub takes : List String → String → Bool

-- The calls on the graph so far, newest first.
pub record Graph : Type 0 where
  pub nodes : List String
  pub edges : List Edge

pub data CompileError : Type 0 where
  -- A missing entry of `entry_nodes`, a failed assertion, and a ValueError of a step that cannot be built.
  -- The last is that of a name that LangGraph does not take.
  key_error not_registered cannot_build not_taken : String → CompileError

abbrev pub grown : String → Graph → Graph
grown name g = record { nodes = name ∷ g.nodes; edges = g.edges }

unfoldable pub add_node : LangGraph → String → Graph → Result CompileError Graph
add_node lib name g = if lib.takes g.nodes name then ok (grown name g) else err (not_taken name)

abbrev pub add_edge : String → Target → Graph → Graph
add_edge source target g = record {
  nodes = g.nodes;
  edges = record { source = source; label = none; target = target } ∷ g.edges;
}

abbrev pub labelled : String → Dict String Target → List Edge → List Edge
labelled source [] edges = edges
labelled source ((name, target) ∷ targets) edges =
    record { source = source; label = some name; target = target } ∷ labelled source targets edges

abbrev pub add_conditional_edges : String → Dict String Target → Graph → Graph
add_conditional_edges source targets g = record {
  nodes = g.nodes;
  edges = labelled source targets g.edges;
}

-- The node that a step begins with.
abbrev pub entry_node : String → StepDef → String
entry_node name (agent step) = name
entry_node name (review_loop step) = step.worker_step
entry_node name (route step) = name

unfoldable pub entry_nodes : Dict String StepDef → Dict String String
entry_nodes [] = []
entry_nodes ((name, step) ∷ steps) = (name, entry_node name step) ∷ entry_nodes steps

abbrev pub found_or_raise : String → Option String → Result CompileError Target
found_or_raise name none = err (key_error name)
found_or_raise name (some n) = ok (node n)

-- `entry_nodes[name]`
unfoldable pub target_of : Dict String String → String → Result CompileError Target
target_of entries name = found_or_raise name (Dict.lookup name entries)

-- The first node of the step that follows, or the end where none does.
unfoldable pub next_target : Dict String String → Option String → Result CompileError Target
next_target entries none = ok finish
next_target entries (some name) = if name == "" then ok finish else target_of entries name

-- `_build_tool` for each of some tools.
unfoldable pub build_tools : List String → Result CompileError (Unit {0})
build_tools [] = ok tt
build_tools (name ∷ tools) = do
  raise_if (not (is_registered_tool name)) (not_registered name)
  build_tools tools

abbrev pub tool_node_name : String → String
tool_node_name name = name <> "__tools"

abbrev pub tool_edges : String → Target → Graph → Graph
tool_edges name next g = add_edge (tool_node_name name) (node name) (
    add_conditional_edges name (("__tool__", node (tool_node_name name)) ∷ ("__end__", next) ∷ [])
      g)

-- A step without tools once its node is added.
unfoldable pub attach_default_edge :
    Dict String String → String → Option String → Graph → Result CompileError Graph
attach_default_edge entries name step g = do
  next ← next_target entries step
  ok (add_edge name next g)

-- A step with tools once its node is added.
unfoldable pub attach_tools :
    LangGraph → Dict String String → String → Option String → Graph → Result CompileError Graph
attach_tools lib entries name step g = do
  with_tools ← add_node lib (tool_node_name name) g
  next ← next_target entries step
  ok (tool_edges name next with_tools)

unfoldable pub attach_agent_step :
    LangGraph → Dict String String → String → AgentStepDef → Graph → Result CompileError Graph
attach_agent_step lib entries name step g = do
  build_tools step.tools
  with_step ← add_node lib name g
  (if is_nil step.tools
      then attach_default_edge entries name step.next with_step
      else attach_tools lib entries name step.next with_step)

abbrev pub finalize_node : String → String
finalize_node worker_step = "__" <> worker_step <> "_finalize__"

abbrev pub loop_edges : String → String → Graph → Graph
loop_edges worker reviewer g = add_edge (finalize_node worker) finish (
    add_conditional_edges reviewer
      ((worker, node worker) ∷ ("__finalize__", node (finalize_node worker)) ∷ [])
      (add_edge worker (node reviewer) g))

unfoldable pub add_review_loop : LangGraph → String → String → Graph → Result CompileError Graph
add_review_loop lib worker reviewer g = do
  with_worker ← add_node lib worker g
  with_reviewer ← add_node lib reviewer with_worker
  with_end ← add_node lib (finalize_node worker) with_reviewer
  ok (loop_edges worker reviewer with_end)

unfoldable pub attach_review_loop_step :
    LangGraph → String → ReviewLoopStepDef → Graph → Result CompileError Graph
attach_review_loop_step lib name step g = do
  build_tools step.worker_tools
  raise_if (not (leb_ℤ (pos 1) step.max_iterations)) (cannot_build name)
  add_review_loop lib step.worker_step step.reviewer_step g

unfoldable pub branch_targets :
    Dict String String → Dict String String → Result CompileError (Dict String Target)
branch_targets entries [] = ok []
branch_targets entries ((name, step) ∷ branches) = do
  target ← target_of entries step
  rest ← branch_targets entries branches
  ok ((name, target) ∷ rest)

unfoldable pub attach_route_step :
    LangGraph → Dict String String → String → RouteStepDef → Graph → Result CompileError Graph
attach_route_step lib entries name step g = do
  with_step ← add_node lib name g
  raise_if (is_nil step.branches) (cannot_build name)
  targets ← branch_targets entries step.branches
  ok (add_conditional_edges name targets with_step)

unfoldable pub attach_step :
    LangGraph → Dict String String → String → StepDef → Graph → Result CompileError Graph
attach_step lib entries name (agent step) g = attach_agent_step lib entries name step g
attach_step lib entries name (review_loop step) g = attach_review_loop_step lib name step g
attach_step lib entries name (route step) g = attach_route_step lib entries name step g

unfoldable pub attach_steps :
    LangGraph → Dict String String → Dict String StepDef → Graph → Result CompileError Graph
attach_steps lib entries [] g = ok g
attach_steps lib entries ((name, step) ∷ steps) g =
    attach_step lib entries name step g >>= attach_steps lib entries steps

abbrev pub empty_graph : Graph
empty_graph = record { nodes = []; edges = [] }

-- The graph and its entry point.
unfoldable pub compile_workflow : LangGraph → WorkflowDef → Result CompileError (Graph × Target)
compile_workflow lib d = do
  g ← attach_steps lib (entry_nodes d.steps) d.steps empty_graph
  entry ← target_of (entry_nodes d.steps) d.entry
  ok (g, entry)
