-- ===== src/Workflow/Primitives/Turn.antt =====
-- What the messages of a thread say of the turn just answered: its sources and the tools that it called
-- (backend/app/workflows/primitives.py). A frozenset is a list that is read by membership.
use eaistack.Base.{ℕ, suc, String, List, [], ◌∷◌, ◌++◌, if◌then◌else◌, string_eq, contains, drop}
use eaistack.Workflow.Primitives.Review.{Message, human, ai, tool, Source}

-- `last_human_index + 1` once the messages from `index` on are read.
unfoldable pub turn_start : ℕ → ℕ → List Message → ℕ
turn_start index start [] = start
turn_start index start (human text ∷ messages) = turn_start (suc index) (suc index) messages
turn_start index start (ai text calls ∷ messages) = turn_start (suc index) start messages
turn_start index start (tool text artifact ∷ messages) = turn_start (suc index) start messages

unfoldable pub current_turn_messages : List Message → List Message
current_turn_messages messages = drop (turn_start 0 0 messages) messages

pub record Collected : Type 0 where
  pub sources : List Source
  pub seen_ids : List String

unfoldable pub collect_source : Source → Collected → Collected
collect_source source c = if contains c.seen_ids source.knowledge_base_id then c else record {
  sources = c.sources ++ source ∷ [];
  seen_ids = source.knowledge_base_id ∷ c.seen_ids;
}

unfoldable pub collect_artifact : List Source → Collected → Collected
collect_artifact [] c = c
collect_artifact (source ∷ artifact) c = collect_artifact artifact (collect_source source c)

unfoldable pub collect : List Message → Collected → Collected
collect [] c = c
collect (human text ∷ messages) c = collect messages c
collect (ai text calls ∷ messages) c = collect messages c
collect (tool text artifact ∷ messages) c = collect messages (collect_artifact artifact c)

abbrev pub collected_none : Collected
collected_none = record { sources = []; seen_ids = [] }

unfoldable pub extract_sources_from_messages : List Message → List Source
extract_sources_from_messages messages =
    (collect (current_turn_messages messages) collected_none).sources

unfoldable pub called : List Message → List String
called [] = []
called (human text ∷ messages) = called messages
called (ai text calls ∷ messages) = calls ++ called messages
called (tool text artifact ∷ messages) = called messages

unfoldable pub tools_called_in_current_turn : List Message → List String
tools_called_in_current_turn messages = called (current_turn_messages messages)
