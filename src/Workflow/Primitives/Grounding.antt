-- ===== src/Workflow/Primitives/Grounding.antt =====
-- What the sources of a turn are: its own, each once.
use eaistack.Base.{
  Eq, ◌||◌, All, ◌∙◌, ℕ, suc, ◌+◌, String, false, List, [], ◌∷◌, ◌++◌, string_eq, contains, drop,
  length, map, IsKey, ◌≡◌, inl, inr, refl, subst, sym, ap, arith, Bool-cases,
}
use eaistack.Workflow.Primitives.Review.{Message, human, ai, tool, Source}
use eaistack.Workflow.Primitives.Turn.{
  turn_start, current_turn_messages, Collected, collect_source, collect_artifact, collect,
  collected_none, tools_called_in_current_turn, called, extract_sources_from_messages,
}

abbrev pub IsAnswer : Message → Type 0
IsAnswer (human text) = ⊥
IsAnswer _ = Unit

-- The ids of the sources of all tool messages.
abbrev pub source_ids : List Message → List String
source_ids [] = []
source_ids (human text ∷ messages) = source_ids messages
source_ids (ai text calls ∷ messages) = source_ids messages
source_ids (tool text artifact ∷ messages) =
    map Source.knowledge_base_id artifact ++ source_ids messages

turn_start-answers :
    (index start : ℕ) (turn : List Message)
    → All IsAnswer turn
    → turn_start index start turn ≡ start
unfolding turn_start
turn_start-answers index start [] h = refl
turn_start-answers index start (human text ∷ turn) h = absurd h.0
turn_start-answers index start (ai text calls ∷ turn) h =
    turn_start-answers (suc index) start turn h.1
turn_start-answers index start (tool text artifact ∷ turn) h =
    turn_start-answers (suc index) start turn h.1

turn_start-append :
    (index start : ℕ) (earlier : List Message) (question : String) (turn : List Message)
    → All IsAnswer turn
    → turn_start index start (earlier ++ human question ∷ turn) ≡ suc (index + length earlier)
unfolding turn_start
turn_start-append index start [] question turn h =
    omega (arith, turn_start-answers (suc index) (suc index) turn h)
turn_start-append index start (human text ∷ earlier) question turn h =
    omega (arith, turn_start-append (suc index) (suc index) earlier question turn h)
turn_start-append index start (ai text calls ∷ earlier) question turn h =
    omega (arith, turn_start-append (suc index) start earlier question turn h)
turn_start-append index start (tool text artifact ∷ earlier) question turn h =
    omega (arith, turn_start-append (suc index) start earlier question turn h)

turn_start_zero :
    (earlier : List Message) (question : String) (turn : List Message)
    → All IsAnswer turn
    → turn_start 0 0 (earlier ++ human question ∷ turn) ≡ suc (length earlier)
turn_start_zero earlier question turn h =
    omega (arith, turn_start-append 0 0 earlier question turn h)

drop-append :
    (earlier : List Message) (m : Message) (turn : List Message)
    → drop (suc (length earlier)) (earlier ++ m ∷ turn) ≡ turn
drop-append [] m turn = refl
drop-append (e ∷ earlier) m turn = drop-append earlier m turn

current_turn_messages_lem :
    (earlier : List Message) (question : String) (turn : List Message)
    → All IsAnswer turn
    → current_turn_messages (earlier ++ human question ∷ turn) ≡ turn
unfolding current_turn_messages
current_turn_messages_lem earlier question turn h =
    rw (turn_start_zero earlier question turn h) (drop-append earlier (human question) turn)

module _ {A : Type 0} ⦃e : Eq A⦄ where
  pub contains-append :
      (xs ys : List A) (a : A) → contains (xs ++ ys) a ≡ (contains xs a || contains ys a)
  unfolding contains
  contains-append [] ys a = refl
  contains-append (x ∷ xs) ys a = ground (arith, contains-append xs ys a)

abbrev ids : List Source → List String
ids sources = map Source.knowledge_base_id sources

ids-snoc :
    (sources : List Source) (s : Source) (id : String)
    → contains (ids (sources ++ s ∷ [])) id
      ≡ (contains (ids sources) id || contains (s.knowledge_base_id ∷ []) id)
unfolding contains
ids-snoc [] s id = refl
ids-snoc (r ∷ sources) s id = ground (arith, ids-snoc sources s id)

IsKey-snoc :
    (sources : List Source) (s : Source)
    → IsKey Source.knowledge_base_id sources
    → contains (ids sources) s.knowledge_base_id ≡ false
    → IsKey Source.knowledge_base_id (sources ++ s ∷ [])
unfolding contains
IsKey-snoc [] s h new = (refl, tt)
IsKey-snoc (r ∷ sources) s h new = (
  ground (
    arith,
    ids-snoc sources s r.knowledge_base_id,
    h.0,
    string_eq.beq_iff r.knowledge_base_id s.knowledge_base_id,
    string_eq.beq_iff s.knowledge_base_id r.knowledge_base_id,
  ),
  IsKey-snoc sources s h.1 (ground arith),
)

-- No two collected sources share an id, and the seen ids are theirs.
abbrev IsCollected : Collected → Type 0
IsCollected c =
    IsKey Source.knowledge_base_id c.sources
    × ((id : String) → contains c.seen_ids id ≡ contains (ids c.sources) id)

-- `d` has the ids of `c` and these ones.
abbrev Gains : List String → Collected → Collected → Type 0
Gains more c d =
    IsCollected d
    × ((id : String)
        → contains (ids d.sources) id ≡ (contains (ids c.sources) id || contains more id))

collect_source-Gains :
    (s : Source) (c : Collected)
    → IsCollected c
    → Gains (s.knowledge_base_id ∷ []) c (collect_source s c)
unfolding collect_source contains
collect_source-Gains s c h = elim (Bool-cases (contains c.seen_ids s.knowledge_base_id)) [
  | inl seen ↦ rw seen (
    h,
    λ id. ground (arith, h.1 id, h.1 s.knowledge_base_id, string_eq.beq_iff s.knowledge_base_id id),
  )
  | inr new ↦ rw new (
    (
      IsKey-snoc c.sources s h.0 (sym (h.1 s.knowledge_base_id) ∙ new),
      λ id. ground (arith, h.1 id, ids-snoc c.sources s id),
    ),
    λ id. ids-snoc c.sources s id,
  )
]

Gains-trans :
    (xs ys : List String) (c d e : Collected) → Gains xs c d → Gains ys d e → Gains (xs ++ ys) c e
Gains-trans xs ys c d e f g = (g.0, λ id. ground (arith, f.1 id, g.1 id, contains-append xs ys id))

Gains-nil : (c : Collected) → IsCollected c → Gains [] c c
unfolding contains
Gains-nil c h = (h, λ id. ground arith)

collect_artifact-Gains :
    (artifact : List Source) (c : Collected)
    → IsCollected c
    → Gains (ids artifact) c (collect_artifact artifact c)
unfolding collect_artifact
collect_artifact-Gains [] c h = Gains-nil c h
collect_artifact-Gains (s ∷ artifact) c h =
    let first = collect_source-Gains s c h in
    Gains-trans (s.knowledge_base_id ∷ []) (ids artifact) c _ _ first
      (collect_artifact-Gains artifact (collect_source s c) first.0)

collect-Gains :
    (messages : List Message) (c : Collected)
    → IsCollected c
    → Gains (source_ids messages) c (collect messages c)
unfolding collect
collect-Gains [] c h = Gains-nil c h
collect-Gains (human text ∷ messages) c h = collect-Gains messages c h
collect-Gains (ai text calls ∷ messages) c h = collect-Gains messages c h
collect-Gains (tool text artifact ∷ messages) c h =
    let first = collect_artifact-Gains artifact c h in
    Gains-trans (ids artifact) (source_ids messages) c _ _ first
      (collect-Gains messages (collect_artifact artifact c) first.0)

-- These sources, each once, are those of the turn.
abbrev pub IsGrounding : List Message → List Source → Type 0
IsGrounding turn sources =
    IsKey Source.knowledge_base_id sources
    × ((id : String) → contains (ids sources) id ≡ contains (source_ids turn) id)

grounded :
    (turn : List Message) (sources : List Source)
    → sources ≡ (collect turn collected_none).sources
    → IsGrounding turn sources
unfolding contains
grounded turn sources same =
    let gains = collect-Gains turn collected_none (tt, λ id. refl) in
    subst (IsGrounding turn) (sym same) (gains.0.0, gains.1)

-- Of a thread whose last human message is a question, read the turn after it: no two of its extracted
-- sources share an id, an id is among them exactly if it is the id of a source of a tool message of
-- that turn, and the tools that it called are those that the AI messages of that turn name, whatever
-- the thread held before.
pub extract_sources_from_messages_lem :
    (earlier : List Message) (question : String) (turn : List Message)
    → All IsAnswer turn
    → IsGrounding turn (extract_sources_from_messages (earlier ++ human question ∷ turn))
      × (tools_called_in_current_turn (earlier ++ human question ∷ turn) ≡ called turn)
unfolding extract_sources_from_messages tools_called_in_current_turn
extract_sources_from_messages_lem earlier question turn h =
    let same = current_turn_messages_lem earlier question turn h in
    (grounded turn _ (ap (λ m. (collect m collected_none).sources) same), ap called same)
