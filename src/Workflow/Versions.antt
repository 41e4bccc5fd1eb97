-- ===== src/Workflow/Versions.antt =====
-- backend/app/repositories/workflow_version_repository.py and the tables it writes. Rows stand newest
-- first; what a query returns is computed from them. The hash, `str`, `isoformat` and the ids that the
-- database draws are fields of `Platform`. Times are naive already.
pub mod Chain
pub mod Intact
pub mod Tamper
pub mod Turns
use eaistack.Base.{
  ℕ, ◌+◌, String, Bool, true, false, ◌&&◌, Option, none, some, List, [], ◌∷◌, ltb, if◌then◌else◌,
  ◌==◌, string_eq, first,
}
use eaistack.Base.Text.{Text, join, codes}

-- What the store calls outside the program.
pub record Platform : Type 0 where
  -- `hashlib.sha256(text.encode("utf-8")).hexdigest()`
  pub sha256 : Text → Text
  pub str : ℕ → Text
  pub isoformat : ℕ → Text
  -- The id of the n-th row.
  pub uuid : ℕ → String

pub data Source : Type 0 where
  builtin admin : Source

abbrev pub is_builtin : Source → Bool
is_builtin builtin = true
is_builtin admin = false

pub record WorkflowVersion : Type 0 where
  pub id : String
  pub workflow_name : String
  pub sequence : ℕ
  pub yaml_text : String
  pub content_hash : Text
  pub prev_chain_hash : Option Text
  pub chain_hash : Text
  pub parent_version_id : Option String
  pub source : Source
  pub author_user_id : String
  pub change_note : Text
  pub created_at : ℕ

pub record NewVersion : Type 0 where
  pub workflow_name : String
  pub yaml_text : String
  pub source : Source
  pub author_user_id : String
  pub change_note : Text
  pub parent_version_id : Option String
  pub now : ℕ

abbrev pub Versions : Type 0
Versions = List WorkflowVersion

unfoldable pub compute_content_hash : Platform → String → Text
compute_content_hash p yaml_text = p.sha256 (codes yaml_text)

-- `prev_chain_hash or ""`
abbrev pub or_empty : Option Text → Text
or_empty none = []
or_empty (some h) = h

abbrev pub chain_parts : Platform → Option Text → String → ℕ → Text → String → Text → ℕ → List Text
chain_parts p prev name sequence content author note created =
    or_empty prev
    ∷ codes name
    ∷ p.str sequence
    ∷ content
    ∷ codes author
    ∷ note
    ∷ p.isoformat created
    ∷ []

unfoldable pub compute_chain_hash :
    Platform → Option Text → String → ℕ → Text → String → Text → ℕ → Text
compute_chain_hash p prev name sequence content author note created =
    p.sha256 (join (0 ∷ []) (chain_parts p prev name sequence content author note created))

-- The rows of one workflow, in the order of the table.
unfoldable pub rows_of : String → Versions → Versions
rows_of name [] = []
rows_of name (v ∷ vs) = if v.workflow_name == name then v ∷ rows_of name vs else rows_of name vs

abbrev pub higher : WorkflowVersion → Option WorkflowVersion → Option WorkflowVersion
higher v none = some v
higher v (some w) = if ltb v.sequence w.sequence then some w else some v

-- `order_by(sequence.desc()).first()`
unfoldable pub highest : Versions → Option WorkflowVersion
highest [] = none
highest (v ∷ vs) = higher v (highest vs)

unfoldable pub latest_for_workflow : String → Versions → Option WorkflowVersion
latest_for_workflow name vs = highest (rows_of name vs)

unfoldable pub builtin_rows : Versions → Versions
builtin_rows [] = []
builtin_rows (v ∷ vs) = if is_builtin v.source then v ∷ builtin_rows vs else builtin_rows vs

unfoldable pub latest_builtin_for_workflow : String → Versions → Option WorkflowVersion
latest_builtin_for_workflow name vs = highest (builtin_rows (rows_of name vs))

-- `db.get(WorkflowVersion, id)`
unfoldable pub get : String → Versions → Option WorkflowVersion
get id vs = first (λ (v : WorkflowVersion). v.id == id) vs

abbrev pub next_sequence : Option WorkflowVersion → ℕ
next_sequence none = 1
next_sequence (some v) = v.sequence + 1

abbrev pub last_hash : Option WorkflowVersion → Option Text
last_hash none = none
last_hash (some v) = some v.chain_hash

-- The row that `add` writes after `previous`, under a fresh id.
unfoldable pub next_version :
    Platform → String → Option WorkflowVersion → NewVersion → WorkflowVersion
next_version p id previous new =
    let content = compute_content_hash p new.yaml_text in
    record {
      id = id;
      workflow_name = new.workflow_name;
      sequence = next_sequence previous;
      yaml_text = new.yaml_text;
      content_hash = content;
      prev_chain_hash = last_hash previous;
      chain_hash =
          compute_chain_hash p (last_hash previous) new.workflow_name (next_sequence previous)
            content new.author_user_id new.change_note new.now;
      parent_version_id = new.parent_version_id;
      source = new.source;
      author_user_id = new.author_user_id;
      change_note = new.change_note;
      created_at = new.now;
    }

unfoldable pub add : Platform → String → NewVersion → Versions → WorkflowVersion × Versions
add p id new vs =
    let version = next_version p id (latest_for_workflow new.workflow_name vs) new in
    (version, version ∷ vs)
