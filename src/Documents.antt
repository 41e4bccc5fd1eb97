-- ===== src/Documents.antt =====
-- The rows of backend/app/db/models.py that hold a user's documents, and
-- backend/app/repositories/knowledge_base_repository.py. Times are arguments.
pub mod Keys
pub mod Api
mod Tests
use eaistack.Base.{
  ℕ, String, Bool, true, false, ◌&&◌, Option, none, some, List, [], ◌∷◌, ◌++◌, map, select, first,
  if◌then◌else◌, ◌==◌, string_eq,
}

-- `content` is the searchable text; the three columns of a file are set together.
pub record KnowledgeBase : Type 0 where
  pub id : String
  pub user_id : String
  pub title : String
  pub content : String
  pub storage_key : Option String
  pub original_filename : Option String
  pub content_type : Option String
  pub doc_metadata : String
  pub updated_at : ℕ
  pub deleted_at : Option ℕ

-- A passage of a document; its vector is not modelled.
pub record Embedding : Type 0 where
  pub id : String
  pub doc_id : String
  pub chunk_index : ℕ
  pub chunk_text : String
  pub heading_path : Option String
  pub deleted_at : Option ℕ

abbrev pub is_live : Option ℕ → Bool
is_live none = true
is_live (some at) = false

unfoldable pub get_by_user : String → List KnowledgeBase → List KnowledgeBase
get_by_user user_id rows =
    select (λ (kb : KnowledgeBase). kb.user_id == user_id && is_live kb.deleted_at) rows

unfoldable pub get_by_id : String → String → List KnowledgeBase → Option KnowledgeBase
get_by_id id user_id rows =
    first (λ (kb : KnowledgeBase). kb.id == id && (kb.user_id == user_id && is_live kb.deleted_at))
      rows

-- The row of an object in hand, found by its primary key, is written again.
unfoldable pub rewrite :
    String → (KnowledgeBase → KnowledgeBase) → List KnowledgeBase → List KnowledgeBase
rewrite id f [] = []
rewrite id f (kb ∷ rows) =
    let rest = rewrite id f rows in if kb.id == id then f kb ∷ rows else kb ∷ rest

-- An edited document is no longer the file that was uploaded.
unfoldable pub edited : String → String → String → ℕ → KnowledgeBase → KnowledgeBase
edited title content metadata now kb = record kb {
  title = title;
  content = content;
  doc_metadata = metadata;
  updated_at = now;
  storage_key = none;
  original_filename = elim kb.storage_key [ none ↦ kb.original_filename | some key ↦ none ];
  content_type = elim kb.storage_key [ none ↦ kb.content_type | some key ↦ none ];
}

unfoldable pub soft_deleted : ℕ → KnowledgeBase → KnowledgeBase
soft_deleted now kb = record kb { deleted_at = some now }

unfoldable pub delete_chunks : String → ℕ → List Embedding → List Embedding
delete_chunks doc_id now chunks =
    map (λ (e : Embedding). if e.doc_id == doc_id then record e { deleted_at = some now } else e)
      chunks

-- The bulk update of `replace_embeddings` leaves the rows that were deleted before.
unfoldable pub retire_chunks : String → ℕ → List Embedding → List Embedding
retire_chunks doc_id now chunks =
    map
      (λ (e : Embedding).
        if e.doc_id == doc_id && is_live e.deleted_at
        then record e { deleted_at = some now }
        else e)
      chunks
