-- ===== src/Search.antt =====
-- The answer of the document search server, mcp-servers/doc-search/app/search.py, from the candidates that
-- the hybrid search ranked, nearest first; that search is in the database and is an argument. Rendered
-- text is code points.
pub mod Distinct
mod Tests
use eaistack.Base.{
  ℕ, String, Bool, true, false, Option, none, some, List, [], ◌∷◌, ◌++◌, map, take, length, ltb,
  contains, string_eq, if◌then◌else◌,
}
use eaistack.Base.Text.{Text, codes, join}
use eaistack.Documents.{KnowledgeBase, Embedding}

-- A passage and its document; the score is not read any more.
pub record Candidate : Type 0 where
  pub embedding : Embedding
  pub knowledge_base : KnowledgeBase

pub record SourceMatch : Type 0 where
  pub knowledge_base_id : String
  pub title : String
  pub heading_path : Option String

pub record SearchResultWithSources : Type 0 where
  pub text : Text
  pub sources : List SourceMatch

abbrev pub doc_id_of : Candidate → String
doc_id_of c = c.embedding.doc_id

-- The loop of `_deduplicate_by_document` over what is left, with the ids seen before.
unfoldable pub deduplicate : List String → List Candidate → List Candidate
deduplicate seen_doc_ids [] = []
deduplicate seen_doc_ids (c ∷ candidates) =
    let skipped = deduplicate seen_doc_ids candidates in
    let kept = deduplicate (doc_id_of c ∷ seen_doc_ids) candidates in
    if contains seen_doc_ids (doc_id_of c) then skipped else c ∷ kept

unfoldable pub deduplicate_by_document : List Candidate → List Candidate
deduplicate_by_document candidates = deduplicate [] candidates

unfoldable pub excerpt_of : ℕ → Text → Text
excerpt_of max_excerpt_chars chunk =
    if ltb max_excerpt_chars (length chunk)
    then take max_excerpt_chars chunk ++ codes "..."
    else take max_excerpt_chars chunk

abbrev section_line : Option String → Text
section_line none = []
section_line (some path) = codes "\nSection: " ++ codes path

unfoldable pub rendered : ℕ → Candidate → Text
rendered max_excerpt_chars c =
    codes "Title: "
    ++ codes c.knowledge_base.title
    ++ section_line c.embedding.heading_path
    ++ codes "\n"
    ++ excerpt_of max_excerpt_chars (codes c.embedding.chunk_text)

unfoldable pub source_of : Candidate → SourceMatch
source_of c = record {
  knowledge_base_id = c.knowledge_base.id;
  title = c.knowledge_base.title;
  heading_path = c.embedding.heading_path;
}

unfoldable pub search_knowledge_base_with_sources : ℕ → ℕ → List Candidate → SearchResultWithSources
search_knowledge_base_with_sources top_k max_excerpt_chars [] = record {
  text = codes "No matching documents were found in the knowledge base.";
  sources = [];
}
search_knowledge_base_with_sources top_k max_excerpt_chars (c ∷ candidates) =
    let matches = take top_k (deduplicate_by_document (c ∷ candidates)) in
    record {
      text = join (codes "\n\n") (map (rendered max_excerpt_chars) matches);
      sources = map source_of matches;
    }
