-- ===== src/Search/Tests.antt =====
-- Witnesses: three passages of two documents, of which the first document has the nearest and the last.
use eaistack.Base.{◌≤◌, String, none, List, [], ◌∷◌, ◌≡◌, refl, IsKey, length}
use eaistack.Search.{
  Candidate, SourceMatch, doc_id_of, deduplicate_by_document, search_knowledge_base_with_sources,
}
use eaistack.Search.Distinct.{
  nearest, deduplicate_by_document_lem, search_knowledge_base_with_sources_lem,
}

abbrev passage : String → String → Candidate
passage doc_id text = record {
  embedding = record {
    id = text;
    doc_id = doc_id;
    chunk_index = 0;
    chunk_text = text;
    heading_path = none;
    deleted_at = none;
  };
  knowledge_base = record {
    id = doc_id;
    user_id = "ann";
    title = doc_id;
    content = text;
    storage_key = none;
    original_filename = none;
    content_type = none;
    doc_metadata = "";
    updated_at = 1;
    deleted_at = none;
  };
}

abbrev ranked : List Candidate
ranked = passage "guide" "near" ∷ passage "notes" "middle" ∷ passage "guide" "far" ∷ []

deduplicate_by_document_lem_example :
    IsKey doc_id_of (deduplicate_by_document ranked)
    × ((id : String) → nearest id (deduplicate_by_document ranked) ≡ nearest id ranked)
deduplicate_by_document_lem_example = deduplicate_by_document_lem ranked

search_knowledge_base_with_sources_lem_example :
    (length (search_knowledge_base_with_sources 1 2000 ranked).sources ≤ 1)
    × IsKey SourceMatch.knowledge_base_id (search_knowledge_base_with_sources 1 2000 ranked).sources
search_knowledge_base_with_sources_lem_example =
    search_knowledge_base_with_sources_lem 1 2000 ranked (refl, (refl, (refl, tt)))
