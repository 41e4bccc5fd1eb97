-- ===== src/Documents/Api.antt =====
-- The endpoints of backend/app/api/knowledge_base.py with the object store
-- (backend/app/storage/document_store.py) and the indexing of a text
-- (backend/app/services/embedding_service.py). A stored object is its key. What a call outside the
-- program does is in `Faults`, and the chunking of a text and the embedding provider are parameters.
pub mod Referred
pub mod Tidy
use eaistack.Base.{
  ℕ, zero, suc, ◌+◌, String, Bool, true, false, not, ◌&&◌, ◌||◌, Option, none, some, List, [], ◌∷◌,
  ◌++◌, map, contains, select, ltb, ◌==◌, string_eq, if◌then◌else◌,
}
use eaistack.Base.Result.{Result, ok, err}
use eaistack.Workflow.Schema.{is_nil}
use eaistack.Documents.{
  KnowledgeBase, Embedding, get_by_id, rewrite, edited, soft_deleted, delete_chunks, retire_chunks,
}
use eaistack.Documents.Keys.{KeyError, build_object_key, key_belongs_to_user}

-- A passage of `chunk_document`.
pub record Chunk : Type 0 where
  pub chunk_index : ℕ
  pub text : String
  pub heading_path : Option String
  pub embed_text : String

pub record Indexer : Type 0 where
  -- `chunk_document` of a title and a text, under the settings in effect.
  pub chunk_document : String → String → List Chunk
  -- Whether the provider answers for some texts.
  pub embeds : List String → Bool

-- What fails outside the program during one request.
pub record Faults : Type 0 where
  pub put_raises : Bool
  pub commit_raises : Bool
  pub delete_raises : Bool

pub record Library : Type 0 where
  pub documents : List KnowledgeBase
  pub embeddings : List Embedding
  pub objects : List String

abbrev pub put : String → List String → List String
put key objects = if contains objects key then objects else key ∷ objects

abbrev pub remove : String → List String → List String
remove key objects = select (λ k. not (k == key)) objects

-- `DocumentStore.delete`, `none` where it raises.
unfoldable pub delete_object : Faults → String → String → List String → Option (List String)
delete_object faults storage_key user_id objects =
    if not (key_belongs_to_user storage_key user_id) || faults.delete_raises
    then none
    else some (remove storage_key objects)

-- The rows of the passages; `new_id` draws their ids.
abbrev pub passages : (ℕ → String) → String → ℕ → List Chunk → List Embedding
passages new_id doc_id n [] = []
passages new_id doc_id n (c ∷ chunks) =
    record {
      id = new_id n;
      doc_id = doc_id;
      chunk_index = c.chunk_index;
      chunk_text = c.text;
      heading_path = c.heading_path;
      deleted_at = none;
    }
    ∷ passages new_id doc_id (suc n) chunks

-- `none` where the provider raises; it is not asked for no texts.
unfoldable pub generate_and_attach_embeddings :
    Indexer → (ℕ → String) → KnowledgeBase → String → List Embedding → Option (List Embedding)
generate_and_attach_embeddings ix new_id kb text embeddings =
    let chunks = ix.chunk_document kb.title text in
    if is_nil chunks || ix.embeds (map (λ (c : Chunk). c.embed_text) chunks)
    then some (embeddings ++ passages new_id kb.id 0 chunks)
    else none

unfoldable pub replace_embeddings :
    Indexer → (ℕ → String) → KnowledgeBase → String → ℕ → List Embedding → Option (List Embedding)
replace_embeddings ix new_id kb text now embeddings =
    generate_and_attach_embeddings ix new_id kb text (retire_chunks kb.id now embeddings)

pub record Limits : Type 0 where
  pub allowed_content_types : List String
  pub max_bytes : ℕ

-- The answers that are no success; `internal` is an exception that nothing catches.
pub data ApiError : Type 0 where
  unsupported_content_type file_too_large invalid_filename not_found internal : ApiError

pub record Upload : Type 0 where
  pub filename : String
  pub content_type : String
  pub size : ℕ
  -- What `extract_text` gives, `none` for an UnsupportedContentTypeError.
  pub extracted : Option String

pub data Request : Type 0 where
  -- The title, the content and the metadata.
  create : String → String → String → Request
  upload : Upload → Request
  -- The document first.
  update : String → String → String → String → Request
  delete : String → Request

-- One request: who asks, the ids that are drawn for it, the time and the faults.
pub record Call : Type 0 where
  pub user_id : String
  pub kb_id : String
  pub new_id : ℕ → String
  pub now : ℕ
  pub faults : Faults

abbrev pub Answer : Type 0
Answer = Result ApiError (Unit {0}) × Library

abbrev pub ids : List KnowledgeBase → List String
ids rows = map (λ (kb : KnowledgeBase). kb.id) rows

-- Whether the transaction that adds a row is refused.
abbrev pub insert_raises : Call → List KnowledgeBase → Bool
insert_raises call rows = call.faults.commit_raises || contains (ids rows) call.kb_id

abbrev pub pasted : Call → String → String → String → KnowledgeBase
pasted call title content metadata = record {
  id = call.kb_id;
  user_id = call.user_id;
  title = title;
  content = content;
  storage_key = none;
  original_filename = none;
  content_type = none;
  doc_metadata = metadata;
  updated_at = call.now;
  deleted_at = none;
}

abbrev pub inserted : Call → KnowledgeBase → Option (List Embedding) → Library → Library → Answer
inserted call kb none failed s = (err internal, failed)
inserted call kb (some embeddings) failed s =
    if insert_raises call s.documents
    then (err internal, failed)
    else (ok tt, record s { documents = s.documents ++ kb ∷ []; embeddings = embeddings })

unfoldable pub create_knowledge_base : Indexer → Call → String → String → String → Library → Answer
create_knowledge_base ix call title content metadata s =
    let kb = pasted call title content metadata in
    inserted call kb (generate_and_attach_embeddings ix call.new_id kb content s.embeddings) s s

abbrev pub uploaded : Call → Upload → String → String → KnowledgeBase
uploaded call u text storage_key = record {
  id = call.kb_id;
  user_id = call.user_id;
  title = u.filename;
  content = text;
  storage_key = some storage_key;
  original_filename = some u.filename;
  content_type = some u.content_type;
  doc_metadata = "{}";
  updated_at = call.now;
  deleted_at = none;
}

abbrev pub or_left : List String → Option (List String) → List String
or_left objects none = objects
or_left objects (some left) = left

-- The compensating delete; what it raises is logged only.
abbrev pub cleaned_up : Call → String → Library → Library
cleaned_up call storage_key s = record s {
  objects = or_left s.objects (delete_object call.faults storage_key call.user_id s.objects);
}

-- From the built key on.
abbrev pub stored : Indexer → Call → Upload → String → Result KeyError String → Library → Answer
stored ix call u text (err e) s = (err invalid_filename, s)
stored ix call u text (ok storage_key) s =
    let kb = uploaded call u text storage_key in
    let holding = record s { objects = put storage_key s.objects } in
    if call.faults.put_raises
    then (err internal, s)
    else inserted call kb (generate_and_attach_embeddings ix call.new_id kb text s.embeddings)
        (cleaned_up call storage_key holding) holding

abbrev pub extracted_or_refused : Indexer → Call → Upload → Option String → Library → Answer
extracted_or_refused ix call u none s = (err unsupported_content_type, s)
extracted_or_refused ix call u (some text) s =
    stored ix call u text (build_object_key call.user_id call.kb_id u.filename) s

unfoldable pub upload_knowledge_base_document : Indexer → Limits → Call → Upload → Library → Answer
upload_knowledge_base_document ix limits call u s =
    if not (contains limits.allowed_content_types u.content_type)
    then (err unsupported_content_type, s)
    else if ltb limits.max_bytes u.size
    then (err file_too_large, s)
    else extracted_or_refused ix call u u.extracted s

abbrev pub after_delete : Option (List String) → Library → Answer
after_delete none s = (err internal, s)
after_delete (some objects) s = (ok tt, record s { objects = objects })

-- The object of a file that was edited is deleted after the commit.
abbrev pub released : Call → Option String → Library → Answer
released call none s = (ok tt, s)
released call (some storage_key) s =
    after_delete (delete_object call.faults storage_key call.user_id s.objects) s

abbrev pub replaced :
    Call → String → String → String → KnowledgeBase → Option (List Embedding) → Library → Answer
replaced call title content metadata kb none s = (err internal, s)
replaced call title content metadata kb (some embeddings) s =
    let after = record s {
      documents = rewrite kb.id (edited title content metadata call.now) s.documents;
      embeddings = embeddings;
    } in
    if call.faults.commit_raises then (err internal, s) else released call kb.storage_key after

abbrev pub update_found :
    Indexer → Call → String → String → String → Option KnowledgeBase → Library → Answer
update_found ix call title content metadata none s = (err not_found, s)
update_found ix call title content metadata (some kb) s =
    let renamed = edited title content metadata call.now kb in
    replaced call title content metadata kb
      (replace_embeddings ix call.new_id renamed content call.now s.embeddings) s

unfoldable pub update_knowledge_base :
    Indexer → Call → String → String → String → String → Library → Answer
update_knowledge_base ix call kb_id title content metadata s =
    update_found ix call title content metadata (get_by_id kb_id call.user_id s.documents) s

abbrev pub delete_found : Call → Option KnowledgeBase → Library → Answer
delete_found call none s = (err not_found, s)
delete_found call (some kb) s =
    let after = record s {
      documents = rewrite kb.id (soft_deleted call.now) s.documents;
      embeddings = delete_chunks kb.id call.now s.embeddings;
    } in
    if call.faults.commit_raises then (err internal, s) else (ok tt, after)

unfoldable pub delete_knowledge_base : Call → String → Library → Answer
delete_knowledge_base call kb_id s = delete_found call (get_by_id kb_id call.user_id s.documents) s

unfoldable pub handle : Indexer → Limits → Call × Request → Library → Answer
handle ix limits (call, create title content metadata) s =
    create_knowledge_base ix call title content metadata s
handle ix limits (call, upload u) s = upload_knowledge_base_document ix limits call u s
handle ix limits (call, update kb_id title content metadata) s =
    update_knowledge_base ix call kb_id title content metadata s
handle ix limits (call, delete kb_id) s = delete_knowledge_base call kb_id s

unfoldable pub handle_all : Indexer → Limits → List (Call × Request) → Library → Library
handle_all ix limits [] s = s
handle_all ix limits (r ∷ requests) s = handle_all ix limits requests (handle ix limits r s).1
