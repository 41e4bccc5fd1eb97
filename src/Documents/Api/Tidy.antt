-- ===== src/Documents/Api/Tidy.antt =====
-- No stored object is left that no row refers to.
use eaistack.Base.{
  ℕ, String, Bool, true, false, not, Option, none, some, List, [], ◌∷◌, ◌++◌, contains, ltb, ◌==◌,
  string_eq, if◌then◌else◌, ◌≡◌, ◌⊎◌, refl, sym, subst, Bool-cases, Option-cases, inl, inr, All,
  All-map, IsKey,
}
use eaistack.Base.Result.{Result, ok, err}
use eaistack.Documents.{KnowledgeBase, Embedding, get_by_id, rewrite, edited, soft_deleted}
use eaistack.Documents.Keys.{KeyError, build_object_key, key_belongs_to_user}
use eaistack.Documents.Keys.Separate.{build_object_key-ok_iff, owns}
use eaistack.Documents.Api.{
  Indexer, Limits, Faults, Library, Answer, Call, Upload, Request, create, upload, update, delete,
  put, remove, delete_object, generate_and_attach_embeddings, ids, insert_raises, pasted, inserted,
  create_knowledge_base, uploaded, cleaned_up, stored, extracted_or_refused,
  upload_knowledge_base_document, released, replaced, update_knowledge_base, delete_knowledge_base,
  handle, handle_all,
}
use eaistack.Documents.Api.Referred.{
  Owns, Refers, OwnRow, Refers-append_left, Refers-last, put-All, remove-All, first_apart,
  IsKey-append, All-append_one, rewrite-IsKey, rewrite-All, Refers-rewrite_kept, get_by_id-found,
  Refers-rewrite_other,
}

pub record IsTidy (s : Library) : Type 0 where
  pub keyed : IsKey (λ (kb : KnowledgeBase). kb.id) s.documents
  pub owned : All OwnRow s.documents
  pub referenced : All (Refers s.documents) s.objects

if_either : (P : Answer → Type 0) (b : Bool) (x y : Answer) → P x → P y → P (if b then x else y)
if_either P true x y p q = p
if_either P false x y p q = q

tidy :
    {s : Library}
    → IsKey (λ (r : KnowledgeBase). r.id) s.documents
    → All OwnRow s.documents
    → All (Refers s.documents) s.objects
    → IsTidy s
tidy {s} keyed owned referenced = record { keyed = keyed; owned = owned; referenced = referenced }

inserted-IsTidy :
    (call : Call) (kb : KnowledgeBase) (embeddings : Option (List Embedding)) (failed s : Library)
    → IsTidy failed
    → kb.id ≡ call.kb_id
    → IsKey (λ (r : KnowledgeBase). r.id) s.documents
    → All OwnRow s.documents
    → OwnRow kb
    → All (Refers (s.documents ++ kb ∷ [])) s.objects
    → IsTidy (inserted call kb embeddings failed s).1
inserted-IsTidy call kb none failed s fine named keyed owned own referenced = fine
inserted-IsTidy call kb (some embeddings) failed s fine named keyed owned own referenced =
    elim (Bool-cases (insert_raises call s.documents)) [
      | inl raises ↦ rw raises fine
      | inr added ↦
          let new = (first_apart call.faults.commit_raises _ added).1 in
          rw added (
            tidy
              (IsKey-append s.documents kb keyed
                (subst (λ i. contains (ids s.documents) i ≡ false) (sym named) new))
              (All-append_one OwnRow s.documents kb owned own) referenced)
    ]

create-IsTidy :
    (ix : Indexer) (call : Call) (title content metadata : String) (s : Library)
    → IsTidy s
    → IsTidy (create_knowledge_base ix call title content metadata s).1
unfolding create_knowledge_base
create-IsTidy ix call title content metadata s h =
    let kb = pasted call title content metadata in
    inserted-IsTidy call kb (generate_and_attach_embeddings ix call.new_id kb content s.embeddings)
      s s h refl h.keyed h.owned tt
      (All-map (Refers-append_left s.documents (kb ∷ [])) s.objects h.referenced)

delete_object-some :
    (faults : Faults) (key user : String) (objects : List String)
    → faults.delete_raises ≡ false
    → key_belongs_to_user key user ≡ true
    → delete_object faults key user objects ≡ some (remove key objects)
unfolding delete_object
delete_object-some faults key user objects works own = rw (own, works) refl

-- What is referred to but for one key is referred to when the key's object is gone.
remove-put :
    (Q : String → Type 0) (key : String) (objects : List String)
    → All Q objects
    → All Q (remove key (put key objects))
remove-put Q key objects h =
    remove-All (λ k. (Q k) ⊎ (k ≡ key)) Q key (put key objects)
      (λ k apart either. elim either [
        | inl q ↦ q
        | inr same ↦ absurd (cc ((string_eq.beq_iff k key).1 same, apart))
      ])
      (put-All (λ k. (Q k) ⊎ (k ≡ key)) key objects (inr refl) (All-map (λ k q. inl q) objects h))

stored-IsTidy :
    (ix : Indexer) (call : Call) (u : Upload) (text : String) (built : Result KeyError String)
    (s : Library)
    → call.faults.delete_raises ≡ false
    → ((key : String) → built ≡ ok key → key_belongs_to_user key call.user_id ≡ true)
    → IsTidy s
    → IsTidy (stored ix call u text built s).1
stored-IsTidy ix call u text (err e) s works own h = h
stored-IsTidy ix call u text (ok key) s works own h =
    let kb = uploaded call u text key in
    let holding : Library = record s { objects = put key s.objects } in
    if_either (λ (a : Answer). IsTidy a.1) call.faults.put_raises _ _ h
      (inserted-IsTidy call kb (generate_and_attach_embeddings ix call.new_id kb text s.embeddings)
        (cleaned_up call key holding) holding
        (rw
          (delete_object-some call.faults key call.user_id (put key s.objects) works (own key refl))
          (tidy h.keyed h.owned (remove-put (Refers s.documents) key s.objects h.referenced)))
        refl h.keyed h.owned (own key refl)
        (put-All (Refers (s.documents ++ kb ∷ [])) key s.objects
          (Refers-last s.documents kb key refl)
          (All-map (Refers-append_left s.documents (kb ∷ [])) s.objects h.referenced)))

built_key-Owns :
    (user kb_id filename key : String)
    → build_object_key user kb_id filename ≡ ok key
    → key_belongs_to_user key user ≡ true
built_key-Owns user kb_id filename key h =
    subst (λ k. key_belongs_to_user k user ≡ true)
      ((build_object_key-ok_iff user kb_id filename key).0 h).1 (owns user kb_id filename)

upload-IsTidy :
    (ix : Indexer) (limits : Limits) (call : Call) (u : Upload) (s : Library)
    → call.faults.delete_raises ≡ false
    → IsTidy s
    → IsTidy (upload_knowledge_base_document ix limits call u s).1
unfolding upload_knowledge_base_document
upload-IsTidy ix limits call u s works h =
    elim (Bool-cases (not (contains limits.allowed_content_types u.content_type))) [
      | inl refused ↦ rw refused h
      | inr known ↦ elim (Bool-cases (ltb limits.max_bytes u.size)) [
        | inl large ↦ rw (known, large) h
        | inr fits ↦ rw (known, fits) (text_of u.extracted)
      ]
    ]
  where
    text_of : (extracted : Option String) → IsTidy (extracted_or_refused ix call u extracted s).1
    text_of none = h
    text_of (some text) =
        stored-IsTidy ix call u text (build_object_key call.user_id call.kb_id u.filename) s works
          (built_key-Owns call.user_id call.kb_id u.filename) h

edited-id :
    (title content metadata : String) (now : ℕ) (r : KnowledgeBase)
    → (edited title content metadata now r).id ≡ r.id
unfolding edited
edited-id title content metadata now r = refl

edited-OwnRow :
    (title content metadata : String) (now : ℕ) (r : KnowledgeBase)
    → OwnRow r
    → OwnRow (edited title content metadata now r)
unfolding edited
edited-OwnRow title content metadata now r own = tt

other_key : (k key : String) → (k == key) ≡ false → Path (Option String) (some key) (some k) → ⊥
other_key k key apart e = let same : k ≡ key = cc in cc ((string_eq.beq_iff k key).1 same, apart)

-- The object of an edited file is let go; `rows` are those before the edit.
released-IsTidy :
    (call : Call) (key : Option String) (s : Library) (rows : List KnowledgeBase)
    → call.faults.delete_raises ≡ false
    → Owns call.user_id key
    → IsKey (λ (r : KnowledgeBase). r.id) s.documents
    → All OwnRow s.documents
    → ((k : String) → (key ≡ some k → ⊥) → Refers rows k → Refers s.documents k)
    → All (Refers rows) s.objects
    → IsTidy (released call key s).1
released-IsTidy call none s rows works own keyed owned other h =
    tidy keyed owned (All-map (λ k refers. other k (λ e. cc) refers) s.objects h)
released-IsTidy call (some key) s rows works own keyed owned other h =
    rw (delete_object-some call.faults key call.user_id s.objects works own) (
      tidy keyed owned (
        remove-All (Refers rows) (Refers s.documents) key s.objects
          (λ k apart refers. other k (λ e. other_key k key apart e) refers) h))

-- An edit of the found row.
replaced-IsTidy :
    (call : Call) (title content metadata kb_id : String) (kb : KnowledgeBase)
    (embeddings : Option (List Embedding)) (s : Library)
    → call.faults.delete_raises ≡ false
    → get_by_id kb_id call.user_id s.documents ≡ some kb
    → IsTidy s
    → IsTidy (replaced call title content metadata kb embeddings s).1
replaced-IsTidy call title content metadata kb_id kb none s works found h = h
replaced-IsTidy call title content metadata kb_id kb (some embeddings) s works found h =
    let (named, user, own) =
      get_by_id-found OwnRow kb_id call.user_id s.documents kb found h.owned in
    let f = edited title content metadata call.now in
    let after : Library = record s {
      documents = rewrite kb.id f s.documents;
      embeddings = embeddings;
    } in
    let other =
      λ (key : String) (differs : kb.storage_key ≡ some key → ⊥) (refers : Refers s.documents key).
        subst (λ i. Refers (rewrite i f s.documents) key) (sym named)
          (Refers-rewrite_other kb_id call.user_id f s.documents kb key h.keyed found differs
            refers) in
    if_either (λ (a : Answer). IsTidy a.1) call.faults.commit_raises _ _ h
      (released-IsTidy call kb.storage_key after s.documents works
        (subst (λ u. Owns u kb.storage_key) user own)
        (rewrite-IsKey kb.id f (edited-id title content metadata call.now) s.documents h.keyed)
        (rewrite-All kb.id f OwnRow (edited-OwnRow title content metadata call.now) s.documents
          h.owned)
        other h.referenced)

update-IsTidy :
    (ix : Indexer) (call : Call) (kb_id title content metadata : String) (s : Library)
    → call.faults.delete_raises ≡ false
    → IsTidy s
    → IsTidy (update_knowledge_base ix call kb_id title content metadata s).1
unfolding update_knowledge_base
update-IsTidy ix call kb_id title content metadata s works h =
    elim (Option-cases (get_by_id kb_id call.user_id s.documents)) [
      | inl missing ↦ rw missing h
      | inr (kb, found) ↦
          rw found (replaced-IsTidy call title content metadata kb_id kb _ s works found h)
    ]

delete-IsTidy :
    (call : Call) (kb_id : String) (s : Library)
    → IsTidy s
    → IsTidy (delete_knowledge_base call kb_id s).1
unfolding delete_knowledge_base soft_deleted
delete-IsTidy call kb_id s h = elim (Option-cases (get_by_id kb_id call.user_id s.documents)) [
  | inl missing ↦ rw missing h
  | inr (kb, found) ↦ rw found (
      if_either (λ (a : Answer). IsTidy a.1) call.faults.commit_raises _ _ h
        (tidy (rewrite-IsKey kb.id (soft_deleted call.now) (λ r. refl) s.documents h.keyed)
          (rewrite-All kb.id (soft_deleted call.now) OwnRow (λ r own. own) s.documents h.owned)
          (All-map
            (λ key refers.
              Refers-rewrite_kept kb.id (soft_deleted call.now) (λ r. refl) s.documents key refers)
            s.objects h.referenced)))
]

handle-IsTidy :
    (ix : Indexer) (limits : Limits) (r : Call × Request) (s : Library)
    → r.0.faults.delete_raises ≡ false
    → IsTidy s
    → IsTidy (handle ix limits r s).1
unfolding handle
handle-IsTidy ix limits (call, create title content metadata) s works h =
    create-IsTidy ix call title content metadata s h
handle-IsTidy ix limits (call, upload u) s works h = upload-IsTidy ix limits call u s works h
handle-IsTidy ix limits (call, update kb_id title content metadata) s works h =
    update-IsTidy ix call kb_id title content metadata s works h
handle-IsTidy ix limits (call, delete kb_id) s works h = delete-IsTidy call kb_id s h

-- As long as the object store deletes what it is asked to, no sequence of requests of any users leaves a
-- stored object that no row refers to, also where uploads, embeddings and commits fail or an id is drawn
-- twice; the ids of the rows stay distinct, and a row's key stays one of the row's user.
pub handle_all-IsTidy :
    (ix : Indexer) (limits : Limits) (requests : List (Call × Request)) (s : Library)
    → All (λ (r : Call × Request). r.0.faults.delete_raises ≡ false) requests
    → IsTidy s
    → IsTidy (handle_all ix limits requests s)
unfolding handle_all
handle_all-IsTidy ix limits [] s works h = h
handle_all-IsTidy ix limits (r ∷ requests) s works h =
    handle_all-IsTidy ix limits requests (handle ix limits r s).1 works.1
      (handle-IsTidy ix limits r s works.0 h)
