-- ===== src/Search/Distinct.antt =====
-- What the sources of a search are: at most so many, one for each document, the nearest of its passages.
use eaistack.Base.{
  ℕ, zero, suc, ◌≤◌, String, true, false, Option, List, [], ◌∷◌, map, take, length, contains,
  contains-of-In, first, string_eq, ◌==◌, ◌≡◌, refl, ap, ◌∙◌, arith, Bool-cases, inl, inr, IsKey,
  All,
}
use eaistack.Search.{
  Candidate, SourceMatch, doc_id_of, deduplicate, deduplicate_by_document, source_of,
  search_knowledge_base_with_sources,
}

-- The nearest passage of a document.
abbrev pub nearest : String → List Candidate → Option Candidate
nearest id candidates = first (λ c. doc_id_of c == id) candidates

-- A document that was seen before is not among what is kept.
seen-gone :
    (seen : List String) (candidates : List Candidate) (id : String)
    → contains seen id ≡ true
    → contains (map doc_id_of (deduplicate seen candidates)) id ≡ false
unfolding deduplicate contains
seen-gone seen [] id h = refl
seen-gone seen (c ∷ candidates) id h = ground (
  arith,
  seen-gone seen candidates id h,
  seen-gone (doc_id_of c ∷ seen) candidates id (ground arith),
  string_eq.beq_iff (doc_id_of c) id,
)

deduplicate-IsKey :
    (seen : List String) (candidates : List Candidate)
    → IsKey doc_id_of (deduplicate seen candidates)
unfolding deduplicate
deduplicate-IsKey seen [] = tt
deduplicate-IsKey seen (c ∷ candidates) = elim (Bool-cases (contains seen (doc_id_of c))) [
  | inl before ↦ rw before (deduplicate-IsKey seen candidates)
  | inr new ↦ rw new (
    seen-gone (doc_id_of c ∷ seen) candidates (doc_id_of c)
        (contains-of-In (doc_id_of c ∷ seen) (doc_id_of c) (inl refl)),
    deduplicate-IsKey (doc_id_of c ∷ seen) candidates,
  )
]

deduplicate-nearest :
    (seen : List String) (candidates : List Candidate) (id : String)
    → contains seen id ≡ false
    → nearest id (deduplicate seen candidates) ≡ nearest id candidates
unfolding deduplicate contains
deduplicate-nearest seen [] id h = refl
deduplicate-nearest seen (c ∷ candidates) id h = elim (Bool-cases (contains seen (doc_id_of c))) [
  | inl before ↦ elim (Bool-cases (doc_id_of c == id)) [
    | inl same ↦ cc (before, h, ap (contains seen) ((string_eq.beq_iff (doc_id_of c) id).0 same))
    | inr other ↦ rw (before, other) (deduplicate-nearest seen candidates id h)
  ]
  | inr new ↦ elim (Bool-cases (doc_id_of c == id)) [
    | inl same ↦ rw (new, same) refl
    | inr other ↦
        rw (new, other) (deduplicate-nearest (doc_id_of c ∷ seen) candidates id (ground arith))
  ]
]

take-gone :
    (k : ℕ) (candidates : List Candidate) (id : String)
    → contains (map doc_id_of candidates) id ≡ false
    → contains (map doc_id_of (take k candidates)) id ≡ false
unfolding contains
take-gone zero candidates id h = refl
take-gone (suc k) [] id h = refl
take-gone (suc k) (c ∷ candidates) id h = ground (arith, take-gone k candidates id)

take-IsKey :
    (k : ℕ) (candidates : List Candidate)
    → IsKey doc_id_of candidates
    → IsKey doc_id_of (take k candidates)
take-IsKey zero candidates h = tt
take-IsKey (suc k) [] h = tt
take-IsKey (suc k) (c ∷ candidates) h =
    (take-gone k candidates (doc_id_of c) h.0, take-IsKey k candidates h.1)

length-take : {A : Type 0} (k : ℕ) (xs : List A) → length (take k xs) ≤ k
length-take zero xs = omega arith
length-take (suc k) [] = omega arith
length-take (suc k) (x ∷ xs) = omega (arith, length-take k xs)

-- The candidates left by document have no document twice, and the nearest passage of every document
-- among them is the nearest that the ranking had.
pub deduplicate_by_document_lem :
    (candidates : List Candidate)
    → IsKey doc_id_of (deduplicate_by_document candidates)
      × ((id : String) → nearest id (deduplicate_by_document candidates) ≡ nearest id candidates)
unfolding deduplicate_by_document contains
deduplicate_by_document_lem candidates =
    (deduplicate-IsKey [] candidates, λ id. deduplicate-nearest [] candidates id refl)

-- A passage stands with the document that it belongs to, as the join of the search returns them.
abbrev pub IsJoined : Candidate → Type 0
IsJoined c = c.knowledge_base.id ≡ doc_id_of c

deduplicate-All :
    (seen : List String) (candidates : List Candidate)
    → All IsJoined candidates
    → All IsJoined (deduplicate seen candidates)
unfolding deduplicate
deduplicate-All seen [] h = tt
deduplicate-All seen (c ∷ candidates) h = elim (Bool-cases (contains seen (doc_id_of c))) [
  | inl before ↦ rw before (deduplicate-All seen candidates h.1)
  | inr new ↦ rw new (h.0, deduplicate-All (doc_id_of c ∷ seen) candidates h.1)
]

take-All :
    (k : ℕ) (candidates : List Candidate)
    → All IsJoined candidates
    → All IsJoined (take k candidates)
take-All zero candidates h = tt
take-All (suc k) [] h = tt
take-All (suc k) (c ∷ candidates) h = (h.0, take-All k candidates h.1)

source_ids :
    (matches : List Candidate)
    → All IsJoined matches
    → map SourceMatch.knowledge_base_id (map source_of matches) ≡ map doc_id_of matches
unfolding source_of
source_ids [] h = refl
source_ids (c ∷ matches) h = cc (h.0, source_ids matches h.1)

sources-IsKey :
    (matches : List Candidate)
    → All IsJoined matches
    → IsKey doc_id_of matches
    → IsKey SourceMatch.knowledge_base_id (map source_of matches)
unfolding source_of
sources-IsKey [] h keyed = tt
sources-IsKey (c ∷ matches) h keyed = (
  ap (λ ids. contains ids c.knowledge_base.id) (source_ids matches h.1)
      ∙ ap (contains (map doc_id_of matches)) h.0
      ∙ keyed.0,
  sources-IsKey matches h.1 keyed.1,
)

length-map : {A B : Type 0} (f : A → B) (xs : List A) → length (map f xs) ≡ length xs
length-map f [] = refl
length-map f (x ∷ xs) = ap suc (length-map f xs)

-- A search reports at most `top_k` sources and no document twice, if every candidate passage comes with
-- its own document.
pub search_knowledge_base_with_sources_lem :
    (top_k max_excerpt_chars : ℕ) (candidates : List Candidate)
    → All IsJoined candidates
    → (length (search_knowledge_base_with_sources top_k max_excerpt_chars candidates).sources
        ≤ top_k)
      × IsKey SourceMatch.knowledge_base_id
          (search_knowledge_base_with_sources top_k max_excerpt_chars candidates).sources
unfolding search_knowledge_base_with_sources deduplicate_by_document
search_knowledge_base_with_sources_lem top_k max_excerpt_chars [] h = (omega arith, tt)
search_knowledge_base_with_sources_lem top_k max_excerpt_chars (c ∷ candidates) h =
    let distinct = deduplicate [] (c ∷ candidates) in
    let matches = take top_k distinct in
    (
      omega (arith, length-map source_of matches, length-take top_k distinct),
      sources-IsKey matches (take-All top_k distinct (deduplicate-All [] (c ∷ candidates) h))
          (take-IsKey top_k distinct (deduplicate-IsKey [] (c ∷ candidates))),
    )
