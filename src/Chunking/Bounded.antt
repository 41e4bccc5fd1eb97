-- ===== src/Chunking/Bounded.antt =====
-- How large a chunk can be.
use eaistack.Base.{
  ℕ, ◌+◌, ◌≤◌, false, not, ◌&&◌, List, [], ◌∷◌, ◌++◌, ltb, leb, ◌≡◌, refl, arith, Bool-cases, inl,
  inr, All,
}
use eaistack.Base.Text.{Text, join}
use eaistack.Chunking.{
  break, approximate_token_count, tail_tokens, merge_small_tail, is_blank, start_with, pack,
  pack_atoms_into_chunks,
}
use eaistack.Chunking.Words.{
  total, total-append, count_nil, count-break, count-join-break, count-tail_tokens,
}

-- No text of the list has more words than the limit.
abbrev pub AreWithin : ℕ → List Text → Type 0
AreWithin limit texts = All (λ t. approximate_token_count t ≤ limit) texts

total-start_with :
    (overlap_text : Text) → total (start_with overlap_text) ≡ approximate_token_count overlap_text
total-start_with [] = omega (arith, count_nil)
total-start_with (c ∷ t) = omega arith

-- What the loop adds without a flush keeps to the limit.
grown :
    (limit overlap : ℕ) (current : List Text) (tokens t : ℕ)
    → total current ≡ tokens
    → t ≤ limit
    → (not (is_blank current) && ltb limit (tokens + t)) ≡ false
    → tokens + t ≤ limit + overlap
grown limit overlap [] tokens t same small fits = omega arith
grown limit overlap (c ∷ current) tokens t same small fits = ground arith

pack-AreWithin :
    (max_chunk_tokens overlap_tokens : ℕ) (atoms current : List Text) (tokens : ℕ)
    → AreWithin max_chunk_tokens atoms
    → total current ≡ tokens
    → tokens ≤ max_chunk_tokens + overlap_tokens
    → AreWithin
        (max_chunk_tokens + overlap_tokens)
        (pack max_chunk_tokens overlap_tokens current tokens atoms)
unfolding pack
pack-AreWithin limit overlap [] [] tokens h same small = tt
pack-AreWithin limit overlap [] (c ∷ current) tokens h same small =
    (omega (arith, count-join-break (c ∷ current)), tt)
pack-AreWithin limit overlap (atom ∷ atoms) current tokens h same small =
    let flushed = join break current in
    let overlap_text = tail_tokens flushed overlap in
    let t = approximate_token_count atom in
    elim (Bool-cases (not (is_blank current) && ltb limit (tokens + t))) [
      | inl over ↦ rw over (
        omega (arith, count-join-break current),
        pack-AreWithin limit overlap atoms (start_with overlap_text ++ atom ∷ [])
            (approximate_token_count overlap_text + t) h.1
            (omega (
              arith,
              total-append (start_with overlap_text) (atom ∷ []),
              total-start_with overlap_text,
            ))
            (omega (arith, count-tail_tokens flushed overlap, h.0)),
      )
      | inr fits ↦ rw fits (
          pack-AreWithin limit overlap atoms (current ++ atom ∷ []) (tokens + t) h.1
            (omega (arith, total-append current (atom ∷ [])))
            (grown limit overlap current tokens t same h.0 fits))
    ]

merge_small_tail-AreWithin :
    (min_chunk_tokens limit : ℕ) (chunks : List Text)
    → AreWithin limit chunks
    → AreWithin (limit + min_chunk_tokens) (merge_small_tail min_chunk_tokens chunks)
unfolding merge_small_tail
merge_small_tail-AreWithin small limit [] h = tt
merge_small_tail-AreWithin small limit (a ∷ []) h = (omega (arith, h.0), tt)
merge_small_tail-AreWithin small limit (a ∷ b ∷ []) h =
    elim (Bool-cases (leb small (approximate_token_count b))) [
      | inl large ↦ rw large (omega (arith, h.0), (omega (arith, h.1.0), tt))
      | inr tiny ↦ rw tiny (ground (arith, count-break a b, h.0), tt)
    ]
merge_small_tail-AreWithin small limit (a ∷ b ∷ c ∷ chunks) h =
    (omega (arith, h.0), merge_small_tail-AreWithin small limit (b ∷ c ∷ chunks) h.1)

-- Where no atom has more words than the maximum, which a code block may, no chunk has more than the
-- maximum, the overlap and the minimum together.
pub pack_atoms_into_chunks-AreWithin :
    (min_chunk_tokens max_chunk_tokens overlap_tokens : ℕ) (atoms : List Text)
    → AreWithin max_chunk_tokens atoms
    → AreWithin
        (max_chunk_tokens + overlap_tokens + min_chunk_tokens)
        (pack_atoms_into_chunks min_chunk_tokens max_chunk_tokens overlap_tokens atoms)
unfolding pack_atoms_into_chunks
pack_atoms_into_chunks-AreWithin small limit overlap atoms h =
    merge_small_tail-AreWithin small (limit + overlap) (pack limit overlap [] 0 atoms)
      (pack-AreWithin limit overlap atoms [] 0 h refl (omega arith))
