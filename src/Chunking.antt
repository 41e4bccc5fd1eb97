-- ===== src/Chunking.antt =====
-- The packing of a section's passages into chunks, backend/app/services/chunking_service.py. What
-- `int(max_chunk_tokens * overlap_ratio)` gives is an argument; headings and code blocks are found by
-- regular expressions and are not modelled.
pub mod Words
pub mod Bounded
mod Tests
use eaistack.Base.{
  ℕ, zero, suc, ◌+◌, ◌-◌, Bool, true, false, not, ◌&&◌, List, [], ◌∷◌, ◌++◌, length, drop, ltb, leb,
  if◌then◌else◌,
}
use eaistack.Base.Text.{Text, codes, words, join}

abbrev pub break : Text
break = 10 ∷ 10 ∷ []

abbrev pub space : Text
space = 32 ∷ []

unfoldable pub approximate_token_count : Text → ℕ
approximate_token_count text = length (words text)

-- `words[-n:]` is all of the words where there are fewer.
unfoldable pub tail_tokens : Text → ℕ → Text
tail_tokens text zero = []
tail_tokens text (suc n) = join space (drop (length (words text) - suc n) (words text))

unfoldable pub merge_small_tail : ℕ → List Text → List Text
merge_small_tail min_chunk_tokens [] = []
merge_small_tail min_chunk_tokens (last ∷ []) = last ∷ []
merge_small_tail min_chunk_tokens (before ∷ last ∷ []) =
    if leb min_chunk_tokens (approximate_token_count last)
    then before ∷ last ∷ []
    else (before ++ (break ++ last)) ∷ []
merge_small_tail min_chunk_tokens (chunk ∷ before ∷ last ∷ chunks) =
    chunk ∷ merge_small_tail min_chunk_tokens (before ∷ last ∷ chunks)

abbrev pub is_blank {ℓ} : {A : Type ℓ} → List A → Bool
is_blank [] = true
is_blank (x ∷ xs) = false

abbrev pub start_with : Text → List Text
start_with overlap_text = if is_blank overlap_text then [] else overlap_text ∷ []

-- The loop over the atoms that are left, with `current_atoms` and `current_tokens`.
unfoldable pub pack : ℕ → ℕ → List Text → ℕ → List Text → List Text
pack max_chunk_tokens overlap_tokens current tokens [] =
    if is_blank current then [] else join break current ∷ []
pack max_chunk_tokens overlap_tokens current tokens (atom ∷ atoms) =
    let atom_tokens = approximate_token_count atom in
    let flushed = join break current in
    let overlap_text = tail_tokens flushed overlap_tokens in
    let anew =
      pack max_chunk_tokens overlap_tokens (start_with overlap_text ++ atom ∷ [])
        (approximate_token_count overlap_text + atom_tokens) atoms in
    let more =
      pack max_chunk_tokens overlap_tokens (current ++ atom ∷ []) (tokens + atom_tokens) atoms in
    if not (is_blank current) && ltb max_chunk_tokens (tokens + atom_tokens)
    then flushed ∷ anew
    else more

unfoldable pub pack_atoms_into_chunks : ℕ → ℕ → ℕ → List Text → List Text
pack_atoms_into_chunks min_chunk_tokens max_chunk_tokens overlap_tokens atoms =
    merge_small_tail min_chunk_tokens (pack max_chunk_tokens overlap_tokens [] 0 atoms)
