-- ===== src/Chunking/Tests.antt =====
-- Witness: three atoms of two words, chunks of at most three words with one repeated.
use eaistack.Base.{List, [], ◌∷◌, arith}
use eaistack.Base.Text.{Text, codes, words, push, starts_blank, is_space}
use eaistack.Chunking.{approximate_token_count, pack_atoms_into_chunks}
use eaistack.Chunking.Bounded.{AreWithin, pack_atoms_into_chunks-AreWithin}

abbrev atoms : List Text
atoms = codes "a b" ∷ codes "c d" ∷ codes "e f" ∷ []

two_words : AreWithin 3 atoms
unfolding approximate_token_count words push starts_blank is_space
two_words = (omega arith, (omega arith, (omega arith, tt)))

pack_atoms_into_chunks-AreWithin_example : AreWithin 6 (pack_atoms_into_chunks 2 3 1 atoms)
pack_atoms_into_chunks-AreWithin_example = pack_atoms_into_chunks-AreWithin 2 3 1 atoms two_words
