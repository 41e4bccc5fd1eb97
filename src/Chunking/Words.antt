-- ===== src/Chunking/Words.antt =====
-- How many words joined texts have.
use eaistack.Base.{
  ℕ, zero, suc, ◌+◌, ◌≤◌, ◌-◌, true, false, List, [], ◌∷◌, ◌++◌, length, length-append, drop, ◌≡◌,
  refl, ap, arith, Bool-cases, inl, inr, All,
}
use eaistack.Base.Text.{Text, words, words-append, push, starts_blank, is_space, join}
use eaistack.Chunking.{break, space, approximate_token_count, tail_tokens}

-- A text of one word, which it starts with.
abbrev IsWord : Text → Type 0
IsWord w = (words w ≡ w ∷ []) × (starts_blank w ≡ false)

push-IsWord : (c : ℕ) (ws : List Text) → is_space c ≡ false → ws ≡ [] → All IsWord (push c ws)
unfolding push words starts_blank
push-IsWord c [] h e = ((rw h refl, h), tt)
push-IsWord c (w ∷ ws) h e = cc

pushed-IsWord :
    (c : ℕ) (ws : List Text) → is_space c ≡ false → All IsWord ws → All IsWord (push c ws)
unfolding push words starts_blank
pushed-IsWord c [] h all = ((rw h refl, h), tt)
pushed-IsWord c (w ∷ ws) h all = ((rw (h, all.0.1, all.0.0) refl, h), all.1)

words-IsWord : (s : Text) → All IsWord (words s)
unfolding words starts_blank
words-IsWord [] = tt
words-IsWord (c ∷ s) = elim (Bool-cases (is_space c)) [
  | inl blank ↦ rw blank (words-IsWord s)
  | inr other ↦ elim (Bool-cases (starts_blank s)) [
    | inl alone ↦ rw (other, alone) ((rw other refl, other), words-IsWord s)
    | inr more ↦ rw (other, more) (pushed-IsWord c (words s) other (words-IsWord s))
  ]
]

-- The words of all parts together.
abbrev pub total : List Text → ℕ
total [] = 0
total (p ∷ ps) = approximate_token_count p + total ps

pub total-append : (ps qs : List Text) → total (ps ++ qs) ≡ total ps + total qs
total-append [] qs = omega arith
total-append (p ∷ ps) qs = omega (arith, total-append ps qs)

pub count_nil : approximate_token_count [] ≡ 0
unfolding approximate_token_count words
count_nil = refl

-- Text that goes on with a separator of white space and more text.
count-blank :
    (a sep b : Text)
    → starts_blank (sep ++ b) ≡ true
    → words (sep ++ b) ≡ words b
    → approximate_token_count (a ++ (sep ++ b))
      ≡ approximate_token_count a + approximate_token_count b
unfolding approximate_token_count
count-blank a sep b blank skipped = omega (
  arith,
  ap length (words-append a (sep ++ b) blank),
  length-append (words a) (words (sep ++ b)),
  ap length skipped,
)

break_lem : (b : Text) → (starts_blank (break ++ b) ≡ true) × (words (break ++ b) ≡ words b)
unfolding words starts_blank is_space
break_lem b = (refl, refl)

space_lem : (b : Text) → (starts_blank (space ++ b) ≡ true) × (words (space ++ b) ≡ words b)
unfolding words starts_blank is_space
space_lem b = (refl, refl)

pub count-break :
    (a b : Text)
    → approximate_token_count (a ++ (break ++ b))
      ≡ approximate_token_count a + approximate_token_count b
count-break a b = count-blank a break b (break_lem b).0 (break_lem b).1

count-space :
    (a b : Text)
    → approximate_token_count (a ++ (space ++ b))
      ≡ approximate_token_count a + approximate_token_count b
count-space a b = count-blank a space b (space_lem b).0 (space_lem b).1

pub count-join-break : (ps : List Text) → approximate_token_count (join break ps) ≡ total ps
unfolding join
count-join-break [] = count_nil
count-join-break (p ∷ []) = omega arith
count-join-break (p ∷ q ∷ ps) =
    omega (arith, count-break p (join break (q ∷ ps)), count-join-break (q ∷ ps))

count-join-space : (ps : List Text) → approximate_token_count (join space ps) ≡ total ps
unfolding join
count-join-space [] = count_nil
count-join-space (p ∷ []) = omega arith
count-join-space (p ∷ q ∷ ps) =
    omega (arith, count-space p (join space (q ∷ ps)), count-join-space (q ∷ ps))

total-words : (ws : List Text) → All IsWord ws → total ws ≡ length ws
unfolding approximate_token_count
total-words [] h = refl
total-words (w ∷ ws) h = omega (arith, ap length h.0.0, total-words ws h.1)

drop-All : (n : ℕ) (ws : List Text) → All IsWord ws → All IsWord (drop n ws)
drop-All zero ws h = h
drop-All (suc n) [] h = tt
drop-All (suc n) (w ∷ ws) h = drop-All n ws h.1

length-drop : (n : ℕ) (ws : List Text) → length (drop n ws) ≡ length ws - n
length-drop zero ws = omega arith
length-drop (suc n) [] = omega arith
length-drop (suc n) (w ∷ ws) = omega (arith, length-drop n ws)

-- The tail of a text has at most as many words as were asked for.
pub count-tail_tokens : (text : Text) (n : ℕ) → approximate_token_count (tail_tokens text n) ≤ n
unfolding tail_tokens
count-tail_tokens text zero = omega (arith, count_nil)
count-tail_tokens text (suc n) =
    let ws = drop (length (words text) - suc n) (words text) in
    omega (
      arith,
      count-join-space ws,
      total-words ws (drop-All (length (words text) - suc n) (words text) (words-IsWord text)),
      length-drop (length (words text) - suc n) (words text),
    )
