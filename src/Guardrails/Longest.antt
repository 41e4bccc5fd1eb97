-- ===== src/Guardrails/Longest.antt =====
-- What the search for a leak of the system prompt finds: a longest run of words that both texts have.
use mathlib.Core.List.{append_assoc}
use eaistack.Base.{
  ℕ, suc, ◌≤◌, ◌<◌, Bool, true, ◌&&◌, Option, none, some, List, [], ◌∷◌, ◌++◌, map, ltb, leb,
  length, take, drop, nat_eq, list_eq, ◌≡◌, refl, sym, ◌∙◌, ap, subst, arith, Bool-cases, inl, inr,
  length-append,
}
use eaistack.Base.Text.{Text, words}
use eaistack.Guardrails.Output.{
  Python, verbatim_leak_min_words, match_length, is_longer, better, scan_prompt, scan_text, span_of,
  best_leak, find_verbatim_prompt_leak,
}
use eaistack.Guardrails.Covers.{
  take-drop, length-take_le, drop_next, match_length-run, match_length-le, take-match_length, bound,
  covers-scan_text,
}

-- A best match stands in the text and, from some start on, in the prompt.
abbrev IsMatch : List Text → List Text → Option (ℕ × ℕ) → Type 0
IsMatch text prompt none = Unit
IsMatch text prompt (some (start, n)) =
    (6 ≤ n)
    × (before : List Text) × (rest : List Text) × (prompt ≡ before ++ rest)
    × (n ≡ match_length (drop start text) rest)

module _ (text prompt : List Text) where
  better-IsMatch :
      (start : ℕ) (rest before after : List Text) (best : Option (ℕ × ℕ))
      → drop start text ≡ rest
      → prompt ≡ before ++ after
      → IsMatch text prompt best
      → IsMatch text prompt (better start (match_length rest after) best)
  better-IsMatch start rest before after best here split h =
      elim (Bool-cases
        (leb 6 (match_length rest after) && is_longer (match_length rest after) best)) [
          | inl longer ↦
              rw longer
                (enough (match_length rest after) _ longer, before, after, split, rw here refl)
          | inr shorter ↦ rw shorter h
        ]
    where
      enough : (n : ℕ) (b : Bool) → leb 6 n && b ≡ true → 6 ≤ n
      enough n b h = ground arith

  scan_prompt-IsMatch :
      (start : ℕ) (rest before after : List Text) (best : Option (ℕ × ℕ))
      → drop start text ≡ rest
      → prompt ≡ before ++ after
      → IsMatch text prompt best
      → IsMatch text prompt (scan_prompt start rest after best)
  unfolding scan_prompt
  scan_prompt-IsMatch start rest before [] best here split h = h
  scan_prompt-IsMatch start rest before (p ∷ after) best here split h =
      scan_prompt-IsMatch start rest (before ++ p ∷ []) after
        (better start (match_length rest (p ∷ after)) best) here
        (split ∙ sym (append_assoc before (p ∷ []) after))
        (better-IsMatch start rest before (p ∷ after) best here split h)

  scan_text-IsMatch :
      (start : ℕ) (rest : List Text) (best : Option (ℕ × ℕ))
      → drop start text ≡ rest
      → IsMatch text prompt best
      → IsMatch text prompt (scan_text start rest prompt best)
  unfolding scan_text
  scan_text-IsMatch start [] best here h = h
  scan_text-IsMatch start (t ∷ rest) best here h =
      scan_text-IsMatch (suc start) rest (scan_prompt start (t ∷ rest) prompt best)
        (drop_next start t text rest here)
        (scan_prompt-IsMatch start (t ∷ rest) [] prompt best here refl h)

-- The run stands in both word sequences.
abbrev pub IsShared : List Text → List Text → List Text → Type 0
IsShared text prompt run =
    ((before : List Text) × (after : List Text) × (text ≡ before ++ (run ++ after)))
    × ((before : List Text) × (after : List Text) × (prompt ≡ before ++ (run ++ after)))

-- What is found of two word sequences: nothing, where no run of six words stands in both, and otherwise
-- where a longest one stands and how long it is.
abbrev pub IsLongest : List Text → List Text → Option (ℕ × ℕ) → Type 0
IsLongest text prompt none =
    (run : List Text) → IsShared text prompt run → length run < verbatim_leak_min_words
IsLongest text prompt (some (start, n)) =
    (verbatim_leak_min_words ≤ n)
    × (length (take n (drop start text)) ≡ n)
    × IsShared text prompt (take n (drop start text))
    × ((run : List Text) → IsShared text prompt run → length run ≤ n)

covered :
    (text prompt run : List Text)
    → IsShared text prompt run
    → length run ≤ bound (scan_text 0 text prompt none)
covered text prompt run ((b, a, e), (c, d, f)) =
    rw (e, f)
      (omega (
        arith,
        match_length-run run a d,
        covers-scan_text 0 b (run ++ a) c (run ++ d) none (omega arith),
      ))

found :
    (text prompt : List Text) (best : Option (ℕ × ℕ))
    → IsMatch text prompt best
    → ((run : List Text) → IsShared text prompt run → length run ≤ bound best)
    → IsLongest text prompt best
found text prompt none h cover = λ run shared. omega (arith, cover run shared)
found text prompt (some (start, n)) (least, before, rest, split, same) cover =
    let here = drop start text in
    let both = subst (λ k. take k here ≡ take k rest) (sym same) (take-match_length here rest) in
    (
      least,
      length-take_le n here (rw same (match_length-le here rest)),
      (
        (
          take start text,
          drop n here,
          sym (ap (λ l. take start text ++ l) (take-drop n here) ∙ take-drop start text),
        ),
        (
          before,
          drop n rest,
          split
              ∙ ap (λ l. before ++ l)
                  (sym (take-drop n rest) ∙ ap (λ l. l ++ drop n rest) (sym both)),
        ),
      ),
      cover,
    )

scanned : (text prompt : List Text) → IsLongest text prompt (scan_text 0 text prompt none)
scanned text prompt =
    found text prompt (scan_text 0 text prompt none)
      (scan_text-IsMatch text prompt 0 text none refl tt) (covered text prompt)

-- A run of a prompt is no longer than the prompt.
shared_le : (text prompt run : List Text) → IsShared text prompt run → length run ≤ length prompt
shared_le text prompt run (h, (before, after, e)) =
    rw e (omega (arith, length-append before (run ++ after), length-append run after))

best_leak-IsLongest :
    (py : Python) (text system_prompt : Text)
    → IsLongest
        (map py.lower (words text))
        (map py.lower (words system_prompt))
        (best_leak py text system_prompt)
unfolding best_leak
best_leak-IsLongest py text system_prompt =
    let lowered = map py.lower (words text) in
    let prompt = map py.lower (words system_prompt) in
    elim (Bool-cases (ltb (length prompt) verbatim_leak_min_words)) [
      | inl short ↦ rw short (λ run shared.
          below (length run) (length prompt) short (shared_le lowered prompt run shared))
      | inr long ↦ rw long (scanned lowered prompt)
    ]
  where
    below : (n m : ℕ) → ltb m 6 ≡ true → n ≤ m → n < 6
    below n m h k = ground arith

-- The search for a leak returns nothing exactly if no run of six or more words of the response stands in
-- the system prompt, both lowered, and otherwise the words of a longest run that does, as the response
-- spells them and joined by blanks.
pub find_verbatim_prompt_leak-longest :
    (py : Python) (text system_prompt : Text)
    → (best : Option (ℕ × ℕ)) × IsLongest
        (map py.lower (words text))
        (map py.lower (words system_prompt))
        best
      × (find_verbatim_prompt_leak py text system_prompt ≡ span_of (words text) best)
unfolding find_verbatim_prompt_leak
find_verbatim_prompt_leak-longest py text system_prompt =
    (best_leak py text system_prompt, best_leak-IsLongest py text system_prompt, refl)
