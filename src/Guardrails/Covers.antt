-- ===== src/Guardrails/Covers.antt =====
-- The scan for a leak tries every pair of starts.
use eaistack.Base.{
  ℕ, zero, suc, ◌≤◌, Option, none, some, List, [], ◌∷◌, ◌++◌, length, take, drop, ◌==◌, nat_eq,
  list_eq, ◌≡◌, refl, ap, arith, Bool-cases, inl, inr, eq_of_beq, beq_self,
}
use eaistack.Base.Text.{Text}
use eaistack.Guardrails.Output.{match_length, better, scan_prompt, scan_text}

pub take-drop : (n : ℕ) (xs : List Text) → take n xs ++ drop n xs ≡ xs
take-drop zero xs = refl
take-drop (suc n) [] = refl
take-drop (suc n) (x ∷ xs) = ap (λ l. x ∷ l) (take-drop n xs)

pub length-take_le : (n : ℕ) (xs : List Text) → n ≤ length xs → length (take n xs) ≡ n
length-take_le zero xs h = refl
length-take_le (suc n) [] h = omega arith
length-take_le (suc n) (x ∷ xs) h = omega (arith, length-take_le n xs (omega arith))

pub drop_next :
    (n : ℕ) (x : Text) (xs rest : List Text) → drop n xs ≡ x ∷ rest → drop (suc n) xs ≡ rest
drop_next zero x [] rest h = cc
drop_next zero x (y ∷ xs) rest h = cc
drop_next (suc n) x [] rest h = cc
drop_next (suc n) x (y ∷ xs) rest h = drop_next n x xs rest h

match_length-nil : (text : List Text) → match_length text [] ≡ 0
unfolding match_length
match_length-nil [] = refl
match_length-nil (t ∷ text) = refl

-- A run that both begin with is matched.
pub match_length-run :
    (run text prompt : List Text) → length run ≤ match_length (run ++ text) (run ++ prompt)
unfolding match_length
match_length-run [] text prompt = omega arith
match_length-run (w ∷ run) text prompt =
    rw (beq_self w) (omega (arith, match_length-run run text prompt))

pub match_length-le : (text prompt : List Text) → match_length text prompt ≤ length text
unfolding match_length
match_length-le [] prompt = omega arith
match_length-le (t ∷ text) [] = omega arith
match_length-le (t ∷ text) (p ∷ prompt) = ground (arith, match_length-le text prompt)

-- What is matched is the same on both sides.
pub take-match_length :
    (text prompt : List Text)
    → take (match_length text prompt) text ≡ take (match_length text prompt) prompt
unfolding match_length
take-match_length [] [] = refl
take-match_length [] (p ∷ prompt) = refl
take-match_length (t ∷ text) [] = refl
take-match_length (t ∷ text) (p ∷ prompt) = elim (Bool-cases (t == p)) [
  | inl same ↦ rw (same, eq_of_beq t p same, take-match_length text prompt) refl
  | inr differs ↦ rw differs refl
]

-- How many words the best match has; fewer than the least number of words are no match.
abbrev pub bound : Option (ℕ × ℕ) → ℕ
bound none = 5
bound (some (start, n)) = n

bound-better :
    (start n : ℕ) (best : Option (ℕ × ℕ))
    → 5 ≤ bound best
    → (bound best ≤ bound (better start n best)) × (n ≤ bound (better start n best))
bound-better start n none h = ground arith
bound-better start n (some (s, l)) h = ground arith

bound-scan_prompt :
    (start : ℕ) (text prompt : List Text) (best : Option (ℕ × ℕ))
    → 5 ≤ bound best
    → bound best ≤ bound (scan_prompt start text prompt best)
unfolding scan_prompt
bound-scan_prompt start text [] best h = omega arith
bound-scan_prompt start text (p ∷ prompt) best h =
    let step = bound-better start (match_length text (p ∷ prompt)) best h in
    omega (
      arith,
      step.0,
      bound-scan_prompt start text prompt (better start (match_length text (p ∷ prompt)) best)
          (omega (arith, step.0, h)),
    )

-- Every start in the prompt was tried.
covers-scan_prompt :
    (start : ℕ) (text before rest : List Text) (best : Option (ℕ × ℕ))
    → 5 ≤ bound best
    → match_length text rest ≤ bound (scan_prompt start text (before ++ rest) best)
unfolding scan_prompt
covers-scan_prompt start text [] [] best h = rw match_length-nil (omega arith)
covers-scan_prompt start text [] (p ∷ rest) best h =
    let step = bound-better start (match_length text (p ∷ rest)) best h in
    omega (
      arith,
      step.1,
      bound-scan_prompt start text rest (better start (match_length text (p ∷ rest)) best)
          (omega (arith, step.0, h)),
    )
covers-scan_prompt start text (q ∷ before) rest best h =
    let step = bound-better start (match_length text (q ∷ (before ++ rest))) best h in
    covers-scan_prompt start text before rest
      (better start (match_length text (q ∷ (before ++ rest))) best) (omega (arith, step.0, h))

bound-scan_text :
    (start : ℕ) (text prompt : List Text) (best : Option (ℕ × ℕ))
    → 5 ≤ bound best
    → bound best ≤ bound (scan_text start text prompt best)
unfolding scan_text
bound-scan_text start [] prompt best h = omega arith
bound-scan_text start (t ∷ text) prompt best h =
    let step = bound-scan_prompt start (t ∷ text) prompt best h in
    omega (
      arith,
      step,
      bound-scan_text (suc start) text prompt (scan_prompt start (t ∷ text) prompt best)
          (omega (arith, step, h)),
    )

-- Every start in the text was tried against every start in the prompt.
pub covers-scan_text :
    (start : ℕ) (before rest prompt_before prompt_rest : List Text) (best : Option (ℕ × ℕ))
    → 5 ≤ bound best
    → match_length rest prompt_rest
      ≤ bound (scan_text start (before ++ rest) (prompt_before ++ prompt_rest) best)
unfolding scan_text
covers-scan_text start [] [] prompt_before prompt_rest best h = unfold match_length in omega arith
covers-scan_text start [] (t ∷ rest) prompt_before prompt_rest best h =
    let prompt = prompt_before ++ prompt_rest in
    let step = bound-scan_prompt start (t ∷ rest) prompt best h in
    omega (
      arith,
      covers-scan_prompt start (t ∷ rest) prompt_before prompt_rest best h,
      bound-scan_text (suc start) rest prompt (scan_prompt start (t ∷ rest) prompt best)
          (omega (arith, step, h)),
    )
covers-scan_text start (q ∷ before) rest prompt_before prompt_rest best h =
    let prompt = prompt_before ++ prompt_rest in
    let step = bound-scan_prompt start (q ∷ (before ++ rest)) prompt best h in
    covers-scan_text (suc start) before rest prompt_before prompt_rest
      (scan_prompt start (q ∷ (before ++ rest)) prompt best) (omega (arith, step, h))
