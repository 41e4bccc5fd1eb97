-- ===== src/Guardrails/Output.antt =====
-- backend/app/guardrails/output_guardrail.py. `str.lower` and the substitutions of `re` are parameters.
use eaistack.Base.{
  ℕ, suc, Bool, true, not, ◌&&◌, Option, none, some, List, [], ◌∷◌, map, ltb, leb, length, take,
  drop, ◌==◌, nat_eq, list_eq, if◌then◌else◌,
}
use eaistack.Base.Text.{Text, words, join}

pub record Python : Type 0 where
  pub lower : Text → Text
  -- `pattern.sub("[redacted]", text)` of each pattern; the second is made from the span that leaked.
  pub sub_disclosure : Text → Text
  pub sub_leak : Text → Text → Text
  pub sub_credential : Text → Text

abbrev pub verbatim_leak_min_words : ℕ
verbatim_leak_min_words = 6

-- How far two word sequences agree from their starts.
unfoldable pub match_length : List Text → List Text → ℕ
match_length [] prompt = 0
match_length (t ∷ text) [] = 0
match_length (t ∷ text) (p ∷ prompt) =
    let rest = match_length text prompt in if t == p then suc rest else 0

-- `best_match is None or match_length > best_match[1]`
abbrev pub is_longer : ℕ → Option (ℕ × ℕ) → Bool
is_longer n none = true
is_longer n (some (start, length)) = ltb length n

abbrev pub better : ℕ → ℕ → Option (ℕ × ℕ) → Option (ℕ × ℕ)
better text_start n best_match =
    if leb verbatim_leak_min_words n && is_longer n best_match
    then some (text_start, n)
    else best_match

-- The loop over the starts in the prompt; `text` is what follows `text_start`.
unfoldable pub scan_prompt : ℕ → List Text → List Text → Option (ℕ × ℕ) → Option (ℕ × ℕ)
scan_prompt text_start text [] best_match = best_match
scan_prompt text_start text (p ∷ prompt) best_match =
    scan_prompt text_start text prompt
      (better text_start (match_length text (p ∷ prompt)) best_match)

-- The loop over the starts in the text.
unfoldable pub scan_text : ℕ → List Text → List Text → Option (ℕ × ℕ) → Option (ℕ × ℕ)
scan_text text_start [] prompt best_match = best_match
scan_text text_start (t ∷ text) prompt best_match =
    scan_text (suc text_start) text prompt (scan_prompt text_start (t ∷ text) prompt best_match)

abbrev pub span_of : List Text → Option (ℕ × ℕ) → Option Text
span_of text_words none = none
span_of text_words (some (start, length)) =
    some (join (32 ∷ []) (take length (drop start text_words)))

unfoldable pub best_leak : Python → Text → Text → Option (ℕ × ℕ)
best_leak py text system_prompt =
    let prompt_words = map py.lower (words system_prompt) in
    let found = scan_text 0 (map py.lower (words text)) prompt_words none in
    if ltb (length prompt_words) verbatim_leak_min_words then none else found

unfoldable pub find_verbatim_prompt_leak : Python → Text → Text → Option Text
find_verbatim_prompt_leak py text system_prompt =
    span_of (words text) (best_leak py text system_prompt)

pub record OutputGuardrailResult : Type 0 where
  pub text : Text
  pub was_modified : Bool

abbrev pub without_span : Python → Text → Option Text → Text
without_span py filtered none = filtered
without_span py filtered (some leaked_span) = py.sub_leak leaked_span filtered

-- A prompt that is missing or empty is not looked for.
abbrev pub without_leak : Python → Option Text → Text → Text
without_leak py none filtered = filtered
without_leak py (some []) filtered = filtered
without_leak py (some (c ∷ prompt)) filtered =
    without_span py filtered (find_verbatim_prompt_leak py filtered (c ∷ prompt))

unfoldable pub filter_output : Python → Text → Option Text → OutputGuardrailResult
filter_output py text system_prompt =
    let filtered = py.sub_credential (without_leak py system_prompt (py.sub_disclosure text)) in
    record { text = filtered; was_modified = not (filtered == text) }
