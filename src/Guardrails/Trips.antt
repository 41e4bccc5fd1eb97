-- ===== src/Guardrails/Trips.antt =====
-- Which rows of the pattern table refuse a message.
use mathlib.Core.Path.{ap₂}
use eaistack.Base.{
  String, Bool, true, false, not, ◌&&◌, ◌||◌, Option, none, some, List, [], ◌∷◌, contains, any,
  string_eq, if◌then◌else◌, ◌≡◌, refl, sym, ◌∙◌, arith, Bool-cases, inl, inr, In, In-of-contains,
  contains-of-In,
}
use eaistack.Base.Text.{Text, codes}
use eaistack.Workflow.Primitives.{occurs}
use eaistack.Guardrails.Patterns.{is_custom, GuardrailPattern, Patterns}
use eaistack.Guardrails.Input.{
  Python, prompt_injection_patterns, is_prompt_injection, place, list_all, is_enabled_built_in,
  enabled_ids, phrase_before, enabled_phrases,
}

and_parts : (a b : Bool) → a && b ≡ true → (a ≡ true) × (b ≡ true)
and_parts a b h = ground arith

pub if_true : {A : Type 0} (b : Bool) (x y : A) → b ≡ true → (if b then x else y) ≡ x
if_true b x y h = rw h refl

pub if_false : {A : Type 0} (b : Bool) (x y : A) → b ≡ false → (if b then x else y) ≡ y
if_false b x y h = rw h refl

pub not-false : (b : Bool) → not b ≡ true → b ≡ false
not-false b h = ground arith

pub not-true : (b : Bool) → not b ≡ false → b ≡ true
not-true b h = ground arith

bool_ext : (a b : Bool) → (a ≡ true → b ≡ true) → (b ≡ true → a ≡ true) → a ≡ b
bool_ext a b f g = ground arith

module _ {A : Type 0} (p : A → Bool) where
  any-In : (xs : List A) → any p xs ≡ true → (x : A) × In x xs × (p x ≡ true)
  any-In [] h = cc
  any-In (x ∷ xs) h = elim (Bool-cases (p x)) [
    | inl here ↦ (x, inl refl, here)
    | inr later ↦ let (y, m, e) = any-In xs (rw later at h) in (y, inr m, e)
  ]

  any_of_In : (xs : List A) (x : A) → In x xs → p x ≡ true → any p xs ≡ true
  any_of_In [] x m h = absurd m
  any_of_In (y ∷ xs) x (inl same) h = rw (same, h) refl
  any_of_In (y ∷ xs) x (inr later) h = ground (arith, any_of_In xs x later h)

-- The phrase of a row is in the message.
abbrev pub has_phrase : Python → Text → Option String → Bool
has_phrase py message none = false
has_phrase py message (some text) = occurs (py.lower (codes text)) (py.lower message)

-- A row refuses the message: a built-in pattern of the code that is on and is found in the message, or a
-- phrase that is on and occurs in it, upper and lower case not distinguished.
abbrev pub trips : Python → Text → GuardrailPattern → Bool
trips py message r =
    r.enabled
    && (if is_custom r.source
        then has_phrase py message r.pattern_text
        else contains prompt_injection_patterns r.id && py.search r.id message)

module _ (p : GuardrailPattern → Bool) (precedes : String → String → Bool) where
  any-place :
      (r : GuardrailPattern) (rows : Patterns) → any p (place precedes r rows) ≡ p r || any p rows
  any-place r [] = refl
  any-place r (x ∷ rows) = ground (arith, any-place r rows)

  -- The order of the rows does not matter.
  any-list_all : (rows : Patterns) → any p (list_all precedes rows) ≡ any p rows
  unfolding list_all
  any-list_all [] = refl
  any-list_all (r ∷ rows) = rw (any-place r (list_all precedes rows), any-list_all rows) refl

module _ (py : Python) (message : Text) where
  abbrev trips_built_in : GuardrailPattern → Bool
  trips_built_in r =
      is_enabled_built_in r && (contains prompt_injection_patterns r.id && py.search r.id message)

  abbrev trips_phrase : GuardrailPattern → Bool
  trips_phrase r = (is_custom r.source && r.enabled) && has_phrase py message r.pattern_text

  trips_split :
      (rows : Patterns)
      → any (trips py message) rows ≡ any trips_built_in rows || any trips_phrase rows
  trips_split [] = refl
  trips_split (r ∷ rows) = ground (arith, trips_split rows)

  any-phrase_before :
      (o : Option String) (phrases : List Text)
      → any (λ phrase. occurs (py.lower phrase) (py.lower message)) (phrase_before o phrases)
        ≡ has_phrase py message o
          || any (λ phrase. occurs (py.lower phrase) (py.lower message)) phrases
  any-phrase_before none phrases = refl
  any-phrase_before (some text) phrases = refl

  any-enabled_phrases :
      (rows : Patterns)
      → any (λ phrase. occurs (py.lower phrase) (py.lower message)) (enabled_phrases rows)
        ≡ any trips_phrase rows
  unfolding enabled_phrases
  any-enabled_phrases [] = refl
  any-enabled_phrases (r ∷ rows) = elim (Bool-cases (is_custom r.source && r.enabled)) [
    | inl on ↦
        rw (on, any-phrase_before r.pattern_text (enabled_phrases rows), any-enabled_phrases rows)
          refl
    | inr off ↦ rw (off, any-enabled_phrases rows) refl
  ]

  -- An id that is enabled is that of an enabled row.
  enabled_row :
      (rows : Patterns) (id : String)
      → In id (enabled_ids rows)
      → (r : GuardrailPattern) × In r rows × (is_enabled_built_in r ≡ true) × (r.id ≡ id)
  enabled_row [] id m = absurd m
  enabled_row (r ∷ rows) id m = elim (Bool-cases (is_enabled_built_in r)) [
    | inl on ↦ elim (rw on at m) [
      | inl same ↦ (r, inl refl, on, same)
      | inr later ↦ let (q, i, e, s) = enabled_row rows id later in (q, inr i, e, s)
    ]
    | inr off ↦ let (q, i, e, s) = enabled_row rows id (rw off at m) in (q, inr i, e, s)
  ]

  row_enabled :
      (rows : Patterns) (r : GuardrailPattern)
      → In r rows
      → is_enabled_built_in r ≡ true
      → In r.id (enabled_ids rows)
  row_enabled [] r m h = absurd m
  row_enabled (x ∷ rows) r (inl same) h = rw (same, h) (inl refl)
  row_enabled (x ∷ rows) r (inr later) h = elim (Bool-cases (is_enabled_built_in x)) [
    | inl on ↦ rw on (inr (row_enabled rows r later h))
    | inr off ↦ rw off (row_enabled rows r later h)
  ]

  abbrev named : Patterns → String → Bool
  named rows id = contains (enabled_ids rows) id && py.search id message

  named_of_row :
      (rows : Patterns)
      → any trips_built_in rows ≡ true
      → any (named rows) prompt_injection_patterns ≡ true
  named_of_row rows h =
      let (r, m, trip) = any-In trips_built_in rows h in
      let (on, both) = and_parts (is_enabled_built_in r) _ trip in
      let (known, found) =
        and_parts (contains prompt_injection_patterns r.id) (py.search r.id message) both in
      any_of_In (named rows) prompt_injection_patterns r.id
        (In-of-contains prompt_injection_patterns r.id known)
        (rw (contains-of-In (enabled_ids rows) r.id (row_enabled rows r m on)) found)

  row_of_named :
      (rows : Patterns)
      → any (named rows) prompt_injection_patterns ≡ true
      → any trips_built_in rows ≡ true
  row_of_named rows h =
      let (id, m, trip) = any-In (named rows) prompt_injection_patterns h in
      let (known, found) = and_parts (contains (enabled_ids rows) id) (py.search id message) trip in
      let (r, i, on, same) = enabled_row rows id (In-of-contains (enabled_ids rows) id known) in
      any_of_In trips_built_in rows r i
        (rw (on, same, contains-of-In prompt_injection_patterns id m) found)

  pub is_prompt_injection-trips :
      (precedes : String → String → Bool) (rows : Patterns)
      → is_prompt_injection py message
          (enabled_ids (list_all precedes rows))
          (enabled_phrases (list_all precedes rows))
        ≡ any (trips py message) rows
  unfolding is_prompt_injection
  is_prompt_injection-trips precedes rows =
      let sorted = list_all precedes rows in
      sym (
        sym (any-list_all (trips py message) precedes rows)
        ∙ trips_split sorted
        ∙ ap₂ (λ a b. a || b)
            (bool_ext (any trips_built_in sorted) (any (named sorted) prompt_injection_patterns)
              (named_of_row sorted) (row_of_named sorted))
            (sym (any-enabled_phrases sorted)))
