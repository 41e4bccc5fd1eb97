-- ===== src/Guardrails/Toggled.antt =====
-- A built-in pattern stays in the table, as its last toggle left it.
use eaistack.Base.{
  ℕ, String, Bool, false, Option, none, some, List, [], ◌∷◌, ◌++◌, contains, ◌==◌, string_eq,
  bool_eq, if◌then◌else◌, ◌≡◌, refl, ap, arith, Bool-cases, Option-cases, inl, inr, eq_of_beq,
}
use eaistack.Base.Dict.{Dict}
use eaistack.Guardrails.Patterns.{
  built_in, GuardrailPattern, Patterns, ids, get, insert_or_skip, built_in_row,
  ensure_built_ins_seeded, set_enabled, is_custom, delete_custom, Store, create_guardrail_pattern,
  toggled, update_guardrail_pattern, deleted, delete_guardrail_pattern, Event, create, toggle,
  delete, seed, handle, settled, handle_all,
}

-- What an event asks for one pattern.
abbrev toggled_by : String → Bool → Event → Bool
toggled_by id now (toggle actor pattern_id enabled at) = if pattern_id == id then enabled else now
toggled_by id now other = now

-- Whether a pattern is on after some events, where it is on or off before them.
unfoldable pub last_toggle : String → Bool → List Event → Bool
last_toggle id now [] = now
last_toggle id now (e ∷ events) = last_toggle id (toggled_by id now e) events

module _ (id : String) (r : GuardrailPattern) where
  get-append : (rows more : Patterns) → get id rows ≡ some r → get id (rows ++ more) ≡ some r
  unfolding get
  get-append [] more h = cc
  get-append (x ∷ rows) more h = elim (Bool-cases (x.id == id)) [
    | inl same ↦ rw same (rw same at h)
    | inr other ↦ rw other (get-append rows more (rw other at h))
  ]

  get-insert_or_skip :
      (row : GuardrailPattern) (rows : Patterns)
      → get id rows ≡ some r
      → get id (insert_or_skip row rows) ≡ some r
  get-insert_or_skip row rows h = elim (Bool-cases (contains (ids rows) row.id)) [
    | inl there ↦ rw there h
    | inr free ↦ rw free (get-append rows _ h)
  ]

  get-ensure_built_ins_seeded :
      (built_ins : Dict String String) (existing : List String) (rows : Patterns)
      → get id rows ≡ some r
      → get id (ensure_built_ins_seeded built_ins existing rows) ≡ some r
  unfolding ensure_built_ins_seeded
  get-ensure_built_ins_seeded [] existing rows h = h
  get-ensure_built_ins_seeded ((k, label) ∷ built_ins) existing rows h =
      elim (Bool-cases (contains existing k)) [
        | inl known ↦ rw known (get-ensure_built_ins_seeded built_ins existing rows h)
        | inr new ↦ rw new (
            get-ensure_built_ins_seeded built_ins existing _
              (get-insert_or_skip (built_in_row k label) rows h))
      ]

  get-set_enabled_self :
      (enabled : Bool) (rows : Patterns)
      → get id rows ≡ some r
      → get id (set_enabled id enabled rows) ≡ some (record r { enabled = enabled })
  unfolding get set_enabled
  get-set_enabled_self enabled [] h = cc
  get-set_enabled_self enabled (x ∷ rows) h = elim (Bool-cases (x.id == id)) [
    | inl same ↦ rw (same, same) (ap (λ o. renamed o) (rw same at h))
    | inr other ↦ rw (other, other) (get-set_enabled_self enabled rows (rw other at h))
  ]
    where
      renamed : Option GuardrailPattern → Option GuardrailPattern
      renamed none = none
      renamed (some x) = some (record x { enabled = enabled })

  get-set_enabled_other :
      (k : String) (enabled : Bool) (rows : Patterns)
      → (k == id) ≡ false
      → get id rows ≡ some r
      → get id (set_enabled k enabled rows) ≡ some r
  unfolding get set_enabled
  get-set_enabled_other k enabled [] apart h = cc
  get-set_enabled_other k enabled (x ∷ rows) apart h = ground (
    arith,
    string_eq.beq_iff x.id k,
    string_eq.beq_iff x.id id,
    string_eq.beq_iff k id,
    get-set_enabled_other k enabled rows apart,
  )

  get-delete_custom :
      (k : String) (rows : Patterns)
      → (k == id) ≡ false
      → get id rows ≡ some r
      → get id (delete_custom k rows) ≡ some r
  unfolding get delete_custom
  get-delete_custom k [] apart h = cc
  get-delete_custom k (x ∷ rows) apart h = ground (
    arith,
    string_eq.beq_iff x.id k,
    string_eq.beq_iff x.id id,
    string_eq.beq_iff k id,
    get-delete_custom k rows apart,
  )

toggled-rows :
    (actor k : String) (enabled : Bool) (at : ℕ) (existing : GuardrailPattern) (s : Store)
    → (settled s (toggled actor k enabled at (some existing) s)).rows ≡ set_enabled k enabled s.rows
toggled-rows actor k enabled at existing s = elim (Bool-cases (existing.enabled == enabled)) [
  | inl same ↦ rw same refl
  | inr other ↦ rw other refl
]

-- What the table says of a pattern after one event.
get-toggled :
    (id actor k : String) (enabled : Bool) (at : ℕ) (r : GuardrailPattern) (s : Store)
    → get id s.rows ≡ some r
    → get id (settled s (update_guardrail_pattern actor k enabled at s)).rows
      ≡ some (record r { enabled = if k == id then enabled else r.enabled })
unfolding update_guardrail_pattern
get-toggled id actor k enabled at r s h = elim (Bool-cases (k == id)) [
  | inl same ↦
      rw (same, eq_of_beq k id same, h, toggled-rows actor id enabled at r s)
        (get-set_enabled_self id r enabled s.rows h)
  | inr other ↦ elim (Option-cases (get k s.rows)) [
    | inl missing ↦ rw (other, missing) h
    | inr (existing, found) ↦
        rw (other, found, toggled-rows actor k enabled at existing s)
          (get-set_enabled_other id r k enabled s.rows other h)
  ]
]

get-created :
    (id actor k label text : String) (at : ℕ) (r : GuardrailPattern) (s : Store)
    → get id s.rows ≡ some r
    → get id (settled s (create_guardrail_pattern actor k label text at s)).rows ≡ some r
unfolding create_guardrail_pattern
get-created id actor k label text at r s h = elim (Bool-cases (contains (ids s.rows) k)) [
  | inl there ↦ rw there h
  | inr free ↦ rw free (get-append id r s.rows _ h)
]

deleted-rows :
    (id actor k : String) (at : ℕ) (r existing : GuardrailPattern) (s : Store)
    → (k == id) ≡ false
    → get id s.rows ≡ some r
    → get id (settled s (deleted actor k at (some existing) s)).rows ≡ some r
deleted-rows id actor k at r existing s apart h = elim (Bool-cases (is_custom existing.source)) [
  | inl own ↦ rw own (get-delete_custom id r k s.rows apart h)
  | inr other ↦ rw other h
]

deleted-built_in :
    (actor k : String) (at : ℕ) (r : GuardrailPattern) (s : Store)
    → r.source ≡ built_in
    → settled s (deleted actor k at (some r) s) ≡ s
deleted-built_in actor k at r s own = ground arith

get-deleted :
    (id actor k : String) (at : ℕ) (r : GuardrailPattern) (s : Store)
    → r.source ≡ built_in
    → get id s.rows ≡ some r
    → get id (settled s (delete_guardrail_pattern actor k at s)).rows ≡ some r
unfolding delete_guardrail_pattern
get-deleted id actor k at r s own h = elim (Bool-cases (k == id)) [
  | inl same ↦ rw (eq_of_beq k id same, h, deleted-built_in actor id at r s own) h
  | inr other ↦ elim (Option-cases (get k s.rows)) [
    | inl missing ↦ rw missing h
    | inr (existing, found) ↦ rw found (deleted-rows id actor k at r existing s other h)
  ]
]

get-handle :
    (built_ins : Dict String String) (id : String) (r : GuardrailPattern) (e : Event) (s : Store)
    → r.source ≡ built_in
    → get id s.rows ≡ some r
    → get id (settled s (handle built_ins e s)).rows
      ≡ some (record r { enabled = toggled_by id r.enabled e })
unfolding handle
get-handle built_ins id r (create actor k label text at) s own h =
    get-created id actor k label text at r s h
get-handle built_ins id r (toggle actor k enabled at) s own h =
    get-toggled id actor k enabled at r s h
get-handle built_ins id r (delete actor k at) s own h = get-deleted id actor k at r s own h
get-handle built_ins id r (seed existing) s own h =
    get-ensure_built_ins_seeded id r built_ins existing s.rows h

-- Whatever administrators ask for and however often the table is seeded, also by a seeding whose read is
-- out of date, a built-in pattern that is in the table stays there with its label and is on or off as
-- the last toggle of it says, or as before where there is none.
pub handle_all-built_in :
    (built_ins : Dict String String) (id : String) (r : GuardrailPattern) (events : List Event)
    (s : Store)
    → r.source ≡ built_in
    → get id s.rows ≡ some r
    → get id (handle_all built_ins events s).rows
      ≡ some (record r { enabled = last_toggle id r.enabled events })
unfolding handle_all last_toggle
handle_all-built_in built_ins id r [] s own h = h
handle_all-built_in built_ins id r (e ∷ events) s own h =
    handle_all-built_in built_ins id (record r { enabled = toggled_by id r.enabled e }) events
      (settled s (handle built_ins e s)) own (get-handle built_ins id r e s own h)
