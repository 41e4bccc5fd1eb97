-- ===== src/Settings/Replay.antt =====
-- What the audit trail says of a setting, and what one family of columns adds to it.
use eaistack.Base.{
  ℕ, String, false, ◌&&◌, Option, none, some, List, [], ◌∷◌, ◌==◌, string_eq, option_eq,
  if◌then◌else◌, ◌≡◌, refl, sym, ◌∙◌, ap, arith, Bool-cases, inl, inr, All, beq_self,
}
use eaistack.Base.Dict
use eaistack.Base.Dict.{Dict, IsKeyed}
use eaistack.Settings.Trail.{AuditLog, record_entry, change, record_changes}

-- The value that a setting has by the trail alone: what the newest entry for it set.
unfoldable pub last_value : String → String → List AuditLog → Option String
last_value action field [] = none
last_value action field (e ∷ log) =
    let earlier = last_value action field log in
    if e.action == action && e.field_name == field then e.new_value else earlier

-- The trail says what the snapshot says.
abbrev pub Agrees : String → Dict String (Option String) → List AuditLog → Type 0
Agrees action snapshot log = All (λ p. last_value action p.0 log ≡ p.1) snapshot

-- The fields of `current` are found in `previous`, with what the trail says.
abbrev pub IsKnown :
    String → Dict String (Option String) → List AuditLog → Dict String (Option String) → Type 0
IsKnown action previous log current =
    All (λ p. Dict.lookup p.0 previous ≡ some (last_value action p.0 log)) current

-- Nothing is raised, the trail says what `current` says, and other fields and actions keep their entries.
abbrev pub IsRecorded :
    String → Dict String (Option String) → List AuditLog → Option (List AuditLog) → Type 0
IsRecorded action current log none = ⊥
IsRecorded action current log (some after) =
    Agrees action current after
    × ((field : String)
        → Dict.lookup field current ≡ none
        → last_value action field after ≡ last_value action field log)
    × ((other field : String)
        → (action == other) ≡ false
        → last_value other field after ≡ last_value other field log)

module _ (action actor : String) (now : ℕ) (field : String) (old_value new_value : Option String)
    (log : List AuditLog) where
  abbrev entered : List AuditLog
  entered = record_entry (change action actor now field old_value new_value) log

  entered_self : last_value action field entered ≡ new_value
  unfolding last_value record_entry
  entered_self = rw (beq_self action, beq_self field) refl

  entered_other :
      (g : String) → (field == g) ≡ false → last_value action g entered ≡ last_value action g log
  unfolding last_value record_entry
  entered_other g h = rw (beq_self action, h) refl

  entered_action :
      (b g : String) → (action == b) ≡ false → last_value b g entered ≡ last_value b g log
  unfolding last_value record_entry
  entered_action b g h = rw h refl

-- What the rest of a snapshot records after its first field.
IsRecorded-cons :
    (action field : String) (v : Option String) (rest : Dict String (Option String))
    (log middle : List AuditLog) (after : Option (List AuditLog))
    → Dict.lookup field rest ≡ none
    → last_value action field middle ≡ v
    → ((g : String) → (field == g) ≡ false → last_value action g middle ≡ last_value action g log)
    → ((b g : String) → (action == b) ≡ false → last_value b g middle ≡ last_value b g log)
    → IsRecorded action rest middle after
    → IsRecorded action ((field, v) ∷ rest) log after
unfolding Dict.lookup
IsRecorded-cons action field v rest log middle none new self others actions h = h
IsRecorded-cons action field v rest log middle (some after) new self others actions h = (
  (h.1 field new ∙ self, h.0),
  (λ g absent.
      let (apart, missing) = Dict.lookup-eq-none g field v rest absent in
      h.1 g missing ∙ others g apart),
  λ b g apart. h.2 b g apart ∙ actions b g apart,
)

pub apart_sym : (a b : String) → (a == b) ≡ false → (b == a) ≡ false
apart_sym a b h = ground (arith, string_eq.beq_iff a b, string_eq.beq_iff b a)

IsKnown-cons :
    (action field : String) (previous rest : Dict String (Option String))
    (log middle : List AuditLog)
    → Dict.lookup field rest ≡ none
    → ((g : String) → (field == g) ≡ false → last_value action g middle ≡ last_value action g log)
    → IsKnown action previous log rest
    → IsKnown action previous middle rest
unfolding Dict.lookup
IsKnown-cons action field previous [] log middle new others h = tt
IsKnown-cons action field previous ((g, w) ∷ rest) log middle new others h =
    let (apart, missing) = Dict.lookup-eq-none field g w rest new in
    (
      h.0 ∙ ap some (sym (others g (apart_sym g field apart))),
      IsKnown-cons action field previous rest log middle missing others h.1,
    )

-- One call records a family whose fields are known.
pub record_changes-IsRecorded :
    (action actor : String) (now : ℕ) (previous current : Dict String (Option String))
    (log : List AuditLog)
    → IsKeyed current
    → IsKnown action previous log current
    → IsRecorded action current log (record_changes action actor now previous current log)
unfolding record_changes
record_changes-IsRecorded action actor now previous [] log keyed known =
    (tt, (λ g h. refl), λ b g h. refl)
record_changes-IsRecorded action actor now previous ((field, v) ∷ current) log keyed known =
    let old = last_value action field log in
    let after = entered action actor now field old v log in
    elim (Bool-cases (old == v)) [
      | inl same ↦
          rw (record_changes, known.0, same)
            (IsRecorded-cons action field v current log log _ keyed.0
              (((option_eq).beq_iff old v).0 same) (λ g h. refl) (λ b g h. refl)
              (record_changes-IsRecorded action actor now previous current log keyed.1 known.1))
      | inr differs ↦
          rw (record_changes, known.0, differs)
            (IsRecorded-cons action field v current log after _ keyed.0
              (entered_self action actor now field old v log)
              (entered_other action actor now field old v log)
              (entered_action action actor now field old v log)
              (record_changes-IsRecorded action actor now previous current after keyed.1 (
                IsKnown-cons action field previous current log after keyed.0
                  (entered_other action actor now field old v log) known.1)))
    ]
