-- ===== src/Settings/Audited.antt =====
-- The audit trail replays the settings: after any changes it says of every recorded column what the row
-- says.
use eaistack.Base.{
  ℕ, String, false, Option, none, some, List, [], ◌∷◌, ◌==◌, string_eq, option_eq, ◌≡◌, refl, sym,
  ◌∙◌, ap, subst, Bool-cases, Option-cases, inl, inr, All, All-map, beq_self,
}
use eaistack.Base.Dict
use eaistack.Base.Dict.{Dict, IsKeyed}
use eaistack.Workflow.Primitives.{Numerals}
use eaistack.Settings.Row.{SystemSettings}
use eaistack.Settings.Trail.{
  AuditLog, record_changes, record_families, families, Column, override_values, value_of,
}
use eaistack.Base.Result.{ok, ok-injective}
use eaistack.Settings.Row.{UpdateSettingsRequest, upsert}
use eaistack.Settings.Update.{Store, Environment, Request, committed, update_settings, update_all}
use eaistack.Settings.Accepted.{update_settings-eq-ok, update_all-kept}
use eaistack.Settings.Replay.{
  last_value, Agrees, IsKnown, IsRecorded, record_changes-IsRecorded, apart_sym,
}

abbrev pub Family : Type 0
Family = String × List Column

weaken :
    {V : Type 0} (k : String) (v : V) (whole d : Dict String V)
    → Dict.lookup k d ≡ none
    → All (λ p. Dict.lookup p.0 whole ≡ some p.1) d
    → All (λ p. Dict.lookup p.0 ((k, v) ∷ whole) ≡ some p.1) d
unfolding Dict.lookup
weaken k v whole [] absent h = tt
weaken k v whole ((j, w) ∷ d) absent h =
    let (apart, missing) = Dict.lookup-eq-none k j w d absent in
    (rw (apart_sym j k apart) h.0, weaken k v whole d missing h.1)

-- Every entry is found under its key.
self_lookup :
    {V : Type 0} (d : Dict String V) → IsKeyed d → All (λ p. Dict.lookup p.0 d ≡ some p.1) d
unfolding Dict.lookup
self_lookup [] h = tt
self_lookup ((k, v) ∷ d) h = (rw (beq_self k) refl, weaken k v d d h.0 (self_lookup d h.1))

abbrev valued :
    Option SystemSettings → Option (SystemSettings → Option String) → Option (Option String)
valued row none = none
valued row (some get) = some (value_of get row)

lookup-override_values :
    (f : String) (columns : List Column) (row : Option SystemSettings)
    → Dict.lookup f (override_values columns row) ≡ valued row (Dict.lookup f columns)
unfolding Dict.lookup override_values
lookup-override_values f [] row = refl
lookup-override_values f ((g, got) ∷ columns) row = elim (Bool-cases (g == f)) [
  | inl same ↦ rw same refl
  | inr other ↦ rw other (lookup-override_values f columns row)
]

override_values-IsKeyed :
    (columns : List Column) (row : Option SystemSettings)
    → IsKeyed columns
    → IsKeyed (override_values columns row)
unfolding override_values
override_values-IsKeyed [] row h = tt
override_values-IsKeyed ((f, get) ∷ columns) row h = (
  lookup-override_values f columns row ∙ ap (valued row) h.0,
  override_values-IsKeyed columns row h.1,
)

IsKnown-of :
    (action : String) (whole columns : List Column) (before after : Option SystemSettings)
    (log : List AuditLog)
    → All (λ c. Dict.lookup c.0 whole ≡ some c.1) columns
    → Agrees action (override_values columns before) log
    → IsKnown action (override_values whole before) log (override_values columns after)
unfolding override_values
IsKnown-of action whole [] before after log found h = tt
IsKnown-of action whole ((f, get) ∷ columns) before after log found h = (
  lookup-override_values f whole before ∙ ap (valued before) found.0 ∙ ap some (sym h.0),
  IsKnown-of action whole columns before after log found.1 h.1,
)

Agrees-same :
    (action : String) (snapshot : Dict String (Option String)) (log after : List AuditLog)
    → ((field : String) → last_value action field after ≡ last_value action field log)
    → Agrees action snapshot log
    → Agrees action snapshot after
Agrees-same action snapshot log after same h = All-map (λ p e. same p.0 ∙ e) snapshot h

abbrev AllAgree : List Family → Option SystemSettings → List AuditLog → Type 0
AllAgree fams row log = All (λ fam. Agrees fam.0 (override_values fam.1 row) log) fams

abbrev AreDistinct : List Family → Type 0
AreDistinct fams = IsKeyed fams × All (λ fam. IsKeyed fam.1) fams

-- What the recording of some families gives.
abbrev pub AllRecorded :
    List Family → SystemSettings → List AuditLog → Option (List AuditLog) → Type 0
AllRecorded fams after log none = ⊥
AllRecorded fams after log (some logged) =
    AllAgree fams (some after) logged
    × ((other field : String)
        → Dict.lookup other fams ≡ none
        → last_value other field logged ≡ last_value other field log)

AllAgree-apart :
    (action : String) (fams : List Family) (row : Option SystemSettings) (log after : List AuditLog)
    → Dict.lookup action fams ≡ none
    → ((other field : String)
        → (action == other) ≡ false
        → last_value other field after ≡ last_value other field log)
    → AllAgree fams row log
    → AllAgree fams row after
unfolding Dict.lookup
AllAgree-apart action [] row log after absent same h = tt
AllAgree-apart action ((b, columns) ∷ fams) row log after absent same h =
    let (apart, missing) = Dict.lookup-eq-none action b columns fams absent in
    (
      Agrees-same b (override_values columns row) log after
          (λ g. same b g (apart_sym b action apart)) h.0,
      AllAgree-apart action fams row log after missing same h.1,
    )

families_cons :
    (action : String) (columns : List Column) (fams : List Family) (after : SystemSettings)
    (log logged : List AuditLog) (final : Option (List AuditLog))
    → Dict.lookup action fams ≡ none
    → IsRecorded action (override_values columns (some after)) log (some logged)
    → AllRecorded fams after logged final
    → AllRecorded ((action, columns) ∷ fams) after log final
families_cons action columns fams after log logged none absent one h = h
families_cons action columns fams after log logged (some final) absent one h = (
  (
    Agrees-same action (override_values columns (some after)) logged final
        (λ g. h.1 action g absent) one.0,
    h.0,
  ),
  λ b g gone.
      let (apart, missing) = Dict.lookup-eq-none b action columns fams gone in
      h.1 b g missing ∙ one.2 b g apart,
)

record_families-AllRecorded :
    (fams : List Family) (actor : String) (now : ℕ) (before : Option SystemSettings)
    (after : SystemSettings) (log : List AuditLog)
    → AreDistinct fams
    → AllAgree fams before log
    → AllRecorded fams after log (record_families actor now before after fams log)
unfolding record_families
record_families-AllRecorded [] actor now before after log distinct h = (tt, λ other g absent. refl)
record_families-AllRecorded ((action, columns) ∷ fams) actor now before after log distinct h =
    let previous = override_values columns before in
    let current = override_values columns (some after) in
    let one =
      record_changes-IsRecorded action actor now previous current log
        (override_values-IsKeyed columns (some after) distinct.1.0)
        (IsKnown-of action columns columns before (some after) log
          (self_lookup columns distinct.1.0) h.0) in
    elim (Option-cases (record_changes action actor now previous current log)) [
      | inl raised ↦ absurd (rw raised at one)
      | inr (logged, done) ↦
          rw (record_families, done)
            (families_cons action columns fams after log logged _ distinct.0.0 (rw done at one) (
              record_families-AllRecorded fams actor now before after logged
                (distinct.0.1, distinct.1.1)
                (AllAgree-apart action fams before log logged distinct.0.0 (rw done at one).2 h.1)))
    ]

families-AreDistinct : (n : Numerals) → AreDistinct (families n)
unfolding Dict.lookup
families-AreDistinct n = (
  (refl, (refl, (refl, (refl, (refl, (refl, (refl, (refl, tt)))))))),
  (
    (refl, (refl, (refl, (refl, (refl, tt))))),
    (
      (refl, (refl, (refl, tt))),
      (
        (refl, tt),
        (
          (refl, (refl, (refl, (refl, (refl, tt))))),
          (
            (refl, tt),
            ((refl, tt), ((refl, (refl, (refl, (refl, (refl, (refl, tt)))))), ((refl, tt), tt))),
          ),
        ),
      ),
    ),
  ),
)

abbrev pub IsReplayed : Numerals → Store → Type 0
IsReplayed n s = AllAgree (families n) s.row s.log

nothing-Agrees :
    (action : String) (columns : List Column) → Agrees action (override_values columns none) []
unfolding override_values last_value
nothing-Agrees action [] = tt
nothing-Agrees action ((f, get) ∷ columns) = (refl, nothing-Agrees action columns)

nothing-AllAgree : (fams : List Family) → AllAgree fams none []
nothing-AllAgree [] = tt
nothing-AllAgree ((action, columns) ∷ fams) = (nothing-Agrees action columns, nothing-AllAgree fams)

-- Before the first change.
abbrev pub unset : Store
unset = record { row = none; log = [] }

pub unset-IsReplayed : (n : Numerals) → IsReplayed n unset
unset-IsReplayed n = nothing-AllAgree (families n)

-- What the change of a replayed store records.
pub recorded :
    (n : Numerals) (payload : UpdateSettingsRequest) (actor : String) (now : ℕ) (s : Store)
    → IsReplayed n s
    → AllRecorded
        (families n)
        (upsert payload actor)
        s.log
        (record_families actor now s.row (upsert payload actor) (families n) s.log)
recorded n payload actor now s h =
    record_families-AllRecorded (families n) actor now s.row (upsert payload actor) s.log
      (families-AreDistinct n) h

committed-IsReplayed :
    (n : Numerals) (row : SystemSettings) (log : List AuditLog) (logged : Option (List AuditLog))
    (after : Store)
    → AllRecorded (families n) row log logged
    → committed row logged ≡ ok after
    → IsReplayed n after
committed-IsReplayed n row log none after h made = absurd h
committed-IsReplayed n row log (some logged) after h made =
    subst (IsReplayed n) (ok-injective _ after made) h.0

pub update_settings-IsReplayed :
    (n : Numerals) (env : Environment) (payload : UpdateSettingsRequest) (actor : String) (now : ℕ)
    (s after : Store)
    → IsReplayed n s
    → update_settings n env payload actor now s ≡ ok after
    → IsReplayed n after
update_settings-IsReplayed n env payload actor now s after h made =
    committed-IsReplayed n (upsert payload actor) s.log _ after (recorded n payload actor now s h)
      (update_settings-eq-ok n env payload actor now s after made).written

-- Whatever changes are asked for, in any order and refused or not, the audit trail replays the settings:
-- for every action and column that is recorded, the newest entry holds what the row holds, and there is
-- no entry or one with none where the column has no value.
pub update_all-IsReplayed :
    (n : Numerals) (env : Environment) (requests : List Request) (s : Store)
    → IsReplayed n s
    → IsReplayed n (update_all n env requests s)
update_all-IsReplayed n env requests s h =
    update_all-kept n env (IsReplayed n)
      (λ r before after kept made.
        update_settings-IsReplayed n env r.payload r.actor r.now before after kept made)
      requests s h
