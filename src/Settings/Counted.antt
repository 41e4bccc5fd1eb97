-- ===== src/Settings/Counted.antt =====
-- The dashboard counts every entry of a value.
use eaistack.Base.{
  ℕ, zero, suc, String, Bool, true, false, Option, none, some, List, [], ◌∷◌, select, length, ◌==◌,
  string_eq, option_eq, ◌≡◌, refl, sym, ◌∙◌, arith, Bool-cases, inl, inr, subst, beq_self,
}
use eaistack.Base.Dict
use eaistack.Base.Dict.{Dict, IsKeyed, lookup-insert, insert-IsKeyed}
use eaistack.Settings.Trail.{AuditLog}
use eaistack.Settings.Dashboard.{
  is_counted, one_more, group_counts, name_of, by_name, count_by_action_and_value_since,
}

-- A count, where there is one to give.
abbrev some_count : ℕ → Option ℕ
some_count zero = none
some_count (suc n) = some (suc n)

abbrev has : Option String → AuditLog → Bool
has value e = e.new_value == value

one_more-some_count : (n : ℕ) → one_more (some_count n) ≡ suc n
one_more-some_count zero = refl
one_more-some_count (suc n) = refl

abbrev or_else : Option ℕ → Option ℕ → Option ℕ
or_else none other = other
or_else (some n) other = some n

or_none : (o : Option ℕ) → or_else o none ≡ o
or_none none = refl
or_none (some n) = refl

lookup-group_counts :
    (value : Option String) (log : List AuditLog)
    → Dict.lookup value (group_counts log) ≡ some_count (length (select (has value) log))
unfolding group_counts Dict.lookup
lookup-group_counts value [] = refl
lookup-group_counts value (e ∷ log) =
    let groups = group_counts log in
    let inserted =
      lookup-insert e.new_value value (one_more (Dict.lookup e.new_value groups)) groups in
    elim (Bool-cases (e.new_value == value)) [
      | inl same ↦
          let equal = (option_eq.beq_iff e.new_value value).0 same in
          inserted ∙ rw (same, equal, lookup-group_counts value log, one_more-some_count) refl
      | inr other ↦ inserted ∙ rw (other, lookup-group_counts value log) refl
    ]

group_counts-IsKeyed : (log : List AuditLog) → IsKeyed (group_counts log)
unfolding group_counts
group_counts-IsKeyed [] = tt
group_counts-IsKeyed (e ∷ log) =
    insert-IsKeyed e.new_value _ (group_counts log) (group_counts-IsKeyed log)

-- A value with a name of its own.
abbrev IsNamed : String → Type 0
IsNamed value = ((value == "unknown") ≡ false) × ((value == "") ≡ false)

-- No other value has the name.
name_of-apart :
    (value : String) (o : Option String)
    → IsNamed value
    → (o == some value) ≡ false
    → (name_of o == value) ≡ false
name_of-apart value none h apart =
    ground (arith, string_eq.beq_iff value "unknown", string_eq.beq_iff "unknown" value)
name_of-apart value (some w) h apart = elim (Bool-cases (w == "")) [
  | inl blank ↦
      rw blank
        (ground (arith, string_eq.beq_iff value "unknown", string_eq.beq_iff "unknown" value))
  | inr named ↦ rw named apart
]

named_self : (value : String) → IsNamed value → (name_of (some value) == value) ≡ true
named_self value h = rw (h.1, beq_self value) refl

lookup-by_name :
    (value : String) (groups : Dict (Option String) ℕ) (counts : Dict String ℕ)
    → IsNamed value
    → IsKeyed groups
    → Dict.lookup value (by_name groups counts)
      ≡ or_else (Dict.lookup (some value) groups) (Dict.lookup value counts)
unfolding by_name Dict.lookup
lookup-by_name value [] counts h keyed = refl
lookup-by_name value ((o, n) ∷ groups) counts h keyed =
    let rest = lookup-by_name value groups (Dict.insert (name_of o) n counts) h keyed.1 in
    let inserted = lookup-insert (name_of o) value n counts in
    elim (Bool-cases (o == some value)) [
      | inl same ↦
          let equal = (option_eq.beq_iff o (some value)).0 same in
          let here =
            subst (λ (p : Option String). (name_of p == value) ≡ true) (sym equal)
              (named_self value h) in
          rest
          ∙ rw (same, subst (λ p. Dict.lookup p groups ≡ none) equal keyed.0)
              (inserted ∙ rw here refl)
      | inr other ↦ rest ∙ rw (other, inserted, name_of-apart value o h other) refl
    ]

-- For a value that is neither empty nor "unknown", the dashboard's count is the number of entries of the
-- action with that value from the cutoff on, and there is none where there are no such entries.
count_by_action_and_value_since_lem :
    (action : String) (since : ℕ) (log : List AuditLog) (value : String)
    → IsNamed value
    → Dict.lookup value (count_by_action_and_value_since action since log)
      ≡ some_count (length (select (has (some value)) (select (is_counted action since) log)))
unfolding count_by_action_and_value_since Dict.lookup
count_by_action_and_value_since_lem action since log value h =
    let counted = select (is_counted action since) log in
    lookup-by_name value (group_counts counted) [] h (group_counts-IsKeyed counted)
    ∙ rw (lookup-group_counts (some value) counted) (or_none _)
