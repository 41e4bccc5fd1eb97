-- ===== src/Workflow/Versions/Intact.antt =====
-- What `verify_chain` says of the rows of one workflow, newest first, and what `add` keeps of them.
use eaistack.Base.{
  ℕ, suc, ◌<◌, String, false, Option, none, some, [], ◌∷◌, ◌++◌, ◌==◌, ◌≡◌, ◌↔◌, inl, inr, refl, ap,
  sym, ◌∙◌, arith, length, Bool-cases, eq_of_beq, list_eq, nat_eq, option_eq, string_eq, subst,
}
use eaistack.Base.Text.{Text}
use eaistack.Workflow.Versions.{
  Platform, WorkflowVersion, NewVersion, Versions, compute_content_hash, compute_chain_hash, add,
  next_version, rows_of, highest, latest_for_workflow, last_hash, next_sequence,
}
use eaistack.Workflow.Versions.Chain.{
  insert_sorted, sort_by_sequence, is_broken, verify_from, verify_chain,
}

-- Every sequence number is below `n`.
abbrev pub IsBelow : ℕ → Versions → Type 0
IsBelow n [] = Unit
IsBelow n (v ∷ vs) = (v.sequence < n) × IsBelow n vs

-- Newest first.
abbrev pub IsDescending : Versions → Type 0
IsDescending [] = Unit
IsDescending (v ∷ vs) = IsBelow v.sequence vs × IsDescending vs

-- From the newest to the oldest: n, n - 1, ..., 1.
abbrev pub IsNumbered : Versions → Type 0
IsNumbered [] = Unit
IsNumbered (v ∷ vs) = (v.sequence ≡ suc (length vs)) × IsNumbered vs

abbrev pub head_hash : Versions → Option Text
head_hash [] = none
head_hash (v ∷ vs) = some v.chain_hash

-- The version carries the hash of its content, the chain hash of the one before it, and the chain hash of
-- these and its other fields.
pub record IsLinked (p : Platform) (previous : Option Text) (v : WorkflowVersion) : Type 0 where
  pub content : v.content_hash ≡ compute_content_hash p v.yaml_text
  pub before : v.prev_chain_hash ≡ previous
  pub hashed :
      v.chain_hash
      ≡ compute_chain_hash p previous v.workflow_name v.sequence
          (compute_content_hash p v.yaml_text)
          v.author_user_id
          v.change_note
          v.created_at

-- Each version is linked to the one below it.
abbrev pub IsChain : Platform → Versions → Type 0
IsChain p [] = Unit
IsChain p (v ∷ vs) = IsLinked p (head_hash vs) v × IsChain p vs

module _ (p : Platform) (o : Option Text) (v : WorkflowVersion) where
  abbrev content : Text
  content = compute_content_hash p v.yaml_text

  abbrev hash : Text
  hash =
      compute_chain_hash p o v.workflow_name v.sequence content v.author_user_id v.change_note
        v.created_at

  is_broken-IsLinked : is_broken p o v ≡ false → IsLinked p o v
  unfolding is_broken
  is_broken-IsLinked h = record {
    content = eq_of_beq v.content_hash content (ground arith);
    before = eq_of_beq v.prev_chain_hash o (ground arith);
    hashed = eq_of_beq v.chain_hash hash (ground arith);
  }

  IsLinked-is_broken : IsLinked p o v → is_broken p o v ≡ false
  unfolding is_broken
  IsLinked-is_broken h =
      let same_content = (list_eq.beq_iff v.content_hash content).1 h.content in
      let same_before = (option_eq.beq_iff v.prev_chain_hash o).1 h.before in
      let same_hash = (list_eq.beq_iff v.chain_hash hash).1 h.hashed in
      rw (same_content, same_before, same_hash) refl

abbrev reverse_onto : Versions → Versions → Versions
reverse_onto [] ws = ws
reverse_onto (v ∷ vs) ws = reverse_onto vs (v ∷ ws)

reverse_onto-append : (vs ws us : Versions) → reverse_onto vs ws ++ us ≡ reverse_onto vs (ws ++ us)
reverse_onto-append [] ws us = refl
reverse_onto-append (v ∷ vs) ws us = reverse_onto-append vs (v ∷ ws) us

insert_last :
    (v : WorkflowVersion) (ws : Versions)
    → IsBelow v.sequence ws
    → insert_sorted v ws ≡ ws ++ (v ∷ [])
unfolding insert_sorted
insert_last v [] h = refl
insert_last v (w ∷ ws) h = ground (arith, insert_last v ws h.1)

insert-IsBelow :
    (n : ℕ) (v : WorkflowVersion) (ws : Versions)
    → v.sequence < n
    → IsBelow n ws
    → IsBelow n (insert_sorted v ws)
unfolding insert_sorted
insert-IsBelow n v [] l h = (l, tt)
insert-IsBelow n v (w ∷ ws) l h = ground (arith, insert-IsBelow n v ws l h.1)

sort-IsBelow : (n : ℕ) (vs : Versions) → IsBelow n vs → IsBelow n (sort_by_sequence vs)
unfolding sort_by_sequence
sort-IsBelow n [] h = h
sort-IsBelow n (v ∷ vs) h = insert-IsBelow n v (sort_by_sequence vs) h.0 (sort-IsBelow n vs h.1)

sort_descending : (vs : Versions) → IsDescending vs → sort_by_sequence vs ≡ reverse_onto vs []
unfolding sort_by_sequence
sort_descending [] h = refl
sort_descending (v ∷ vs) h =
    insert_last v (sort_by_sequence vs) (sort-IsBelow v.sequence vs h.0)
    ∙ ap (λ ws. ws ++ (v ∷ [])) (sort_descending vs h.1)
    ∙ reverse_onto-append vs [] (v ∷ [])

verify_step :
    (p : Platform) (o : Option Text) (v : WorkflowVersion) (ws : Versions)
    → (verify_from p o (v ∷ ws) ≡ none)
      ↔ (IsLinked p o v × (verify_from p (some v.chain_hash) ws ≡ none))
unfolding verify_from
verify_step p o v ws = elim (Bool-cases (is_broken p o v)) [
  | inl broken ↦
      (λ h. cc (rw (verify_from, broken) at h), λ h. cc (IsLinked-is_broken p o v h.0, broken))
  | inr linked ↦ rw linked (λ h. (is_broken-IsLinked p o v linked, h), λ h. h.1)
]

verify_reversed_iff :
    (p : Platform) (vs ws : Versions)
    → (verify_from p none (reverse_onto vs ws) ≡ none)
      ↔ (IsChain p vs × (verify_from p (head_hash vs) ws ≡ none))
verify_reversed_iff p [] ws = (λ h. (tt, h), λ h. h.1)
verify_reversed_iff p (v ∷ vs) ws =
    ground (arith, verify_reversed_iff p vs (v ∷ ws), verify_step p (head_hash vs) v ws)

empty_passes : (p : Platform) (o : Option Text) → verify_from p o [] ≡ none
unfolding verify_from
empty_passes p o = refl

verify_all_iff :
    (p : Platform) (vs : Versions) → (verify_from p none (reverse_onto vs []) ≡ none) ↔ IsChain p vs
verify_all_iff p vs =
    let (to, from) = verify_reversed_iff p vs [] in
    (λ h. (to h).0, λ h. from (h, empty_passes p (head_hash vs)))

-- Listed newest first, the versions of a history pass the check exactly if each carries the hash of its
-- own YAML text, the chain hash of the version below it (none for the oldest), and as its own chain hash
-- that of these and its other fields.
pub verify_chain_iff :
    (p : Platform) (vs : Versions) → IsDescending vs → (verify_chain p vs ≡ none) ↔ IsChain p vs
unfolding verify_chain
verify_chain_iff p vs h = rw (sort_descending vs h) (verify_all_iff p vs)

IsBelow-length : (n : ℕ) (vs : Versions) → length vs < n → IsNumbered vs → IsBelow n vs
IsBelow-length n [] l h = tt
IsBelow-length n (v ∷ vs) l h = (omega arith, IsBelow-length n vs (omega arith) h.1)

pub IsDescending-of-IsNumbered : (vs : Versions) → IsNumbered vs → IsDescending vs
IsDescending-of-IsNumbered [] h = tt
IsDescending-of-IsNumbered (v ∷ vs) h =
    (IsBelow-length v.sequence vs (omega arith) h.1, IsDescending-of-IsNumbered vs h.1)

pub highest-of-IsDescending :
    (v : WorkflowVersion) (vs : Versions) → IsDescending (v ∷ vs) → highest (v ∷ vs) ≡ some v
unfolding highest
highest-of-IsDescending v [] h = refl
highest-of-IsDescending v (w ∷ vs) h = ground (arith, highest-of-IsDescending w vs h.1)

next_passes :
    (p : Platform) (id : String) (o : Option WorkflowVersion) (new : NewVersion)
    → IsLinked p (last_hash o) (next_version p id o new)
unfolding next_version
next_passes p id o new = record { content = refl; before = refl; hashed = refl }

highest-last_hash : (vs : Versions) → IsNumbered vs → last_hash (highest vs) ≡ head_hash vs
unfolding highest
highest-last_hash [] n = refl
highest-last_hash (v ∷ vs) n =
    rw (highest-of-IsDescending v vs (IsDescending-of-IsNumbered (v ∷ vs) n)) refl

highest-next : (vs : Versions) → IsNumbered vs → next_sequence (highest vs) ≡ suc (length vs)
unfolding highest
highest-next [] n = refl
highest-next (v ∷ vs) n =
    rw (highest-of-IsDescending v vs (IsDescending-of-IsNumbered (v ∷ vs) n)) (omega arith)

-- The rows of a workflow are numbered and every one matches the one below it.
abbrev pub IsIntact : Platform → Versions → Type 0
IsIntact p vs = IsNumbered vs × IsChain p vs

next_sequence_lem :
    (p : Platform) (id : String) (o : Option WorkflowVersion) (new : NewVersion)
    → (next_version p id o new).sequence ≡ next_sequence o
unfolding next_version
next_sequence_lem p id o new = refl

next-IsIntact :
    (p : Platform) (id : String) (new : NewVersion) (vs : Versions)
    → IsIntact p vs
    → IsIntact p (next_version p id (highest vs) new ∷ vs)
next-IsIntact p id new vs h = (
  (next_sequence_lem p id (highest vs) new ∙ highest-next vs h.0, h.0),
  (
    subst (λ o. IsLinked p o (next_version p id (highest vs) new)) (highest-last_hash vs h.0)
        (next_passes p id (highest vs) new),
    h.1,
  ),
)

-- Every workflow's rows in the table are intact.
abbrev pub IsSound : Platform → Versions → Type 0
IsSound p vs = (name : String) → IsIntact p (rows_of name vs)

pub add-IsSound :
    (p : Platform) (id : String) (new : NewVersion) (vs : Versions)
    → IsSound p vs
    → IsSound p (add p id new vs).1
unfolding add rows_of next_version latest_for_workflow
add-IsSound p id new vs h name = elim (Bool-cases (new.workflow_name == name)) [
  | inl same ↦
      let here = eq_of_beq new.workflow_name name same in
      rw same (
        subst (λ n. IsIntact p (next_version p id (highest (rows_of n vs)) new ∷ rows_of name vs))
          (sym here) (next-IsIntact p id new (rows_of name vs) (h name)))
  | inr other ↦ rw other (h name)
]

pub empty-IsSound : (p : Platform) → IsSound p []
unfolding rows_of
empty-IsSound p name = (tt, tt)

pub sound-verifies :
    (p : Platform) (vs : Versions) (name : String)
    → IsSound p vs
    → IsNumbered (rows_of name vs) × (verify_chain p (rows_of name vs) ≡ none)
sound-verifies p vs name sound =
    let (numbered, chain) = sound name in
    (
      numbered,
      (verify_chain_iff p (rows_of name vs)
            (IsDescending-of-IsNumbered (rows_of name vs) numbered)).1
          chain,
    )
