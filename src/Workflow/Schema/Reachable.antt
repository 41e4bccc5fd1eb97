-- ===== src/Workflow/Schema/Reachable.antt =====
-- The steps that `_reachable_steps` returns are those that a path of edges leads to from the entry.
use eaistack.Base.{
  ℕ, zero, suc, ◌+◌, ◌≡◌, refl, ◌⊎◌, inl, inr, String, true, none, some, List, [], ◌∷◌, ◌++◌,
  reverse, All, All-In, In, In-append_left, In-append_right, In-append_cases, In-reverse,
  In-of-In-reverse, contains, In-of-contains, subst, eq_of_some, some-ne-none, sym, ap, ◌∙◌,
  string_eq, Bool-cases, Option-cases,
}
use eaistack.Base.Dict
use eaistack.Base.Dict.{Dict}
use eaistack.Workflow.Schema.{StepDef, WorkflowDef}
use eaistack.Workflow.Schema.Targets.{step_targets, explore, edge_count, reachable_steps}

-- A name that the edges of the graph lead to.
pub data Reach (entry : String) (steps : Dict String StepDef) : String → Type 0 where
  start : Reach entry steps entry
  follow :
      {s t : String} (step : StepDef)
      → Reach entry steps s
      → Dict.lookup s steps ≡ some step
      → In t (step_targets step)
      → Reach entry steps t

All-of-In : {P : String → Type 0} (xs : List String) → ((a : String) → In a xs → P a) → All P xs
All-of-In [] h = tt
All-of-In (x ∷ xs) h = (h x (inl refl), All-of-In xs (λ a m. h a (inr m)))

-- What the two kinds of round keep holds when the loop ends.
module _ (steps : Dict String StepDef) (P : List String → List String → Type 0)
    (skip : (c : String) (visited frontier : List String)
      → (Dict.lookup c steps ≡ none) ⊎ (contains visited c ≡ true)
      → P visited (c ∷ frontier)
      → P visited frontier)
    (visit : (c : String) (step : StepDef) (visited frontier : List String)
      → Dict.lookup c steps ≡ some step
      → P visited (c ∷ frontier)
      → P (c ∷ visited) (reverse (step_targets step) ++ frontier)) where
  explore_induction :
      (fuel : ℕ) (visited frontier result : List String)
      → explore steps fuel visited frontier ≡ some result
      → P visited frontier
      → P result []
  unfolding explore
  explore_induction zero visited frontier result e h = cc
  explore_induction (suc fuel) visited [] result e h = subst (λ v. P v []) (eq_of_some e) h
  explore_induction (suc fuel) visited (c ∷ frontier) result e h =
      elim (Option-cases (Dict.lookup c steps)) [
        | inl missing ↦
            explore_induction fuel visited frontier result (rw (missing, explore) at e)
              (skip c visited frontier (inl missing) h)
        | inr (step, found) ↦ elim (Bool-cases (contains visited c)) [
          | inl old ↦
              explore_induction fuel visited frontier result (rw (found, old, explore) at e)
                (skip c visited frontier (inr old) h)
          | inr new ↦
              explore_induction fuel (c ∷ visited) (reverse (step_targets step) ++ frontier) result
                (rw (found, new, explore) at e) (visit c step visited frontier found h)
        ]
      ]

module _ (entry : String) (steps : Dict String StepDef) where
  abbrev Reached : String → Type 0
  Reached = Reach entry steps

  targets-Reached :
      (c : String) (step : StepDef) (frontier : List String)
      → Dict.lookup c steps ≡ some step
      → Reached c
      → All Reached frontier
      → All Reached (reverse (step_targets step) ++ frontier)
  targets-Reached c step frontier found r rs =
      All-of-In (reverse (step_targets step) ++ frontier) λ a m.
        elim (In-append_cases a (reverse (step_targets step)) frontier m) [
          | inl new ↦ follow step r found (In-of-In-reverse a (step_targets step) new)
          | inr old ↦ All-In Reached frontier a rs old
        ]

  abbrev Sound : List String → List String → Type 0
  Sound visited frontier = All Reached visited × All Reached frontier

  -- A name is visited, or waits on the frontier, or names no step.
  abbrev Covered : List String → List String → String → Type 0
  Covered visited frontier t = In t visited ⊎ (In t frontier ⊎ (Dict.lookup t steps ≡ none))

  record Complete (visited frontier : List String) : Type 0 where
    entry_covered : Covered visited frontier entry
    targets_covered :
        (s t : String) (step : StepDef)
        → In s visited
        → Dict.lookup s steps ≡ some step
        → In t (step_targets step)
        → Covered visited frontier t

  Covered-skip :
      (c t : String) (visited frontier : List String)
      → (Dict.lookup c steps ≡ none) ⊎ (contains visited c ≡ true)
      → Covered visited (c ∷ frontier) t
      → Covered visited frontier t
  Covered-skip c t visited frontier why (inl seen) = inl seen
  Covered-skip c t visited frontier why (inr (inr missing)) = inr (inr missing)
  Covered-skip c t visited frontier why (inr (inl (inr waits))) = inr (inl waits)
  Covered-skip c t visited frontier (inl missing) (inr (inl (inl same))) =
      inr (inr (rw same at missing))
  Covered-skip c t visited frontier (inr old) (inr (inl (inl same))) =
      inl (In-of-contains visited t (rw same at old))

  Covered-visit :
      (c t : String) (visited frontier new : List String)
      → Covered visited (c ∷ frontier) t
      → Covered (c ∷ visited) (new ++ frontier) t
  Covered-visit c t visited frontier new (inl seen) = inl (inr seen)
  Covered-visit c t visited frontier new (inr (inr missing)) = inr (inr missing)
  Covered-visit c t visited frontier new (inr (inl (inl same))) = inl (inl same)
  Covered-visit c t visited frontier new (inr (inl (inr waits))) =
      inr (inl (In-append_right t new frontier waits))

  Complete-visit :
      (c : String) (step : StepDef) (visited frontier : List String)
      → Dict.lookup c steps ≡ some step
      → Complete visited (c ∷ frontier)
      → Complete (c ∷ visited) (reverse (step_targets step) ++ frontier)
  Complete-visit c step visited frontier found h = record {
    entry_covered =
        Covered-visit c entry visited frontier (reverse (step_targets step)) h.entry_covered;
    targets_covered = λ s t step' m found' target. elim m [
      | inl same ↦
          let one : step ≡ step' =
            eq_of_some (sym found ∙ ap (λ n. Dict.lookup n steps) same ∙ found') in
          inr (
            inl (
              In-append_left t (reverse (step_targets step)) frontier
                (In-reverse t (step_targets step) (rw one target))))
      | inr old ↦
          Covered-visit c t visited frontier (reverse (step_targets step))
            (h.targets_covered s t step' old found' target)
    ];
  }

  Complete-skip :
      (c : String) (visited frontier : List String)
      → (Dict.lookup c steps ≡ none) ⊎ (contains visited c ≡ true)
      → Complete visited (c ∷ frontier)
      → Complete visited frontier
  Complete-skip c visited frontier why h = record {
    entry_covered = Covered-skip c entry visited frontier why h.entry_covered;
    targets_covered = λ s t step m found target.
        Covered-skip c t visited frontier why (h.targets_covered s t step m found target);
  }

  defined_visited :
      (t : String) (step : StepDef) (visited : List String)
      → Dict.lookup t steps ≡ some step
      → Covered visited [] t
      → In t visited
  defined_visited t step visited found (inl seen) = seen
  defined_visited t step visited found (inr (inl waits)) = absurd waits
  defined_visited t step visited found (inr (inr missing)) = absurd (some-ne-none found missing)

  Reached-visited :
      (visited : List String)
      → Complete visited []
      → (t : String) → Reached t
      → (step : StepDef) → Dict.lookup t steps ≡ some step
      → In t visited
  Reached-visited visited h t start step found =
      defined_visited t step visited found h.entry_covered
  Reached-visited visited h t (follow {s = s} step' r found' target) step found =
      defined_visited t step visited found
        (h.targets_covered s t step' (Reached-visited visited h s r step' found') found' target)

-- Exactly the defined steps that a path leads to are returned: every name returned is reached, and
-- every step reached is returned.
pub reachable_steps_correct :
    (d : WorkflowDef) (visited : List String)
    → reachable_steps d ≡ some visited
    → ((t : String) → In t visited → Reach d.entry d.steps t)
      × ((t : String) (step : StepDef)
          → Reach d.entry d.steps t
          → Dict.lookup t d.steps ≡ some step
          → In t visited)
unfolding reachable_steps
reachable_steps_correct d visited e =
    let sound =
      explore_induction d.steps (Sound d.entry d.steps) (λ c v f why h. (h.0, h.1.1))
        (λ c step v f found h.
          ((h.1.0, h.0), targets-Reached d.entry d.steps c step f found h.1.0 h.1.1))
        (edge_count d.steps + 2) [] (d.entry ∷ []) visited e (tt, (start, tt)) in
    let complete =
      explore_induction d.steps (Complete d.entry d.steps) (Complete-skip d.entry d.steps)
        (Complete-visit d.entry d.steps) (edge_count d.steps + 2) [] (d.entry ∷ []) visited e
        (record {
          entry_covered = inr (inl (inl refl));
          targets_covered = λ s t step m found target. absurd m;
        }) in
    (
      λ t m. All-In (Reach d.entry d.steps) visited t sound.0 m,
      λ t step r found. Reached-visited d.entry d.steps visited complete t r step found,
    )
