-- ===== src/Workflow/Service/Pointers.antt =====
-- Every pointer names a stored version of its own workflow, if the ids that the database draws differ.
use eaistack.Base.{
  ℕ, ◌+◌, ◌<◌, String, Option, none, some, List, [], ◌∷◌, ◌==◌, ◌≡◌, ◌≢◌, ◌⊎◌, refl, string_eq,
  arith, Bool-cases, eq_of_beq, eq_of_some, subst, sym, ◌∙◌, ap, inl, inr,
}
use eaistack.Base.Dict
use eaistack.Workflow.Versions
use eaistack.Workflow.Versions.{
  Platform, WorkflowVersion, NewVersion, Versions, latest_for_workflow,
}
use eaistack.Workflow.Service.{
  Parsing, Store, Action, get_active_version_id, add_version, record_audit, set_active, empty_store,
}
use eaistack.Workflow.Service.Operations.{apply_publish, sync_builtin_versions, is_none}
use eaistack.Workflow.Service.Commands.{Command, run, run_all, sync}
use eaistack.Workflow.Service.Keeps.{run_all-keeps, id-get}
use eaistack.Workflow.Service.Trail.{active_after_publish}
use eaistack.Workflow.Service.Resolve.{
  resolved, unpublished, resolve_id, resolve_active_workflow, ensure_builtins_recorded, prepared,
  default_workflow,
}

-- No two rows get the same id.
abbrev pub IsFresh : Platform → Type 0
IsFresh p = (m n : ℕ) → p.uuid m ≡ p.uuid n → m ≡ n

-- Every id was drawn before the n-th.
abbrev pub AreDrawn : Platform → ℕ → Versions → Type 0
AreDrawn p n [] = Unit
AreDrawn p n (v ∷ vs) = ((k : ℕ) × (k < n) × (v.id ≡ p.uuid k)) × AreDrawn p n vs

AreDrawn-suc : (p : Platform) (n : ℕ) (vs : Versions) → AreDrawn p n vs → AreDrawn p (n + 1) vs
AreDrawn-suc p n [] h = h
AreDrawn-suc p n (v ∷ vs) ((k, l, e), h) = ((k, omega arith, e), AreDrawn-suc p n vs h)

not-drawn :
    (p : Platform) (n : ℕ) (vs : Versions) (v : WorkflowVersion)
    → IsFresh p
    → AreDrawn p n vs
    → Versions.get (p.uuid n) vs ≢ some v
unfolding Versions.get
not-drawn p n [] v fresh h e = cc
not-drawn p n (w ∷ vs) v fresh ((k, l, drawn), h) e = elim (Bool-cases (w.id == p.uuid n)) [
  | inl same ↦ let k_is_n = fresh k n (sym drawn ∙ eq_of_beq w.id (p.uuid n) same) in omega arith
  | inr other ↦ not-drawn p n vs v fresh h (rw other at e)
]

-- The version that an id names is stored and is one of the workflow.
abbrev pub IsStored : String → String → Versions → Type 0
IsStored name id vs =
    (v : WorkflowVersion) × (Versions.get id vs ≡ some v) × (v.workflow_name ≡ name)

abbrev pub IsPointed : Platform → Store → Type 0
IsPointed p s =
    AreDrawn p s.drawn s.versions
    × ((name id : String) → get_active_version_id name s ≡ some id → IsStored name id s.versions)

-- A version that is stored is found as before when another is added.
pub get-add_other :
    (p : Platform) (new : NewVersion) (s : Store) (id : String) (v : WorkflowVersion)
    → IsFresh p
    → AreDrawn p s.drawn s.versions
    → Versions.get id s.versions ≡ some v
    → Versions.get id (add_version p new s).1.versions ≡ some v
unfolding add_version Versions.add Versions.get Versions.next_version
get-add_other p new s id v fresh drawn found = elim (Bool-cases (p.uuid s.drawn == id)) [
  | inl same ↦
      let here = eq_of_beq (p.uuid s.drawn) id same in
      elim (not-drawn p s.drawn s.versions v fresh drawn
        (subst (λ i. Versions.get i s.versions ≡ some v) (sym here) found)) [ ]
  | inr other ↦ rw other found
]

pub add_version-AreDrawn :
    (p : Platform) (new : NewVersion) (s : Store)
    → AreDrawn p s.drawn s.versions
    → AreDrawn p (add_version p new s).1.drawn (add_version p new s).1.versions
unfolding add_version Versions.add Versions.next_version
add_version-AreDrawn p new s drawn =
    ((s.drawn, omega arith, refl), AreDrawn-suc p s.drawn s.versions drawn)

add_version-IsPointed :
    (p : Platform) (new : NewVersion) (s : Store)
    → IsFresh p
    → IsPointed p s
    → IsPointed p (add_version p new s).1
unfolding add_version get_active_version_id
add_version-IsPointed p new s fresh (drawn, stored) = (
  add_version-AreDrawn p new s drawn,
  λ name id active.
      let (v, found, own) = stored name id active in
      (v, get-add_other p new s id v fresh drawn found, own),
)

pointed_after_publish :
    (name other id : String) (v : WorkflowVersion) (prev : Option String) (a : Action)
    (actor : String) (now : ℕ) (s : Store)
    → Versions.get v.id s.versions ≡ some v
    → v.workflow_name ≡ name
    → (get_active_version_id other s ≡ some id → IsStored other id s.versions)
    → get_active_version_id other (apply_publish name v prev a actor now s) ≡ some id
    → IsStored other id s.versions
pointed_after_publish name other id v prev a actor now s found own before active =
    let after = sym (active_after_publish name other v prev a actor now s) ∙ active in
    elim (Bool-cases (name == other)) [
      | inl same ↦
          let v_id : v.id ≡ id = eq_of_some (rw same at after) in
          (
            v,
            subst (λ i. Versions.get i s.versions ≡ some v) v_id found,
            own ∙ eq_of_beq name other same,
          )
      | inr different ↦ before (rw different at after)
    ]

nothing_active : (name id : String) → get_active_version_id name empty_store ≢ some id
unfolding get_active_version_id Dict.lookup
nothing_active name id h = cc

pub run_all-IsPointed :
    (p : Platform) (q : Parsing) (cs : List Command) → IsFresh p → IsPointed p (run_all p q cs)
unfolding apply_publish record_audit set_active get_active_version_id
run_all-IsPointed p q cs fresh =
    run_all-keeps p q (IsPointed p)
      (record {
        empty = (tt, λ name id active. elim (nothing_active name id active) [ ]);
        add = λ new s h. add_version-IsPointed p new s fresh h;
        audit = λ e s still h. h;
        publish = λ name v a actor now s stored own moves (drawn, before). (
          drawn,
          λ other id.
              pointed_after_publish name other id v (get_active_version_id name s) a actor now s
                stored own (before other id),
        );
      })
      cs

resolve_pointed :
    (p : Platform) (name : String) (o : Option String) (s : Store)
    → ((id : String) → o ≡ some id → IsStored name id s.versions)
    → (o ≡ none × (resolve_id name o s ≡ unpublished name))
      ⊎ ((v : WorkflowVersion) × (resolve_id name o s ≡ resolved v)
          × (o ≡ some v.id)
          × (v.workflow_name ≡ name))
resolve_pointed p name none s h = inl (refl, refl)
resolve_pointed p name (some id) s h =
    let (v, found, own) = h id refl in
    inr (v, rw found refl, ap some (sym (id-get id s.versions v found)), own)

synced_run :
    (p : Platform) (q : Parsing) (cs : List Command) (now : ℕ) (sources : List (String × String))
    → run_all p q (sync now sources ∷ cs) ≡ sync_builtin_versions p now sources (run_all p q cs)
unfolding run_all run
synced_run p q cs now sources = refl

prepared_reached :
    (p : Platform) (q : Parsing) (cs : List Command) (now : ℕ) (sources : List (String × String))
    (name : String)
    → (commands : List Command) × (run_all p q commands
        ≡ prepared p now sources name (run_all p q cs))
unfolding prepared ensure_builtins_recorded
prepared_reached p q cs now sources name =
    let s = run_all p q cs in
    elim (Bool-cases (is_none (get_active_version_id name s))) [
      | inl missing ↦
          elim (Bool-cases (is_none (latest_for_workflow default_workflow s.versions))) [
            | inl fresh ↦
                (sync now sources ∷ cs, rw (missing, fresh) (synced_run p q cs now sources))
            | inr known ↦ (cs, rw (missing, known) refl)
          ]
      | inr there ↦ (cs, rw there refl)
    ]

-- Where ids are drawn only once, a chat turn on a store that any commands left never meets a pointer
-- to a missing version: the workflow has no published version, or what the turn resolves to is the
-- stored version of this very workflow that the pointer names.
pub resolve_active_workflow-total :
    (p : Platform) (q : Parsing) (cs : List Command) (now : ℕ) (sources : List (String × String))
    (name : String)
    → IsFresh p
    → let (answer, after) = resolve_active_workflow p now sources name (run_all p q cs) in
      ((get_active_version_id name after ≡ none) × (answer ≡ unpublished name))
      ⊎ ((v : WorkflowVersion) × (answer ≡ resolved v)
          × (get_active_version_id name after ≡ some v.id)
          × (v.workflow_name ≡ name))
unfolding resolve_active_workflow
resolve_active_workflow-total p q cs now sources name fresh =
    let s = run_all p q cs in
    let (commands, reached) = prepared_reached p q cs now sources name in
    resolve_pointed p name (get_active_version_id name (prepared p now sources name s))
      (prepared p now sources name s)
      (subst
        (λ t. (id : String) → get_active_version_id name t ≡ some id → IsStored name id t.versions)
        reached ((run_all-IsPointed p q commands fresh).1 name))
