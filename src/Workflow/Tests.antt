-- ===== src/Workflow/Tests.antt =====
-- The theorems on workflows at concrete inputs, with concrete functions for what the program calls
-- outside: a digest that shifts its input, tally marks for numbers, and ids of n letters.
use eaistack.Base.{
  not, ℕ, zero, suc, ◌≡◌, ◌≢◌, ◌↔◌, ◌⊎◌, refl, String, false, none, some, List, [], ◌∷◌, arith,
  string_eq, map, In, contains,
}
use eaistack.Base.Dict
use eaistack.Base.Int.{pos}
use eaistack.Base.Result.{ok}
use eaistack.Base.Text.{Text, codes, IsFreeOf, join}
use eaistack.Workflow.Schema.{WorkflowDef, end, agent}
use eaistack.Workflow.Schema.Suite.{
  validate_definition, validate_eval_cases, check_cases, total_runs,
}
use eaistack.Workflow.Schema.Targets.{
  reachable_steps, step_targets, next_targets, explore, edge_count,
}
use eaistack.Workflow.Schema.Validate.{
  check_steps, check_step, check_step_body, check_tools, reject_first, check_all_reachable,
  check_reachable,
}
use eaistack.Workflow.Schema.Parse.{parse_workflow_definition, as_validation_error}
use eaistack.Workflow.Schema.Reachable.{Reach, reachable_steps_correct}
use eaistack.Workflow.Schema.Fuel.{reachable_steps_total}
use eaistack.Workflow.Schema.Accepted.{WellFormed, validate_definition-ok_iff}
use eaistack.Workflow.Compiler.{Graph, LangGraph, Target, compile_workflow}
use eaistack.Workflow.Compiler.Closed.{CanBuild, Compiles, compile_workflow-ok_iff}
use eaistack.Workflow.Versions
use eaistack.Workflow.Versions.{Platform, admin, WorkflowVersion, Versions, rows_of}
use eaistack.Workflow.Versions.Chain.{
  verify_chain, verify_from, is_broken, sort_by_sequence, insert_sorted,
}
use eaistack.Workflow.Versions.Intact.{
  IsNumbered, IsChain, head_hash, verify_chain_iff, IsDescending-of-IsNumbered,
}
use eaistack.Workflow.Versions.Tamper.{Laws, IsClean, covered, verify_chain-tamper_evident}
use eaistack.Workflow.Service.{
  Parsing, mapping, Store, get_active_version_id, rolled_back, parse_draft_yaml,
  parse_yaml_definition, loaded, as_rejection, utf8_length,
}
use eaistack.Workflow.Service.Operations.{
  Draft, rollback, sync_builtin_versions, apply_publish, get_version_of, version_at,
}
use eaistack.Workflow.Service.Commands.{Command, save, publish_version, rollback_to, sync, run_all}
use eaistack.Workflow.Service.Trail.{IsAudited, run_all-IsAudited, run_all-verifies}
use eaistack.Workflow.Service.Resolve.{resolve_active_workflow, resolved, unpublished}
use eaistack.Workflow.Service.Pointers.{IsFresh, resolve_active_workflow-total}
use eaistack.Workflow.Service.Publishing.{
  IsRolledBack, rollback-eq-ok, sync_builtin_versions-protects_admin,
}

abbrev tally : ℕ → Text
tally zero = []
tally (suc n) = b'1' ∷ tally n

abbrev letters : ℕ → String
letters zero = "v"
letters (suc n) = String.◌∷◌ "v" (letters n)

abbrev platform : Platform
platform = record { sha256 = λ t. b'a' ∷ map suc t; str = tally; isoformat = tally; uuid = letters }

tally_injective : (m n : ℕ) → tally m ≡ tally n → m ≡ n
tally_injective zero zero h = refl
tally_injective zero (suc n) h = cc
tally_injective (suc m) zero h = cc
tally_injective (suc m) (suc n) h = let same = tally_injective m n (cc) in cc

tally_free : (n : ℕ) → IsFreeOf 0 (tally n)
tally_free zero = tt
tally_free (suc n) = (refl, tally_free n)

shift_injective : (a b : Text) → map suc a ≡ map suc b → a ≡ b
shift_injective [] [] h = refl
shift_injective [] (d ∷ b) h = cc
shift_injective (c ∷ a) [] h = cc
shift_injective (c ∷ a) (d ∷ b) h = let same = shift_injective a b (cc) in cc

shift_free : (a : Text) → IsFreeOf 0 (map suc a)
shift_free [] = tt
shift_free (c ∷ a) = (ground arith, shift_free a)

letters_nonempty : (n : ℕ) → String.[] ≢ letters n
letters_nonempty zero h = cc
letters_nonempty (suc n) h = cc

fresh : IsFresh platform
fresh zero zero h = refl
fresh zero (suc n) h = elim (letters_nonempty n (cc)) [ ]
fresh (suc m) zero h = elim (letters_nonempty m (cc)) [ ]
fresh (suc m) (suc n) h = let same = fresh m n (cc) in cc

laws : Laws platform
laws = record {
  sha256_injective = λ a b h. shift_injective a b (cc);
  sha256_nonempty = λ a h. cc;
  sha256_free = λ a. (refl, shift_free a);
  str_injective = tally_injective;
  str_free = tally_free;
  isoformat_injective = tally_injective;
  isoformat_free = tally_free;
}

abbrev chat : WorkflowDef
chat = record {
  name = "chat";
  version = pos 1;
  description = "";
  entry = "respond";
  steps =
      (
        "respond",
        agent (record { prompt = "Reply."; tools = []; next = some "check"; output_field = none }),
      )
      ∷ (
        "check",
        agent (record { prompt = "Check."; tools = []; next = none; output_field = none }),
      )
      ∷ [];
  tests = [];
}

abbrev parsing : Parsing
parsing = record {
  safe_load = λ yaml_text. ok (mapping end);
  pydantic = record { model_validate = λ raw. ok chat; schema_error = λ raw. false };
}

validate_definition-ok_iff_example :
    (validate_definition (λ raw. false) chat ≡ ok tt)
    ↔ (WellFormed chat × (validate_eval_cases (λ raw. false) chat ≡ ok tt))
validate_definition-ok_iff_example = validate_definition-ok_iff (λ raw. false) chat

reachable_steps_total_example : (visited : List String) × (reachable_steps chat ≡ some visited)
reachable_steps_total_example = reachable_steps_total chat

reachable_steps_correct_example :
    ((t : String) → In t reachable_steps_total_example.0 → Reach "respond" chat.steps t)
    × ((t : String) (step : _)
        → Reach "respond" chat.steps t
        → Dict.lookup t chat.steps ≡ some step
        → In t reachable_steps_total_example.0)
reachable_steps_correct_example =
    reachable_steps_correct chat reachable_steps_total_example.0 reachable_steps_total_example.1

abbrev edit : Draft
edit = record {
  yaml_text = "name: chat";
  change_note = codes "edit";
  actor_user_id = "ann";
  now = 2;
}

abbrev sources : List (String × String)
sources = ("chat", "shipped") ∷ []

-- A startup sync, a draft by an administrator, and its publication.
abbrev commands : List Command
commands = publish_version "chat" "vv" "ann" 3 ∷ save "chat" edit ∷ sync 1 sources ∷ []

abbrev edited : Store
edited = run_all platform parsing commands

run_all-IsAudited_example :
    IsAudited (run_all platform parsing (rollback_to "chat" "v" "ann" 4 ∷ commands))
run_all-IsAudited_example =
    run_all-IsAudited platform parsing (rollback_to "chat" "v" "ann" 4 ∷ commands)

run_all-verifies_example :
    IsNumbered (rows_of "chat" edited.versions)
    × (verify_chain platform (rows_of "chat" edited.versions) ≡ none)
run_all-verifies_example = run_all-verifies platform parsing commands "chat"

resolve_active_workflow-total_example :
    let (answer, after) = resolve_active_workflow platform 5 sources "chat" edited in
    ((get_active_version_id "chat" after ≡ none) × (answer ≡ unpublished "chat"))
    ⊎ ((v : WorkflowVersion) × (answer ≡ resolved v)
        × (get_active_version_id "chat" after ≡ some v.id)
        × (v.workflow_name ≡ "chat"))
resolve_active_workflow-total_example =
    resolve_active_workflow-total platform parsing commands 5 sources "chat" fresh

verify_chain_iff_example :
    (verify_chain platform (rows_of "chat" edited.versions) ≡ none)
    ↔ IsChain platform (rows_of "chat" edited.versions)
verify_chain_iff_example =
    verify_chain_iff platform (rows_of "chat" edited.versions)
      (IsDescending-of-IsNumbered (rows_of "chat" edited.versions) run_all-verifies_example.0)

chat_accepted : validate_definition (λ raw. false) chat ≡ ok tt
unfolding validate_definition check_steps check_step check_step_body check_tools reject_first
    step_targets next_targets check_all_reachable reachable_steps explore edge_count check_reachable
    validate_eval_cases check_cases total_runs Dict.lookup contains
chat_accepted = refl

yaml_accepted : parse_draft_yaml parsing "chat" "old" ≡ ok chat
unfolding parse_draft_yaml parse_yaml_definition loaded as_rejection utf8_length
    parse_workflow_definition as_validation_error
yaml_accepted = rw chat_accepted refl

abbrev old_row : WorkflowVersion
old_row = record {
  id = "v";
  workflow_name = "chat";
  sequence = 1;
  yaml_text = "old";
  content_hash = [];
  prev_chain_hash = none;
  chain_hash = [];
  parent_version_id = none;
  source = Versions.builtin;
  author_user_id = "system";
  change_note = [];
  created_at = 1;
}

abbrev new_row : WorkflowVersion
new_row = record {
  id = "vv";
  workflow_name = "chat";
  sequence = 2;
  yaml_text = "new";
  content_hash = [];
  prev_chain_hash = some [];
  chain_hash = [];
  parent_version_id = some "v";
  source = admin;
  author_user_id = "ann";
  change_note = [];
  created_at = 2;
}

-- An administrator's version is published over a built-in one.
abbrev desk : Store
desk = record {
  versions = new_row ∷ old_row ∷ [];
  pointers = ("chat", record { version_id = "vv"; updated_by = "ann"; updated_at = 3 }) ∷ [];
  audit = [];
  drawn = 2;
}

abbrev back : Store
back = apply_publish "chat" old_row (some "vv") rolled_back "ann" 4 desk

back_computed : rollback parsing "chat" "v" "ann" 4 desk ≡ ok (old_row, back)
unfolding rollback get_version_of version_at get_active_version_id Versions.get Dict.lookup
back_computed = rw yaml_accepted refl

rollback-eq-ok_example : IsRolledBack parsing "chat" "ann" 4 desk (old_row, back)
rollback-eq-ok_example = rollback-eq-ok parsing "chat" "v" "ann" 4 desk old_row back back_computed

desk_active : get_active_version_id "chat" desk ≡ some "vv"
unfolding get_active_version_id Dict.lookup
desk_active = refl

desk_row : Versions.get "vv" desk.versions ≡ some new_row
unfolding Versions.get
desk_row = refl

sync_builtin_versions-protects_admin_example :
    (get_active_version_id "chat" (sync_builtin_versions platform 6 sources desk) ≡ some "vv")
    × (Versions.get "vv" (sync_builtin_versions platform 6 sources desk).versions ≡ some new_row)
sync_builtin_versions-protects_admin_example =
    sync_builtin_versions-protects_admin platform 6 sources "chat" "vv" new_row desk fresh
      ((1, omega arith, refl), ((0, omega arith, refl), tt)) desk_active desk_row refl

-- A first version and the same under another id.
abbrev first_row : WorkflowVersion
first_row = Versions.next_version platform "v" none (record {
  workflow_name = "chat";
  yaml_text = "old";
  source = admin;
  author_user_id = "ann";
  change_note = [];
  parent_version_id = none;
  now = 1;
})

abbrev renamed_row : WorkflowVersion
renamed_row = Versions.next_version platform "w" none (record {
  workflow_name = "chat";
  yaml_text = "old";
  source = Versions.builtin;
  author_user_id = "ann";
  change_note = [];
  parent_version_id = none;
  now = 1;
})

first_verifies : verify_chain platform (first_row ∷ []) ≡ none
unfolding verify_chain verify_from is_broken sort_by_sequence insert_sorted Versions.next_version
    Versions.compute_content_hash Versions.compute_chain_hash join
first_verifies = refl

renamed_verifies : verify_chain platform (renamed_row ∷ []) ≡ none
unfolding verify_chain verify_from is_broken sort_by_sequence insert_sorted Versions.next_version
    Versions.compute_content_hash Versions.compute_chain_hash join
renamed_verifies = refl

abbrev names_free :
    (IsFreeOf 0 (codes "chat") × (IsFreeOf 0 (codes "ann") × IsFreeOf 0 [])) × Unit {0}
names_free = (((refl, (refl, (refl, (refl, tt)))), ((refl, (refl, (refl, tt))), tt)), tt)

first-IsClean : IsClean (first_row ∷ [])
unfolding Versions.next_version
first-IsClean = names_free

renamed-IsClean : IsClean (renamed_row ∷ [])
unfolding Versions.next_version
renamed-IsClean = names_free

same_head : head_hash (first_row ∷ []) ≡ head_hash (renamed_row ∷ [])
unfolding Versions.next_version
same_head = refl

verify_chain-tamper_evident_example : map covered (first_row ∷ []) ≡ map covered (renamed_row ∷ [])
verify_chain-tamper_evident_example =
    verify_chain-tamper_evident platform laws (first_row ∷ []) (renamed_row ∷ []) (tt, tt) (tt, tt)
      first-IsClean renamed-IsClean first_verifies renamed_verifies same_head

-- A LangGraph that refuses the names of nodes and nothing else.
abbrev langgraph : LangGraph
langgraph = record { takes = λ present name. not (contains present name) }

compile_workflow-ok_iff_example :
    (CanBuild langgraph chat → Compiles langgraph chat)
    × ((compiled : Graph × Target)
        → compile_workflow langgraph chat ≡ ok compiled
        → CanBuild langgraph chat)
compile_workflow-ok_iff_example =
    compile_workflow-ok_iff (λ raw. false) langgraph chat chat_accepted
