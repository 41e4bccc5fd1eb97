-- ===== src/Threads.antt =====
-- backend/app/repositories/thread_repository.py: who owns which conversation. Rows stand newest first.
-- The id and the time of a new row come from the database and the clock, and are arguments.
mod Tests
use eaistack.Base.{
  ℕ, String, Bool, true, false, ◌&&◌, Option, none, some, List, [], ◌∷◌, ltb, if◌then◌else◌, ◌==◌,
  string_eq, option_eq, first, select, ◌≡◌, refl, ◌⊎◌, inl, inr, arith, Bool-cases, Option-cases,
  eq_of_beq,
}

pub record ConversationThread : Type 0 where
  pub id : String
  pub user_id : String
  pub workflow_name : String
  pub test_version_id : Option String
  pub updated_at : ℕ

abbrev pub Threads : Type 0
Threads = List ConversationThread

-- A row of the user that stands under the version, or under none where it is a conversation.
unfoldable pub belongs : String → Option String → ConversationThread → Bool
belongs user version t = t.user_id == user && t.test_version_id == version

unfoldable pub by_id : String → String → Option String → Threads → Option ConversationThread
by_id id user version ts =
    first (λ (t : ConversationThread). t.id == id && belongs user version t) ts

unfoldable pub get_by_id_for_user : String → String → Threads → Option ConversationThread
get_by_id_for_user id user ts = by_id id user none ts

-- `order_by(updated_at.desc())`
unfoldable pub insert_latest : ConversationThread → Threads → Threads
insert_latest t [] = t ∷ []
insert_latest t (u ∷ us) =
    let rest = insert_latest t us in if ltb t.updated_at u.updated_at then u ∷ rest else t ∷ u ∷ us

unfoldable pub latest_first : Threads → Threads
latest_first [] = []
latest_first (t ∷ ts) = insert_latest t (latest_first ts)

unfoldable pub list_for_user : String → Threads → Threads
list_for_user user ts = latest_first (select (belongs user none) ts)

-- The existing row, or a new one.
abbrev pub found_or_new :
    Option ConversationThread → ConversationThread → Threads → ConversationThread × Threads
found_or_new none new ts = (new, new ∷ ts)
found_or_new (some existing) new ts = (existing, ts)

abbrev pub lookup_if_given :
    Option String → String → Option String → Threads → Option ConversationThread
lookup_if_given none user version ts = none
lookup_if_given (some id) user version ts = by_id id user version ts

abbrev pub new_thread : String → String → String → Option String → ℕ → ConversationThread
new_thread id user workflow version now = record {
  id = id;
  user_id = user;
  workflow_name = workflow;
  test_version_id = version;
  updated_at = now;
}

unfoldable pub get_or_create_owned :
    String → ℕ → Option String → String → String → Threads → ConversationThread × Threads
get_or_create_owned fresh now thread_id user workflow ts =
    found_or_new (lookup_if_given thread_id user none ts) (new_thread fresh user workflow none now)
      ts

unfoldable pub get_or_create_test_thread :
    String → ℕ → Option String → String → String → String → Threads → ConversationThread × Threads
get_or_create_test_thread fresh now thread_id user workflow version ts =
    found_or_new (lookup_if_given thread_id user (some version) ts)
      (new_thread fresh user workflow (some version) now) ts

unfoldable pub touch : String → ℕ → Threads → Threads
touch id now [] = []
touch id now (t ∷ ts) =
    let rest = touch id now ts in
    if t.id == id
    then new_thread t.id t.user_id t.workflow_name t.test_version_id now ∷ ts
    else t ∷ rest

by_id-belongs :
    (id user : String) (version : Option String) (ts : Threads) (t : ConversationThread)
    → by_id id user version ts ≡ some t
    → (t.user_id ≡ user) × (t.test_version_id ≡ version)
unfolding by_id belongs
by_id-belongs id user version [] t h = cc
by_id-belongs id user version (u ∷ ts) t h =
    elim (Bool-cases (u.id == id && (u.user_id == user && u.test_version_id == version))) [
      | inl here ↦
          let u_is_t : u ≡ t = cc (rw here at h) in
          let owner : u.user_id ≡ user = eq_of_beq u.user_id user (ground arith) in
          let under : u.test_version_id ≡ version =
            eq_of_beq u.test_version_id version (ground arith) in
          (cc, cc)
      | inr other ↦ by_id-belongs id user version ts t (rw other at h)
    ]

lookup-belongs :
    (thread_id : Option String) (user : String) (version : Option String) (ts : Threads)
    (t : ConversationThread)
    → lookup_if_given thread_id user version ts ≡ some t
    → (t.user_id ≡ user) × (t.test_version_id ≡ version)
lookup-belongs none user version ts t h = cc
lookup-belongs (some id) user version ts t h = by_id-belongs id user version ts t h

-- What a turn gets: a thread of the user under the version, and no change of a row that was there.
abbrev pub IsOwn :
    String → Option String → ConversationThread → Threads → ConversationThread × Threads → Type 0
IsOwn user version new ts (t, after) =
    (t.user_id ≡ user)
    × (t.test_version_id ≡ version)
    × ((after ≡ ts) ⊎ ((t ≡ new) × (after ≡ new ∷ ts)))

found_or_new-IsOwn :
    (thread_id : Option String) (fresh user workflow : String) (version : Option String) (now : ℕ)
    (ts : Threads)
    → IsOwn user version (new_thread fresh user workflow version now) ts (
        found_or_new
          (lookup_if_given thread_id user version ts)
          (new_thread fresh user workflow version now)
          ts)
found_or_new-IsOwn thread_id fresh user workflow version now ts =
    elim (Option-cases (lookup_if_given thread_id user version ts)) [
      | inl missing ↦ rw missing (refl, refl, inr (refl, refl))
      | inr (t, found) ↦
          let (owner, under) = lookup-belongs thread_id user version ts t found in
          rw found (owner, under, inl refl)
    ]

-- Whatever thread id a client sends, a chat turn gets a conversation of its own user that is no test
-- thread, and a test turn gets a test thread of its own user under its own version; either changes no
-- row that was there and adds at most the thread that it gets.
pub get_or_create-IsOwn :
    (fresh : String) (now : ℕ) (thread_id : Option String) (user workflow version : String)
    (ts : Threads)
    → IsOwn user none
        (new_thread fresh user workflow none now)
        ts
        (get_or_create_owned fresh now thread_id user workflow ts)
      × IsOwn user
          (some version)
          (new_thread fresh user workflow (some version) now)
          ts
          (get_or_create_test_thread fresh now thread_id user workflow version ts)
unfolding get_or_create_owned get_or_create_test_thread
get_or_create-IsOwn fresh now thread_id user workflow version ts = (
  found_or_new-IsOwn thread_id fresh user workflow none now ts,
  found_or_new-IsOwn thread_id fresh user workflow (some version) now ts,
)
