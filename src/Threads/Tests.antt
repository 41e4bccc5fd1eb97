-- ===== src/Threads/Tests.antt =====
-- The theorem on conversations at a concrete input: a client sends the id of another user's thread.
use eaistack.Base.{none, some, [], ◌∷◌}
use eaistack.Threads.{
  Threads, new_thread, get_or_create_owned, get_or_create_test_thread, IsOwn, get_or_create-IsOwn,
}

abbrev stored : Threads
stored = new_thread "t1" "ann" "chat" none 1 ∷ []

get_or_create-IsOwn_example :
    IsOwn "bob" none
      (new_thread "t2" "bob" "chat" none 2)
      stored
      (get_or_create_owned "t2" 2 (some "t1") "bob" "chat" stored)
    × IsOwn "bob"
        (some "v")
        (new_thread "t2" "bob" "chat" (some "v") 2)
        stored
        (get_or_create_test_thread "t2" 2 (some "t1") "bob" "chat" "v" stored)
get_or_create-IsOwn_example = get_or_create-IsOwn "t2" 2 (some "t1") "bob" "chat" "v" stored
