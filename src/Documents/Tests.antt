-- ===== src/Documents/Tests.antt =====
-- The theorems on object keys at concrete names.
use Prim.Native.String.{◌++◌ as ◌<>◌}
use eaistack.Base.{
  String, List, [], ◌∷◌, none, some, true, false, ◌≡◌, ◌↔◌, refl, string_eq, contains,
}
use eaistack.Base.Result.{ok}
use eaistack.Documents.Keys.{build_object_key, key_belongs_to_user}
use eaistack.Documents.Api.{
  Indexer, Faults, Library, Limits, Upload, Request, Call, upload, update, handle_all,
}
use eaistack.Documents.Api.Tidy.{IsTidy, handle_all-IsTidy}
use eaistack.Documents.Keys.Separate.{IsFilename, build_object_key-ok_iff, keys_are_separate}

build_object_key-ok_iff_example :
    (build_object_key "ann" "d1" "a..b.pdf" ≡ ok "ann/d1/a..b.pdf")
    ↔ (IsFilename "a..b.pdf" × ("ann" <> "/" <> "d1" <> "/" <> "a..b.pdf" ≡ "ann/d1/a..b.pdf"))
build_object_key-ok_iff_example = build_object_key-ok_iff "ann" "d1" "a..b.pdf" "ann/d1/a..b.pdf"

first_key : build_object_key "ann" "d1" "a.txt" ≡ ok "ann/d1/a.txt"
unfolding contains
first_key = (build_object_key-ok_iff "ann" "d1" "a.txt" "ann/d1/a.txt").1 ((refl, refl, refl), refl)

second_key : build_object_key "bob" "d2" "a.txt" ≡ ok "bob/d2/a.txt"
unfolding contains
second_key =
    (build_object_key-ok_iff "bob" "d2" "a.txt" "bob/d2/a.txt").1 ((refl, refl, refl), refl)

abbrev ann : String
ann = "ann"

abbrev first_id : String
first_id = "d1"

abbrev name : String
name = "a.txt"

abbrev first_path : String
first_path = "ann/d1/a.txt"

keys_are_separate_example :
    ((key_belongs_to_user "ann/d1/a.txt" "bob" ≡ true) ↔ (ann ≡ "bob"))
    × ((first_path ≡ "bob/d2/a.txt") ↔ ((ann ≡ "bob") × (first_id ≡ "d2") × (name ≡ "a.txt")))
keys_are_separate_example =
    keys_are_separate "ann" "bob" "d1" "d2" "a.txt" "a.txt" "ann/d1/a.txt" "bob/d2/a.txt"
      (refl, (refl, (refl, tt))) (refl, (refl, (refl, tt))) (refl, (refl, tt)) (refl, (refl, tt))
      first_key second_key

abbrev faultless : Faults
faultless = record { put_raises = false; commit_raises = false; delete_raises = false }

abbrev text_file : Upload
text_file = record {
  filename = "a.txt";
  content_type = "text/plain";
  size = 3;
  extracted = some "abc";
}

abbrev indexer : Indexer
indexer = record {
  chunk_document = λ title text.
      record { chunk_index = 0; text = text; heading_path = none; embed_text = text } ∷ [];
  embeds = λ texts. true;
}

abbrev upload_limits : Limits
upload_limits = record { allowed_content_types = "text/plain" ∷ []; max_bytes = 100 }

abbrev no_documents : Library
no_documents = record { documents = []; embeddings = []; objects = [] }

abbrev call_of : String → String → Call
call_of user_id kb_id = record {
  user_id = user_id;
  kb_id = kb_id;
  new_id = λ n. "p1";
  now = 5;
  faults = faultless;
}

-- A file is uploaded twice under one id, the second time by another user, and then edited.
abbrev requests : List (Call × Request)
requests =
    (call_of "ann" "d1", upload text_file)
    ∷ (call_of "bob" "d1", upload text_file)
    ∷ (call_of "ann" "d2", update "d1" "title" "content" "{}")
    ∷ []

handle_all-IsTidy_example : IsTidy (handle_all indexer upload_limits requests no_documents)
handle_all-IsTidy_example =
    handle_all-IsTidy indexer upload_limits requests no_documents (refl, (refl, (refl, tt)))
      (record { keyed = tt; owned = tt; referenced = tt })
