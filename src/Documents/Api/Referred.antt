-- ===== src/Documents/Api/Referred.antt =====
-- Which keys the rows of the documents refer to, and what adding and rewriting a row makes of them.
use eaistack.Base.{
  String, Bool, true, false, ◌&&◌, ◌||◌, Option, none, some, List, [], ◌∷◌, ◌++◌, contains, ◌==◌,
  string_eq, ◌≡◌, ◌⊎◌, refl, sym, ◌∙◌, ap, subst, arith, Bool-cases, inl, inr, All, IsKey,
  eq_of_beq,
}
use eaistack.Documents.{KnowledgeBase, is_live, get_by_id, rewrite}
use eaistack.Documents.Keys.{key_belongs_to_user}
use eaistack.Documents.Api.{put, remove, ids}

-- A file's key is one of the row's user.
abbrev pub Owns : String → Option String → Type 0
Owns user_id none = Unit
Owns user_id (some key) = key_belongs_to_user key user_id ≡ true

-- Some row has the key.
abbrev pub Refers : List KnowledgeBase → String → Type 0
Refers [] key = ⊥
Refers (kb ∷ rows) key = (kb.storage_key ≡ some key) ⊎ Refers rows key

abbrev pub OwnRow : KnowledgeBase → Type 0
OwnRow kb = Owns kb.user_id kb.storage_key

pub Refers-append_left :
    (rows more : List KnowledgeBase) (key : String) → Refers rows key → Refers (rows ++ more) key
Refers-append_left [] more key h = absurd h
Refers-append_left (kb ∷ rows) more key (inl here) = inl here
Refers-append_left (kb ∷ rows) more key (inr later) = inr (Refers-append_left rows more key later)

pub Refers-last :
    (rows : List KnowledgeBase) (kb : KnowledgeBase) (key : String)
    → kb.storage_key ≡ some key
    → Refers (rows ++ kb ∷ []) key
Refers-last [] kb key h = inl h
Refers-last (r ∷ rows) kb key h = inr (Refers-last rows kb key h)

pub put-All :
    (Q : String → Type 0) (key : String) (objects : List String)
    → Q key
    → All Q objects
    → All Q (put key objects)
put-All Q key objects q h = elim (Bool-cases (contains objects key)) [
  | inl there ↦ rw there h
  | inr new ↦ rw new (q, h)
]

pub remove-All :
    (P Q : String → Type 0) (key : String) (objects : List String)
    → ((k : String) → (k == key) ≡ false → P k → Q k)
    → All P objects
    → All Q (remove key objects)
remove-All P Q key [] f h = tt
remove-All P Q key (k ∷ objects) f h = elim (Bool-cases (k == key)) [
  | inl same ↦ rw same (remove-All P Q key objects f h.1)
  | inr other ↦ rw other (f k other h.0, remove-All P Q key objects f h.1)
]

-- Adding a row.
contains-append :
    (rows : List KnowledgeBase) (kb : KnowledgeBase) (id : String)
    → contains (ids rows) id ≡ false
    → (kb.id == id) ≡ false
    → contains (ids (rows ++ kb ∷ [])) id ≡ false
unfolding contains
contains-append [] kb id h apart = rw apart refl
contains-append (r ∷ rows) kb id h apart = ground (arith, contains-append rows kb id)

apart_swap : (a b : String) → (a == b) ≡ false → (b == a) ≡ false
apart_swap a b h = ground (arith, string_eq.beq_iff a b, string_eq.beq_iff b a)

pub first_apart : (a b : Bool) → a || b ≡ false → (a ≡ false) × (b ≡ false)
first_apart a b h = ground arith

pub IsKey-append :
    (rows : List KnowledgeBase) (kb : KnowledgeBase)
    → IsKey (λ (r : KnowledgeBase). r.id) rows
    → contains (ids rows) kb.id ≡ false
    → IsKey (λ (r : KnowledgeBase). r.id) (rows ++ kb ∷ [])
unfolding contains
IsKey-append [] kb keyed new = (refl, tt)
IsKey-append (r ∷ rows) kb keyed new =
    let (apart, rest) = first_apart (r.id == kb.id) _ new in
    (
      contains-append rows kb r.id keyed.0 (apart_swap r.id kb.id apart),
      IsKey-append rows kb keyed.1 rest,
    )

pub All-append_one :
    (P : KnowledgeBase → Type 0) (rows : List KnowledgeBase) (kb : KnowledgeBase)
    → All P rows
    → P kb
    → All P (rows ++ kb ∷ [])
All-append_one P [] kb h p = (p, tt)
All-append_one P (r ∷ rows) kb h p = (h.0, All-append_one P rows kb h.1 p)

-- Rewriting a row.
module _ (id : String) (f : KnowledgeBase → KnowledgeBase) where
  ids-rewrite :
      ((r : KnowledgeBase) → (f r).id ≡ r.id)
      → (rows : List KnowledgeBase) → ids (rewrite id f rows) ≡ ids rows
  unfolding rewrite
  ids-rewrite same [] = refl
  ids-rewrite same (r ∷ rows) = elim (Bool-cases (r.id == id)) [
    | inl here ↦ rw (here, same r) refl
    | inr other ↦ rw (other, ids-rewrite same rows) refl
  ]

  pub rewrite-IsKey :
      ((r : KnowledgeBase) → (f r).id ≡ r.id)
      → (rows : List KnowledgeBase) → IsKey (λ (r : KnowledgeBase). r.id) rows
      → IsKey (λ (r : KnowledgeBase). r.id) (rewrite id f rows)
  unfolding rewrite
  rewrite-IsKey same [] h = tt
  rewrite-IsKey same (r ∷ rows) h = elim (Bool-cases (r.id == id)) [
    | inl here ↦ rw (here, same r) h
    | inr other ↦ rw (other, ids-rewrite same rows) (h.0, rewrite-IsKey same rows h.1)
  ]

  pub rewrite-All :
      (P : KnowledgeBase → Type 0)
      → ((r : KnowledgeBase) → P r → P (f r))
      → (rows : List KnowledgeBase) → All P rows
      → All P (rewrite id f rows)
  unfolding rewrite
  rewrite-All P keeps [] h = tt
  rewrite-All P keeps (r ∷ rows) h = elim (Bool-cases (r.id == id)) [
    | inl here ↦ rw here (keeps r h.0, h.1)
    | inr other ↦ rw other (h.0, rewrite-All P keeps rows h.1)
  ]

  pub Refers-rewrite_kept :
      ((r : KnowledgeBase) → (f r).storage_key ≡ r.storage_key)
      → (rows : List KnowledgeBase) (key : String) → Refers rows key
      → Refers (rewrite id f rows) key
  unfolding rewrite
  Refers-rewrite_kept same [] key h = absurd h
  Refers-rewrite_kept same (r ∷ rows) key h = elim (Bool-cases (r.id == id)) [
    | inl here ↦ rw here (elim h [ inl own ↦ inl (same r ∙ own) | inr later ↦ inr later ])
    | inr other ↦
        rw other
          (elim h [ inl own ↦ inl own | inr later ↦ inr (Refers-rewrite_kept same rows key later) ])
  ]

abbrev live : KnowledgeBase → Bool
live kb = is_live kb.deleted_at

both_true : (a b : Bool) → a && b ≡ true → (a ≡ true) × (b ≡ true)
both_true a b h = ground arith

not_both : (b : Bool) → b ≡ true → b ≡ false → ⊥
not_both b h k = cc

same_row : (r kb : KnowledgeBase) → Path (Option KnowledgeBase) (some r) (some kb) → r ≡ kb
same_row r kb h = cc

-- The id of a row that is found is one of the table's.
found_in :
    (id user : String) (rows : List KnowledgeBase) (kb : KnowledgeBase)
    → get_by_id id user rows ≡ some kb
    → contains (ids rows) id ≡ true
unfolding get_by_id contains
found_in id user [] kb h = cc
found_in id user (r ∷ rows) kb h = elim (Bool-cases (r.id == id)) [
  | inl here ↦ rw here refl
  | inr other ↦ rw other (found_in id user rows kb (rw other at h))
]

pub get_by_id-found :
    (P : KnowledgeBase → Type 0) (id user : String) (rows : List KnowledgeBase) (kb : KnowledgeBase)
    → get_by_id id user rows ≡ some kb
    → All P rows
    → (kb.id ≡ id) × (kb.user_id ≡ user) × P kb
unfolding get_by_id
get_by_id-found P id user [] kb h ps = cc
get_by_id-found P id user (r ∷ rows) kb h ps =
    elim (Bool-cases (r.id == id && (r.user_id == user && live r))) [
      | inl match ↦
          let (a, rest) = both_true (r.id == id) _ match in
          let (b, c) = both_true (r.user_id == user) _ rest in
          subst (λ (x : KnowledgeBase). (x.id ≡ id) × (x.user_id ≡ user) × P x)
            (same_row r kb (rw match at h)) (eq_of_beq r.id id a, eq_of_beq r.user_id user b, ps.0)
      | inr other ↦ get_by_id-found P id user rows kb (rw other at h) ps.1
    ]

pub Refers-rewrite_other :
    (id user : String) (f : KnowledgeBase → KnowledgeBase) (rows : List KnowledgeBase)
    (kb : KnowledgeBase) (key : String)
    → IsKey (λ (r : KnowledgeBase). r.id) rows
    → get_by_id id user rows ≡ some kb
    → (kb.storage_key ≡ some key → ⊥)
    → Refers rows key
    → Refers (rewrite id f rows) key
unfolding rewrite get_by_id
Refers-rewrite_other id user f [] kb key keyed found differs h = absurd h
Refers-rewrite_other id user f (r ∷ rows) kb key keyed found differs h =
    elim (Bool-cases (r.id == id)) [
      | inr other ↦ rw other (elim h [
        | inl own ↦ inl own
        | inr later ↦
            inr
              (Refers-rewrite_other id user f rows kb key keyed.1 (rw other at found) differs later)
      ])
      | inl here ↦ rw here (elim (Bool-cases (r.user_id == user && live r)) [
        | inl match ↦
            let same = same_row r kb (rw (here, match) at found) in
            elim h [
              | inl own ↦
                  absurd (differs (ap (λ (x : KnowledgeBase). x.storage_key) (sym same) ∙ own))
              | inr later ↦ inr later
            ]
        | inr miss ↦ absurd (
            not_both (contains (ids rows) r.id)
              (subst (λ i. contains (ids rows) i ≡ true) (sym (eq_of_beq r.id id here))
                (found_in id user rows kb (rw (here, miss) at found)))
              keyed.0)
      ])
    ]
