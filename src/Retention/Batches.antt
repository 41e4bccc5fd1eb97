-- ===== src/Retention/Batches.antt =====
-- Deletions by id, a batch at a time: `_delete_in_batches` of
-- backend/app/services/retention_service.py and the loops like it.
use eaistack.Base.{
  ℕ, zero, suc, ◌+◌, ◌≤◌, String, not, ◌||◌, List, [], ◌∷◌, ◌++◌, take, drop, select, contains,
  length, ◌≡◌, refl, ap, ◌∙◌, arith, string_eq,
}

module _ {A : Type 0} where
  -- The slices of `for start in range(0, len(xs), size)`. A batch holds `suc more`, since `range`
  -- refuses a step of 0; the fuel is the length of the list.
  unfoldable pub slices : ℕ → ℕ → List A → List (List A)
  slices zero more xs = []
  slices (suc fuel) more [] = []
  slices (suc fuel) more (x ∷ xs) = (x ∷ take more xs) ∷ slices fuel more (drop more xs)

  unfoldable pub batches : ℕ → List A → List (List A)
  batches more xs = slices (length xs) more xs

  unfoldable pub concat : List (List A) → List A
  concat [] = []
  concat (xs ∷ xss) = xs ++ concat xss

  take-append-drop : (n : ℕ) (xs : List A) → take n xs ++ drop n xs ≡ xs
  take-append-drop zero xs = refl
  take-append-drop (suc n) [] = refl
  take-append-drop (suc n) (x ∷ xs) = ap (λ ys. x ∷ ys) (take-append-drop n xs)

  length-drop-le : (n : ℕ) (xs : List A) → length (drop n xs) ≤ length xs
  length-drop-le zero xs = omega arith
  length-drop-le (suc n) [] = omega arith
  length-drop-le (suc n) (x ∷ xs) = omega (arith, length-drop-le n xs)

  concat-slices :
      (fuel more : ℕ) (xs : List A) → length xs ≤ fuel → concat (slices fuel more xs) ≡ xs
  unfolding concat slices
  concat-slices zero more [] h = refl
  concat-slices zero more (x ∷ xs) h = absurd (omega arith)
  concat-slices (suc fuel) more [] h = refl
  concat-slices (suc fuel) more (x ∷ xs) h =
      ap (λ ys. x ∷ (take more xs ++ ys))
        (concat-slices fuel more (drop more xs) (omega (arith, length-drop-le more xs)))
      ∙ ap (λ ys. x ∷ ys) (take-append-drop more xs)

  -- No id is left out and none stands twice.
  pub concat-batches : (more : ℕ) (xs : List A) → concat (batches more xs) ≡ xs
  unfolding batches
  concat-batches more xs = concat-slices (length xs) more xs (omega arith)

module _ {R : Type 0} (key : R → String) where
  -- `query.filter(key.in_(ids)).delete()`: the rows that stay, and how many went.
  unfoldable pub delete_in : List String → List R → List R
  delete_in ids rows = select (λ r. not (contains ids (key r))) rows

  unfoldable pub deleted_in : List String → List R → ℕ
  deleted_in ids rows = length (select (λ r. contains ids (key r)) rows)

  unfoldable pub delete_each : List (List String) → List R → ℕ × List R
  delete_each [] rows = (0, rows)
  delete_each (ids ∷ later) rows =
      let (count, rest) = delete_each later (delete_in ids rows) in
      (deleted_in ids rows + count, rest)

  unfoldable pub delete_in_batches : ℕ → List String → List R → ℕ × List R
  delete_in_batches more ids rows = delete_each (batches more ids) rows

  contains-append :
      (xs ys : List String) (a : String) → contains (xs ++ ys) a ≡ (contains xs a || contains ys a)
  unfolding contains
  contains-append [] ys a = refl
  contains-append (x ∷ xs) ys a = ground (arith, contains-append xs ys a)

  delete-append :
      (xs ys : List String) (rows : List R)
      → delete_in ys (delete_in xs rows) ≡ delete_in (xs ++ ys) rows
  unfolding delete_in
  delete-append xs ys [] = refl
  delete-append xs ys (r ∷ rows) =
      ground (arith, contains-append xs ys (key r), delete-append xs ys rows)

  deleted-append :
      (xs ys : List String) (rows : List R)
      → deleted_in xs rows + deleted_in ys (delete_in xs rows) ≡ deleted_in (xs ++ ys) rows
  unfolding delete_in deleted_in
  deleted-append xs ys [] = refl
  deleted-append xs ys (r ∷ rows) =
      ground (arith, contains-append xs ys (key r), deleted-append xs ys rows)

  pub delete_none : (rows : List R) → delete_in [] rows ≡ rows
  unfolding delete_in contains
  delete_none [] = refl
  delete_none (r ∷ rows) = ap (λ rs. r ∷ rs) (delete_none rows)

  pub deleted_none : (rows : List R) → deleted_in [] rows ≡ 0
  unfolding deleted_in contains
  deleted_none [] = refl
  deleted_none (r ∷ rows) = deleted_none rows

  delete_each-concat :
      (idss : List (List String)) (rows : List R)
      → delete_each idss rows ≡ (deleted_in (concat idss) rows, delete_in (concat idss) rows)
  unfolding delete_each concat
  delete_each-concat [] rows = cc (delete_none rows, deleted_none rows)
  delete_each-concat (ids ∷ later) rows =
      rw (delete_each-concat later (delete_in ids rows))
        (cc (delete-append ids (concat later) rows, deleted-append ids (concat later) rows))

  -- Whatever the size of a batch, the batches delete and count what one statement would.
  pub delete_in_batches_lem :
      (more : ℕ) (ids : List String) (rows : List R)
      → delete_in_batches more ids rows ≡ (deleted_in ids rows, delete_in ids rows)
  unfolding delete_in_batches
  delete_in_batches_lem more ids rows =
      delete_each-concat (batches more ids) rows
      ∙ ap (λ xs. (deleted_in xs rows, delete_in xs rows)) (concat-batches more ids)
