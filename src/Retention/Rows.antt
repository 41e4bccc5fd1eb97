-- ===== src/Retention/Rows.antt =====
-- Deleting the rows that a test selects by their primary keys.
use eaistack.Base.{
  IsKey, String, Bool, false, not, List, [], ◌∷◌, map, select, length, contains, ◌≡◌, refl, arith,
  string_eq, Bool-cases, beq_self, inl, inr,
}
use eaistack.Retention.Batches.{delete_in, deleted_in}

module _ {R : Type 0} (key : R → String) where
  abbrev ids_of : (R → Bool) → List R → List String
  ids_of p rows = map key (select p rows)

  not_selected :
      (p : R → Bool) (rows : List R) (id : String)
      → contains (map key rows) id ≡ false
      → contains (ids_of p rows) id ≡ false
  unfolding contains
  not_selected p [] id h = refl
  not_selected p (r ∷ rows) id h = ground (arith, not_selected p rows id)

  -- Ids that no row has delete nothing and count nothing.
  delete_other :
      (id : String) (ids : List String) (rows : List R)
      → contains (map key rows) id ≡ false
      → (delete_in key (id ∷ ids) rows ≡ delete_in key ids rows)
        × (deleted_in key (id ∷ ids) rows ≡ deleted_in key ids rows)
  unfolding delete_in deleted_in contains
  delete_other id ids [] h = (refl, refl)
  delete_other id ids (r ∷ rows) h =
      ground (
        arith,
        string_eq.beq_iff id (key r),
        string_eq.beq_iff (key r) id,
        delete_other id ids rows,
      )

  -- Deleting the selected rows by their ids deletes the selected rows.
  pub delete_selected :
      (p : R → Bool) (rows : List R)
      → IsKey key rows
      → (delete_in key (ids_of p rows) rows ≡ select (λ r. not (p r)) rows)
        × (deleted_in key (ids_of p rows) rows ≡ length (select p rows))
  unfolding delete_in deleted_in contains
  delete_selected p [] h = (refl, refl)
  delete_selected p (r ∷ rows) h = elim (Bool-cases (p r)) [
    | inl gone ↦ ground (
      arith,
      beq_self (key r),
      delete_other (key r) (ids_of p rows) rows h.0,
      delete_selected p rows h.1,
    )
    | inr kept ↦ ground (arith, not_selected p rows (key r) h.0, delete_selected p rows h.1)
  ]
