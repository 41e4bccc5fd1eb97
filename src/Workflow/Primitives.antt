-- ===== src/Workflow/Primitives.antt =====
-- What backend/app/workflows/primitives.py computes between the calls of a model: the branch of a route,
-- the round count of a review loop, and what a turn's messages say. Text is compared by code points.
-- `str` and `int` of a number are parameters.
pub mod Review
pub mod Bounded
mod Tests
pub mod Turn
pub mod Grounding
use eaistack.Base.{
  ℕ, ◌+◌, String, Bool, true, false, ◌||◌, Option, none, some, List, [], ◌∷◌, if◌then◌else◌, ◌≡◌,
}
use eaistack.Base.Text.{Text, codes}
use eaistack.Documents.Keys.{is_prefix}

-- Python's `str(n)` and `int(s)`; `none` is a ValueError.
pub record Numerals : Type 0 where
  pub str : ℕ → String
  pub int : String → Option ℕ

-- `part in whole`
unfoldable pub occurs : Text → Text → Bool
occurs part [] = is_prefix part []
occurs part (c ∷ whole) = is_prefix part (c ∷ whole) || occurs part whole

unfoldable pub find_branch : String → List String → Option String
find_branch output [] = none
find_branch output (branch ∷ branches) =
    let later = find_branch output branches in
    if occurs (codes branch) (codes output) then some branch else later

abbrev pub or_first : List String → Option String → Option String
or_first branches (some branch) = some branch
or_first [] none = none
or_first (branch ∷ branches) none = some branch

-- `none` is the IndexError of an empty list.
unfoldable pub choose_route_branch : String → List String → Option String
choose_route_branch output branches = or_first branches (find_branch output branches)
