-- ===== src/Base/Lists.antt =====
-- Lists measured by native numbers, the queries that the tables use, and predicates on lists.
use Prim.Native.Nat.{ℕ, zero, suc, ◌+◌}
use Prim.Native.String.{String}
use mathlib.Core.Path.{◌≡◌, refl, subst}
use mathlib.Core.Logic.{◌⊎◌, ◌↔◌, inl, inr}
use mathlib.Core.Bool.{Bool, true, false, ◌&&◌, ◌||◌}
use mathlib.Core.Option.{Option, none, some}
use mathlib.Core.List.{List, [], ◌∷◌, ◌++◌, map, reverse, reverse-cons, reverse-reverse}
use native.Mathlib.Omega.{arith}
use eaistack.Base.Tests.{if◌then◌else◌, Eq, ◌==◌, Bool-cases, beq_self, string_eq}

module _ {ℓ} {A : Type ℓ} where
  abbrev pub length : List A → ℕ
  length [] = 0
  length (x ∷ xs) = suc (length xs)

  abbrev pub take : ℕ → List A → List A
  take zero xs = []
  take (suc n) [] = []
  take (suc n) (x ∷ xs) = x ∷ take n xs

  abbrev pub drop : ℕ → List A → List A
  drop zero xs = xs
  drop (suc n) [] = []
  drop (suc n) (x ∷ xs) = drop n xs

  abbrev pub get_elem? : List A → ℕ → Option A
  get_elem? [] i = none
  get_elem? (x ∷ xs) zero = some x
  get_elem? (x ∷ xs) (suc i) = get_elem? xs i

  -- `[x for x in xs if p(x)]`, and the rows that a query's filter keeps.
  abbrev pub select : (A → Bool) → List A → List A
  select p [] = []
  select p (x ∷ xs) = if p x then x ∷ select p xs else select p xs

  -- `query.filter(p).first()`
  abbrev pub first : (A → Bool) → List A → Option A
  first p [] = none
  first p (x ∷ xs) = if p x then some x else first p xs

  abbrev pub any : (A → Bool) → List A → Bool
  any p [] = false
  any p (x ∷ xs) = p x || any p xs

  abbrev pub all : (A → Bool) → List A → Bool
  all p [] = true
  all p (x ∷ xs) = p x && all p xs

  -- A predicate of every element.
  abbrev pub All {κ} : (A → Type κ) → List A → Type κ
  All P [] = Unit
  All P (x ∷ xs) = P x × All P xs

  pub length-append : (xs ys : List A) → length (xs ++ ys) ≡ length xs + length ys
  length-append [] ys = omega arith
  length-append (x ∷ xs) ys = omega (arith, length-append xs ys)

-- Where an element stands.
abbrev pub In : {A : Type 0} → A → List A → Type 0
In a [] = ⊥
In a (x ∷ xs) = (x ≡ a) ⊎ In a xs

-- `a in xs`
module _ {A : Type 0} ⦃e : Eq A⦄ where
  unfoldable pub contains : List A → A → Bool
  contains [] a = false
  contains (x ∷ xs) a = x == a || contains xs a

  pub In-of-contains : (xs : List A) (a : A) → contains xs a ≡ true → In a xs
  unfolding contains
  In-of-contains [] a h = cc
  In-of-contains (x ∷ xs) a h = elim (Bool-cases (x == a)) [
    | inl same ↦ inl ((e.beq_iff x a).0 same)
    | inr other ↦ inr (In-of-contains xs a (rw other at h))
  ]

  pub contains-of-In : (xs : List A) (a : A) → In a xs → contains xs a ≡ true
  unfolding contains
  contains-of-In [] a h = absurd h
  contains-of-In (x ∷ xs) a (inl same) = rw (same, beq_self a) refl
  contains-of-In (x ∷ xs) a (inr later) = ground (arith, contains-of-In xs a later)

  pub not-In : (xs : List A) (a : A) → contains xs a ≡ false → ¬ (In a xs)
  not-In xs a h m = cc (contains-of-In xs a m)

module _ {A : Type 0} where
  pub In-append_left : (a : A) (xs ys : List A) → In a xs → In a (xs ++ ys)
  In-append_left a [] ys h = absurd h
  In-append_left a (x ∷ xs) ys (inl same) = inl same
  In-append_left a (x ∷ xs) ys (inr later) = inr (In-append_left a xs ys later)

  pub In-append_right : (a : A) (xs ys : List A) → In a ys → In a (xs ++ ys)
  In-append_right a [] ys h = h
  In-append_right a (x ∷ xs) ys h = inr (In-append_right a xs ys h)

  pub In-append_cases : (a : A) (xs ys : List A) → In a (xs ++ ys) → In a xs ⊎ In a ys
  In-append_cases a [] ys h = inr h
  In-append_cases a (x ∷ xs) ys (inl same) = inl (inl same)
  In-append_cases a (x ∷ xs) ys (inr later) = elim (In-append_cases a xs ys later) [
    | inl l ↦ inl (inr l)
    | inr r ↦ inr r
  ]

  pub All-In : (P : A → Type 0) (xs : List A) (a : A) → All P xs → In a xs → P a
  All-In P [] a h m = absurd m
  All-In P (x ∷ xs) a h (inl same) = subst P same h.0
  All-In P (x ∷ xs) a h (inr later) = All-In P xs a h.1 later

  pub length-reverse : (xs : List A) → length (reverse xs) ≡ length xs
  length-reverse [] = refl
  length-reverse (x ∷ xs) =
      rw (reverse-cons x xs) (omega (arith, length-append (reverse xs) (x ∷ []), length-reverse xs))

  pub In-reverse : (a : A) (xs : List A) → In a xs → In a (reverse xs)
  In-reverse a [] h = absurd h
  In-reverse a (x ∷ xs) (inl same) =
      rw (reverse-cons x xs) (In-append_right a (reverse xs) (x ∷ []) (inl same))
  In-reverse a (x ∷ xs) (inr later) =
      rw (reverse-cons x xs) (In-append_left a (reverse xs) (x ∷ []) (In-reverse a xs later))

  pub In-of-In-reverse : (a : A) (xs : List A) → In a (reverse xs) → In a xs
  In-of-In-reverse a xs h = subst (λ ys. In a ys) (reverse-reverse xs) (In-reverse a (reverse xs) h)

module _ {A : Type 0} where
  pub All-map : {P Q : A → Type 0} → ((a : A) → P a → Q a) → (xs : List A) → All P xs → All Q xs
  All-map f [] h = tt
  All-map f (x ∷ xs) h = (f x h.0, All-map f xs h.1)

  pub All-of-In : {P : A → Type 0} (xs : List A) → ((a : A) → In a xs → P a) → All P xs
  All-of-In [] h = tt
  All-of-In (x ∷ xs) h = (h x (inl refl), All-of-In xs (λ a m. h a (inr m)))

  -- Nothing passes a test exactly if everything fails it.
  pub select-nil_iff : (p : A → Bool) (xs : List A) → (select p xs ≡ []) ↔ All (λ x. p x ≡ false) xs
  select-nil_iff p [] = (λ h. tt, λ h. refl)
  select-nil_iff p (x ∷ xs) = elim (Bool-cases (p x)) [
    | inl pass ↦ (λ h. cc (rw pass at h), λ h. cc (pass, h.0))
    | inr fail ↦ (
      λ h. (fail, (select-nil_iff p xs).0 (rw fail at h)),
      λ h. rw fail ((select-nil_iff p xs).1 h.1),
    )
  ]

-- A primary key: no two rows share it.
module _ {R : Type 0} (key : R → String) where
  abbrev pub IsKey : List R → Type 0
  IsKey [] = Unit
  IsKey (r ∷ rows) = (contains (map key rows) (key r) ≡ false) × IsKey rows
