-- ===== src/Base/Result.antt =====
-- Python calls that may raise an exception of type `E`.
use mathlib.Core.Path.{◌≡◌, refl}
use mathlib.Core.Logic.{◌⊎◌, ◌↔◌, inl, inr}
use mathlib.Core.Bool.{Bool, true, false}

pub data Result {ℓ κ} (E : Type κ) (A : Type ℓ) : Type (ℓ ⊔ κ) where
  ok : A → Result E A
  err : E → Result E A

-- `if c: raise e`
abbrev pub raise_if {κ} : {E : Type κ} → Bool → E → Result E (Unit {0})
raise_if false e = ok tt
raise_if true e = err e

infixl 5 ◌>>=◌ ◌>>◌
abbrev pub ◌>>=◌ {ℓ κ μ} :
    {E : Type κ} {A : Type ℓ} {B : Type μ} → Result E A → (A → Result E B) → Result E B
err raised >>= next = err raised
ok value >>= next = next value

abbrev pub ◌>>◌ {ℓ κ} : {E : Type κ} {B : Type ℓ} → Result E (Unit {0}) → Result E B → Result E B
check >> rest = check >>= λ _. rest

-- A chain that succeeds: its first call gave a value, and what follows succeeded on it.
pub >>=-eq-ok {ℓ κ μ} :
    {E : Type κ} {A : Type ℓ} {B : Type μ} {last : B} (call : Result E A) (next : A → Result E B)
    → call >>= next ≡ ok last
    → (value : A) × (call ≡ ok value) × (next value ≡ ok last)
>>=-eq-ok (err raised) next succeeded = cc
>>=-eq-ok (ok value) next succeeded = (value, refl, succeeded)

pub ok-injective {ℓ κ} :
    {E : Type κ} {A : Type ℓ} (a b : A) → Path (Result E A) (ok a) (ok b) → a ≡ b
ok-injective a b h = cc

pub Result-cases {ℓ κ} :
    {E : Type κ} {A : Type ℓ} (m : Result E A) → ((a : A) × (m ≡ ok a)) ⊎ ((e : E) × (m ≡ err e))
Result-cases (ok a) = inl (a, refl)
Result-cases (err e) = inr (e, refl)

module _ {κ} {E : Type κ} where
  pub >>-ok_iff {ℓ} :
      {A : Type ℓ} (m : Result E (Unit {0})) (k : Result E A) (b : A)
      → ((m >> k) ≡ ok b) ↔ ((m ≡ ok tt) × (k ≡ ok b))
  >>-ok_iff (ok u) k b = (λ h. (refl, h), λ h. h.1)
  >>-ok_iff (err e) k b = (λ h. cc, λ h. cc (h.0))

  pub raise_if-ok_iff : (b : Bool) (e : E) → (raise_if b e ≡ ok tt) ↔ (b ≡ false)
  raise_if-ok_iff true e = (λ h. cc, λ h. cc)
  raise_if-ok_iff false e = (λ h. refl, λ h. refl)

  -- Two checks in a row pass exactly if what each of them decides holds.
  pub both-ok_iff {ℓ μ} :
      {P : Type ℓ} {Q : Type μ} (m k : Result E (Unit {0}))
      → (m ≡ ok tt) ↔ P
      → (k ≡ ok tt) ↔ Q
      → ((m >> k) ≡ ok tt) ↔ (P × Q)
  both-ok_iff m k p q =
      let both = >>-ok_iff m k tt in
      (λ h. (p.0 (both.0 h).0, q.0 (both.0 h).1), λ h. both.1 (p.1 h.0, q.1 h.1))

  -- `if not good: raise e`
  pub guard-ok_iff {ℓ} :
      {P : Type ℓ} (b : Bool) (e : E) → (b ≡ false) ↔ P → (raise_if b e ≡ ok tt) ↔ P
  guard-ok_iff b e p = let test = raise_if-ok_iff b e in (λ h. p.0 (test.0 h), λ h. test.1 (p.1 h))
