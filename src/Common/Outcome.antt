-- ===== src/Common/Outcome.antt =====
-- What a call of the program ends with: a value, or the exception that it raises.
use Prim.Native.Nat.{ℕ}
use mathlib.Core.Path.{◌≡◌, refl}
use mathlib.Core.Logic.{◌⊎◌, inl, inr}

-- `http s` is HTTPException with that status; the detail texts are not kept.
pub data Error : Type 0 where
  http : ℕ → Error
  key_error value_error runtime_error provider_error volume_error : Error

pub data Result {ℓ} (A : Type ℓ) : Type ℓ where
  err : Error → Result A
  ok : A → Result A

-- An exception ends the block; a value goes to the next line.
infixl 5 ◌>>=◌
abbrev pub ◌>>=◌ {ℓ κ} :
    {A : Type ℓ} {B : Type κ} (outcome : Result A) (next : A → Result B) → Result B
err raised >>= next = err raised
ok value >>= next = next value

-- A block that ends with a value has a value at its first line, and at the rest.
pub >>=-eq-ok {ℓ κ} :
    {A : Type ℓ} {B : Type κ} (first : Result A) (rest : A → Result B) {end : B}
    → (first >>= rest) ≡ ok end
    → (start : A) × (first ≡ ok start) × (rest start ≡ ok end)
>>=-eq-ok (err raised) rest h = cc
>>=-eq-ok (ok start) rest h = (start, refl, h)

pub ok-injective {ℓ} : {A : Type ℓ} {a b : A} → ok a ≡ ok b → a ≡ b
ok-injective e = cc

pub Result-cases {ℓ} :
    {A : Type ℓ} (m : Result A) → ((e : Error) × (m ≡ err e)) ⊎ ((a : A) × (m ≡ ok a))
Result-cases (ok a) = inr (a, refl)
Result-cases (err e) = inl (e, refl)
