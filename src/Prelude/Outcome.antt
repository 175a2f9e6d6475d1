-- ===== src/Prelude/Outcome.antt =====
-- Python's exceptions, and the result of a function that may raise one.
use mathlib.Core.Path.{◌≡◌, refl}
use mathlib.Core.Bool.{Bool, true, false}

pub data Error : Type 0 where
  disk_error value_error index_error struct_error unicode_error key_error runtime_error
        invariant_violated os_error :
      Error

pub data Outcome {ℓ} (A : Type ℓ) : Type ℓ where
  ok : A → Outcome A
  raised : Error → Outcome A

infixl 5 ◌>>=◌ ◌>>◌
abbrev pub ◌>>=◌ {ℓ κ} : {A : Type ℓ} {B : Type κ} → Outcome A → (A → Outcome B) → Outcome B
ok a >>= f = f a
raised e >>= f = raised e

abbrev pub ◌>>◌ {ℓ} : {B : Type ℓ} → Outcome (Unit {0}) → Outcome B → Outcome B
m >> k = m >>= λ _. k

-- `if not b: raise e`
abbrev pub ensure : Bool → Error → Outcome (Unit {0})
ensure true e = ok tt
ensure false e = raised e

-- A successful chain succeeded in its first step and in the rest.
pub >>=-ok_elim {ℓ κ μ} :
    {A : Type ℓ} {B : Type κ} {P : Type μ} (m : Outcome A) (f : A → Outcome B) {b : B}
    → (m >>= f) ≡ ok b
    → ((a : A) → m ≡ ok a → f a ≡ ok b → P)
    → P
>>=-ok_elim (ok a) f h k = k a refl h
>>=-ok_elim (raised e) f h k = cc
