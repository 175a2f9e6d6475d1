-- ===== src/Prelude/Exec.antt =====
-- Methods as actions on the state of an object. What a method wrote
-- before it raised stays written, so the state comes back in both cases.
use mathlib.Core.Bool.{Bool}
use mathlib.Core.List.{List, [], ◌∷◌}
use ground_hog.Prelude.Tests.{if◌then◌else◌}
use ground_hog.Prelude.Outcome.{Outcome, ok, raised, Error}

abbrev pub Exec : Type 0 → Type 0 → Type 0
Exec S A = S → Outcome A × S

infixl 5 ◌>>=◌ ◌>>◌
unfoldable pub ◌>>=◌ : {S A B : Type 0} → Exec S A → (A → Exec S B) → Exec S B
◌>>=◌ m f s = let (r, s') = m s in elim r [ ok a ↦ f a s' | raised e ↦ (raised e, s') ]

abbrev pub ◌>>◌ : {S A B : Type 0} → Exec S A → Exec S B → Exec S B
m >> k = m >>= λ _. k

module _ {S : Type 0} where
  unfoldable pub pure : {A : Type 0} → A → Exec S A
  pure a s = (ok a, s)

  unfoldable pub raise : {A : Type 0} → Error → Exec S A
  raise e s = (raised e, s)

  unfoldable pub lift : {A : Type 0} → Outcome A → Exec S A
  lift r s = (r, s)

  unfoldable pub gets : {A : Type 0} → (S → A) → Exec S A
  gets f s = (ok (f s), s)

  unfoldable pub modify : (S → S) → Exec S (Unit {0})
  modify f s = (ok tt, f s)

  unfoldable pub when : Bool → Exec S (Unit {0}) → Exec S (Unit {0})
  when b m s = if b then m s else (ok tt, s)

  -- `for x in xs: m x`
  unfoldable pub for_each : {A : Type 0} → (A → Exec S (Unit {0})) → List A → Exec S (Unit {0})
  for_each m [] = pure tt
  for_each m (x ∷ xs) = do m x; for_each m xs
