-- ===== src/Prelude/Steps.antt =====
-- What every run of an action does to its state, whether it returns or raises: a preorder between
-- the state before and the state after, with one rule for each way to build an action.
use mathlib.Core.Path.{◌≡◌, refl, ap, subst}
use mathlib.Core.Bool.{Bool, true, false}
use mathlib.Core.List.{List, [], ◌∷◌}
use ground_hog.Prelude.Tests.{if◌then◌else◌}
use ground_hog.Prelude.Outcome.{Outcome, ok, raised, Error}
use ground_hog.Prelude.Exec.{Exec, pure, raise, lift, gets, modify, when, for_each, ◌>>=◌}

pub record Preorder (S : Type 0) : Type 1 where
  pub rel : S → S → Type 0
  pub stays : (s : S) → rel s s
  pub chain : (s t u : S) → rel s t → rel t u → rel s u

pub record Steps {S A : Type 0} (P : Preorder S) (m : Exec S A) : Type 0 where
  pub at : (s : S) → P.rel s (m s).1

module _ {S A : Type 0} {P : Preorder S} where
  pub Steps-pure : (a : A) → Steps P (pure a)
  unfolding pure
  Steps-pure a = record { at = P.stays }

  pub Steps-raise : (e : Error) → Steps P (raise {A = A} e)
  unfolding raise
  Steps-raise e = record { at = P.stays }

  pub Steps-lift : (r : Outcome A) → Steps P (lift r)
  unfolding lift
  Steps-lift r = record { at = P.stays }

  pub Steps-gets : (f : S → A) → Steps P (gets f)
  unfolding gets
  Steps-gets f = record { at = P.stays }

  pub Steps-if : (b : Bool) (m n : Exec S A) → Steps P m → Steps P n → Steps P (if b then m else n)
  Steps-if true m n km kn = km
  Steps-if false m n km kn = kn

-- What `Steps` says of one run.
pub run-rel :
    {S A : Type 0} (P : Preorder S) (m : Exec S A) {s t : S} {r : Outcome A}
    → Steps P m
    → m s ≡ (r, t)
    → P.rel s t
run-rel P m {s} k e = subst (P.rel s) (ap (λ p. p.1) e) (k.at s)

-- A weaker preorder is kept too.
pub Steps-weaken :
    {S A : Type 0} (P Q : Preorder S) (m : Exec S A)
    → ((s t : S) → P.rel s t → Q.rel s t)
    → Steps P m
    → Steps Q m
Steps-weaken P Q m h k = record { at = λ s. h s (m s).1 (k.at s) }

module _ {S : Type 0} {P : Preorder S} where
  pub Steps-modify : (f : S → S) → ((s : S) → P.rel s (f s)) → Steps P (modify f)
  unfolding modify
  Steps-modify f h = record { at = h }

  pub Steps-when : (b : Bool) (m : Exec S (Unit {0})) → Steps P m → Steps P (when b m)
  unfolding when
  Steps-when true m k = record { at = k.at }
  Steps-when false m k = record { at = P.stays }

module _ {S A B : Type 0} (P : Preorder S) where
  -- The run of a bind at a state, where what follows may use that state.
  pub bind-rel :
      (m : Exec S A) (f : A → Exec S B) (s : S)
      → P.rel s (m s).1
      → ((a : A) (t : S) → m s ≡ (ok a, t) → P.rel t (f a t).1)
      → P.rel s ((m >>= f) s).1
  unfolding ◌>>=◌
  bind-rel m f s km kf = go (m s) refl km
    where
      go :
          (r : Outcome A × S)
          → m s ≡ r
          → P.rel s r.1
          → P.rel s
              (let (o, t) = r in
                let x : Outcome B × S = elim o [ ok a ↦ f a t | raised e ↦ (raised e, t) ] in x).1
      go (ok a, t) e k = P.chain s t (f a t).1 k (kf a t e)
      go (raised x, t) e k = k

module _ {S A B : Type 0} {P : Preorder S} where
  pub Steps-bind :
      (m : Exec S A) (f : A → Exec S B) → Steps P m → ((a : A) → Steps P (f a)) → Steps P (m >>= f)
  Steps-bind m f km kf = record { at = λ s. bind-rel P m f s (km.at s) (λ a t e. (kf a).at t) }

module _ {S A : Type 0} {P : Preorder S} where
  pub Steps-for_each :
      (m : A → Exec S (Unit {0})) (xs : List A)
      → ((a : A) → Steps P (m a))
      → Steps P (for_each m xs)
  unfolding for_each
  Steps-for_each m [] k = Steps-pure tt
  Steps-for_each m (x ∷ xs) k = Steps-bind (m x) _ (k x) (λ _. Steps-for_each m xs k)

pub ruleset step_rules = (
  Steps-pure, Steps-raise, Steps-lift, Steps-gets, Steps-if, Steps-modify, Steps-when, Steps-bind,
  Steps-for_each,
)

-- A bind that returned: its first part returned, and the rest returned from there.
pub bind-ok_elim {κ} :
    {S A B : Type 0} {C : Type κ} (m : Exec S A) (f : A → Exec S B) (s : S) {b : B} {u : S}
    → (m >>= f) s ≡ (ok b, u)
    → ((a : A) (t : S) → m s ≡ (ok a, t) → f a t ≡ (ok b, u) → C)
    → C
unfolding ◌>>=◌
bind-ok_elim {S} {A} {B} {C} m f s {b} {u} h k = go (m s) refl h
  where
    go :
        (r : Outcome A × S)
        → m s ≡ r
        → (let x : Outcome B × S = elim r.0 [ ok a ↦ f a r.1 | raised e ↦ (raised e, r.1) ] in x)
          ≡ (ok b, u)
        → C
    go (ok a, t) e h' = k a t e h'
    go (raised x, t) e h' = cc

-- Reading the state changes nothing.
pub gets-ok :
    {S A B : Type 0} (g : S → A) (f : A → Exec S B) (s : S) {r : Outcome B × S}
    → (gets g >>= f) s ≡ r
    → f (g s) s ≡ r
unfolding gets ◌>>=◌
gets-ok g f s h = h

-- A result that is passed on, where what follows returned.
pub lift-ok_elim {κ} :
    {S A B : Type 0} {C : Type κ} (o : Outcome A) (f : A → Exec S B) (s : S) {b : B} {u : S}
    → (lift o >>= f) s ≡ (ok b, u)
    → ((a : A) → o ≡ ok a → f a s ≡ (ok b, u) → C)
    → C
unfolding lift ◌>>=◌
lift-ok_elim (ok a) f s h k = k a refl h
lift-ok_elim (raised x) f s h k = cc

-- A bind whose first part returned goes on from there.
pub bind-returns :
    {S A B : Type 0} (m : Exec S A) (f : A → Exec S B) (s : S) {a : A}
    → (m s).0 ≡ ok a
    → (m >>= f) s ≡ f a (m s).1
unfolding ◌>>=◌
bind-returns {S} {A} {B} m f s {a} h = go (m s) h
  where
    go :
        (r : Outcome A × S)
        → r.0 ≡ ok a
        → (let x : Outcome B × S = elim r.0 [ ok a ↦ f a r.1 | raised e ↦ (raised e, r.1) ] in x)
          ≡ f a r.1
    go (ok b, t) e = let same : b ≡ a = cc in ap (λ b. f b t) same
    go (raised x, t) e = cc
