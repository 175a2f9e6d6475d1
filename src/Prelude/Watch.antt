-- ===== src/Prelude/Watch.antt =====
-- A loop whose body may return from the function: `for x in xs: ... return p`, where the function
-- returns None after it. What such a loop leaves behind when it returned None.
use Prim.Native.Nat.{ℕ}
use mathlib.Core.Path.{◌≡◌, refl, ap, sym, ◌∙◌}
use mathlib.Core.Logic.{◌≢◌, inl, inr}
use mathlib.Core.List.{List, [], ◌∷◌, Memᴰ}
use mathlib.Core.List.Memᴰ
use mathlib.Core.Option.{Option, none, some}
use native.Mathlib.Omega.{arith}
use ground_hog.Prelude.Tests.{◌==◌, Bool-cases}
use ground_hog.Prelude.Dict.{Eq, Dict, lookup, insert, lookup-insert}
use ground_hog.Prelude.Outcome.{ok}
use ground_hog.Prelude.Exec.{Exec, pure, ◌>>=◌}
use ground_hog.Prelude.Steps.{
  Preorder, Steps, Steps-pure, Steps-bind, run-rel, bind-ok_elim, bind-returns,
}

module _ {S P : Type 0} where
  abbrev pub or_else : Exec S (Option P) → Option P → Exec S (Option P)
  or_else m none = m
  or_else m (some p) = pure (some p)

  Steps-or_else :
      (R : Preorder S) (m : Exec S (Option P)) (o : Option P) → Steps R m → Steps R (or_else m o)
  Steps-or_else R m none k = k
  Steps-or_else R m (some p) k = Steps-pure (some p)

module _ {S A P : Type 0} where
  unfoldable pub first_of : (A → Exec S (Option P)) → List A → Exec S (Option P)
  first_of f [] = pure none
  first_of f (x ∷ xs) = f x >>= or_else (first_of f xs)

  pub Steps-first_of :
      {R : Preorder S} (f : A → Exec S (Option P)) (xs : List A)
      → ((a : A) → Steps R (f a))
      → Steps R (first_of f xs)
  unfolding first_of
  Steps-first_of f [] k = Steps-pure none
  Steps-first_of {R} f (x ∷ xs) k =
      Steps-bind (f x) _ (k x) (λ o. Steps-or_else R (first_of f xs) o (Steps-first_of f xs k))

  -- A loop that returned None went through its first item and through the rest.
  pub silent_elim {κ} :
      {C : Type κ} (f : A → Exec S (Option P)) (x : A) (xs : List A) (s u : S)
      → first_of f (x ∷ xs) s ≡ (ok none, u)
      → ((t : S) → f x s ≡ (ok none, t) → first_of f xs t ≡ (ok none, u) → C)
      → C
  unfolding first_of pure
  silent_elim {C = C} f x xs s u e k =
      bind-ok_elim (f x) (or_else (first_of f xs)) s e (λ o t one rest. go o t one rest)
    where
      go :
          (o : Option P) (t : S)
          → f x s ≡ (ok o, t)
          → or_else (first_of f xs) o t ≡ (ok none, u)
          → C
      go none t one rest = k t one rest
      go (some p) t one rest =
          let same : ok (some p) ≡ ok none = ap (λ r. r.0) rest in
          let differ : some p ≡ none = cc in cc

  pub silent-cons :
      (f : A → Exec S (Option P)) (x : A) (xs : List A) (s t u : S)
      → f x s ≡ (ok none, t)
      → first_of f xs t ≡ (ok none, u)
      → first_of f (x ∷ xs) s ≡ (ok none, u)
  unfolding first_of
  silent-cons f x xs s t u one rest =
      bind-returns (f x) (or_else (first_of f xs)) s (ap (λ r. r.0) one)
      ∙ ap (λ r. first_of f xs r.1) one
      ∙ rest

  -- What a silent step makes and the later steps keep holds of every item at the end.
  pub silent-All :
      (R : Preorder S) (Q : A → S → Type 0) (f : A → Exec S (Option P))
      → ((a : A) → Steps R (f a))
      → ((a : A) (s t : S) → R.rel s t → Q a s → Q a t)
      → ((a : A) (s t : S) → f a s ≡ (ok none, t) → Q a t)
      → (xs : List A) (s u : S) → first_of f xs s ≡ (ok none, u)
      → (a : A) → Memᴰ a xs
      → Q a u
  unfolding first_of
  silent-All R Q f steps keeps makes [] s u e a m = absurd (Memᴰ.not-nil m)
  silent-All R Q f steps keeps makes (x ∷ xs) s u e a (Memᴰ.head same) =
      silent_elim f x xs s u e λ t one rest.
        keeps a t u (run-rel R (first_of f xs) (Steps-first_of f xs steps) rest)
          (makes a s t (rw same one))
  silent-All R Q f steps keeps makes (x ∷ xs) s u e a (Memᴰ.tail m) =
      silent_elim f x xs s u e λ t one rest. silent-All R Q f steps keeps makes xs t u rest a m

module _ {S A P : Type 0} (f : A → Exec S (Option P)) (key : A → ℕ) (a : A) where
  -- The one item with a given key: what holds before its step and is kept by the steps of other
  -- keys, and what its step makes and the later steps keep.
  pub record Visit (Pre Post : S → Type 0) : Type 0 where
    pub other : (b : A) (s t : S) → key b ≢ key a → f b s ≡ (ok none, t) → Pre s → Pre t
    pub own : (s t : S) → f a s ≡ (ok none, t) → Pre s → Post t
    pub keeps : (b : A) (s t : S) → (key b ≡ key a → b ≡ a) → f b s ≡ (ok none, t) → Post s → Post t

  module _ (Pre Post : S → Type 0) (visit : Visit Pre Post) where
    silent-kept :
        (xs : List A)
        → ((b : A) → Memᴰ b xs → key b ≡ key a → b ≡ a)
        → (s u : S) → first_of f xs s ≡ (ok none, u)
        → Post s
        → Post u
    unfolding first_of pure
    silent-kept [] unique s u e h = let same : s ≡ u = ap (λ r. r.1) e in rw (← same) h
    silent-kept (x ∷ xs) unique s u e h = silent_elim f x xs s u e λ t one rest.
        silent-kept xs (λ b m. unique b (Memᴰ.tail m)) t u rest
          (visit.keeps x s t (unique x (Memᴰ.head refl)) one h)

    pub silent-visited :
        (xs : List A)
        → ((b : A) → Memᴰ b xs → key b ≡ key a → b ≡ a)
        → (s u : S) → first_of f xs s ≡ (ok none, u)
        → Memᴰ a xs
        → Pre s
        → Post u
    silent-visited [] unique s u e m h = absurd (Memᴰ.not-nil m)
    silent-visited (x ∷ xs) unique s u e m h = silent_elim f x xs s u e λ t one rest.
        elim (Bool-cases (key x == key a)) [
          | inl same ↦
              let here : x ≡ a = unique x (Memᴰ.head refl) (ground arith) in
              silent-kept xs (λ b m. unique b (Memᴰ.tail m)) t u rest
                (visit.own s t (rw here at one) h)
          | inr other ↦
              let differ : key x ≢ key a = ground arith in
              silent-visited xs (λ b m. unique b (Memᴰ.tail m)) t u rest
                (elim (Memᴰ.cases_cons m) [
                  | inl same ↦ absurd (differ (ap key (sym same)))
                  | inr below ↦ below
                ])
                (visit.other x s t differ one h)
        ]

-- What a dict knows of a key stays known.
abbrev pub Known : {K V : Type 0} ⦃e : Eq K⦄ → Preorder (Dict K V)
Known {K} {V} = record {
  rel = λ s t. (k : K) (v : V) → lookup k s ≡ some v → lookup k t ≡ some v;
  stays = λ s k v h. h;
  chain = λ s t u p q k v h. q k v (p k v h);
}

pub insert-Known :
    {K V : Type 0} ⦃e : Eq K⦄ (k : K) (v : V) (d : Dict K V)
    → lookup k d ≡ none
    → (j : K) (w : V) → lookup j d ≡ some w
    → lookup j (insert k v d) ≡ some w
insert-Known ⦃e⦄ k v d fresh j w h = ground (arith, lookup-insert k j v d, e.beq_iff k j)
