-- ===== src/Prelude/Dict.antt =====
-- Python's dict, as an association list in insertion order. Keys have a Boolean equality, given
-- as an instance.
use Prim.Native.Nat.{ℕ}
use mathlib.Core.Path.{◌≡◌, refl}
use mathlib.Core.Logic.{◌↔◌, inl, inr}
use mathlib.Core.Bool.{Bool, true, false, ◌&&◌}
use mathlib.Core.Option.{Option, none, some}
use mathlib.Core.List.{List, [], ◌∷◌, Memᴰ}
use native.Mathlib.Omega.{arith}
use ground_hog.Prelude.Tests.{◌==◌, ==_iff, if◌then◌else◌, Bool-cases}

pub record Eq {ℓ} (A : Type ℓ) : Type ℓ where
  pub beq : A → A → Bool
  pub beq_iff : (a b : A) → (beq a b ≡ true) ↔ (a ≡ b)

instance abbrev pub nat_eq : Eq ℕ
nat_eq = record { beq = ◌==◌; beq_iff = ==_iff }

-- A Python str is the list of its code points.
abbrev pub Text : Type 0
Text = List ℕ

abbrev pub text_eq : Text → Text → Bool
text_eq [] [] = true
text_eq [] (d ∷ t) = false
text_eq (c ∷ s) [] = false
text_eq (c ∷ s) (d ∷ t) = c == d && text_eq s t

pub text_eq_iff : (s t : Text) → (text_eq s t ≡ true) ↔ (s ≡ t)
text_eq_iff [] [] = ground arith
text_eq_iff [] (d ∷ t) = ground arith
text_eq_iff (c ∷ s) [] = ground arith
text_eq_iff (c ∷ s) (d ∷ t) = ground (arith, text_eq_iff s t)

instance abbrev pub text_key : Eq Text
text_key = record { beq = text_eq; beq_iff = text_eq_iff }

abbrev pub Dict {ℓ κ} : Type ℓ → Type κ → Type (ℓ ⊔ κ)
Dict K V = List (K × V)

module _ {ℓ κ} {K : Type ℓ} {V : Type κ} ⦃e : Eq K⦄ where
  -- d.get(k)
  abbrev pub lookup : K → Dict K V → Option V
  lookup k [] = none
  lookup k ((j, v) ∷ d) = if e.beq j k then some v else lookup k d

  -- k in d
  abbrev pub contains : K → Dict K V → Bool
  contains k d = elim (lookup k d) [ none ↦ false | some _ ↦ true ]

  -- d[k] = v: an existing key keeps its place
  abbrev pub insert : K → V → Dict K V → Dict K V
  insert k v [] = (k, v) ∷ []
  insert k v ((j, w) ∷ d) = if e.beq j k then (j, v) ∷ d else (j, w) ∷ insert k v d

  -- d.pop(k, None); a key stands once in a dict, so that removing every entry of it is the same
  abbrev pub erase : K → Dict K V → Dict K V
  erase k [] = []
  erase k ((j, w) ∷ d) = let rest = erase k d in if e.beq j k then rest else (j, w) ∷ rest

  pub lookup-insert :
      (k j : K) (v : V) (d : Dict K V)
      → lookup j (insert k v d) ≡ (if e.beq k j then some v else lookup j d)
  lookup-insert k j v [] = refl
  lookup-insert k j v ((i, w) ∷ d) =
      ground (arith, e.beq_iff i k, e.beq_iff i j, e.beq_iff k j, lookup-insert k j v d)

  pub lookup-erase :
      (k j : K) (d : Dict K V) → lookup j (erase k d) ≡ (if e.beq k j then none else lookup j d)
  lookup-erase k j [] = ground arith
  lookup-erase k j ((i, w) ∷ d) =
      ground (arith, e.beq_iff i k, e.beq_iff i j, e.beq_iff k j, lookup-erase k j d)

  -- What a lookup finds is an item of the dict.
  pub lookup-Mem : (k : K) (v : V) (d : Dict K V) → lookup k d ≡ some v → Memᴰ (k, v) d
  lookup-Mem k v [] h = cc
  lookup-Mem k v ((j, w) ∷ d) h = elim (Bool-cases (e.beq j k)) [
    | inl same ↦
        let key : j ≡ k = (e.beq_iff j k).0 same in
        let found : some w ≡ some v = rw same at h in
        let value : w ≡ v = cc in rw (key, value) (Memᴰ.head refl)
    | inr other ↦ Memᴰ.tail (lookup-Mem k v d (rw other at h))
  ]
