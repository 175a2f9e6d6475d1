-- ===== src/Prelude/Sort.antt =====
-- `sorted` on the items of a dict: in the order of their keys, of which each stands once.
use Prim.Native.Nat.{ℕ, suc}
use ground_hog.Prelude.Lists.{length}
use mathlib.Core.Path.{◌≡◌, refl, ap, ◌∙◌}
use mathlib.Core.Logic.{◌⊎◌, inl, inr}
use mathlib.Core.Bool.{Bool, true, false}
use mathlib.Core.List.{List, [], ◌∷◌, Memᴰ}
use mathlib.Core.List.Memᴰ
use ground_hog.Prelude.Tests.{leb, ◌==◌, if◌then◌else◌, Bool-cases}
use ground_hog.Prelude.Dict.{Dict, Text}

module _ {V : Type 0} where
  insert_item : ℕ × V → List (ℕ × V) → List (ℕ × V)
  insert_item p [] = p ∷ []
  insert_item p (q ∷ l) = let rest = insert_item p l in if leb p.0 q.0 then p ∷ q ∷ l else q ∷ rest

  unfoldable pub sorted_items : Dict ℕ V → List (ℕ × V)
  unfolding insert_item
  sorted_items [] = []
  sorted_items (p ∷ d) = insert_item p (sorted_items d)

  insert_item-here : (p : ℕ × V) (l : List (ℕ × V)) → Memᴰ p (insert_item p l)
  unfolding insert_item
  insert_item-here p [] = Memᴰ.head refl
  insert_item-here p (q ∷ l) = elim (Bool-cases (leb p.0 q.0)) [
    | inl first ↦ rw first (Memᴰ.head refl)
    | inr later ↦ rw later (Memᴰ.tail (insert_item-here p l))
  ]

  insert_item-there : (p r : ℕ × V) (l : List (ℕ × V)) → Memᴰ r l → Memᴰ r (insert_item p l)
  unfolding insert_item
  insert_item-there p r [] m = absurd (Memᴰ.not-nil m)
  insert_item-there p r (q ∷ l) m = elim (Bool-cases (leb p.0 q.0)) [
    | inl first ↦ rw first (Memᴰ.tail m)
    | inr later ↦ rw later (elim (Memᴰ.cases_cons m) [
      | inl same ↦ Memᴰ.head same
      | inr below ↦ Memᴰ.tail (insert_item-there p r l below)
    ])
  ]

  -- Sorting loses no item.
  pub sorted_items-Mem : (d : Dict ℕ V) (p : ℕ × V) → Memᴰ p d → Memᴰ p (sorted_items d)
  unfolding sorted_items insert_item
  sorted_items-Mem [] p m = absurd (Memᴰ.not-nil m)
  sorted_items-Mem (q ∷ d) p (Memᴰ.head same) = rw same (insert_item-here q (sorted_items d))
  sorted_items-Mem (q ∷ d) p (Memᴰ.tail m) =
      insert_item-there q p (sorted_items d) (sorted_items-Mem d p m)

  insert_item-back :
      (p r : ℕ × V) (l : List (ℕ × V)) → Memᴰ r (insert_item p l) → (r ≡ p) ⊎ Memᴰ r l
  unfolding insert_item
  insert_item-back p r [] m = Memᴰ.cases_cons m
  insert_item-back p r (q ∷ l) m = elim (Bool-cases (leb p.0 q.0)) [
    | inl first ↦ Memᴰ.cases_cons (rw first at m)
    | inr later ↦
        let m' : Memᴰ r (q ∷ insert_item p l) = rw later at m in
        elim (Memᴰ.cases_cons m') [
          | inl same ↦ inr (Memᴰ.head same)
          | inr below ↦ elim (insert_item-back p r l below) [
            | inl here ↦ inl here
            | inr there ↦ inr (Memᴰ.tail there)
          ]
        ]
  ]

  -- And makes none up.
  pub sorted_items-given : (d : Dict ℕ V) (p : ℕ × V) → Memᴰ p (sorted_items d) → Memᴰ p d
  unfolding sorted_items
  sorted_items-given [] p m = m
  sorted_items-given (q ∷ d) p m = elim (insert_item-back q p (sorted_items d) m) [
    | inl here ↦ Memᴰ.head here
    | inr there ↦ Memᴰ.tail (sorted_items-given d p there)
  ]

-- `sorted` on strings: by their code points, from the first on.
abbrev pub text_leb : Text → Text → Bool
text_leb [] t = true
text_leb (c ∷ s) [] = false
text_leb (c ∷ s) (d ∷ t) = let rest = text_leb s t in if c == d then rest else leb c d

insert_text : Text → List Text → List Text
insert_text t [] = t ∷ []
insert_text t (u ∷ l) = let rest = insert_text t l in if text_leb t u then t ∷ u ∷ l else u ∷ rest

unfoldable pub sorted_texts : List Text → List Text
unfolding insert_text
sorted_texts [] = []
sorted_texts (t ∷ l) = insert_text t (sorted_texts l)

insert_text-here : (t : Text) (l : List Text) → Memᴰ t (insert_text t l)
unfolding insert_text
insert_text-here t [] = Memᴰ.head refl
insert_text-here t (u ∷ l) = elim (Bool-cases (text_leb t u)) [
  | inl first ↦ rw first (Memᴰ.head refl)
  | inr later ↦ rw later (Memᴰ.tail (insert_text-here t l))
]

insert_text-there : (t r : Text) (l : List Text) → Memᴰ r l → Memᴰ r (insert_text t l)
unfolding insert_text
insert_text-there t r [] m = absurd (Memᴰ.not-nil m)
insert_text-there t r (u ∷ l) m = elim (Bool-cases (text_leb t u)) [
  | inl first ↦ rw first (Memᴰ.tail m)
  | inr later ↦ rw later (elim (Memᴰ.cases_cons m) [
    | inl same ↦ Memᴰ.head same
    | inr below ↦ Memᴰ.tail (insert_text-there t r l below)
  ])
]

-- Sorting loses no string.
pub sorted_texts-Mem : (l : List Text) (t : Text) → Memᴰ t l → Memᴰ t (sorted_texts l)
unfolding sorted_texts
sorted_texts-Mem [] t m = absurd (Memᴰ.not-nil m)
sorted_texts-Mem (u ∷ l) t (Memᴰ.head same) = rw same (insert_text-here u (sorted_texts l))
sorted_texts-Mem (u ∷ l) t (Memᴰ.tail m) =
    insert_text-there u t (sorted_texts l) (sorted_texts-Mem l t m)

module _ {V : Type 0} where
  length-insert_item : (p : ℕ × V) (l : List (ℕ × V)) → length (insert_item p l) ≡ suc (length l)
  unfolding insert_item
  length-insert_item p [] = refl
  length-insert_item p (q ∷ l) = elim (Bool-cases (leb p.0 q.0)) [
    | inl first ↦ rw first refl
    | inr later ↦ rw later (ap suc (length-insert_item p l))
  ]

  pub length-sorted_items : (d : Dict ℕ V) → length (sorted_items d) ≡ length d
  unfolding sorted_items
  length-sorted_items [] = refl
  length-sorted_items (p ∷ d) =
      length-insert_item p (sorted_items d) ∙ ap suc (length-sorted_items d)
