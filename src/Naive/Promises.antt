-- ===== src/Naive/Promises.antt =====
-- What it means that no write is lost.
use ground_hog.Prelude.{
  ◌≡◌, refl, ◌∙◌, ap, List, [], ◌∷◌, ◌++◌, Option, some, Memᴰ, map, Bool-cases, inl, inr,
}
use mathlib.Core.List.Memᴰ
use ground_hog.Prelude.Dict.{Dict, Text, text_key, lookup, lookup-Mem}
use ground_hog.Prelude.Sort.{sorted_items, sorted_items-Mem, sorted_texts, sorted_texts-Mem}
use ground_hog.Kv.{Command, KvStore, get}
use ground_hog.Invariants.Divergence.{value_eq, value_eq_iff, key-Mem}
use ground_hog.Types.{NodeId}
use ground_hog.Naive.{promised_value, expected_state, lost_on, lost_over, lost_writes}

-- A list that is empty had no first part.
nothing_first : {A : Type 0} (xs ys : List A) → xs ++ ys ≡ [] → xs ≡ []
nothing_first [] ys e = refl
nothing_first (x ∷ xs) ys e = cc

nothing_second : {A : Type 0} (xs ys : List A) → xs ++ ys ≡ [] → ys ≡ []
nothing_second [] ys e = e
nothing_second (x ∷ xs) ys e = cc

lost_on-none :
    (node : NodeId) (store : KvStore) (expected : Dict Text (Option Text)) (keys : List Text)
    (key : Text)
    → lost_on node store expected keys ≡ []
    → Memᴰ key keys
    → get store key ≡ promised_value (lookup key expected)
unfolding lost_on
lost_on-none node store expected [] key e m = absurd (Memᴰ.not-nil m)
lost_on-none node store expected (k ∷ keys) key e m =
    elim (Bool-cases (value_eq (get store k) (promised_value (lookup k expected)))) [
      | inr lost ↦
          let told : record {
            node = node;
            key = k;
            promised = promised_value (lookup k expected);
            found = get store k;
          }
                ∷ lost_on node store expected keys
              ≡ [] =
            rw lost at e in
          cc
      | inl kept ↦ elim (Memᴰ.cases_cons m) [
        | inl here ↦
            rw here ((value_eq_iff (get store k) (promised_value (lookup k expected))).0 kept)
        | inr below ↦ lost_on-none node store expected keys key (rw kept at e) below
      ]
    ]

lost_over-none :
    (expected : Dict Text (Option Text)) (keys : List Text) (stores : List (NodeId × KvStore))
    (i : NodeId) (s : KvStore) (key : Text)
    → lost_over expected keys stores ≡ []
    → Memᴰ (i, s) stores
    → Memᴰ key keys
    → get s key ≡ promised_value (lookup key expected)
unfolding lost_over
lost_over-none expected keys [] i s key e m mk = absurd (Memᴰ.not-nil m)
lost_over-none expected keys (p ∷ stores) i s key e m mk = elim (Memᴰ.cases_cons m) [
  | inl here ↦
      let store : s ≡ p.1 = ap (λ p. p.1) here in
      rw store (
        lost_on-none p.0 p.1 expected keys key
          (nothing_first (lost_on p.0 p.1 expected keys) (lost_over expected keys stores) e) mk)
  | inr below ↦
      lost_over-none expected keys stores i s key
        (nothing_second (lost_on p.0 p.1 expected keys) (lost_over expected keys stores) e) below mk
]

-- Where no write is listed as lost, every store answers, for every key that an acknowledged command
-- named, what the last of them promised: the value that was put, or that the key is absent.
pub lost_writes-none :
    (acked : List Command) (stores : Dict NodeId KvStore)
    → lost_writes acked stores ≡ []
    → (i : NodeId) (s : KvStore) → Memᴰ (i, s) stores
    → (key : Text) (v : Option Text) → lookup key (expected_state acked) ≡ some v
    → get s key ≡ v
unfolding lost_writes
lost_writes-none acked stores e i s m key v h =
    let keys = map (λ p. p.0) (expected_state acked) in
    let named : Memᴰ key (sorted_texts keys) =
      sorted_texts-Mem keys key
        (key-Mem key v (expected_state acked) (lookup-Mem key v (expected_state acked) h)) in
    lost_over-none (expected_state acked) (sorted_texts keys) (sorted_items stores) i s key e
      (sorted_items-Mem stores (i, s) m) named
    ∙ ap promised_value h
