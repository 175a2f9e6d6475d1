-- ===== src/Invariants/Divergence.antt =====
-- groundhog/invariants/divergence.py: do the copies agree? A store is read with `get` and `all_keys`.
use ground_hog.Prelude.{
  ◌≡◌, ◌↔◌, sym, ◌∙◌, ap, List, [], ◌∷◌, Option, none, some, Bool, true, false, not, ltb, Memᴰ,
  if◌then◌else◌, arith, Bool-cases, Option-cases, inl, inr, length, map, ◌||◌,
}
use mathlib.Core.List.Memᴰ
use ground_hog.Prelude.Dict.{
  Dict, Text, text_eq, text_eq_iff, text_key, nat_eq, lookup, insert, lookup-insert, lookup-Mem,
}
use ground_hog.Prelude.Outcome.{Outcome, ok, raised, value_error}
use ground_hog.Prelude.Sort.{sorted_items, sorted_items-Mem, sorted_texts, sorted_texts-Mem}
use ground_hog.Kv.{KvStore, get, all_keys}
use ground_hog.Types.{NodeId}

pub record Divergence : Type 0 where
  pub key : Text
  pub values : List (NodeId × Option Text)

abbrev pub value_eq : Option Text → Option Text → Bool
value_eq none none = true
value_eq none (some t) = false
value_eq (some s) none = false
value_eq (some s) (some t) = text_eq s t

pub value_eq_iff : (v w : Option Text) → (value_eq v w ≡ true) ↔ (v ≡ w)
value_eq_iff none none = ground arith
value_eq_iff none (some t) = ground arith
value_eq_iff (some s) none = ground arith
value_eq_iff (some s) (some t) = ground (arith, text_eq_iff s t)

-- `DivergenceChecker.stores`
abbrev pub Stores : Type 0
Stores = Dict NodeId KvStore

-- `DivergenceChecker(stores)`
unfoldable pub divergence_checker : Stores → Outcome Stores
divergence_checker stores = if ltb (length stores) 2 then raised value_error else ok stores

-- The loops of `_all_keys`: over the stores, and over the keys of one.
see_keys : List Text → Dict Text (Unit {0}) → Dict Text (Unit {0})
see_keys [] seen = seen
see_keys (key ∷ keys) seen = see_keys keys (insert key tt seen)

see_stores : List (NodeId × KvStore) → Dict Text (Unit {0}) → Dict Text (Unit {0})
unfolding see_keys
see_stores [] seen = seen
see_stores (p ∷ stores) seen = see_stores stores (see_keys (all_keys p.1) seen)

keys_of : Stores → List Text
unfolding see_stores
keys_of stores = sorted_texts (map (λ p. p.0) (see_stores (sorted_items stores) []))

-- `any(value != first for _, value in values)`
any_other : Option Text → List (NodeId × Option Text) → Bool
any_other first [] = false
any_other first (v ∷ values) = not (value_eq v.1 first) || any_other first values

-- The test of the loop. There are at least two values, one for each store.
differ : List (NodeId × Option Text) → Bool
unfolding any_other
differ [] = false
differ (v ∷ values) = any_other v.1 (v ∷ values)

values_at : List (NodeId × KvStore) → Text → List (NodeId × Option Text)
values_at stores key = map (λ p. (p.0, get p.1 key)) stores

divergences : List (NodeId × KvStore) → List Text → List Divergence
unfolding differ values_at
divergences stores [] = []
divergences stores (key ∷ keys) =
    let rest = divergences stores keys in
    let values = values_at stores key in
    if differ values then record { key = key; values = values } ∷ rest else rest

-- `DivergenceChecker.check`
unfoldable pub check : Stores → List Divergence
unfolding divergences keys_of
check stores = divergences (sorted_items stores) (keys_of stores)

-- A key that is seen stays seen, and every key of every store is seen.
see_keys-keeps :
    (keys : List Text) (seen : Dict Text (Unit {0})) (k : Text)
    → lookup k seen ≡ some tt
    → lookup k (see_keys keys seen) ≡ some tt
unfolding see_keys
see_keys-keeps [] seen k h = h
see_keys-keeps (key ∷ keys) seen k h =
    see_keys-keeps keys (insert key tt seen) k (ground (arith, lookup-insert key k tt seen))

see_keys-sees :
    (keys : List Text) (seen : Dict Text (Unit {0})) (k : Text)
    → Memᴰ k keys
    → lookup k (see_keys keys seen) ≡ some tt
unfolding see_keys
see_keys-sees [] seen k m = absurd (Memᴰ.not-nil m)
see_keys-sees (key ∷ keys) seen k (Memᴰ.head same) =
    see_keys-keeps keys (insert key tt seen) k
      (ground (arith, lookup-insert key k tt seen, text_eq_iff key k))
see_keys-sees (key ∷ keys) seen k (Memᴰ.tail m) = see_keys-sees keys (insert key tt seen) k m

see_stores-keeps :
    (stores : List (NodeId × KvStore)) (seen : Dict Text (Unit {0})) (k : Text)
    → lookup k seen ≡ some tt
    → lookup k (see_stores stores seen) ≡ some tt
unfolding see_stores
see_stores-keeps [] seen k h = h
see_stores-keeps (p ∷ stores) seen k h =
    see_stores-keeps stores (see_keys (all_keys p.1) seen) k
      (see_keys-keeps (all_keys p.1) seen k h)

see_stores-sees :
    (stores : List (NodeId × KvStore)) (seen : Dict Text (Unit {0})) (p : NodeId × KvStore)
    (k : Text)
    → Memᴰ p stores
    → Memᴰ k (all_keys p.1)
    → lookup k (see_stores stores seen) ≡ some tt
unfolding see_stores
see_stores-sees [] seen p k m mk = absurd (Memᴰ.not-nil m)
see_stores-sees (q ∷ stores) seen p k (Memᴰ.head same) mk =
    see_stores-keeps stores (see_keys (all_keys q.1) seen) k
      (see_keys-sees (all_keys q.1) seen k (rw same at mk))
see_stores-sees (q ∷ stores) seen p k (Memᴰ.tail m) mk =
    see_stores-sees stores (see_keys (all_keys q.1) seen) p k m mk

pub key-Mem :
    {V : Type 0} (k : Text) (v : V) (d : Dict Text V) → Memᴰ (k, v) d → Memᴰ k (map (λ p. p.0) d)
key-Mem k v [] m = absurd (Memᴰ.not-nil m)
key-Mem k v (q ∷ d) (Memᴰ.head same) = Memᴰ.head (ap (λ p. p.0) same)
key-Mem k v (q ∷ d) (Memᴰ.tail m) = Memᴰ.tail (key-Mem k v d m)

-- A key with a value in one of the stores is compared.
keys_of-Mem :
    (stores : Stores) (i : NodeId) (s : KvStore) (k v : Text)
    → Memᴰ (i, s) stores
    → get s k ≡ some v
    → Memᴰ k (keys_of stores)
unfolding keys_of all_keys get
keys_of-Mem stores i s k v m h =
    let own : Memᴰ k (all_keys s) =
      sorted_texts-Mem (map (λ p. p.0) s.entries) k
        (key-Mem k v s.entries (lookup-Mem k v s.entries h)) in
    let seen =
      see_stores-sees (sorted_items stores) [] (i, s) k (sorted_items-Mem stores (i, s) m) own in
    sorted_texts-Mem _ k (key-Mem k tt _ (lookup-Mem k tt _ seen))

any_other-none :
    (first : Option Text) (values : List (NodeId × Option Text)) (v : NodeId × Option Text)
    → any_other first values ≡ false
    → Memᴰ v values
    → v.1 ≡ first
unfolding any_other
any_other-none first [] v h m = absurd (Memᴰ.not-nil m)
any_other-none first (w ∷ values) v h (Memᴰ.head same) =
    ap (λ p. p.1) same ∙ ground (arith, value_eq_iff w.1 first)
any_other-none first (w ∷ values) v h (Memᴰ.tail m) = any_other-none first values v (ground arith) m

differ-none :
    (values : List (NodeId × Option Text)) (v w : NodeId × Option Text)
    → differ values ≡ false
    → Memᴰ v values
    → Memᴰ w values
    → v.1 ≡ w.1
unfolding differ
differ-none [] v w h mv mw = absurd (Memᴰ.not-nil mv)
differ-none (x ∷ values) v w h mv mw =
    any_other-none x.1 (x ∷ values) v h mv ∙ sym (any_other-none x.1 (x ∷ values) w h mw)

values_at-Mem :
    (stores : List (NodeId × KvStore)) (key : Text) (i : NodeId) (s : KvStore)
    → Memᴰ (i, s) stores
    → Memᴰ (i, get s key) (values_at stores key)
unfolding values_at
values_at-Mem [] key i s m = absurd (Memᴰ.not-nil m)
values_at-Mem (p ∷ stores) key i s (Memᴰ.head same) = Memᴰ.head (ap (λ q. (q.0, get q.1 key)) same)
values_at-Mem (p ∷ stores) key i s (Memᴰ.tail m) = Memᴰ.tail (values_at-Mem stores key i s m)

divergences-none :
    (stores : List (NodeId × KvStore)) (keys : List Text) (k : Text)
    → divergences stores keys ≡ []
    → Memᴰ k keys
    → differ (values_at stores k) ≡ false
unfolding divergences
divergences-none stores [] k h m = absurd (Memᴰ.not-nil m)
divergences-none stores (key ∷ keys) k h m = elim (Bool-cases (differ (values_at stores key))) [
  | inl apart ↦
      let told : record { key = key; values = values_at stores key } ∷ divergences stores keys
          ≡ [] =
        rw apart at h in
      cc
  | inr same ↦ elim (Memᴰ.cases_cons m) [
    | inl here ↦ rw here same
    | inr below ↦ divergences-none stores keys k (rw same at h) below
  ]
]

-- Where the check lists no divergence, any two of the stores answer alike for every key, also for
-- a key that only one of them, or none, has.
pub check-agree :
    (stores : Stores)
    → check stores ≡ []
    → (i j : NodeId) (s t : KvStore) → Memᴰ (i, s) stores
    → Memᴰ (j, t) stores
    → (key : Text) → get s key ≡ get t key
unfolding check
check-agree stores h i j s t ms mt key = elim (Option-cases (get s key)) [
  | inr (v, here) ↦ compared (keys_of-Mem stores i s key v ms here)
  | inl absent ↦ elim (Option-cases (get t key)) [
    | inr (v, there) ↦ compared (keys_of-Mem stores j t key v mt there)
    | inl also ↦ absent ∙ sym also
  ]
]
  where
    compared : Memᴰ key (keys_of stores) → get s key ≡ get t key
    compared m =
        differ-none (values_at (sorted_items stores) key) (i, get s key) (j, get t key)
          (divergences-none (sorted_items stores) (keys_of stores) key h m)
          (values_at-Mem (sorted_items stores) key i s (sorted_items-Mem stores (i, s) ms))
          (values_at-Mem (sorted_items stores) key j t (sorted_items-Mem stores (j, t) mt))
