-- ===== src/Net/Arrivals.antt =====
-- What becomes of a packet that arrives.
use ground_hog.Prelude.{
  ℕ, ◌+◌, ◌≡◌, ◌≢◌, refl, ap, List, [], ◌∷◌, ◌++◌, Option, none, some, true, false, ◌==◌, arith,
  Bool-cases, Option-cases, ◌⊎◌, inl, inr, length, length-append,
}
use ground_hog.Prelude.Dict.{Dict, nat_eq, lookup, insert, lookup-insert}
use ground_hog.Prelude.Outcome.{ok, raised, key_error}
use ground_hog.Prelude.Exec.{Exec, pure, raise, gets, modify, ◌>>=◌, ◌>>◌}
use ground_hog.Disk.{Draws}
use ground_hog.Types.{NodeId}
use ground_hog.Net.{
  SimNetwork, Partition, on_side, blocks, set_state, after_change, NodeState, running, crashed,
  hung, at_key, cut_off, write_record, drop_packet, arrive_at, arrive_unless, arrive,
}

-- A key that was found, where what follows returned.
at_key-ok_elim :
    {S V B C : Type 0} (o : Option V) (f : V → Exec S B) (s : S) {b : B} {u : S}
    → (at_key o >>= f) s ≡ (ok b, u)
    → ((v : V) → o ≡ some v → f v s ≡ (ok b, u) → C)
    → C
unfolding pure raise ◌>>=◌
at_key-ok_elim (some v) f s h k = k v refl h
at_key-ok_elim none f s h k = let told : raised key_error ≡ ok _ = ap (λ r. r.0) h in cc

-- How many packets wait for a node that hangs.
waiting_in : {X : Type 0} → Dict NodeId (List X) → ℕ
waiting_in [] = 0
waiting_in ((i, xs) ∷ held) = length xs + waiting_in held

waiting_in-insert :
    {X : Type 0} (i : NodeId) (xs : List X) (x : X) (held : Dict NodeId (List X))
    → lookup i held ≡ some xs
    → waiting_in (insert i (xs ++ x ∷ []) held) ≡ waiting_in held + 1
unfolding waiting_in
waiting_in-insert i xs x [] h = cc
waiting_in-insert i xs x ((j, ys) ∷ held) h = elim (Bool-cases (j == i)) [
  | inl same ↦
      let found : some ys ≡ some xs = rw same at h in
      let one : ys ≡ xs = cc in rw (same, one) (omega (arith, length-append xs (x ∷ [])))
  | inr other ↦ rw other (omega (arith, waiting_in-insert i xs x held (rw other at h)))
]

module _ {A M R : Type 0} where
  unfoldable pub waiting : SimNetwork A M R → ℕ
  unfolding waiting_in
  waiting n = waiting_in n.held

  -- A packet that arrived: it is counted once, and where it reached the node, the node was running
  -- and not cut off.
  pub record Arrived (frm to : NodeId) (s t : SimNetwork A M R) : Type 0 where
    pub counted : t.delivered + t.dropped + waiting t ≡ s.delivered + s.dropped + waiting s + 1
    pub reached :
        (t.calls ≡ s.calls)
        ⊎ ((cut_off s.partition frm to ≡ false) × (lookup to s.states ≡ some running))

  arrive_at-Arrived :
      (frm to : NodeId) (msg : M) (state : NodeState) (s t : SimNetwork A M R)
      → cut_off s.partition frm to ≡ false
      → lookup to s.states ≡ some state
      → arrive_at frm to msg state s ≡ (ok tt, t)
      → Arrived frm to s t
  unfolding arrive_at drop_packet write_record waiting gets modify pure raise ◌>>=◌
  arrive_at-Arrived frm to msg crashed s t clear at_state e =
      let ran = ap (λ r. r.1) e in rw (← ran) (record { counted = omega arith; reached = inl refl })
  arrive_at-Arrived frm to msg running s t clear at_state e =
      let ran = ap (λ r. r.1) e in
      rw (← ran) (record { counted = omega arith; reached = inr (clear, at_state) })
  arrive_at-Arrived frm to msg hung s t clear at_state e = elim (Option-cases (lookup to s.held)) [
    | inl missing ↦ let told : raised key_error ≡ ok tt = ap (λ r. r.0) (rw missing at e) in cc
    | inr (packets, there) ↦
        let ran = ap (λ r. r.1) (rw there at e) in
        rw (← ran) (record {
          counted = omega (arith, waiting_in-insert to packets (frm, msg) s.held there);
          reached = inl refl;
        })
  ]

  -- An arrival that returns counts its packet exactly once, as delivered, as dropped or as waiting
  -- for a node that hangs; and it calls the node only if no partition that is up blocks the way and
  -- the node is running. What the called node then does, its own sends included, is not counted in.
  pub arrive-Arrived :
      (frm to : NodeId) (msg : M) (s t : SimNetwork A M R)
      → arrive frm to msg s ≡ (ok tt, t)
      → Arrived frm to s t
  unfolding arrive arrive_unless drop_packet write_record waiting gets modify pure raise ◌>>=◌
  arrive-Arrived frm to msg s t e = elim (Bool-cases (cut_off s.partition frm to)) [
    | inl cut ↦
        let ran = ap (λ r. r.1) (rw cut at e) in
        rw (← ran) (record { counted = omega arith; reached = inl refl })
    | inr clear ↦
        at_key-ok_elim (lookup to s.states) (arrive_at frm to msg) s (rw clear at e)
          λ state at_state rest. arrive_at-Arrived frm to msg state s t clear at_state rest
  ]

-- A split that is not one way blocks a way exactly when it blocks the way back.
pub blocks-sym :
    (p : Partition) (frm to : NodeId) → p.one_way ≡ false → blocks p frm to ≡ blocks p to frm
unfolding blocks
blocks-sym p frm to two_way = rw two_way (ground arith)

-- A one-way split of two sides that share no node never blocks the way back.
pub blocks-one_way :
    (p : Partition) (frm to : NodeId)
    → p.one_way ≡ true
    → ((i : NodeId) → on_side i p.side_a ≡ true → on_side i p.side_b ≡ false)
    → blocks p frm to ≡ true
    → blocks p to frm ≡ false
unfolding blocks
blocks-one_way p frm to one_way disjoint h = ground (arith, one_way, disjoint frm, disjoint to)

module _ {A M R : Type 0} (draws : Draws R) (arrival : NodeId → NodeId → M → A) where
  -- What a crash leaves of the network.
  pub record Crashed (i : NodeId) (s t : SimNetwork A M R) : Type 0 where
    pub down : lookup i t.states ≡ some crashed
    pub discarded : lookup i t.held ≡ some []
    pub others : (j : NodeId) → j ≢ i → lookup j t.held ≡ lookup j s.held
    pub same_clock : t.clock ≡ s.clock
    pub same_calls : t.calls ≡ s.calls

  -- A crash that returns discards what waits for the node, also when it was hanging before, delivers
  -- none of it and schedules none of it; what waits for the other nodes stays.
  pub set_state-Crashed :
      (i : NodeId) (s t : SimNetwork A M R)
      → set_state draws arrival i crashed s ≡ (ok tt, t)
      → Crashed i s t
  unfolding set_state after_change gets modify pure raise ◌>>=◌
  set_state-Crashed i s t e =
      at_key-ok_elim (lookup i s.states)
        (λ previous.
          modify (λ n. record n { states = insert i crashed n.states })
          >> after_change draws arrival i previous crashed)
        s e
        λ previous there rest.
          at_key-ok_elim (lookup i s.held)
            (λ packets. modify (λ n. record n { held = insert i [] n.held }))
            (record s { states = insert i crashed s.states }) rest
            λ packets waits last.
              let ran = ap (λ r. r.1) last in
              rw (← ran) (record {
                down = ground (arith, lookup-insert i i crashed s.states);
                discarded = ground (arith, lookup-insert i i [] s.held);
                others = λ j apart. ground (arith, lookup-insert i j [] s.held, apart);
                same_clock = refl;
                same_calls = refl;
              })
