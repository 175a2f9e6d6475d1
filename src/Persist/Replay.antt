-- ===== src/Persist/Replay.antt =====
-- The replay of what `RaftStorage` writes: each record does to the recovered state what its writer
-- meant.
use ground_hog.Prelude.{
  ℕ, ◌-◌, ◌^◌, ◌<◌, ◌≤◌, ◌≡◌, ◌≢◌, refl, ◌∙◌, List, [], ◌∷◌, ◌++◌, some, append_assoc, append-nil,
  arith, take,
}
use ground_hog.Prelude.Outcome.{Outcome, ok, raised, ◌>>=◌, >>=-ok_elim}
use ground_hog.Bytes.{Bytes, be_bytes, pack_uint, be_value-be_bytes}
use ground_hog.Kv.{encode_command}
use ground_hog.Kv.RoundTrip.{decode-encode_command}
use ground_hog.Log.{LogEntry}
use ground_hog.Persist.{
  HardState, Recovered, pack_header, vote_field, encode_state_record, encode_entry_record,
  encode_truncate_record, encode_entries, replay_record, replay_from, replay, append_encoded,
  save_state, append_entries, truncate_from,
}
use ground_hog.Storage.{Storage, Contract}
use ground_hog.Types.{Index}

-- A header that packs is its three fields, and the two numbers fit in 64 bits.
record IsHeader (kind first second : ℕ) (h : Bytes) : Type 0 where
  kind_fits : kind < 256 ^ 1
  first_fits : first < 256 ^ 8
  second_fits : second < 256 ^ 8
  shape : h ≡ be_bytes 1 kind ++ (be_bytes 8 first ++ be_bytes 8 second)

pack_header-IsHeader :
    (kind first second : ℕ) (h : Bytes)
    → pack_header kind first second ≡ ok h
    → IsHeader kind first second h
unfolding pack_header pack_uint
pack_header-IsHeader kind first second h e = ground arith

-- The vote that is written is the vote that is read, unless it is for the id 0.
pub replay_record-state :
    (r : Recovered) (s : HardState) (b : Bytes)
    → s.voted_for ≢ some 0
    → encode_state_record s ≡ ok b
    → replay_record r b ≡ ok (record r { state = s })
unfolding encode_state_record replay_record be_bytes
replay_record-state r s b real e =
    let p : IsHeader 1 s.current_term (vote_field s.voted_for) b = pack_header-IsHeader _ _ _ b e in
    rw p.shape (
      ground (
        arith,
        be_value-be_bytes 8 s.current_term p.first_fits,
        be_value-be_bytes 8 (vote_field s.voted_for) p.second_fits,
        be_value-be_bytes 1 1 p.kind_fits,
      ))

pub replay_record-entry :
    (r : Recovered) (x : LogEntry) (b : Bytes)
    → encode_entry_record x ≡ ok b
    → replay_record r b ≡ ok (record r { entries = r.entries ++ x ∷ [] })
unfolding encode_entry_record replay_record be_bytes
replay_record-entry r x b e = >>=-ok_elim (pack_header 2 x.term x.index) _ e λ h hh e.
    >>=-ok_elim (encode_command x.command) _ e λ c hc e.
      let p : IsHeader 2 x.term x.index h = pack_header-IsHeader _ _ _ h hh in
      let shape : b ≡ (be_bytes 1 2 ++ (be_bytes 8 x.term ++ be_bytes 8 x.index)) ++ c =
        cc (e, p.shape) in
      rw shape (
        ground (
          arith,
          be_value-be_bytes 8 x.term p.first_fits,
          be_value-be_bytes 8 x.index p.second_fits,
          be_value-be_bytes 1 2 p.kind_fits,
          decode-encode_command x.command c hc,
        ))

pub replay_record-truncate :
    (r : Recovered) (i : Index) (b : Bytes)
    → 1 ≤ i
    → encode_truncate_record i ≡ ok b
    → replay_record r b ≡ ok (record r { entries = take (i - 1) r.entries })
unfolding encode_truncate_record replay_record be_bytes
replay_record-truncate r i b pos e =
    let p : IsHeader 3 0 i b = pack_header-IsHeader _ _ _ b e in
    rw p.shape (
      ground (
        arith,
        be_value-be_bytes 8 0 p.first_fits,
        be_value-be_bytes 8 i p.second_fits,
        be_value-be_bytes 1 3 p.kind_fits,
      ))

-- Replay goes through a log in order.
pub replay_from-append :
    (r : Recovered) (xs bs : List Bytes)
    → replay_from r (xs ++ bs) ≡ (replay_from r xs >>= λ r'. replay_from r' bs)
unfolding replay_from
replay_from-append r [] bs = refl
replay_from-append r (x ∷ xs) bs = through (replay_record r x) (λ r'. replay_from-append r' xs bs)
  where
    through :
        (o : Outcome Recovered)
        → ((r' : Recovered)
            → replay_from r' (xs ++ bs) ≡ (replay_from r' xs >>= λ s. replay_from s bs))
        → (o >>= λ r'. replay_from r' (xs ++ bs))
          ≡ ((o >>= λ r'. replay_from r' xs) >>= λ r'. replay_from r' bs)
    through (ok r') ih = ih r'
    through (raised e) ih = refl

replay_from-entries :
    (r : Recovered) (es : List LogEntry) (bs : List Bytes)
    → encode_entries es ≡ ok bs
    → replay_from r bs ≡ ok (record r { entries = r.entries ++ es })
unfolding encode_entries replay_from
replay_from-entries r [] bs e = ground (arith, append-nil r.entries)
replay_from-entries r (x ∷ xs) bs e = >>=-ok_elim (encode_entry_record x) _ e λ b hb e.
    >>=-ok_elim (encode_entries xs) _ e λ cs hc e. ground (
      arith,
      replay_record-entry r x b hb,
      replay_from-entries (record r { entries = r.entries ++ x ∷ [] }) xs cs hc,
      append_assoc r.entries (x ∷ []) xs,
    )

-- `RaftStorage` over any storage that keeps its contract: after each write the log replays to the
-- state that the write meant.
module _ {S : Type 0} (store : Storage S) (IsSound : S → Type 0) (written durable : S → List Bytes)
    (contract : Contract store IsSound written durable) where
  open contract use {append_sound, append_writes}

  abbrev pub Holds : S → Recovered → Type 0
  Holds s r = IsSound s × (replay (written s) ≡ ok r)

  append_encoded-Holds :
      (o : Outcome (List Bytes)) (r r' : Recovered) (s s' : S)
      → ((rs : List Bytes) → o ≡ ok rs → replay_from r rs ≡ ok r')
      → Holds s r
      → append_encoded store o s ≡ (ok tt, s')
      → Holds s' r'
  unfolding append_encoded replay
  append_encoded-Holds (ok rs) r r' s s' step h e = (
    append_sound rs s s' h.0 e,
    rw (append_writes rs s s' h.0 e) (replay_from-append _ (written s) rs ∙ rw h.1 (step rs refl)),
  )
  append_encoded-Holds (raised x) r r' s s' step h e = cc

  one-record :
      (o : Outcome Bytes) (r r' : Recovered)
      → ((b : Bytes) → o ≡ ok b → replay_record r b ≡ ok r')
      → (rs : List Bytes) → (o >>= λ b. ok (b ∷ [])) ≡ ok rs
      → replay_from r rs ≡ ok r'
  unfolding replay_from
  one-record (ok b) r r' step rs e = let same : rs ≡ b ∷ [] = cc in rw same (rw (step b refl))
  one-record (raised x) r r' step rs e = cc

  -- If the written records replay to a recovered state and a save of a hard state returns, whose
  -- vote is not for node 0, then they replay to that state with the saved hard state and the same
  -- entries.
  pub save_state-Holds :
      (st : HardState) (r : Recovered) (s s' : S)
      → st.voted_for ≢ some 0
      → Holds s r
      → save_state store st s ≡ (ok tt, s')
      → Holds s' (record r { state = st })
  unfolding save_state
  save_state-Holds st r s s' real h e =
      append_encoded-Holds (encode_state_record st >>= λ b. ok (b ∷ [])) r (record r { state = st })
        s s'
        (one-record (encode_state_record st) r (record r { state = st })
          (λ b hb. replay_record-state r st b real hb))
        h e

  -- If the written records replay to a recovered state and an append of entries returns, then they
  -- replay to the same hard state with those entries behind the old ones.
  pub append_entries-Holds :
      (es : List LogEntry) (r : Recovered) (s s' : S)
      → Holds s r
      → append_entries store es s ≡ (ok tt, s')
      → Holds s' (record r { entries = r.entries ++ es })
  unfolding append_entries
  append_entries-Holds [] r s s' h e = let same : s' ≡ s = cc in rw (same, append-nil) h
  append_entries-Holds (x ∷ xs) r s s' h e =
      append_encoded-Holds (encode_entries (x ∷ xs)) r (record r { entries = r.entries ++ x ∷ xs })
        s s' (λ rs hr. replay_from-entries r (x ∷ xs) rs hr) h e

  -- If the written records replay to a recovered state and a truncation from an index of at least 1
  -- returns, then they replay to the same hard state with the entries before that index.
  pub truncate_from-Holds :
      (i : Index) (r : Recovered) (s s' : S)
      → 1 ≤ i
      → Holds s r
      → truncate_from store i s ≡ (ok tt, s')
      → Holds s' (record r { entries = take (i - 1) r.entries })
  unfolding truncate_from
  truncate_from-Holds i r s s' pos h e =
      append_encoded-Holds (encode_truncate_record i >>= λ b. ok (b ∷ [])) r
        (record r { entries = take (i - 1) r.entries }) s s'
        (one-record (encode_truncate_record i) r (record r { entries = take (i - 1) r.entries })
          (λ b hb. replay_record-truncate r i b pos hb))
        h e
