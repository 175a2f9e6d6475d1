-- ===== src/Node/Durable/Appends.antt =====
-- Durability through the handlers that change the log. While the entries of a message are taken, the
-- disk holds the log without the entries that were appended so far: they are written behind it in
-- one go, and the truncations before them.
use ground_hog.Prelude.{
  suc, ◌+◌, ◌-◌, ◌≤◌, ◌≡◌, refl, ap, sym, ◌∙◌, List, [], ◌∷◌, ◌++◌, Bool, true, false, leb, ◌==◌,
  length, length-append, length-take, if◌then◌else◌, arith, Bool-cases, inl, inr, ◌⊎◌, append-nil,
  append_assoc,
}
use mathlib.Core.Path.{subst}
use ground_hog.Prelude.Outcome.{ok, raised}
use ground_hog.Prelude.Exec.{gets, modify, when, lift, pure, ◌>>=◌, ◌>>◌}
use ground_hog.Prelude.Steps.{bind-ok_elim}
use ground_hog.Bytes.{Bytes}
use ground_hog.Log.{LogEntry, RaftLog, last_index, term_at, truncate_from, append}
use ground_hog.Log.Contiguous.{
  IsContiguous, last_index-length, snoc-IsContiguous, truncate_from-IsContiguous,
}
use ground_hog.Persist
use ground_hog.Persist.{HardState, replay}
use ground_hog.Persist.Replay.{append_entries-Holds, truncate_from-Holds}
use ground_hog.Storage.{Contract}
use ground_hog.Types.{Index}
use ground_hog.Node.State.{RaftNode, Services}
use ground_hog.Node.Plumbing.{persist_entries, persist_truncation}
use ground_hog.Node.Quiet.{Promise, promise}
use ground_hog.Node.Handlers.{already_held, on_log, take_entry, entry_round, take_entries}
use ground_hog.Node.Durable.{LogHeld, on_storage-ok}

module _ {S R : Type 0} (env : Services S R) where
  -- Looking whether an entry is held changes nothing.
  already_held-same :
      (index : Index) (incoming : LogEntry) (n u : RaftNode S R) (b : Bool)
      → already_held env index incoming n ≡ (ok b, u)
      → (u ≡ n) × (b ≡ true → index ≤ last_index n.log)
  unfolding already_held gets ◌>>=◌ lift pure
  already_held-same index incoming n u b e = elim (Bool-cases (leb index (last_index n.log))) [
    | inl there ↦
        elim (term_at n.log index)
            as (λ o. term_at n.log index ≡ o → (u ≡ n) × (b ≡ true → index ≤ last_index n.log)) [
              | ok t ↦ λ found. ground (arith, found)
              | raised x ↦ λ failed. ground (arith, failed)
            ]
          refl
    | inr beyond ↦ ground arith
  ]

module _ {S R : Type 0} (env : Services S R) (IsSound : S → Type 0)
    (written durable : S → List Bytes) (contract : Contract env.store IsSound written durable) where
  -- The entries of a message are taken up to `index`; `appended` is not written yet.
  pub record Taking (p : Promise S) (index : Index) (appended : List LogEntry) : Type 0 where
    pub base : RaftLog
    pub held : LogHeld env IsSound written durable contract (record p { log = base })
    pub whole : p.log ≡ base ++ appended
    pub contiguous : IsContiguous p.log
    pub pos : 1 ≤ index
    pub near : index ≤ last_index p.log + 1
    pub fresh : (appended ≡ []) ⊎ (index ≡ last_index p.log + 1)

  pub persist_entries-LogHeld :
      (appended : List LogEntry) (index : Index) (n t : RaftNode S R)
      → Taking (promise n) index appended
      → persist_entries env appended n ≡ (ok tt, t)
      → LogHeld env IsSound written durable contract (promise t)
  unfolding persist_entries
  persist_entries-LogHeld appended index n t h e =
      let (ran, same) = on_storage-ok (Persist.append_entries env.store appended) n t e in
      let (sound, replays) =
        append_entries-Holds env.store IsSound written durable contract appended
          (record { state = h.held.state; entries = h.base }) n.storage t.storage
          (h.held.sound, h.held.replays) ran in
      subst (LogHeld env IsSound written durable contract) (sym (ap promise same)) (record {
        sound = sound;
        named = h.held.named;
        real = h.held.real;
        contiguous = h.contiguous;
        state = h.held.state;
        replays = rw h.whole replays;
      })

  -- An entry that is held already comes before everything that is appended.
  skip-Taking :
      (index : Index) (appended : List LogEntry) (n : RaftNode S R)
      → Taking (promise n) index appended
      → index ≤ last_index n.log
      → Taking (promise n) (index + 1) appended
  skip-Taking index appended n h there = record {
    base = h.base;
    held = h.held;
    whole = h.whole;
    contiguous = h.contiguous;
    pos = omega arith;
    near = omega arith;
    fresh = elim h.fresh [ inl p ↦ inl p | inr p ↦ absurd (omega arith) ];
  }

  -- An append of the next entry.
  append_next-Taking :
      (index : Index) (incoming : LogEntry) (appended : List LogEntry) (m u : RaftNode S R)
      → Taking (promise m) index appended
      → index ≡ last_index m.log + 1
      → on_log (append (incoming ∷ [])) m ≡ (ok tt, u)
      → Taking (promise u) (index + 1) (appended ++ incoming ∷ [])
  unfolding on_log append
  append_next-Taking index incoming appended m u h next e =
      elim (Bool-cases (incoming.index == last_index m.log + 1)) [
        | inl follows ↦
            let grown : u ≡ record m { log = m.log ++ incoming ∷ [] } =
              ground (arith, e, follows) in
            let whole : IsContiguous (m.log ++ incoming ∷ []) =
              snoc-IsContiguous m.log incoming h.contiguous (ground arith) in
            let long : last_index (m.log ++ incoming ∷ []) ≡ length m.log + 1 =
              last_index-length (m.log ++ incoming ∷ []) whole
              ∙ length-append m.log (incoming ∷ []) in
            subst (λ n. Taking (promise n) (index + 1) (appended ++ incoming ∷ [])) (sym grown)
              (record {
                base = h.base;
                held = h.held;
                whole =
                    ap (λ l. l ++ incoming ∷ []) h.whole
                    ∙ append_assoc h.base appended (incoming ∷ []);
                contiguous = whole;
                pos = omega arith;
                near = omega (arith, long, next, last_index-length m.log h.contiguous);
                fresh = inr (omega (arith, long, next, last_index-length m.log h.contiguous));
              })
        | inr gap ↦ absurd (ground (arith, e, gap))
      ]

  -- The conflicting entries are cut, in memory and on the disk: nothing was appended before them.
  cut-Taking :
      (index : Index) (cut : RaftLog) (appended : List LogEntry) (n m : RaftNode S R)
      → Taking (promise n) index appended
      → index ≤ last_index n.log
      → truncate_from index n.log ≡ ok cut
      → persist_truncation env index (record n { log = cut }) ≡ (ok tt, m)
      → Taking (promise m) index appended × (index ≡ last_index m.log + 1)
  unfolding persist_truncation
  cut-Taking index cut [] n m h there found e =
      let (whole, is_cut) = truncate_from-IsContiguous index n.log cut h.contiguous found in
      let (ran, same) =
        on_storage-ok (Persist.truncate_from env.store index) (record n { log = cut }) m e in
      let (sound, replays) =
        truncate_from-Holds env.store IsSound written durable contract index
          (record { state = h.held.state; entries = h.base }) n.storage m.storage h.pos
          (h.held.sound, h.held.replays) ran in
      let base_log : n.log ≡ h.base = h.whole ∙ append-nil h.base in
      let short : last_index cut ≡ index - 1 =
        last_index-length cut whole
        ∙ (ap length is_cut
            ∙ omega (arith, length-take (index - 1) n.log, last_index-length n.log h.contiguous)) in
      let next : index ≡ last_index cut + 1 = omega (arith, short, h.pos) in
      subst (λ n. Taking (promise n) index [] × (index ≡ last_index n.log + 1)) (sym same)
        (
          record {
            base = cut;
            held = record {
              sound = sound;
              named = h.held.named;
              real = h.held.real;
              contiguous = whole;
              state = h.held.state;
              replays = rw (is_cut, base_log) replays;
            };
            whole = sym (append-nil cut);
            contiguous = whole;
            pos = h.pos;
            near = omega arith;
            fresh = inl refl;
          },
          next,
        )
  cut-Taking index cut (a ∷ as') n m h there found e =
      absurd (elim h.fresh [ inl p ↦ cc | inr p ↦ omega arith ])

  -- What comes before the append in `take_entry`.
  ready-Taking :
      (index : Index) (appended : List LogEntry) (n m : RaftNode S R)
      → Taking (promise n) index appended
      → when
          (leb index (last_index n.log))
          (lift (truncate_from index n.log) >>= λ log.
            (modify (λ n. record n { log = log }) >> persist_truncation env index))
          n
        ≡ (ok tt, m)
      → Taking (promise m) index appended × (index ≡ last_index m.log + 1)
  unfolding when lift modify ◌>>=◌
  ready-Taking index appended n m h e = elim (Bool-cases (leb index (last_index n.log))) [
    | inl there ↦
        elim (truncate_from index n.log)
            as (λ o.
              truncate_from index n.log ≡ o
              → Taking (promise m) index appended × (index ≡ last_index m.log + 1)) [
                | ok cut ↦ λ found.
                    cut-Taking index cut appended n m h (ground arith) found
                      (ground (arith, e, there, found))
                | raised x ↦ λ failed. absurd (ground (arith, e, there, failed))
              ]
          refl
    | inr beyond ↦
        let same : m ≡ n = ground (arith, e, beyond) in rw same (h, ground (arith, h.near, beyond))
  ]

  take_entry-Taking :
      (index : Index) (incoming : LogEntry) (appended : List LogEntry) (n u : RaftNode S R)
      → Taking (promise n) index appended
      → take_entry env index incoming n ≡ (ok tt, u)
      → Taking (promise u) (index + 1) (appended ++ incoming ∷ [])
  unfolding take_entry gets ◌>>=◌
  take_entry-Taking index incoming appended n u h e =
      bind-ok_elim
        (when (leb index (last_index n.log)) (
          lift (truncate_from index n.log) >>= λ log.
          (modify (λ n. record n { log = log }) >> persist_truncation env index)))
        (λ _. on_log (append (incoming ∷ []))) n e
        λ _ v ready e'.
          let (hv, next) = ready-Taking index appended n v h ready in
          append_next-Taking index incoming appended v u hv next e'

  pub take_entries-Taking :
      (es : List LogEntry) (index : Index) (appended : List LogEntry) (n t : RaftNode S R)
      (r : List LogEntry)
      → Taking (promise n) index appended
      → take_entries env index es appended n ≡ (ok r, t)
      → Taking (promise t) (index + length es) r
  unfolding take_entries entry_round pure
  take_entries-Taking [] index appended n t r h e =
      let same : index + 0 ≡ index = omega arith in
      let sr : appended ≡ r = cc in
      let st : n ≡ t = cc in
      rw same (
        subst (λ a. Taking (promise t) index a) sr
          (subst (λ m. Taking (promise m) index appended) st h))
  take_entries-Taking (incoming ∷ rest) index appended n t r h e =
      let same : index + suc (length rest) ≡ index + 1 + length rest = omega arith in
      bind-ok_elim (already_held env index incoming) _ n e λ b u looked e'.
        let (su, there) = already_held-same env index incoming n u b looked in
        let hu : Taking (promise u) index appended =
          subst (λ m. Taking (promise m) index appended) (sym su) h in
        rw same (
          (elim b
              as (λ b.
                (b ≡ true → index ≤ last_index u.log)
                → (if b
                      then take_entries env (index + 1) rest appended
                      else (take_entry env index incoming
                          >> take_entries env (index + 1) rest (appended ++ incoming ∷ [])))
                    u
                  ≡ (ok r, t)
                → Taking (promise t) (index + 1 + length rest) r) [
                  | true ↦ λ there e.
                      take_entries-Taking rest (index + 1) appended u t r
                        (skip-Taking index appended u hu (there refl)) e
                  | false ↦ λ there e.
                      bind-ok_elim (take_entry env index incoming) _ u e λ _ v taken e'.
                        take_entries-Taking rest (index + 1) (appended ++ incoming ∷ []) v t r
                          (take_entry-Taking index incoming appended u v hu taken) e'
                ])
            (rw su there) e')
