-- ===== src/Naive/Replayed.antt =====
-- A write that was acknowledged is in the log, in the store and on its way to every peer.
use ground_hog.Prelude.{
  ◌+◌, ◌≡◌, refl, sym, ◌∙◌, ap, List, [], ◌∷◌, ◌++◌, Bool, true, false, ◌&&◌, ◌==◌, leb, map,
  append-nil, append_assoc, Bool-cases, inl, inr,
}
use ground_hog.Prelude.Outcome.{
  Outcome, ok, raised, disk_error, value_error, index_error, struct_error, unicode_error, key_error,
  runtime_error, invariant_violated, os_error,
}
use ground_hog.Prelude.Exec.{Exec, pure, raise, gets, modify, when, for_each, ◌>>=◌, ◌>>◌}
use ground_hog.Prelude.Steps.{bind-ok_elim, lift-ok_elim}
use ground_hog.Bytes.{Bytes}
use ground_hog.Kv.{Command, apply, encode_command, replay}
use ground_hog.Kv.Laws.{replay-snoc}
use ground_hog.Kv.RoundTrip.{decode-encode_command}
use ground_hog.Storage.{Contract}
use ground_hog.Types.{NodeId}
use ground_hog.Naive.{
  NaiveDisk, NaiveReplicator, write_acked, note, on_disk, caught, crash, sync_some, sync_every,
  after_append, write, send_all, answer, serve, on_client_request, disk_failed,
}

module _ {S : Type 0} where
  on_disk-ok :
      {A : Type 0} (m : Exec S A) (s t : NaiveReplicator S) (a : A)
      → on_disk m s ≡ (ok a, t)
      → (m s.storage ≡ (ok a, t.storage)) × (record s { storage = t.storage } ≡ t)
  unfolding on_disk
  on_disk-ok m s t a e =
      let moved : (m s.storage).1 ≡ t.storage = ap (λ r. r.1.storage) e in
      (
        ap (λ r. (r.0, r.1.storage)) e,
        ap (λ x. record s { storage = x }) (sym moved) ∙ ap (λ r. r.1) e,
      )

  -- What sending leaves alone, and what it sends.
  record Sent (command : Command) (peers : List NodeId) (s t : NaiveReplicator S) : Type 0 where
    pub same_storage : t.storage ≡ s.storage
    pub same_kv : t.kv ≡ s.kv
    pub to_all : t.sent ≡ s.sent ++ map (λ peer. (peer, command)) peers

  for_each-Sent :
      (command : Command) (peers : List NodeId) (s t : NaiveReplicator S)
      → for_each (λ peer. modify (λ n. record n { sent = n.sent ++ (peer, command) ∷ [] })) peers s
        ≡ (ok tt, t)
      → Sent command peers s t
  unfolding for_each modify pure ◌>>=◌
  for_each-Sent command [] s t e =
      let same : s ≡ t = ap (λ r. r.1) e in
      rw (← same) (record { same_storage = refl; same_kv = refl; to_all = sym (append-nil s.sent) })
  for_each-Sent command (p ∷ peers) s t e =
      let rest =
        for_each-Sent command peers (record s { sent = s.sent ++ (p, command) ∷ [] }) t e in
      record {
        same_storage = rest.same_storage;
        same_kv = rest.same_kv;
        to_all =
            rest.to_all
            ∙ append_assoc s.sent ((p, command) ∷ []) (map (λ peer. (peer, command)) peers);
      }

module _ {S : Type 0} (disk : NaiveDisk S) (IsSound : S → Type 0) (written durable : S → List Bytes)
    (contract : Contract disk.store IsSound written durable) where
  -- The store is what the log replays to.
  pub record Replays (s : NaiveReplicator S) : Type 0 where
    pub sound : IsSound s.storage
    pub replayed : replay (written s.storage) ≡ ok s.kv

  -- A sync keeps the log.
  sync_some-keeps :
      (due : Bool) (s t : NaiveReplicator S)
      → IsSound s.storage
      → sync_some disk due s ≡ (ok tt, t)
      → IsSound t.storage
        × (written t.storage ≡ written s.storage)
        × (t.kv ≡ s.kv)
        × (t.sent ≡ s.sent)
        × (t.peers ≡ s.peers)
  unfolding sync_some when modify pure
  sync_some-keeps false s t h e =
      let same : s ≡ t = ap (λ r. r.1) e in rw (← same) (h, refl, refl, refl, refl)
  sync_some-keeps true s t h e =
      bind-ok_elim (on_disk disk.store.sync) (λ _. modify (λ n. record n { unsynced = 0 })) s e
        λ _ a synced rest.
          let ran = on_disk-ok disk.store.sync s a tt synced in
          let last = ap (λ r. r.1) rest in
          let same : a.storage ≡ t.storage = ap (λ n. n.storage) last in
          (
            rw same at (contract.sync_sound s.storage a.storage h ran.0),
            ap written (sym same) ∙ contract.sync_keeps s.storage a.storage h ran.0,
            sym (ap (λ n. n.kv) ran.1 ∙ ap (λ n. n.kv) last),
            sym (ap (λ n. n.sent) ran.1 ∙ ap (λ n. n.sent) last),
            sym (ap (λ n. n.peers) ran.1 ∙ ap (λ n. n.peers) last),
          )

  -- A write that returned True: the command is in the log behind what was there, and applied.
  pub record Written (command : Command) (s t : NaiveReplicator S) : Type 0 where
    pub replays : Replays t
    pub bytes : Bytes
    pub encoded : encode_command command ≡ ok bytes
    pub logged : written t.storage ≡ written s.storage ++ bytes ∷ []
    pub applied : t.kv ≡ apply command s.kv
    pub same_sent : t.sent ≡ s.sent
    pub same_peers : t.peers ≡ s.peers

  after_append-done :
      (command : Command) (o : Outcome (Unit {0})) (s t : NaiveReplicator S) {C : Type 0}
      → after_append disk command o s ≡ (ok true, t)
      → (o ≡ ok tt
          → (due : Bool)
          → sync_some disk due (record s { kv = apply command s.kv; unsynced = s.unsynced + 1 })
            ≡ (ok tt, t)
          → C)
      → C
  unfolding after_append gets modify pure raise ◌>>=◌
  after_append-done command (ok u) s t e k =
      bind-ok_elim (sync_some disk (leb sync_every (s.unsynced + 1))) (λ _. pure true)
        (record s { kv = apply command s.kv; unsynced = s.unsynced + 1 }) e
        λ _ a synced rest.
          let same : a ≡ t = ap (λ r. r.1) rest in
          k refl (leb sync_every (s.unsynced + 1)) (synced ∙ ap (λ n. (ok tt, n)) same)
  after_append-done command (raised disk_error) s t e k =
      bind-ok_elim (note disk_failed) (λ _. crash disk >> pure false) s e
        λ _ a _ e1.
          bind-ok_elim (crash disk) (λ _. pure false) a e1
            λ _ b _ e2. let told : ok false ≡ ok true = ap (λ r. r.0) e2 in cc
  after_append-done command (raised value_error) s t e k =
      let told : raised value_error ≡ ok true = ap (λ r. r.0) e in cc
  after_append-done command (raised index_error) s t e k =
      let told : raised _ ≡ ok true = ap (λ r. r.0) e in cc
  after_append-done command (raised struct_error) s t e k =
      let told : raised _ ≡ ok true = ap (λ r. r.0) e in cc
  after_append-done command (raised unicode_error) s t e k =
      let told : raised _ ≡ ok true = ap (λ r. r.0) e in cc
  after_append-done command (raised key_error) s t e k =
      let told : raised _ ≡ ok true = ap (λ r. r.0) e in cc
  after_append-done command (raised runtime_error) s t e k =
      let told : raised _ ≡ ok true = ap (λ r. r.0) e in cc
  after_append-done command (raised invariant_violated) s t e k =
      let told : raised _ ≡ ok true = ap (λ r. r.0) e in cc
  after_append-done command (raised os_error) s t e k =
      let told : raised _ ≡ ok true = ap (λ r. r.0) e in cc

  write-Written :
      (command : Command) (s t : NaiveReplicator S)
      → Replays s
      → write disk command s ≡ (ok true, t)
      → Written command s t
  unfolding write caught pure ◌>>=◌
  write-Written command s t h e =
      lift-ok_elim (encode_command command)
        (λ bytes. caught (on_disk (disk.store.append (bytes ∷ []))) >>= after_append disk command) s
        e
        λ bytes encoded e1.
          after_append-done command (on_disk (disk.store.append (bytes ∷ [])) s).0
            (on_disk (disk.store.append (bytes ∷ [])) s).1 t e1
            λ went due synced.
              let a : NaiveReplicator S = (on_disk (disk.store.append (bytes ∷ [])) s).1 in
              let ran =
                on_disk-ok (disk.store.append (bytes ∷ [])) s a tt (ap (λ o. (o, a)) went) in
              let sound = contract.append_sound (bytes ∷ []) s.storage a.storage h.sound ran.0 in
              let logged = contract.append_writes (bytes ∷ []) s.storage a.storage h.sound ran.0 in
              let same_kv : a.kv ≡ s.kv = sym (ap (λ n. n.kv) ran.1) in
              let kept =
                sync_some-keeps due
                  (record a { kv = apply command a.kv; unsynced = a.unsynced + 1 }) t sound
                  synced in
              let all : written t.storage ≡ written s.storage ++ bytes ∷ [] = kept.1 ∙ logged in
              let new : t.kv ≡ apply command s.kv = kept.2 ∙ ap (apply command) same_kv in
              record {
                replays = record {
                  sound = kept.0;
                  replayed =
                      ap replay all
                      ∙ replay-snoc s.kv (written s.storage) bytes command h.replayed
                          (decode-encode_command command bytes encoded)
                      ∙ ap ok (sym new);
                };
                bytes = bytes;
                encoded = encoded;
                logged = all;
                applied = new;
                same_sent = kept.3 ∙ sym (ap (λ n. n.sent) ran.1);
                same_peers = kept.4 ∙ sym (ap (λ n. n.peers) ran.1);
              }

  -- What an acknowledged request has done.
  pub record Served (command : Command) (s t : NaiveReplicator S) : Type 0 where
    pub replays : Replays t
    pub applied : t.kv ≡ apply command s.kv
    pub to_all : t.sent ≡ s.sent ++ map (λ peer. (peer, command)) s.peers

  -- Over a disk that keeps the contract of storage, a request that was answered with yes, by a
  -- replicator whose store is the replay of its log, was applied to the store, which is again the
  -- replay of the log, and was sent to every peer in order.
  pub on_client_request-Served :
      (command : Command) (s t : NaiveReplicator S)
      → Replays s
      → on_client_request disk command s ≡ (ok true, t)
      → Served command s t
  unfolding on_client_request serve answer send_all note gets modify pure ◌>>=◌
  on_client_request-Served command s t h e =
      elim (Bool-cases (s.node_id == s.primary_id && s.running)) [
        | inr refused ↦ let told : ok false ≡ ok true = ap (λ r. r.0) (rw refused at e) in cc
        | inl ours ↦
            bind-ok_elim (write disk command) (answer disk command) s (rw ours at e)
              λ done a wrote rest. answered done a wrote rest
      ]
    where
      answered :
          (done : Bool) (a : NaiveReplicator S)
          → write disk command s ≡ (ok done, a)
          → answer disk command done a ≡ (ok true, t)
          → Served command s t
      answered false a wrote rest = let told : ok false ≡ ok true = ap (λ r. r.0) rest in cc
      answered true a wrote rest =
          bind-ok_elim (send_all disk command) (λ _. note (write_acked command) >> pure true) a rest
            λ _ b sent_all noted.
              let done = write-Written command s a h wrote in
              let sent = for_each-Sent command a.peers a b sent_all in
              let last = ap (λ r. r.1) noted in
              let storage : t.storage ≡ a.storage =
                sym (ap (λ n. n.storage) last) ∙ sent.same_storage in
              let kv : t.kv ≡ a.kv = sym (ap (λ n. n.kv) last) ∙ sent.same_kv in
              record {
                replays = record {
                  sound = rw storage done.replays.sound;
                  replayed =
                      ap (λ x. replay (written x)) storage ∙ done.replays.replayed ∙ ap ok (sym kv);
                };
                applied = kv ∙ done.applied;
                to_all =
                    sym (ap (λ n. n.sent) last)
                    ∙ sent.to_all
                    ∙ ap (λ l. l ++ map (λ peer. (peer, command)) a.peers) done.same_sent
                    ∙ ap (λ ps. s.sent ++ map (λ peer. (peer, command)) ps) done.same_peers;
              }
