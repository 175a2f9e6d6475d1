-- ===== src/Tests/Nets.antt =====
-- Runs of the network: two nodes, one of which hangs.
use ground_hog.Prelude.{ℕ, ◌≡◌, refl, [], ◌∷◌, false}
use ground_hog.Prelude.Dict.{nat_eq}
use ground_hog.Prelude.Outcome.{ok}
use ground_hog.Prelude.Exec.{◌>>=◌, pure, gets, modify, raise}
use ground_hog.Clock.{SimClock}
use ground_hog.Queue.{empty_queue}
use ground_hog.Disk.{Draws}
use ground_hog.Types.{NodeId}
use ground_hog.Net.{
  SimNetwork, Packet, running, hung, crashed, new_network, default_faults, arrive, arrive_unless,
  arrive_at, set_state, after_change,
}
use ground_hog.Net.Arrivals.{Arrived, Crashed, arrive-Arrived, set_state-Crashed}
use ground_hog.Net.Waking.{Woken, set_state-Woken}

-- The source of randomness always answers with its lower bound, and never loses a packet.
abbrev lowest : Draws (Unit {0})
lowest = record { between = λ low high r. (ok low, r); chance = λ percent r. (ok false, r) }

abbrev arrival : NodeId → NodeId → ℕ → Packet ℕ
arrival frm to msg = record { frm = frm; to = to; msg = msg }

abbrev idle_clock : SimClock (Packet ℕ)
idle_clock = record { now = 3; queue = empty_queue }

-- Node 2 hangs, and a packet waits for it.
abbrev network : SimNetwork (Packet ℕ) ℕ (Unit {0})
network = record (new_network tt idle_clock default_faults) {
  inboxes = (1, tt) ∷ (2, tt) ∷ [];
  states = (1, running) ∷ (2, hung) ∷ [];
  held = (1, []) ∷ (2, (1, 7) ∷ []) ∷ [];
}

abbrev arrived : SimNetwork (Packet ℕ) ℕ (Unit {0})
arrived = (arrive 2 1 8 network).1

arrives : arrive 2 1 8 network ≡ (ok tt, arrived)
unfolding arrive arrive_unless arrive_at pure gets modify raise ◌>>=◌
arrives = refl

arrive-Arrived_example : Arrived 2 1 network arrived
arrive-Arrived_example = arrive-Arrived 2 1 8 network arrived arrives

abbrev after_crash : SimNetwork (Packet ℕ) ℕ (Unit {0})
after_crash = (set_state lowest arrival 2 crashed network).1

crashes : set_state lowest arrival 2 crashed network ≡ (ok tt, after_crash)
unfolding set_state after_change pure gets modify raise ◌>>=◌
crashes = refl

set_state-Crashed_example : Crashed lowest arrival 2 network after_crash
set_state-Crashed_example = set_state-Crashed lowest arrival 2 network after_crash crashes

set_state-Woken_example :
    (t : SimNetwork (Packet ℕ) ℕ (Unit {0})) × (set_state lowest arrival 2 running network
      ≡ (ok tt, t))
    × Woken lowest arrival 2 ((1, 7) ∷ []) network t
set_state-Woken_example = set_state-Woken lowest arrival 2 ((1, 7) ∷ []) network refl refl
