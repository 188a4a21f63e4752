-- ===== src/Rounds/Ready.antt =====
-- A round of the round speed leaves the buffer ready for the next one.
use rounds.Base.{
  ℕ, zero, suc, ◌+◌, ◌≡◌, ◌⊎◌, inl, inr, refl, Bool-cases, Option, none, some, List, [], ◌∷◌, ltb,
  get_or,
}
use rounds.Peer.{Peer}
use rounds.Wire.{GossipMessage}
use rounds.ByePeers.{BufferByePeer}
use rounds.RoundSpeed.{ListMsg, BufferRs, rotation_buffer_rs}
use rounds.RoundSpeed.Fifo.{IsReady, nil, rotation_buffer_rs_lem, get-some, get-none}
use rounds.Fanout.{BufferFanout}
use rounds.Handlers.{Connection, connected, no_socket, not_connected}
use rounds.Rounds.{
  Delivery, Outcome, ended, exits, null_message, runs_out, before, withheld, func_snd_rs, snd_all,
  snd_message, func_helper_rs, process_rs,
}
use rounds.Rounds.Laws.{IsDone, process_rs-IsDone}

-- A round leaves the messages alone that come in meanwhile.
module _ (net : Peer → Connection) (bye : BufferByePeer) (rcv : ListMsg) where
  abbrev Keeps : Outcome → Type 0
  Keeps (ended b ds) = b.rcv ≡ rcv
  Keeps other = Unit {0}

  before-Keeps : (ds : List Delivery) (o : Outcome) → Keeps o → Keeps (before ds o)
  before-Keeps ds (ended b rest) h = h
  before-Keeps ds (exits code out) h = tt
  before-Keeps ds null_message h = tt
  before-Keeps ds runs_out h = tt

  snd_all-Keeps :
      (n : ℕ) (ps : List Peer) (m : GossipMessage) (o : Outcome)
      → Keeps o
      → Keeps (snd_all net bye n ps m o)
  unfolding snd_all func_snd_rs
  snd_all-Keeps zero ps m o h = h
  snd_all-Keeps (suc n) [] m o h = h
  snd_all-Keeps (suc n) (p ∷ ps) m o h = elim (Bool-cases (withheld net bye p m)) [
    | inl kept ↦ rw kept (snd_all-Keeps n ps m o h)
    | inr meant ↦ rw meant (go (snd_all-Keeps n ps m o h) (net p))
  ]
    where
      go :
          Keeps (snd_all net bye n ps m o)
          → (c : Connection)
          → Keeps (elim c [
            | connected ↦ before ((p, m) ∷ []) (snd_all net bye n ps m o)
            | no_socket ↦ exits 3 []
            | not_connected ↦ exits 4 []
          ])
      go rest connected = before-Keeps ((p, m) ∷ []) (snd_all net bye n ps m o) rest
      go rest no_socket = tt
      go rest not_connected = tt

  func_helper_rs-Keeps :
      (fuel : ℕ) (f : BufferFanout) (b : BufferRs)
      → b.rcv ≡ rcv
      → Keeps (func_helper_rs net bye fuel f b)
  unfolding func_helper_rs
  func_helper_rs-Keeps zero f b h = tt
  func_helper_rs-Keeps (suc fuel) f b h = elim (Bool-cases (ltb b.snd.send b.snd.limit)) [
    | inr done ↦ rw (get-none b done) h
    | inl more ↦ rw (get-some b more) (
        go (get_or b.snd.list_msg b.snd.send none) _ (
          func_helper_rs-Keeps fuel f (record b { snd = record b.snd { send = b.snd.send + 1 } })
            h))
  ]
    where
      go : (x : Option GossipMessage) (o : Outcome) → Keeps o → Keeps (snd_message net bye f x o)
      go none o h = tt
      go (some m) o h = snd_all-Keeps f.limit f.nodi m o h

-- The buffer is ready for the next round.
abbrev pub LeavesReady : Outcome → Type 0
LeavesReady (ended b ds) = IsReady b
LeavesReady (exits code out) = (code ≡ 3) ⊎ (code ≡ 4)
LeavesReady null_message = ⊥
LeavesReady runs_out = ⊥

pub process_rs-LeavesReady :
    (net : Peer → Connection) (bye : BufferByePeer) (f : BufferFanout) (b : BufferRs)
    → IsReady b
    → LeavesReady (process_rs net bye f b)
process_rs-LeavesReady net bye f b v =
    go (process_rs net bye f b) (process_rs-IsDone net bye f b v.valid v.full) (
      unfold process_rs in
      func_helper_rs-Keeps net bye (rotation_buffer_rs b).rcv 31 f (rotation_buffer_rs b) refl)
  where
    go :
        (o : Outcome)
        → IsDone net bye o
        → Keeps net bye (rotation_buffer_rs b).rcv o
        → LeavesReady o
    go (ended b' ds) (valid', _, _) kept = record {
      valid = valid';
      full = rw kept (rw (rotation_buffer_rs_lem b v.valid).2 nil);
    }
    go (exits code out) done kept = done
    go null_message done kept = done
    go runs_out done kept = done
