-- ===== src/Rounds/Laws.antt =====
-- A round ends, sends everything, and sends nothing to a peer that should not get it.
use rounds.Base.{
  ℕ, zero, suc, ◌-◌, ◌≡◌, ◌<◌, ◌⊎◌, inl, inr, refl, sym, subst, arith, false, Bool-cases, none,
  List, [], ◌∷◌, ltb, ltb→lt, get_or,
}
use rounds.Peer.{Peer}
use rounds.Wire.{GossipMessage}
use rounds.ByePeers.{BufferByePeer}
use rounds.RoundSpeed.{BufferRs, rotation_buffer_rs}
use rounds.RoundSpeed.Fifo.{
  IsValid, queue, NoNull, NoNull-head, get_message_buffer_rs_lem, rotation_buffer_rs_lem, get-some,
  get-none,
}
use rounds.Fanout.{BufferFanout}
use rounds.Handlers.{Connection, connected, no_socket, not_connected}
use rounds.Rounds.{
  Delivery, Outcome, ended, exits, null_message, runs_out, before, withheld, func_snd_rs, snd_all,
  func_helper_rs, process_rs,
}

module _ (net : Peer → Connection) (bye : BufferByePeer) where
  -- Every delivery is to a peer that has not left and is not the one that the message names.
  pub data AllMeant : List Delivery → Type 0 where
    none_sent : AllMeant []
    one_more :
        {p : Peer} {m : GossipMessage} {ds : List Delivery}
        → withheld net bye p m ≡ false
        → AllMeant ds
        → AllMeant ((p, m) ∷ ds)

  -- The round has ended with all messages taken, or the process with the code 3 or 4.
  abbrev pub IsDone : Outcome → Type 0
  IsDone (ended b ds) = IsValid b × (queue b.snd ≡ []) × AllMeant ds
  IsDone (exits code out) = (code ≡ 3) ⊎ (code ≡ 4)
  IsDone null_message = ⊥
  IsDone runs_out = ⊥

  before-IsDone :
      (p : Peer) (m : GossipMessage) (o : Outcome)
      → withheld net bye p m ≡ false
      → IsDone o
      → IsDone (before ((p, m) ∷ []) o)
  before-IsDone p m (ended b ds) meant (valid, empty, all) = (valid, empty, one_more meant all)
  before-IsDone p m (exits code out) meant done = done
  before-IsDone p m null_message meant done = done
  before-IsDone p m runs_out meant done = done

  func_snd_rs-IsDone :
      (p : Peer) (m : GossipMessage) (o : Outcome) → IsDone o → IsDone (func_snd_rs net bye p m o)
  unfolding func_snd_rs
  func_snd_rs-IsDone p m o done = elim (Bool-cases (withheld net bye p m)) [
    | inl kept ↦ rw kept done
    | inr meant ↦ rw meant (go (net p) meant)
  ]
    where
      go :
          (c : Connection)
          → withheld net bye p m ≡ false
          → IsDone (elim c [
            | connected ↦ before ((p, m) ∷ []) o
            | no_socket ↦ exits 3 []
            | not_connected ↦ exits 4 []
          ])
      go connected meant = before-IsDone p m o meant done
      go no_socket meant = inl refl
      go not_connected meant = inr refl

  snd_all-IsDone :
      (n : ℕ) (ps : List Peer) (m : GossipMessage) (o : Outcome)
      → IsDone o
      → IsDone (snd_all net bye n ps m o)
  unfolding snd_all
  snd_all-IsDone zero ps m o done = done
  snd_all-IsDone (suc n) [] m o done = done
  snd_all-IsDone (suc n) (p ∷ ps) m o done =
      func_snd_rs-IsDone p m (snd_all net bye n ps m o) (snd_all-IsDone n ps m o done)

  func_helper_rs-IsDone :
      (fuel : ℕ) (f : BufferFanout) (b : BufferRs)
      → IsValid b
      → NoNull (queue b.snd)
      → b.snd.limit - b.snd.send < fuel
      → IsDone (func_helper_rs net bye fuel f b)
  unfolding func_helper_rs
  func_helper_rs-IsDone zero f b v full h = absurd (omega arith)
  func_helper_rs-IsDone (suc fuel) f b v full h = elim (Bool-cases (ltb b.snd.send b.snd.limit)) [
    | inr done ↦
        let (valid, same, taken) = get_message_buffer_rs_lem b v in
        rw (get-none b done) (v, rw (get-none b done) at taken, none_sent)
    | inl more ↦
        let (valid, same, taken) = get_message_buffer_rs_lem b v in
        let ((m, here), rest) =
          NoNull-head (get_or b.snd.list_msg b.snd.send none) _
            (subst NoNull (rw (get-some b more) at taken) full) in
        rw (get-some b more, here)
          (snd_all-IsDone f.limit f.nodi m _ (
            func_helper_rs-IsDone fuel f _ (rw (get-some b more) at valid) rest
              (omega (arith, ltb→lt b.snd.send b.snd.limit more))))
  ]

-- A round from a valid buffer without NULL among the messages that came in: it is not short of fuel
-- and meets no NULL. It ends with all these messages taken and the buffer valid, and each message was
-- sent to peers only that have not left and are not the one it names; or the process ends with the
-- code 3 or 4.
pub process_rs-IsDone :
    (net : Peer → Connection) (bye : BufferByePeer) (f : BufferFanout) (b : BufferRs)
    → IsValid b
    → NoNull (queue b.rcv)
    → IsDone net bye (process_rs net bye f b)
unfolding process_rs
process_rs-IsDone net bye f b v full =
    let (valid, moved, empty) = rotation_buffer_rs_lem b v in
    func_helper_rs-IsDone net bye 31 f (rotation_buffer_rs b) valid (subst NoNull (sym moved) full)
      (omega arith)
