-- ===== src/Rounds/Flood.antt =====
-- What a round of the round speed sends, message by message and peer by peer.
use rounds.Base.{
  ℕ, zero, suc, ◌+◌, ◌-◌, true, false, ◌≡◌, ◌<◌, refl, ◌∙◌, ap, sym, subst, arith, Bool-cases, inl,
  inr, Option, none, some, List, [], ◌∷◌, ◌++◌, if◌then◌else◌, ltb, ltb→lt, get_or, take,
}
use mathlib.Core.List.{Memᴰ}
use mathlib.Core.List.Memᴰ
use rounds.Peer.{Peer}
use rounds.Wire.{GossipMessage}
use rounds.ByePeers.{BufferByePeer}
use rounds.RoundSpeed.{BufferRs, rotation_buffer_rs}
use rounds.RoundSpeed.Fifo.{
  IsValid, IsReady, queue, NoNull, NoNull-head, get_message_buffer_rs_lem, rotation_buffer_rs_lem,
  get-some, get-none,
}
use rounds.Fanout.{BufferFanout}
use rounds.Handlers.{Connection, connected}
use rounds.Rounds.{Delivery, ended, withheld, func_snd_rs, snd_all, func_helper_rs, process_rs}
use rounds.Rounds.Ready.{LeavesReady, process_rs-LeavesReady}

module _ (net : Peer → Connection) (bye : BufferByePeer) where
  -- A message goes to every peer but those that have left and the one that it names.
  pub meant : List Peer → GossipMessage → List Delivery
  meant [] m = []
  meant (p ∷ ps) m = let rest = meant ps m in if withheld net bye p m then rest else (p, m) ∷ rest

  -- Each message goes to the peers, in order.
  pub flood : List Peer → List (Option GossipMessage) → List Delivery
  flood ps [] = []
  flood ps (none ∷ ms) = flood ps ms
  flood ps (some m ∷ ms) = meant ps m ++ flood ps ms

  meant-Memᴰ :
      (ps : List Peer) (p : Peer) (m : GossipMessage)
      → Memᴰ p ps
      → withheld net bye p m ≡ false
      → Memᴰ (p, m) (meant ps m)
  unfolding meant
  meant-Memᴰ [] p m h sent = absurd (Memᴰ.not-nil h)
  meant-Memᴰ (q ∷ ps) p m (Memᴰ.head e) sent =
      rw (subst (λ r. withheld net bye r m ≡ false) e sent) (Memᴰ.head (ap (λ r. (r, m)) e))
  meant-Memᴰ (q ∷ ps) p m (Memᴰ.tail h) sent = elim (Bool-cases (withheld net bye q m)) [
    | inl kept ↦ rw kept (meant-Memᴰ ps p m h sent)
    | inr also_sent ↦ rw also_sent (Memᴰ.tail (meant-Memᴰ ps p m h sent))
  ]

  -- A message behind the others, and a peer that is to get it.
  pub flood-Memᴰ :
      (ps : List Peer) (ms : List (Option GossipMessage)) (p : Peer) (m : GossipMessage)
      → Memᴰ p ps
      → withheld net bye p m ≡ false
      → Memᴰ (p, m) (flood ps (ms ++ (some m ∷ [])))
  unfolding flood
  flood-Memᴰ ps [] p m h sent = Memᴰ.append_left [] (meant-Memᴰ ps p m h sent)
  flood-Memᴰ ps (none ∷ ms) p m h sent = flood-Memᴰ ps ms p m h sent
  flood-Memᴰ ps (some k ∷ ms) p m h sent =
      Memᴰ.append_right (meant ps k) (flood-Memᴰ ps ms p m h sent)

  module _ (reachable : (p : Peer) → net p ≡ connected) where
    snd_all_lem :
        (n : ℕ) (ps : List Peer) (m : GossipMessage) (b : BufferRs) (ds : List Delivery)
        → snd_all net bye n ps m (ended b ds) ≡ ended b (meant (take n ps) m ++ ds)
    unfolding snd_all func_snd_rs meant
    snd_all_lem zero ps m b ds = refl
    snd_all_lem (suc n) [] m b ds = refl
    snd_all_lem (suc n) (p ∷ ps) m b ds = elim (Bool-cases (withheld net bye p m)) [
      | inl kept ↦ rw kept (snd_all_lem n ps m b ds)
      | inr sent ↦ rw (sent, reachable p, snd_all_lem n ps m b ds) refl
    ]

    -- The next message is `m`, and what the rest of the round comes to is known.
    func_helper_rs-next :
        (fuel : ℕ) (f : BufferFanout) (b : BufferRs) (m : GossipMessage) (b' : BufferRs)
        (ds : List Delivery)
        → ltb b.snd.send b.snd.limit ≡ true
        → get_or b.snd.list_msg b.snd.send none ≡ some m
        → func_helper_rs net bye fuel f (record b { snd = record b.snd { send = b.snd.send + 1 } })
          ≡ ended b' ds
        → func_helper_rs net bye (suc fuel) f b ≡ ended b' (meant (take f.limit f.nodi) m ++ ds)
    unfolding func_helper_rs
    func_helper_rs-next fuel f b m b' ds more here e =
        rw (get-some b more, here, e) (snd_all_lem f.limit f.nodi m b' ds)

    func_helper_rs_lem :
        (fuel : ℕ) (f : BufferFanout) (b : BufferRs)
        → IsValid b
        → NoNull (queue b.snd)
        → b.snd.limit - b.snd.send < fuel
        → (b' : BufferRs) × (func_helper_rs net bye fuel f b
            ≡ ended b' (flood (take f.limit f.nodi) (queue b.snd)))
          × (b'.rcv ≡ b.rcv)
          × (queue b'.snd ≡ [])
    unfolding func_helper_rs flood
    func_helper_rs_lem zero f b v full h = absurd (omega arith)
    func_helper_rs_lem (suc fuel) f b v full h = elim (Bool-cases (ltb b.snd.send b.snd.limit)) [
      | inr done ↦
          let (valid, same, taken) = get_message_buffer_rs_lem b v in
          let empty : queue b.snd ≡ [] = rw (get-none b done) at taken in
          (b, rw (get-none b done, empty) refl, refl, empty)
      | inl more ↦
          let (valid, same, taken) = get_message_buffer_rs_lem b v in
          let next : BufferRs = record b { snd = record b.snd { send = b.snd.send + 1 } } in
          let split : queue b.snd ≡ get_or b.snd.list_msg b.snd.send none ∷ queue next.snd =
            rw (get-some b more) at taken in
          let ((m, here), rest) =
            NoNull-head (get_or b.snd.list_msg b.snd.send none) _ (subst NoNull split full) in
          let (b', e, kept, empty) =
            func_helper_rs_lem fuel f next (rw (get-some b more) at valid) rest
              (omega (arith, ltb→lt b.snd.send b.snd.limit more)) in
          (
            b',
            func_helper_rs-next fuel f b m b' (flood (take f.limit f.nodi) (queue next.snd)) more
                  here e
                ∙ ap (λ ms. ended b' (flood (take f.limit f.nodi) ms))
                    (sym (split ∙ ap (λ x. x ∷ queue next.snd) here)),
            kept,
            empty,
          )
    ]

-- From a buffer that is ready, where every peer can be reached: a round sends each message that came
-- in since the round before to each peer of the fanout but those that have left and the one that it
-- names, in order, and nothing else. Behind it no message is left to send, and the buffer is ready.
pub process_rs_lem :
    (net : Peer → Connection) (bye : BufferByePeer) (f : BufferFanout) (b : BufferRs)
    → ((p : Peer) → net p ≡ connected)
    → IsReady b
    → (b' : BufferRs) × (process_rs net bye f b
        ≡ ended b' (flood net bye (take f.limit f.nodi) (queue b.rcv)))
      × IsReady b'
      × (queue b'.rcv ≡ [])
      × (queue b'.snd ≡ [])
unfolding process_rs
process_rs_lem net bye f b reachable v =
    let (valid, moved, none_in) = rotation_buffer_rs_lem b v.valid in
    let (b', e, kept, none_out) =
      func_helper_rs_lem net bye reachable 31 f (rotation_buffer_rs b) valid
        (subst NoNull (sym moved) v.full) (omega arith) in
    let same : process_rs net bye f b
        ≡ ended b' (flood net bye (take f.limit f.nodi) (queue b.rcv)) =
      e ∙ ap (λ ms. ended b' (flood net bye (take f.limit f.nodi) ms)) moved in
    (
      b',
      same,
      subst LeavesReady same (process_rs-LeavesReady net bye f b v),
      rw kept none_in,
      none_out,
    )
