-- ===== src/Handlers/Laws.antt =====
-- What a peer does with a message that it has seen, and with the bye of a peer.
use rounds.Base.{
  ℕ, ◌≡◌, ◌≤◌, ◌<◌, ◌⊎◌, inl, inr, refl, ◌∙◌, arith, true, false, some, [], ◌∷◌, ◌++◌, length, ltb,
  ◌&&◌, if◌then◌else◌, Bool-cases,
}
use rounds.Params.{max_age, max_rs, id_m}
use rounds.Wire.{GossipMessage, next_char, char_below, boot_ping2, bye, query}
use rounds.Neighbour.{search_peer}
use rounds.Neighbour.Removal.{left-search_peer}
use rounds.MessageLog.{search_insert_id}
use rounds.MessageLog.Laws.{count_id, search_insert_id_lem}
use rounds.Ident.{get_id_message}
use rounds.RoundSpeed.Fifo
use rounds.RoundSpeed.Fifo.{queue, insert_message_rs_eq, insert_mymessage_rs_lem}
use rounds.Handlers.{
  World, Node, go_on, forward, helper_ping, helper_bye, helper_query, leave, func_helper_msg,
}
use rounds.Handlers.Steps.{NodeInv}

module _ (w : World) (m : GossipMessage) (n : Node) (pos : 0 < w.now) (len : length m.id ≡ id_m)
    (v : NodeInv w.me n) where
  -- An id that is remembered is found, and the log stays.
  seen : 1 ≤ count_id m.id n.messages → search_insert_id w.now m.id n.messages ≡ (n.messages, true)
  seen h = elim (search_insert_id_lem w.now m.id pos len n.messages v.messages) [
    | inl (r, b, held) ↦ λ i. (b i, r i)
    | inr (inl (r, new, one, room, others)) ↦ absurd (omega arith)
    | inr (inr (r, new, room, same)) ↦ absurd (omega arith)
  ]

  pub fresh : count_id m.id n.messages ≡ 0 → (search_insert_id w.now m.id n.messages).1 ≡ false
  fresh h = elim (search_insert_id_lem w.now m.id pos len n.messages v.messages) [
    | inl (r, b, held) ↦ absurd (omega arith)
    | inr (inl (r, new, one, room, others)) ↦ r
    | inr (inr (r, new, room, same)) ↦ r
  ]

  ping_again :
      1 ≤ count_id m.id n.messages
      → (c : ℕ) × (helper_ping w m n ≡ go_on (record n { count = c }) [])
  unfolding helper_ping
  ping_again h = ((get_id_message w.id_msg_const n.count).0, rw (seen h) refl)

  bye_again : 1 ≤ count_id m.id n.messages → helper_bye w m n ≡ go_on n []
  unfolding helper_bye
  bye_again h = rw (seen h) refl

  query_again : 1 ≤ count_id m.id n.messages → helper_query w m n ≡ go_on n []
  unfolding helper_query
  query_again h = rw (seen h) refl

module _ (w : World) (m : GossipMessage) (n : Node) where
  pub dispatch_ping : m.pay_desc ≡ boot_ping2 → func_helper_msg w m n ≡ helper_ping w m n
  unfolding func_helper_msg
  dispatch_ping e = ground arith

  pub dispatch_bye : m.pay_desc ≡ bye → func_helper_msg w m n ≡ helper_bye w m n
  unfolding func_helper_msg
  dispatch_bye e = ground arith

  pub dispatch_query : m.pay_desc ≡ query → func_helper_msg w m n ≡ helper_query w m n
  unfolding func_helper_msg
  dispatch_query e = ground arith

-- With valid buffers, an id of 16 bytes and the clock past 0: a ping, a bye or a query whose id
-- is remembered is dropped. Nothing is sent, and of all that the peer keeps at most the counter
-- of its own ids has changed.
pub func_helper_msg-seen :
    (w : World) (m : GossipMessage) (n : Node)
    → 0 < w.now
    → length m.id ≡ id_m
    → NodeInv w.me n
    → (m.pay_desc ≡ boot_ping2) ⊎ (m.pay_desc ≡ bye) ⊎ (m.pay_desc ≡ query)
    → 1 ≤ count_id m.id n.messages
    → (c : ℕ) × (func_helper_msg w m n ≡ go_on (record n { count = c }) [])
func_helper_msg-seen w m n pos len v (inl e) h =
    let (c, same) = ping_again w m n pos len v h in (c, dispatch_ping w m n e ∙ same)
func_helper_msg-seen w m n pos len v (inr (inl e)) h =
    (n.count, dispatch_bye w m n e ∙ bye_again w m n pos len v h)
func_helper_msg-seen w m n pos len v (inr (inr e)) h =
    (n.count, dispatch_query w m n e ∙ query_again w m n pos len v h)

forward-neighbours :
    (bound : ℕ) (m : GossipMessage) (n : Node) → (forward bound m n).neighbours ≡ n.neighbours
unfolding forward
forward-neighbours bound m n = elim (Bool-cases (char_below m.age bound)) [
  | inl young ↦ rw young refl
  | inr old ↦ rw old refl
]

forward-queue :
    (bound : ℕ) (m : GossipMessage) (n : Node)
    → Fifo.IsValid n.rs
    → queue (forward bound m n).rs.rcv ≡ (
        if char_below m.age bound && ltb n.rs.rcv.limit max_rs
        then queue n.rs.rcv ++ (some (record m { age = next_char m.age }) ∷ [])
        else queue n.rs.rcv)
unfolding forward
forward-queue bound m n v = elim (Bool-cases (char_below m.age bound)) [
  | inl young ↦
      let (valid, same, queued) =
        insert_mymessage_rs_lem (record m { age = next_char m.age }) n.rs v in
      rw (young, insert_message_rs_eq m n.rs) queued
  | inr old ↦ rw old refl
]

-- With valid buffers, an id of 16 bytes that is not remembered and the clock past 0: `helper_bye`
-- ends, sends nothing, and a search does not find the sender among the neighbours any more. The
-- message itself goes behind the ones to send on in the next round, one older, when its age is
-- below 7 and there is room, and otherwise that queue stays.
pub helper_bye_lem :
    (w : World) (m : GossipMessage) (n : Node)
    → 0 < w.now
    → length m.id ≡ id_m
    → NodeInv w.me n
    → count_id m.id n.messages ≡ 0
    → (n' : Node) × (helper_bye w m n ≡ go_on n' [])
      × (search_peer n'.neighbours m.peer ≡ false)
      × (queue n'.rs.rcv ≡ (
          if char_below m.age max_age && ltb n.rs.rcv.limit max_rs
          then queue n.rs.rcv ++ (some (record m { age = next_char m.age }) ∷ [])
          else queue n.rs.rcv))
unfolding helper_bye leave
helper_bye_lem w m n pos len v new =
    let logged : Node = record n { messages = (search_insert_id w.now m.id n.messages).0 } in
    (
      forward max_age m (leave w m logged),
      rw (fresh w m n pos len v new) refl,
      rw (forward-neighbours max_age m (leave w m logged))
          (left-search_peer w.me m.peer n.neighbours v.neighbours),
      forward-queue max_age m (leave w m logged) v.rs.valid,
    )
