-- ===== src/Search/Found.antt =====
-- A search from its beginning to its answer: the peer that asks queues its query, the next round of the
-- round speed sends it, a peer that has the file answers, and the answer is recorded.
use rounds.Base.{
  ℕ, zero, suc, ◌≡◌, ◌≤◌, ◌<◌, refl, ◌∙◌, ap, subst, arith, true, false, List, [], ◌∷◌, ◌++◌,
  length, take, take-length, some, get_or, lt→ltb, length-take, Bool-cases, inl, inr, ◌||◌,
}
use mathlib.Core.List.{Memᴰ}
use rounds.Params.{id_m, id_m_partial, hash_size, max_result, max_rs}
use rounds.Peer.{Peer, same_peer}
use rounds.Wire.{GossipMessage, zero_hashes, query}
use rounds.MessageLog.{search_insert_id}
use rounds.MessageLog.Laws as LogLaws
use rounds.ByePeers.{search_bye_peer}
use rounds.RoundSpeed.{BufferRs}
use rounds.RoundSpeed.Fifo
use rounds.Events.{Event, free_event, is_free}
use rounds.Events.Laws as EventLaws
use rounds.MyFiles.{search_hashfile}
use rounds.Fanout.{BufferFanout}
use rounds.Handlers.{
  World, Node, Effect, sends, go_on, connected, done, is_none_asked, ask_and_forward, answer_query,
  ask_neighbours, helper_query, func_helper_msg, gossip_query_hit,
}
use rounds.Handlers.Steps.{NodeInv}
use rounds.Handlers.Laws.{fresh, dispatch_query}
use rounds.OwnMessages.{gossip_query}
use rounds.Rounds.{Delivery, ended, process_rs}
use rounds.Rounds.Flood.{flood, flood-Memᴰ, process_rs_lem}
use rounds.Search.{Console, asked, begun, count_word, max_stdin}
use rounds.Search.Start.{length-asked, begun-NodeInv}
use rounds.Search.Answered.{begun-events, query_hit-recorded}

pub take-append : (n : ℕ) (xs ys : List ℕ) → length xs ≡ n → take n (xs ++ ys) ≡ xs
take-append zero [] ys h = refl
take-append zero (x ∷ xs) ys h = absurd (omega arith)
take-append (suc n) [] ys h = absurd (omega arith)
take-append (suc n) (x ∷ xs) ys h = ap (λ t. x ∷ t) (take-append n xs ys (omega arith))

-- A peer that has the file answers a query that it has not seen: its answer names it and the id of the
-- query, and comes before all else that it does.
module _ (w : World) (m : GossipMessage) where
  ask_and_forward-done :
      (n : Node) (e : Effect)
      → (es : List Effect) × (done (ask_and_forward w m n (e ∷ [])) ≡ e ∷ es)
  unfolding ask_and_forward
  ask_and_forward-done n e = (
    ask_neighbours m n,
    elim (Bool-cases (is_none_asked (ask_neighbours m n) || w.exit_hinf)) [
      | inl on ↦ rw on refl
      | inr fails ↦ rw fails refl
    ],
  )

  answer_query-hit :
      (n : Node)
      → search_hashfile (take hash_size m.hash_file) w.files ≡ true
      → w.net m.peer ≡ connected
      → (es : List Effect) × (done (answer_query w m n)
          ≡ sends m.peer (gossip_query_hit w n.count m.id).1 ∷ es)
  unfolding answer_query
  answer_query-hit n have linked =
      let (count', hit) = gossip_query_hit w n.count m.id in
      let (es, e) = ask_and_forward-done (record n { count = count' }) (sends m.peer hit) in
      (es, rw (have, linked) e)

  pub query-hit :
      (n : Node)
      → 0 < w.now
      → length m.id ≡ id_m
      → NodeInv w.me n
      → m.pay_desc ≡ query
      → LogLaws.count_id m.id n.messages ≡ 0
      → search_bye_peer m.peer n.bye_peers ≡ false
      → search_hashfile (take hash_size m.hash_file) w.files ≡ true
      → w.net m.peer ≡ connected
      → (es : List Effect) × (done (func_helper_msg w m n)
          ≡ sends m.peer (gossip_query_hit w n.count m.id).1 ∷ es)
  unfolding helper_query
  query-hit n pos len v asks new here have linked =
      let logged : Node = record n { messages = (search_insert_id w.now m.id n.messages).0 } in
      let (es, e) = answer_query-hit logged have linked in
      (es, ap done (dispatch_query w m n asks) ∙ rw (fresh w m n pos len v new, here) e)

-- The peer that asks: its buffers are valid, there is room for a message and for an answer, and the
-- peer `p` of its fanout has not left and is another.
pub record CanAsk (w : World) (c : Console) (e : Event) (f : BufferFanout) (p : Peer) : Type 0 where
  pub pos : 0 < w.now
  pub partial : id_m_partial ≤ length w.id_msg_const
  pub valid : NodeInv w.me c.node
  pub room : c.node.rs.rcv.limit < max_rs
  pub one : c.node.events ≡ e ∷ []
  pub free : is_free e ≡ true
  pub answers : e.limit < max_result
  pub linked : (q : Peer) → w.net q ≡ connected
  pub knows : Memᴰ p (take f.limit f.nodi)
  pub here : search_bye_peer p c.node.bye_peers ≡ false
  pub other : same_peer p w.me ≡ false

-- The peer that answers: it has not seen the query `m`, whose sender has not left, and has the file.
pub record CanAnswer (w : World) (n : Node) (m : GossipMessage) (hash : List ℕ) : Type 0 where
  pub pos : 0 < w.now
  pub valid : NodeInv w.me n
  pub new : LogLaws.count_id m.id n.messages ≡ 0
  pub here : search_bye_peer m.peer n.bye_peers ≡ false
  pub have : search_hashfile hash w.files ≡ true
  pub linked : w.net m.peer ≡ connected

module _ (md5 : List ℕ → List ℕ) (w : World) (parola : List ℕ) (c : Console) (e : Event)
    (f : BufferFanout) (p : Peer) (ask : CanAsk w c e f p) where
  -- The round behind the beginning of the search sends the query to `p`.
  query-sent :
      let n = (begun md5 w parola c).node in
      (b : BufferRs) × (ds : List Delivery) × (process_rs w.net n.bye_peers f n.rs ≡ ended b ds)
      × Memᴰ (p, (asked md5 w parola c).1) ds
  unfolding gossip_query
  query-sent =
      let n = (begun md5 w parola c).node in
      let m = (asked md5 w parola c).1 in
      let v = begun-NodeInv md5 w parola c ask.pos ask.partial ask.valid in
      let queued : Fifo.queue n.rs.rcv ≡ Fifo.queue c.node.rs.rcv ++ (some m ∷ []) =
        (Fifo.insert_mymessage_rs_lem m c.node.rs ask.valid.rs.valid).2
        ∙ rw (lt→ltb c.node.rs.rcv.limit max_rs ask.room) refl in
      let (b, sent, _, _, _) = process_rs_lem w.net n.bye_peers f n.rs ask.linked v.rs in
      (
        b,
        flood w.net n.bye_peers (take f.limit f.nodi) (Fifo.queue n.rs.rcv),
        sent,
        rw queued (
            flood-Memᴰ w.net n.bye_peers (take f.limit f.nodi) (Fifo.queue c.node.rs.rcv) p m
              ask.knows (rw (ask.here, ask.other) refl)),
      )

-- A search that finds its file. The peer that asks begins the search; its next round of the round speed
-- sends the query to every peer of its fanout, and so to `p`. With a hash of 16 bytes, `p` has the file
-- and answers with a query hit, before all else that it does; and the peer that asked, at any later
-- time, enters `p` among the answers of the search exactly once.
pub begun-found :
    (md5 : List ℕ → List ℕ) (asking answering later : World) (parola : List ℕ) (c : Console)
    (e : Event) (f : BufferFanout) (n : Node)
    → let m = (asked md5 asking parola c).1 in
      let hash = md5 (take (count_word max_stdin parola) parola) in
      CanAsk asking c e f answering.me
      → length hash ≡ hash_size
      → CanAnswer answering n m hash
      → let begins = (begun md5 asking parola c).node in
        (b : BufferRs) × (ds : List Delivery) × (process_rs asking.net begins.bye_peers f begins.rs
          ≡ ended b ds)
        × Memᴰ (answering.me, m) ds
        × (hit : GossipMessage) × (es : List Effect) × (done (func_helper_msg answering m n)
            ≡ sends asking.me hit ∷ es)
        × (found : Node) × (func_helper_msg later hit (record begins { rs = b }) ≡ go_on found [])
        × (EventLaws.answers answering.me (get_or found.events 0 free_event) ≡ 1)
unfolding gossip_query
begun-found md5 asking answering later parola c e f n ask len answer =
    let m = (asked md5 asking parola c).1 in
    let hash = md5 (take (count_word max_stdin parola) parola) in
    let id_len = length-asked md5 asking parola c ask.partial in
    let start = (begun md5 asking parola c).node in
    let (b, ds, sent, among) = query-sent md5 asking parola c e f answering.me ask in
    let full : take hash_size m.hash_file ≡ hash =
      take-append hash_size (take hash_size hash) (take hash_size zero_hashes)
        (omega (arith, length-take hash_size hash))
      ∙ take-length hash_size hash len in
    let (es, replied) =
      query-hit answering m n answer.pos id_len answer.valid refl answer.new answer.here
        (rw full answer.have) answer.linked in
    let hit = (gossip_query_hit answering n.count m.id).1 in
    let v : EventLaws.IsValid e =
      subst (λ es'. EventLaws.IsValid (get_or es' 0 free_event)) ask.one ask.valid.event in
    let (found, recorded, own, others) =
      query_hit-recorded later hit (record start { rs = b })
        (record e { id = m.id; age_time = asking.now })
        (begun-events md5 asking parola c e ask.partial ask.one ask.free)
        (record { size = v.size; bounded = v.bounded; distinct = v.distinct }) ask.answers refl
        (take-append hash_size (take hash_size m.id) (take hash_size zero_hashes)
            (omega (arith, length-take hash_size m.id, id_len))
          ∙ take-length hash_size m.id id_len)
        ask.here in
    (b, ds, sent, among, hit, es, replied, found, recorded, own)
