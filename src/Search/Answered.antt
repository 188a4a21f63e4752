-- ===== src/Search/Answered.antt =====
-- A search that has begun: its own query is not answered when it comes back, and a query hit is
-- recorded.
use rounds.Base.{
  ℕ, ◌≡◌, ◌≢◌, ◌≤◌, ◌<◌, inl, inr, refl, ◌∙◌, ap, sym, subst, length, get_or, false, true, List, [],
  ◌∷◌, arith, take, take-length, lt→ltb,
}
use rounds.Params.{id_m, id_m_partial, hash_size, max_result}
use rounds.Wire.{GossipMessage, query, query_hits}
use rounds.Wire.Compare.{dif_str_self}
use rounds.MessageLog.Laws as LogLaws
use rounds.Peer.{Peer}
use rounds.ByePeers.{search_bye_peer}
use rounds.Events.{Event, free_event, is_free}
use rounds.Events.Laws as EventLaws
use rounds.Handlers.{World, Node, go_on, func_helper_msg, helper_query_hit}
use rounds.Handlers.Steps.{NodeInv}
use rounds.Handlers.Laws.{func_helper_msg-seen}
use rounds.Search.{Console, asked, begun}
use rounds.Search.Start.{insert_event-free, length-asked, begun-NodeInv}

module _ (md5 : List ℕ → List ℕ) (w : World) (parola : List ℕ) (c : Console) (pos : 0 < w.now)
    (len : id_m_partial ≤ length w.id_msg_const) (v : NodeInv w.me c.node) where
  -- The id of the query is remembered.
  own_id :
      1 ≤ LogLaws.count_free c.node.messages
      → 1 ≤ LogLaws.count_id (asked md5 w parola c).1.id (begun md5 w parola c).node.messages
  own_id room =
      elim (LogLaws.search_insert_id_lem w.now (asked md5 w parola c).1.id pos
        (length-asked md5 w parola c len) c.node.messages v.messages) [
          | inl (r, same, held) ↦ rw same held
          | inr (inl (r, new, one, less, others)) ↦ omega arith
          | inr (inr (r, new, full, same)) ↦ absurd (omega arith)
        ]

-- From valid buffers, with an id of at least twelve constant bytes and a free slot for ids: when the
-- query of a search that has just begun comes back to the peer, it is dropped, and at most the counter
-- of the ids changes.
pub begun-own_query :
    (md5 : List ℕ → List ℕ) (w : World) (parola : List ℕ) (c : Console)
    → 0 < w.now
    → id_m_partial ≤ length w.id_msg_const
    → NodeInv w.me c.node
    → 1 ≤ LogLaws.count_free c.node.messages
    → (m : GossipMessage) → m.id ≡ (asked md5 w parola c).1.id
    → m.pay_desc ≡ query
    → let n = (begun md5 w parola c).node in
      (count : ℕ) × (func_helper_msg w m n ≡ go_on (record n { count = count }) [])
begun-own_query md5 w parola c pos len v room m same asks =
    func_helper_msg-seen w m (begun md5 w parola c).node pos
      (ap length same ∙ length-asked md5 w parola c len) (begun-NodeInv md5 w parola c pos len v)
      (inr (inr asks))
      (subst (λ id. 1 ≤ LogLaws.count_id id (begun md5 w parola c).node.messages) (sym same)
        (own_id md5 w parola c pos len v room))

dispatch_hit :
    (w : World) (m : GossipMessage) (n : Node)
    → m.pay_desc ≡ query_hits
    → func_helper_msg w m n ≡ helper_query_hit w m n
unfolding func_helper_msg
dispatch_hit w m n e = ground arith

-- A query hit of a peer that has not left, for the id of the one event.
pub query_hit-recorded :
    (w : World) (m : GossipMessage) (n : Node) (e : Event)
    → n.events ≡ e ∷ []
    → EventLaws.IsValid e
    → e.limit < max_result
    → m.pay_desc ≡ query_hits
    → take hash_size m.hash_file ≡ e.id
    → search_bye_peer m.peer n.bye_peers ≡ false
    → (n' : Node) × (func_helper_msg w m n ≡ go_on n' [])
      × (EventLaws.answers m.peer (get_or n'.events 0 free_event) ≡ 1)
      × ((q : Peer)
          → q ≢ m.peer
          → EventLaws.answers q (get_or n'.events 0 free_event) ≡ EventLaws.answers q e)
unfolding helper_query_hit
query_hit-recorded w m n e one v room hit same here =
    let (e', found, valid, own, others) = EventLaws.record_hit_lem m.peer e.id e v in
    (
      record n { events = e' ∷ [] },
      dispatch_hit w m n hit ∙ rw (here, same, one, found) refl,
      own ∙ rw (lt→ltb e.limit max_result room, dif_str_self e.id id_m) refl,
      others,
    )

-- The event of a search that has begun.
pub begun-events :
    (md5 : List ℕ → List ℕ) (w : World) (parola : List ℕ) (c : Console) (e : Event)
    → id_m_partial ≤ length w.id_msg_const
    → c.node.events ≡ e ∷ []
    → is_free e ≡ true
    → (begun md5 w parola c).node.events
      ≡ record e { id = (asked md5 w parola c).1.id; age_time = w.now } ∷ []
begun-events md5 w parola c e len one free =
    let id = (asked md5 w parola c).1.id in
    rw
      (
        one,
        insert_event-free w.now id e free,
        take-length id_m id (length-asked md5 w parola c len),
      )
      refl

-- With an event that is free and has room for an answer: when a peer that has not left answers a
-- search that has just begun with a query hit of its id, the peer is among the answers of the event
-- exactly once, every other peer is so as before, and nothing is sent.
pub begun-query_hit :
    (md5 : List ℕ → List ℕ) (w : World) (parola : List ℕ) (c : Console) (e : Event)
    → id_m_partial ≤ length w.id_msg_const
    → c.node.events ≡ e ∷ []
    → is_free e ≡ true
    → EventLaws.IsValid e
    → e.limit < max_result
    → (m : GossipMessage) → m.pay_desc ≡ query_hits
    → take hash_size m.hash_file ≡ (asked md5 w parola c).1.id
    → search_bye_peer m.peer c.node.bye_peers ≡ false
    → (n' : Node) × (func_helper_msg w m (begun md5 w parola c).node ≡ go_on n' [])
      × (EventLaws.answers m.peer (get_or n'.events 0 free_event) ≡ 1)
      × ((q : Peer)
          → q ≢ m.peer
          → EventLaws.answers q (get_or n'.events 0 free_event) ≡ EventLaws.answers q e)
begun-query_hit md5 w parola c e len one free v room m hit same here =
    query_hit-recorded w m (begun md5 w parola c).node
      (record e { id = (asked md5 w parola c).1.id; age_time = w.now })
      (begun-events md5 w parola c e len one free)
      (record { size = v.size; bounded = v.bounded; distinct = v.distinct }) room hit same here
