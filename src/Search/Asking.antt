-- ===== src/Search/Asking.antt =====
-- The thread that `helper_query` of two_rounds/dispatcher_msg.c is meant to create for a neighbour that
-- has the file: it passes the query on to this neighbour, in the name of the peer that asks.
use rounds.Base.{
  ℕ, ◌≡◌, ◌≤◌, ◌<◌, refl, ◌∙◌, arith, true, false, List, [], ◌∷◌, length, take, length-take,
  take-length,
}
use rounds.Params.{id_m_partial, hash_size, raggio_query}
use rounds.Peer.{Peer}
use rounds.Wire.{GossipMessage, zero_hashes}
use rounds.MessageLog.Laws.{count_id}
use rounds.ByePeers.{search_bye_peer}
use rounds.MyFiles.{search_hashfile, hash_row}
use rounds.Handlers.{
  World, Node, Effect, sends, Reply, done, go_on, exits, connected, no_socket, not_connected,
  gossip_query_hit, func_helper_msg,
}
use rounds.Handlers.Steps.{NodeInv}
use rounds.OwnMessages.{gossip_query}
use rounds.OwnMessages.Laws.{length-get_id_message}
use rounds.Search.Found.{query-hit, take-append}

-- `struct dati_rhb`
pub record DatiRhb : Type 0 where
  pub peer : Peer
  pub s_peer : Peer
  pub hash : List ℕ

-- What `helper_query` writes into it for the neighbour `p`.
abbrev pub dati_rhb : GossipMessage → Peer → DatiRhb
dati_rhb buff p = record { peer = p; s_peer = buff.peer; hash = hash_row 0 buff.hash_file }

-- The query of `func_helper_rhb`: `msg->header.age = _RAGGIO_QUERY` and the peer that asks.
abbrev pub passed_query : World → DatiRhb → ℕ → GossipMessage
passed_query w dati count = record (gossip_query w dati.hash count).1 {
  age = raggio_query;
  peer = dati.s_peer;
}

unfoldable pub func_helper_rhb : World → DatiRhb → Node → Reply
func_helper_rhb w dati n = elim (w.net dati.peer) [
  | connected ↦
      go_on (record n { count = (gossip_query w dati.hash n.count).0 })
        (sends dati.peer (passed_query w dati n.count) ∷ [])
  | no_socket ↦ exits 3 []
  | not_connected ↦ exits 4 []
]

-- The neighbour, which has the file, has not seen the query and can reach the peer that asks.
pub record CanAnswer (dati : DatiRhb) (m : GossipMessage) (w : World) (n : Node) : Type 0 where
  pub pos : 0 < w.now
  pub valid : NodeInv w.me n
  pub new : count_id m.id n.messages ≡ 0
  pub here : search_bye_peer dati.s_peer n.bye_peers ≡ false
  pub have : search_hashfile dati.hash w.files ≡ true
  pub linked : w.net dati.s_peer ≡ connected

-- When the neighbour `q` can be reached and can answer, it gets the query and sends its answer to the
-- peer that has asked at first.
pub func_helper_rhb-answered :
    (w q : World) (dati : DatiRhb) (n nq : Node)
    → id_m_partial ≤ length w.id_msg_const
    → length dati.hash ≡ hash_size
    → w.net dati.peer ≡ connected
    → CanAnswer dati (passed_query w dati n.count) q nq
    → (n' : Node) × (m : GossipMessage) × (func_helper_rhb w dati n
        ≡ go_on n' (sends dati.peer m ∷ []))
      × (hit : GossipMessage) × (es : List Effect) × (done (func_helper_msg q m nq)
          ≡ sends dati.s_peer hit ∷ es)
unfolding func_helper_rhb gossip_query
func_helper_rhb-answered w q dati n nq partial len linked can =
    let m = passed_query w dati n.count in
    let full : take hash_size m.hash_file ≡ dati.hash =
      take-append hash_size (take hash_size dati.hash) (take hash_size zero_hashes)
        (omega (arith, length-take hash_size dati.hash))
      ∙ take-length hash_size dati.hash len in
    let (es, replied) =
      query-hit q m nq can.pos (length-get_id_message w.id_msg_const n.count partial) can.valid refl
        can.new can.here (rw full can.have) can.linked in
    (
      record n { count = (gossip_query w dati.hash n.count).0 },
      m,
      rw (func_helper_rhb, linked) refl,
      (gossip_query_hit q nq.count m.id).1,
      es,
      replied,
    )
