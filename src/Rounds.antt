-- ===== src/Rounds.antt =====
-- The round speed of two_rounds/process_RG_RS.c: the messages that came in since the last round go to
-- the peers of the fanout. The threads of a round take the messages one by one, each starts a
-- thread for each peer of the fanout, and these are not joined; here one thread takes all messages, in
-- their order, and sends each before it takes the next.
pub mod Laws
pub mod Ready
pub mod Flood
use rounds.Base.{
  ℕ, zero, suc, Bool, true, false, ◌||◌, Option, none, some, List, [], ◌∷◌, ◌++◌, if◌then◌else◌,
  get_or,
}
use rounds.Peer.{Peer, same_peer}
use rounds.Wire.{GossipMessage}
use rounds.ByePeers.{BufferByePeer, search_bye_peer}
use rounds.RoundSpeed.{BufferRs, rotation_buffer_rs, get_message_buffer_rs}
use rounds.Fanout.{BufferFanout}
use rounds.Handlers.{Connection, connected, no_socket, not_connected}

-- A message sent to a peer.
abbrev pub Delivery : Type 0
Delivery = Peer × GossipMessage

-- What a round comes to: the buffer and what was sent; `exit(code)`, behind what was sent until
-- then; a message that is NULL; or more
-- messages than there was fuel for.
pub data Outcome : Type 0 where
  ended : BufferRs → List Delivery → Outcome
  exits : ℕ → List Delivery → Outcome
  null_message : Outcome
  runs_out : Outcome

-- The deliveries come before what the rest of the round sends.
abbrev pub before : List Delivery → Outcome → Outcome
before ds (ended b rest) = ended b (ds ++ rest)
before ds (exits code rest) = exits code (ds ++ rest)
before ds other = other

module _ (net : Peer → Connection) (bye : BufferByePeer) where
  -- `func_snd_rs`: not to a peer that has left, and not to the peer that the message names.
  abbrev pub withheld : Peer → GossipMessage → Bool
  withheld p m = search_bye_peer p bye || same_peer p m.peer

  unfoldable pub func_snd_rs : Peer → GossipMessage → Outcome → Outcome
  func_snd_rs p m rest = if withheld p m then rest else elim (net p) [
    | connected ↦ before ((p, m) ∷ []) rest
    | no_socket ↦ exits 3 []
    | not_connected ↦ exits 4 []
  ]

  -- The peers of the fanout, `for (t = 0; t < buffer_fanout->limit; t++)`.
  unfoldable pub snd_all : ℕ → List Peer → GossipMessage → Outcome → Outcome
  snd_all zero ps m rest = rest
  snd_all (suc n) [] m rest = rest
  snd_all (suc n) (p ∷ ps) m rest = func_snd_rs p m (snd_all n ps m rest)

  -- The body of `while (bol)` for the index that was returned: what is in the list, then the rest.
  abbrev pub snd_message : BufferFanout → Option GossipMessage → Outcome → Outcome
  snd_message f none rest = null_message
  snd_message f (some m) rest = snd_all f.limit f.nodi m rest

  abbrev pub snd_index : BufferFanout → BufferRs → Option ℕ → Outcome → Outcome
  snd_index f b none rest = ended b []
  snd_index f b (some i) rest = snd_message f (get_or b.snd.list_msg i none) rest

  -- `func_helper_rs`
  unfoldable pub func_helper_rs : ℕ → BufferFanout → BufferRs → Outcome
  func_helper_rs zero f b = runs_out
  func_helper_rs (suc fuel) f b =
      let (b', index) = get_message_buffer_rs b in snd_index f b' index (func_helper_rs fuel f b')

  -- `process_RS`; there are at most 30 messages.
  unfoldable pub process_rs : BufferFanout → BufferRs → Outcome
  process_rs f b = func_helper_rs 31 f (rotation_buffer_rs b)
