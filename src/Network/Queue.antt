-- ===== src/Network/Queue.antt =====
-- The messages that wait to be sent on, and those on the way, have ids of 16 bytes.
use rounds.Base.{
  ℕ, zero, suc, ◌+◌, ◌≡◌, Option, none, some, List, [], ◌∷◌, ◌++◌, length, get_or, Bool-cases, inl,
  inr, ltb, set_keeps,
}
use rounds.Params.{id_m, max_rs}
use rounds.Peer.{Peer}
use rounds.Wire.{GossipMessage, next_char}
use rounds.ByePeers.{BufferByePeer}
use rounds.RoundSpeed.{
  BufferRs, clear_first, reset_buffer_rs, insert_mymessage_rs, insert_message_rs,
  rotation_buffer_rs,
}
use rounds.RoundSpeed.Fifo.{insert_message_rs_eq, get-some, get-none}
use rounds.Fanout.{BufferFanout}
use rounds.Handlers.{Connection, connected, no_socket, not_connected}
use rounds.Rounds.{
  Delivery, Outcome, ended, exits, null_message, runs_out, before, withheld, func_snd_rs, snd_all,
  snd_message, func_helper_rs, process_rs,
}

abbrev pub MailFits : List Delivery → Type 0
MailFits [] = Unit {0}
MailFits ((p, m) ∷ ds) = (length m.id ≡ id_m) × MailFits ds

pub append-MailFits : (ds es : List Delivery) → MailFits ds → MailFits es → MailFits (ds ++ es)
append-MailFits [] es v h = h
append-MailFits ((p, m) ∷ ds) es (len, v) h = (len, append-MailFits ds es v h)

abbrev pub EntryFits : Option GossipMessage → Type 0
EntryFits none = Unit {0}
EntryFits (some m) = length m.id ≡ id_m

abbrev pub ListFits : List (Option GossipMessage) → Type 0
ListFits ms = (i : ℕ) → EntryFits (get_or ms i none)

pub record RsFits (b : BufferRs) : Type 0 where
  pub rcv : ListFits b.rcv.list_msg
  pub snd : ListFits b.snd.list_msg

pub insert_mymessage_rs-RsFits :
    (m : GossipMessage) (b : BufferRs)
    → length m.id ≡ id_m
    → RsFits b
    → RsFits (insert_mymessage_rs m b)
unfolding insert_mymessage_rs
insert_mymessage_rs-RsFits m b len v = elim (Bool-cases (ltb b.rcv.limit max_rs)) [
  | inl room ↦ rw room (record {
    rcv = λ i. set_keeps EntryFits b.rcv.list_msg b.rcv.limit i (some m) none len (v.rcv i);
    snd = v.snd;
  })
  | inr full ↦ rw full v
]

pub insert_message_rs-RsFits :
    (m : GossipMessage) (b : BufferRs)
    → length m.id ≡ id_m
    → RsFits b
    → RsFits (insert_message_rs m b)
insert_message_rs-RsFits m b len v =
    rw (insert_message_rs_eq m b)
      (insert_mymessage_rs-RsFits (record m { age = next_char m.age }) b len v)

clear_first-ListFits :
    (n : ℕ) (ms : List (Option GossipMessage)) → ListFits ms → ListFits (clear_first n ms)
unfolding clear_first
clear_first-ListFits zero ms v i = v i
clear_first-ListFits (suc n) [] v i = tt
clear_first-ListFits (suc n) (m ∷ ms) v zero = tt
clear_first-ListFits (suc n) (m ∷ ms) v (suc i) = clear_first-ListFits n ms (λ k. v (suc k)) i

rotation_buffer_rs-RsFits : (b : BufferRs) → RsFits b → RsFits (rotation_buffer_rs b)
unfolding rotation_buffer_rs reset_buffer_rs
rotation_buffer_rs-RsFits b v = record {
  rcv = clear_first-ListFits b.snd.limit b.snd.list_msg v.snd;
  snd = v.rcv;
}

-- What a round sends.
abbrev pub OutFits : Outcome → Type 0
OutFits (ended b ds) = RsFits b × MailFits ds
OutFits (exits code ds) = MailFits ds
OutFits other = Unit {0}

before-OutFits :
    (ds : List Delivery) (o : Outcome) → MailFits ds → OutFits o → OutFits (before ds o)
before-OutFits ds (ended b rest) h (v, all) = (v, append-MailFits ds rest h all)
before-OutFits ds (exits code rest) h v = append-MailFits ds rest h v
before-OutFits ds null_message h v = tt
before-OutFits ds runs_out h v = tt

module _ (net : Peer → Connection) (bye : BufferByePeer) where
  snd_all-OutFits :
      (n : ℕ) (ps : List Peer) (m : GossipMessage) (o : Outcome)
      → length m.id ≡ id_m
      → OutFits o
      → OutFits (snd_all net bye n ps m o)
  unfolding snd_all func_snd_rs
  snd_all-OutFits zero ps m o len v = v
  snd_all-OutFits (suc n) [] m o len v = v
  snd_all-OutFits (suc n) (p ∷ ps) m o len v = elim (Bool-cases (withheld net bye p m)) [
    | inl kept ↦ rw kept (snd_all-OutFits n ps m o len v)
    | inr meant ↦ rw meant (go (snd_all-OutFits n ps m o len v) (net p))
  ]
    where
      go :
          OutFits (snd_all net bye n ps m o)
          → (c : Connection)
          → OutFits (elim c [
            | connected ↦ before ((p, m) ∷ []) (snd_all net bye n ps m o)
            | no_socket ↦ exits 3 []
            | not_connected ↦ exits 4 []
          ])
      go rest connected = before-OutFits ((p, m) ∷ []) (snd_all net bye n ps m o) (len, tt) rest
      go rest no_socket = tt
      go rest not_connected = tt

  func_helper_rs-OutFits :
      (fuel : ℕ) (f : BufferFanout) (b : BufferRs)
      → RsFits b
      → OutFits (func_helper_rs net bye fuel f b)
  unfolding func_helper_rs
  func_helper_rs-OutFits zero f b v = tt
  func_helper_rs-OutFits (suc fuel) f b v = elim (Bool-cases (ltb b.snd.send b.snd.limit)) [
    | inr done ↦ rw (get-none b done) (v, tt)
    | inl more ↦ rw (get-some b more) (
        go (get_or b.snd.list_msg b.snd.send none) _ (v.snd b.snd.send) (
          func_helper_rs-OutFits fuel f (record b { snd = record b.snd { send = b.snd.send + 1 } })
            (record { rcv = v.rcv; snd = v.snd })))
  ]
    where
      go :
          (x : Option GossipMessage) (o : Outcome)
          → EntryFits x
          → OutFits o
          → OutFits (snd_message net bye f x o)
      go none o len h = tt
      go (some m) o len h = snd_all-OutFits f.limit f.nodi m o len h

  pub process_rs-OutFits :
      (f : BufferFanout) (b : BufferRs) → RsFits b → OutFits (process_rs net bye f b)
  unfolding process_rs
  process_rs-OutFits f b v =
      func_helper_rs-OutFits 31 f (rotation_buffer_rs b) (rotation_buffer_rs-RsFits b v)
