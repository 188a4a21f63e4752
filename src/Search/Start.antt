-- ===== src/Search/Start.antt =====
-- A turn of the input leaves the buffers valid and queues the query.
use rounds.Base.{
  length-set, set_keeps, ◌∙◌, find_first, ℕ, ◌≡◌, ◌≤◌, ◌<◌, ◌⊎◌, inl, inr, refl, length, get_or,
  ltb, if◌then◌else◌, false, true, List, [], ◌∷◌, ◌++◌, some, arith, Bool-cases, ◌==◌,
}
use rounds.Params.{max_evt, max_rs, id_m, id_m_partial}
use rounds.Wire.{copy_id}
use rounds.OwnMessages.{gossip_query}
use rounds.OwnMessages.Laws.{length-get_id_message}
use rounds.MessageLog.Laws as LogLaws
use rounds.Events.{Event, BufferEvent, free_event, is_free, insert_event, reset_buffer_event}
use rounds.Events.Laws as EventLaws
use rounds.RoundSpeed.Fifo
use rounds.Peer.{Peer}
use rounds.Handlers.{World}
use rounds.Handlers.Steps.{NodeInv}
use rounds.Search.{
  Console, leaves_loop, nothing_typed, begins, is_exit, count_word, max_stdin, asked, begun,
  in_dati, process_in, process_out,
}

module _ (now : ℕ) (id : List ℕ) (e : Event) where
  pub insert_event-free :
      is_free e ≡ true
      → insert_event now id (e ∷ []) ≡ (record e { id = copy_id id; age_time = now } ∷ [], 0)
  unfolding insert_event find_first
  insert_event-free free = rw (free, insert_event, find_first) refl

  insert_event-taken : is_free e ≡ false → insert_event now id (e ∷ []) ≡ (e ∷ [], max_evt)
  unfolding insert_event find_first
  insert_event-taken taken = rw (taken, insert_event, find_first) refl

-- A new search keeps the one event valid.
insert_event-Event :
    (now : ℕ) (id : List ℕ) (b : BufferEvent)
    → length b ≡ max_evt
    → EventLaws.IsValid (get_or b 0 free_event)
    → let b' = (insert_event now id b).0 in
      (length b' ≡ max_evt) × EventLaws.IsValid (get_or b' 0 free_event)
insert_event-Event now id [] len v = absurd (omega arith)
insert_event-Event now id (e ∷ f ∷ b) len v = absurd (omega arith)
insert_event-Event now id (e ∷ []) len v = elim (Bool-cases (is_free e)) [
  | inl free ↦
      rw (insert_event-free now id e free)
        (refl, record { size = v.size; bounded = v.bounded; distinct = v.distinct })
  | inr taken ↦ rw (insert_event-taken now id e taken) (refl, v)
]

module _ (md5 : List ℕ → List ℕ) (w : World) where
  pub length-asked :
      (parola : List ℕ) (c : Console)
      → id_m_partial ≤ length w.id_msg_const
      → length (asked md5 w parola c).1.id ≡ id_m
  unfolding gossip_query
  length-asked parola c h = length-get_id_message w.id_msg_const c.node.count h

  pub begun-NodeInv :
      (parola : List ℕ) (c : Console)
      → 0 < w.now
      → id_m_partial ≤ length w.id_msg_const
      → NodeInv w.me c.node
      → NodeInv w.me (begun md5 w parola c).node
  begun-NodeInv parola c pos len v =
      let m = (asked md5 w parola c).1 in
      let (one, valid) = insert_event-Event w.now m.id c.node.events v.one_event v.event in
      record {
        neighbours = v.neighbours;
        messages =
            LogLaws.search_insert_id-IsValid w.now m.id pos (length-asked parola c len)
              c.node.messages v.messages;
        bye_peers = v.bye_peers;
        rs = Fifo.insert_mymessage_rs-IsReady m c.node.rs v.rs;
        one_event = one;
        event = valid;
      }

-- A turn of `process_in`: the loop is left when the exit word is typed, an empty line changes
-- nothing, and otherwise a search begins.
pub process_in_lem :
    (md5 : List ℕ → List ℕ) (w : World) (parola : List ℕ) (c : Console)
    → 0 < w.now
    → id_m_partial ≤ length w.id_msg_const
    → NodeInv w.me c.node
    → ((is_exit parola ≡ true) × (process_in md5 w parola c ≡ leaves_loop))
      ⊎ ((is_exit parola ≡ false)
          × (count_word max_stdin parola ≡ 0)
          × (process_in md5 w parola c ≡ nothing_typed))
      ⊎ ((is_exit parola ≡ false)
          × (0 < count_word max_stdin parola)
          × (let m = (asked md5 w parola c).1 in
              let c' = begun md5 w parola c in
              (process_in md5 w parola c ≡ begins c' m (in_dati md5 w parola c))
              × NodeInv w.me c'.node
              × (Fifo.queue c'.node.rs.rcv ≡ (
                  if ltb c.node.rs.rcv.limit max_rs
                  then Fifo.queue c.node.rs.rcv ++ (some m ∷ [])
                  else Fifo.queue c.node.rs.rcv))))
unfolding process_in
process_in_lem md5 w parola c pos len v = elim (Bool-cases (is_exit parola)) [
  | inl stop ↦ inl (stop, rw stop refl)
  | inr more ↦ elim (Bool-cases (count_word max_stdin parola == 0)) [
    | inl nothing ↦ inr (inl (more, ground arith, rw (more, nothing) refl))
    | inr word ↦ inr (
        inr (
          more,
          ground arith,
          (
            rw (more, word) refl,
            begun-NodeInv md5 w parola c pos len v,
            (Fifo.insert_mymessage_rs_lem (asked md5 w parola c).1 c.node.rs v.rs.valid).2,
          ),
        ))
  ]
]

-- The end of a search keeps the buffers valid.
pub process_out-NodeInv :
    (me : Peer) (index_th : ℕ) (c : Console)
    → NodeInv me c.node
    → NodeInv me (process_out index_th c).node
unfolding process_out reset_buffer_event
process_out-NodeInv me index_th c v = record {
  neighbours = v.neighbours;
  messages = v.messages;
  bye_peers = v.bye_peers;
  rs = v.rs;
  one_event = length-set c.node.events index_th free_event ∙ v.one_event;
  event =
      set_keeps EventLaws.IsValid c.node.events index_th 0 free_event free_event
        EventLaws.free_event-IsValid v.event;
}
