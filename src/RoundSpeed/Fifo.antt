-- ===== src/RoundSpeed/Fifo.antt =====
-- The two lists as queues: what a round speed sends is what came in since the rotation before, in
-- the order it came.
use rounds.Base.{
  ℕ, zero, suc, ◌+◌, ◌≡◌, ◌≤◌, ◌<◌, refl, sym, subst, ap, arith, Option, none, some, List, [], ◌∷◌,
  ◌++◌, length, ltb, if◌then◌else◌, set, take, drop, get_or, true, false, ltb→lt, ltb→le,
  Bool-cases, inl, inr, take-set_last, drop-take, drop_ge, length-set, length-take,
}
use rounds.Params.{max_rs}
use rounds.Wire.{GossipMessage, next_char}
use rounds.RoundSpeed.{
  ListMsg, BufferRs, init_buffer_rs, clear_first, reset_buffer_rs, insert_mymessage_rs,
  insert_message_rs, rotation_buffer_rs, get_message_buffer_rs,
}

pub record IsValid (b : BufferRs) : Type 0 where
  pub rcv_length : length b.rcv.list_msg ≡ max_rs
  pub snd_length : length b.snd.list_msg ≡ max_rs
  pub rcv_limit : b.rcv.limit ≤ max_rs
  pub snd_limit : b.snd.limit ≤ max_rs
  pub unsent : b.rcv.send ≡ 0
  pub sending : b.snd.send ≤ b.snd.limit

-- What is in a list and not sent yet, in the order in which it came.
abbrev pub queue : ListMsg → List (Option GossipMessage)
queue l = drop l.send (take l.limit l.list_msg)

length-clear_first :
    (n : ℕ) (ms : List (Option GossipMessage)) → length (clear_first n ms) ≡ length ms
unfolding clear_first
length-clear_first zero ms = refl
length-clear_first (suc n) [] = refl
length-clear_first (suc n) (m ∷ ms) = ap suc (length-clear_first n ms)

pub init-IsValid : IsValid init_buffer_rs
init-IsValid = omega arith

push :
    (m : GossipMessage) (l : ListMsg)
    → l.send ≡ 0
    → l.limit < length l.list_msg
    → drop l.send (take (l.limit + 1) (set l.list_msg l.limit (some m))) ≡ queue l ++ (some m ∷ [])
unfolding drop
push m l first room = rw (first, drop) (take-set_last l.limit l.list_msg (some m) room)

-- From a valid buffer, an own message goes behind the messages that came in, unless there are 30
-- of them already: then it is dropped. The buffer stays valid, and what is being sent stays as it
-- is.
pub insert_mymessage_rs_lem :
    (m : GossipMessage) (b : BufferRs)
    → IsValid b
    → let b' = insert_mymessage_rs m b in
      IsValid b'
      × (b'.snd ≡ b.snd)
      × (queue b'.rcv
          ≡ (if ltb b.rcv.limit max_rs then queue b.rcv ++ (some m ∷ []) else queue b.rcv))
unfolding insert_mymessage_rs
insert_mymessage_rs_lem m b v = elim (Bool-cases (ltb b.rcv.limit max_rs)) [
  | inl room ↦ rw room (
    omega (arith, ltb→lt b.rcv.limit max_rs room, length-set b.rcv.list_msg b.rcv.limit (some m)),
    refl,
    push m b.rcv v.unsent (omega (arith, ltb→lt b.rcv.limit max_rs room)),
  )
  | inr full ↦ rw full (v, refl, refl)
]

-- A received message goes in with its age one higher.
pub insert_message_rs_eq :
    (m : GossipMessage) (b : BufferRs)
    → insert_message_rs m b ≡ insert_mymessage_rs (record m { age = next_char m.age }) b
unfolding insert_message_rs insert_mymessage_rs
insert_message_rs_eq m b = refl

-- No message of the list is NULL.
pub data NoNull : List (Option GossipMessage) → Type 0 where
  nil : NoNull []
  cons : {m : GossipMessage} {ms : List (Option GossipMessage)} → NoNull ms → NoNull (some m ∷ ms)

pub NoNull-head :
    (x : Option GossipMessage) (ms : List (Option GossipMessage))
    → NoNull (x ∷ ms)
    → ((m : GossipMessage) × (x ≡ some m)) × NoNull ms
NoNull-head (some m) ms (cons rest) = ((m, refl), rest)
NoNull-head none ms x = elim x [ ]

NoNull-snoc :
    (m : GossipMessage) (ms : List (Option GossipMessage))
    → NoNull ms
    → NoNull (ms ++ (some m ∷ []))
NoNull-snoc m [] nil = cons nil
NoNull-snoc m (some x ∷ ms) (cons rest) = cons (NoNull-snoc m ms rest)
NoNull-snoc m (none ∷ ms) v = elim v [ ]

-- A valid buffer without NULL among the messages that came in.
pub record IsReady (b : BufferRs) : Type 0 where
  pub valid : IsValid b
  pub full : NoNull (queue b.rcv)

pub init-IsReady : IsReady init_buffer_rs
unfolding drop
init-IsReady = record { valid = init-IsValid; full = nil }

pub insert_mymessage_rs-IsReady :
    (m : GossipMessage) (b : BufferRs) → IsReady b → IsReady (insert_mymessage_rs m b)
insert_mymessage_rs-IsReady m b v =
    let (valid, _, pushed) = insert_mymessage_rs_lem m b v.valid in
    record {
      valid = valid;
      full = subst NoNull (sym pushed) (elim (Bool-cases (ltb b.rcv.limit max_rs)) [
        | inl room ↦ rw room (NoNull-snoc m (queue b.rcv) v.full)
        | inr full ↦ rw full v.full
      ]);
    }

pub insert_message_rs-IsReady :
    (m : GossipMessage) (b : BufferRs) → IsReady b → IsReady (insert_message_rs m b)
insert_message_rs-IsReady m b v =
    rw (insert_message_rs_eq m b)
      (insert_mymessage_rs-IsReady (record m { age = next_char m.age }) b v)

-- From a valid buffer, a rotation makes what came in the queue to send, and leaves nothing in;
-- the buffer stays valid.
pub rotation_buffer_rs_lem :
    (b : BufferRs)
    → IsValid b
    → let b' = rotation_buffer_rs b in
      IsValid b' × (queue b'.snd ≡ queue b.rcv) × (queue b'.rcv ≡ [])
unfolding rotation_buffer_rs reset_buffer_rs drop
rotation_buffer_rs_lem b v =
    (omega (arith, length-clear_first b.snd.limit b.snd.list_msg), refl, refl)

-- The message at the index that was returned, before what is left to send.
abbrev pub sent : ListMsg → ListMsg → Option ℕ → List (Option GossipMessage)
sent l l' none = []
sent l l' (some i) = get_or l.list_msg i none ∷ queue l'

pub get-some :
    (b : BufferRs)
    → ltb b.snd.send b.snd.limit ≡ true
    → get_message_buffer_rs b
      ≡ (record b { snd = record b.snd { send = b.snd.send + 1 } }, some b.snd.send)
unfolding get_message_buffer_rs
get-some b more = rw more refl

pub get-none :
    (b : BufferRs) → ltb b.snd.send b.snd.limit ≡ false → get_message_buffer_rs b ≡ (b, none)
unfolding get_message_buffer_rs
get-none b done = rw done refl

-- From a valid buffer, `get_message_buffer_rs` answers the index of the head of the queue to send
-- and takes it off, or answers -1 when the queue is empty. The buffer stays valid, and what came
-- in stays.
pub get_message_buffer_rs_lem :
    (b : BufferRs)
    → IsValid b
    → let (b', r) = get_message_buffer_rs b in
      IsValid b' × (b'.rcv ≡ b.rcv) × (queue b.snd ≡ sent b.snd b'.snd r)
get_message_buffer_rs_lem b v = elim (Bool-cases (ltb b.snd.send b.snd.limit)) [
  | inl more ↦ rw (get-some b more) (
    omega (arith, ltb→lt b.snd.send b.snd.limit more),
    refl,
    drop-take b.snd.send b.snd.limit b.snd.list_msg none (ltb→lt b.snd.send b.snd.limit more)
        (omega arith),
  )
  | inr done ↦ rw (get-none b done) (
    v,
    refl,
    drop_ge b.snd.send (take b.snd.limit b.snd.list_msg)
        (omega (arith, ltb→le b.snd.send b.snd.limit done, length-take b.snd.limit b.snd.list_msg)),
  )
]
