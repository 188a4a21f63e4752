-- ===== src/RoundSpeed.antt =====
-- The buffer of the round speed of two_rounds/func_strutture.c: the dispatcher puts messages into the
-- list `_RCV_`, a round takes the list `_SND_` out one by one, and a rotation swaps the two. The lock
-- `sem_rs` makes every insertion and the swap one step, `sem_rs_bis` every `get_message`.
pub mod Fifo
use rounds.Base.{
  ℕ, zero, suc, ◌+◌, Option, none, some, List, ltb, if◌then◌else◌, set, replicate, Bool, true,
  false, [], ◌∷◌,
}
use rounds.Params.{max_rs}
use rounds.Wire.{GossipMessage, next_char}

-- `struct List_msg`; `none` is NULL.
pub record ListMsg : Type 0 where
  pub send : ℕ
  pub limit : ℕ
  pub list_msg : List (Option GossipMessage)

-- `struct Buffer_rs`: the entries `_RCV_` and `_SND_` of `buffer`.
pub record BufferRs : Type 0 where
  pub rcv : ListMsg
  pub snd : ListMsg

abbrev pub empty_list : ListMsg
empty_list = record { send = 0; limit = 0; list_msg = replicate max_rs none }

abbrev pub init_buffer_rs : BufferRs
init_buffer_rs = record { rcv = empty_list; snd = empty_list }

-- `for (j = 0; j < limit; ++j) list_msg[j] = NULL;`
unfoldable pub clear_first : ℕ → List (Option GossipMessage) → List (Option GossipMessage)
clear_first zero ms = ms
clear_first (suc n) [] = []
clear_first (suc n) (m ∷ ms) = none ∷ clear_first n ms

-- `reset_buffer_rs` of one list
unfoldable pub reset_buffer_rs : ListMsg → ListMsg
reset_buffer_rs l = record { send = 0; limit = 0; list_msg = clear_first l.limit l.list_msg }

unfoldable pub insert_mymessage_rs : GossipMessage → BufferRs → BufferRs
insert_mymessage_rs m b =
    if ltb b.rcv.limit max_rs
    then record b {
      rcv = record {
        send = b.rcv.send;
        limit = b.rcv.limit + 1;
        list_msg = set b.rcv.list_msg b.rcv.limit (some m);
      };
    }
    else b

-- `insert_messageRS`: the same with the age one higher.
unfoldable pub insert_message_rs : GossipMessage → BufferRs → BufferRs
insert_message_rs m b =
    let older = record m { age = next_char m.age } in
    if ltb b.rcv.limit max_rs
    then record b {
      rcv = record {
        send = b.rcv.send;
        limit = b.rcv.limit + 1;
        list_msg = set b.rcv.list_msg b.rcv.limit (some older);
      };
    }
    else b

unfoldable pub rotation_buffer_rs : BufferRs → BufferRs
rotation_buffer_rs b = record { rcv = reset_buffer_rs b.snd; snd = b.rcv }

-- The index of the next message to send; `none` is the source's -1.
unfoldable pub get_message_buffer_rs : BufferRs → BufferRs × Option ℕ
get_message_buffer_rs b =
    if ltb b.snd.send b.snd.limit
    then (record b { snd = record b.snd { send = b.snd.send + 1 } }, some b.snd.send)
    else (b, none)
