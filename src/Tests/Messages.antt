-- ===== src/Tests/Messages.antt =====
-- The handlers, the random choices and the ids at concrete inputs.
use rounds.Base.{
  ℕ, ◌≡◌, ◌≢◌, ◌≤◌, ◌<◌, inl, inr, refl, arith, false, some, List, [], ◌∷◌, ◌++◌, ◌&&◌, ltb, get_or,
  replicate, if◌then◌else◌, ap, bit, get_or-le-sum_of, length-replicate,
}
use rounds.Params.{max_msm, max_age, max_rs}
use rounds.Wire.{next_char, char_below}
use rounds.Neighbour.{insert_peer, init_buffer_neighbour, search_peer}
use rounds.Neighbour.Distinct.{insert_peer-Inv, init-Inv}
use rounds.MessageLog.{is_free, free_message, init_buffer_message, search_insert_id}
use rounds.MessageLog.Laws as LogLaws
use rounds.ByePeers.{init_buffer_bye_peer}
use rounds.ByePeers.Laws as ByeLaws
use rounds.RoundSpeed.{init_buffer_rs}
use rounds.RoundSpeed.Fifo
use rounds.Events.{init_buffer_event}
use rounds.Events.Laws as EventLaws
use rounds.Random.{num_random}
use rounds.Random.Bounds.{num_random-lt}
use rounds.Ident.{get_id_message}
use rounds.Ident.Laws.{count_after, get_id_message-distinct}
use rounds.Handlers.{connected, World, Node, go_on, func_helper_msg, helper_bye}
use rounds.Handlers.Steps.{NodeInv, OnReply}
use rounds.Handlers.Invariant.{func_helper_msg-NodeInv}
use rounds.Handlers.Laws.{func_helper_msg-seen, helper_bye_lem}
use rounds.Tests.{me, anna, cell, first_id, anna_leaves}

abbrev pub world : World
world = record {
  me = me;
  id_msg_const = replicate 12 9;
  files = record { index = 0; file = [] };
  net = λ p. connected;
  now = 100;
  rands = 5 ∷ 2_000_000_000 ∷ [];
  exit_hinf = false;
}

-- Anna is a neighbour, and nothing has come in.
abbrev pub quiet : Node
quiet = record {
  neighbours = insert_peer me (cell anna) init_buffer_neighbour;
  messages = init_buffer_message;
  bye_peers = init_buffer_bye_peer;
  rs = init_buffer_rs;
  events = init_buffer_event;
  count = 1;
}

pub quiet-Inv : NodeInv me quiet
unfolding init_buffer_event
quiet-Inv = record {
  neighbours = insert_peer-Inv me (cell anna) init_buffer_neighbour (init-Inv me);
  messages = LogLaws.init-IsValid;
  bye_peers = ByeLaws.init-AllBlank;
  rs = Fifo.init-IsReady;
  one_event = refl;
  event = EventLaws.free_event-IsValid;
}

-- The bye of anna has been logged.
abbrev logged : Node
logged = record quiet { messages = (search_insert_id 90 first_id init_buffer_message).0 }

logged-Inv : NodeInv me logged
logged-Inv = record {
  neighbours = quiet-Inv.neighbours;
  messages =
      LogLaws.search_insert_id-IsValid 90 first_id (omega arith) refl init_buffer_message
        LogLaws.init-IsValid;
  bye_peers = quiet-Inv.bye_peers;
  rs = quiet-Inv.rs;
  one_event = quiet-Inv.one_event;
  event = quiet-Inv.event;
}

new_id : LogLaws.count_id first_id init_buffer_message ≡ 0
new_id =
    LogLaws.count_id-init first_id refl
      (λ e. absurd (omega (arith, ap (λ (l : List ℕ). get_or l 0 0) e)))

pub some_room : 1 ≤ LogLaws.count_free init_buffer_message
unfolding init_buffer_message
some_room =
    get_or-le-sum_of (λ m. bit (is_free m)) max_msm init_buffer_message 0 free_message (omega arith)
      (omega (arith, length-replicate max_msm free_message))

known_id : 1 ≤ LogLaws.count_id first_id logged.messages
known_id =
    elim (LogLaws.search_insert_id_lem 90 first_id (omega arith) refl init_buffer_message
      LogLaws.init-IsValid) [
        | inl (r, same, held) ↦ absurd (omega (arith, new_id))
        | inr (inl (r, new, one, room, others)) ↦ omega arith
        | inr (inr (r, new, room, same)) ↦ absurd (omega (arith, some_room))
      ]

func_helper_msg-NodeInv_example : OnReply (NodeInv me) (func_helper_msg world anna_leaves quiet)
func_helper_msg-NodeInv_example =
    func_helper_msg-NodeInv world anna_leaves quiet (omega arith) refl quiet-Inv

func_helper_msg-seen_example :
    (c : ℕ) × (func_helper_msg world anna_leaves logged ≡ go_on (record logged { count = c }) [])
func_helper_msg-seen_example =
    func_helper_msg-seen world anna_leaves logged (omega arith) refl logged-Inv (inr (inl refl))
      known_id

helper_bye_example :
    (n' : Node) × (helper_bye world anna_leaves quiet ≡ go_on n' [])
    × (search_peer n'.neighbours anna ≡ false)
    × (Fifo.queue n'.rs.rcv ≡ (
        if char_below 2 max_age && ltb quiet.rs.rcv.limit max_rs
        then Fifo.queue quiet.rs.rcv ++ (some (record anna_leaves { age = next_char 2 }) ∷ [])
        else Fifo.queue quiet.rs.rcv))
helper_bye_example = helper_bye_lem world anna_leaves quiet (omega arith) refl quiet-Inv new_id

num_random-lt_example : num_random 232976190 2147483647 < 232976190
num_random-lt_example = num_random-lt 232976190 2147483647 (omega arith) (omega arith)

get_id_message-distinct_example :
    (get_id_message (replicate 12 9) 9998).1
    ≢ (get_id_message (replicate 12 9) (count_after 5 9998)).1
get_id_message-distinct_example =
    get_id_message-distinct (replicate 12 9) 9998 5 (omega arith) (omega arith) (omega arith)
      (omega arith)
