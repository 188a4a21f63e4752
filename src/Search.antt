-- ===== src/Search.antt =====
-- The searches that the user starts, two_rounds/process_InOut.c. The threads `process_in` and
-- `process_out` are one turn each here; what the user types is an argument, and so is MD5.
pub mod Start
pub mod Answered
pub mod Found
pub mod Asking
use rounds.Base.{
  ℕ, zero, suc, ◌+◌, Bool, true, false, ◌||◌, ◌==◌, if◌then◌else◌, Option, none, some, List, [],
  ◌∷◌, take, set, replicate, find_first, not,
}
use rounds.Params.{max_evt}
use rounds.Wire.{GossipMessage, dif_str}
use rounds.MessageLog.{search_insert_id}
use rounds.Events.{insert_event, reset_buffer_event}
use rounds.RoundSpeed.{insert_mymessage_rs}
use rounds.Handlers.{World, Node}
use rounds.OwnMessages.{gossip_query}

-- `_MAX_STDIN`
abbrev pub max_stdin : ℕ
max_stdin = 60

-- The loop `while (b)`: the bytes before the first zero or newline, at most `_MAX_STDIN`.
unfoldable pub count_word : ℕ → List ℕ → ℕ
count_word zero parola = zero
count_word (suc n) [] = zero
count_word (suc n) (c ∷ parola) =
    let rest = suc (count_word n parola) in if c == 0 || c == 10 then zero else rest

-- `strncmp("?exit?", parola, 6) == 0`
abbrev pub exit_word : List ℕ
exit_word = b'?' ∷ b'e' ∷ b'x' ∷ b'i' ∷ b't' ∷ b'?' ∷ []

abbrev pub is_exit : List ℕ → Bool
is_exit parola = dif_str exit_word parola 6 == 0

-- The buffers and `th_out`: whether a thread `process_out` runs.
pub record Console : Type 0 where
  pub node : Node
  pub th_out : List Bool

-- `th_out[i] = -1` for all i, of `bootstrap`.
abbrev pub init_th_out : List Bool
init_th_out = replicate max_evt false

-- What a search hands to `process_out`, `struct in_dati`. `index_th` is unset where no element of
-- `th_out` is free.
pub record InDati : Type 0 where
  pub index : ℕ
  pub index_th : Option ℕ
  pub parola : List ℕ

-- What a turn of `process_in` comes to: the loop is left; nothing was typed, and `sem_input` is
-- given back; or a search has begun, with its message.
pub data Turn : Type 0 where
  leaves_loop : Turn
  nothing_typed : Turn
  begins : Console → GossipMessage → InDati → Turn

abbrev pub start_thread : Option ℕ → List Bool → List Bool
start_thread none th_out = th_out
start_thread (some i) th_out = set th_out i true

module _ (md5 : List ℕ → List ℕ) (w : World) where
  -- The message of a search, and the counter behind it.
  abbrev pub asked : List ℕ → Console → ℕ × GossipMessage
  asked parola c = gossip_query w (md5 (take (count_word max_stdin parola) parola)) c.node.count

  -- What the buffers are when the search has begun.
  abbrev pub begun : List ℕ → Console → Console
  begun parola c =
      let (count', m) = asked parola c in
      let (events', index) = insert_event w.now m.id c.node.events in
      let (log, known) = search_insert_id w.now m.id c.node.messages in
      record {
        node = record c.node {
          count = count';
          events = events';
          messages = log;
          rs = insert_mymessage_rs m c.node.rs;
        };
        th_out = start_thread (find_first not max_evt c.th_out) c.th_out;
      }

  abbrev pub in_dati : List ℕ → Console → InDati
  in_dati parola c = record {
    index = (insert_event w.now (asked parola c).1.id c.node.events).1;
    index_th = find_first not max_evt c.th_out;
    parola = parola;
  }

  -- One turn of `process_in` behind `fgets`.
  unfoldable pub process_in : List ℕ → Console → Turn
  process_in parola c =
      if is_exit parola
      then leaves_loop
      else if count_word max_stdin parola == 0
      then nothing_typed
      else begins (begun parola c) (asked parola c).1 (in_dati parola c)

-- `process_out` behind the results: it resets the event of the index of its thread.
unfoldable pub process_out : ℕ → Console → Console
process_out index_th c = record {
  node = record c.node { events = reset_buffer_event c.node.events index_th };
  th_out = set c.th_out index_th false;
}
