-- ===== src/Tests/Buffers.antt =====
-- The buffers of messages, of peers that have left, of the round speed and of events, at
-- concrete inputs.
use rounds.Base.{
  replicate, drop, ℕ, ◌+◌, ◌≡◌, ◌≢◌, ◌≤◌, ◌⊎◌, refl, arith, true, false, List, [], ◌∷◌, length, ltb,
  take, if◌then◌else◌, bit, sum_of,
}
use rounds.Params.{id_m, max_msm}
use rounds.Peer.{nobody}
use rounds.Wire.{zero_id}
use rounds.MessageLog.{
  BufferMessage, has_id, init_buffer_message, search_insert_id, delete_dated_msg,
}
use rounds.MessageLog.Laws as LogLaws
use rounds.ByePeers.{BufferByePeer, init_buffer_bye_peer, search_insert_peer}
use rounds.ByePeers.Laws as ByeLaws
use rounds.RoundSpeed.{BufferRs, init_buffer_rs, insert_mymessage_rs, rotation_buffer_rs}
use rounds.RoundSpeed.Fifo
use rounds.Events.{Event, free_event}
use rounds.Events.Laws as EventLaws
use rounds.MyFiles.{BufferFile}
use rounds.Fanout.{BufferFanout}
use rounds.Handlers.{connected}
use rounds.Rounds.{ended, process_rs}
use rounds.Rounds.Flood.{flood, process_rs_lem}
use rounds.RoundSpeed.Fifo.{NoNull, nil, cons}
use rounds.Rounds.Laws.{IsDone, process_rs-IsDone}
use rounds.Tests.{anna, bruno, first_id, other_id, anna_leaves}

-- A log that remembers one id.
abbrev log : BufferMessage
log = (search_insert_id 100 first_id init_buffer_message).0

log-IsValid : LogLaws.IsValid log
log-IsValid =
    LogLaws.search_insert_id-IsValid 100 first_id (omega arith) refl init_buffer_message
      LogLaws.init-IsValid

search_insert_id_example :
    let (b', r) = search_insert_id 120 other_id log in
    ((r ≡ true) × (b' ≡ log) × (1 ≤ LogLaws.count_id other_id log))
    ⊎ ((r ≡ false)
        × (LogLaws.count_id other_id log ≡ 0)
        × (LogLaws.count_id other_id b' ≡ 1)
        × (LogLaws.count_free b' + 1 ≡ LogLaws.count_free log)
        × ((other : List ℕ)
            → length other ≡ id_m
            → other ≢ other_id
            → other ≢ zero_id
            → LogLaws.count_id other b' ≡ LogLaws.count_id other log))
    ⊎ ((r ≡ false)
        × (LogLaws.count_id other_id log ≡ 0)
        × (LogLaws.count_free log ≡ 0)
        × (b' ≡ log))
search_insert_id_example =
    LogLaws.search_insert_id_lem 120 other_id (omega arith) refl log log-IsValid

delete_dated_msg_example :
    LogLaws.IsValid (delete_dated_msg 206 log)
    × ((id : List ℕ)
        → length id ≡ id_m
        → id ≢ zero_id
        → LogLaws.count_id id (delete_dated_msg 206 log)
          ≡ sum_of (λ m. if ltb (m.age_time + 105) 206 then 0 else bit (has_id id m)) max_msm log)
delete_dated_msg_example = LogLaws.delete_dated_msg_lem 206 log log-IsValid

abbrev gone : BufferByePeer
gone = (search_insert_peer 100 anna init_buffer_bye_peer).0

gone-AllBlank : ByeLaws.AllBlank gone
gone-AllBlank =
    ByeLaws.search_insert_peer-AllBlank 100 anna init_buffer_bye_peer (omega arith)
      ByeLaws.init-AllBlank

anna-somebody : anna ≢ nobody
anna-somebody e = cc (e)

abbrev waiting : BufferRs
waiting = insert_mymessage_rs anna_leaves init_buffer_rs

waiting-IsValid : Fifo.IsValid waiting
waiting-IsValid = (Fifo.insert_mymessage_rs_lem anna_leaves init_buffer_rs Fifo.init-IsValid).0

abbrev rotated : BufferRs
rotated = rotation_buffer_rs waiting

-- A search with no answer yet.
abbrev searching : Event
searching = record free_event { id = first_id; age_time = 100 }

searching-IsValid : EventLaws.IsValid searching
searching-IsValid = record {
  size = EventLaws.free_event-IsValid.size;
  bounded = EventLaws.free_event-IsValid.bounded;
  distinct = EventLaws.free_event-IsValid.distinct;
}

abbrev two_files : BufferFile
two_files = record { index = 2; file = first_id ∷ other_id ∷ [] }

waiting-NoNull : NoNull (Fifo.queue waiting.rcv)
unfolding insert_mymessage_rs drop
waiting-NoNull = cons nil

abbrev two_chosen : BufferFanout
two_chosen = record { limit = 2; nodi = bruno ∷ anna ∷ replicate 5 nobody }

process_rs-IsDone_example :
    IsDone
      (λ p. connected)
      init_buffer_bye_peer
      (process_rs (λ p. connected) init_buffer_bye_peer two_chosen waiting)
process_rs-IsDone_example =
    process_rs-IsDone (λ p. connected) init_buffer_bye_peer two_chosen waiting waiting-IsValid
      waiting-NoNull

process_rs_lem_example :
    (b' : BufferRs) × (process_rs (λ p. connected) init_buffer_bye_peer two_chosen waiting
      ≡ ended b' (
          flood
            (λ p. connected)
            init_buffer_bye_peer
            (take 2 two_chosen.nodi)
            (Fifo.queue waiting.rcv)))
    × Fifo.IsReady b'
    × (Fifo.queue b'.rcv ≡ [])
    × (Fifo.queue b'.snd ≡ [])
process_rs_lem_example =
    process_rs_lem (λ p. connected) init_buffer_bye_peer two_chosen waiting (λ p. refl)
      (record { valid = waiting-IsValid; full = waiting-NoNull })
