-- ===== src/Tests/Searching.antt =====
-- A search for a file that the other peer has.
use rounds.Base.{
  ℕ, ◌≡◌, refl, arith, ap, List, [], ◌∷◌, get_or, take, replicate, length, false, true, find_first,
}
use mathlib.Core.List.{Memᴰ}
use rounds.Peer.{nobody}
use rounds.Wire.{GossipMessage, dif_str, dif_str_from}
use rounds.MessageLog.Laws as LogLaws
use rounds.ByePeers.{search_bye_peer, init_buffer_bye_peer}
use rounds.RoundSpeed.{BufferRs}
use rounds.Events.{free_event, init_buffer_event}
use rounds.Events.Laws as EventLaws
use rounds.MyFiles.{search_hashfile}
use rounds.Fanout.{BufferFanout}
use rounds.Handlers.{World, Node, Effect, sends, go_on, done, func_helper_msg}
use rounds.Rounds.{Delivery, ended, process_rs}
use rounds.Ident.{get_id_message}
use rounds.OwnMessages.{gossip_query}
use rounds.Bootstrap.{init_node}
use rounds.Bootstrap.Joining.{init_node-NodeInv}
use rounds.Search.{Console, init_th_out, asked, begun, count_word, max_stdin}
use rounds.Search.Start.{length-asked}
use rounds.Search.Found.{CanAsk, CanAnswer, begun-found}
use rounds.Tests.Networks.{peer_of, world_of}
use rounds.Tests.Life.{padded, song}

-- The peer 1 has the song; the peer 0 has the peer 1 in its fanout.
abbrev answerer : World
answerer = record (world_of 1) { files = record { index = 1; file = padded (take 4 song) ∷ [] } }

abbrev just_started : Console
just_started = record { node = init_node; th_out = init_th_out }

abbrev the_other : BufferFanout
the_other = record { limit = 1; nodi = peer_of 1 ∷ replicate 6 nobody }

abbrev the_query : GossipMessage
the_query = (asked padded (world_of 0) song just_started).1

nobody_left : search_bye_peer (peer_of 1) init_node.bye_peers ≡ false
unfolding search_bye_peer init_buffer_bye_peer find_first init_node
nobody_left = refl

no_search : init_node.events ≡ free_event ∷ []
unfolding init_node init_buffer_event
no_search = refl

can_ask : CanAsk (world_of 0) just_started free_event the_other (peer_of 1)
unfolding init_node
can_ask = record {
  pos = omega arith;
  partial = omega arith;
  valid = init_node-NodeInv (peer_of 0);
  room = omega arith;
  one = no_search;
  free = refl;
  answers = omega arith;
  linked = λ q. refl;
  knows = Memᴰ.head refl;
  here = nobody_left;
  other = refl;
}

second_byte : get_or the_query.id 1 0 ≡ 7
unfolding gossip_query get_id_message
second_byte = refl

not_seen : LogLaws.count_id the_query.id init_node.messages ≡ 0
unfolding init_node
not_seen =
    LogLaws.count_id-init the_query.id
      (length-asked padded (world_of 0) song just_started (omega arith))
      (λ e. absurd (omega (arith, ap (λ (l : List ℕ). get_or l 1 0) e, second_byte)))

asker_here : search_bye_peer the_query.peer init_node.bye_peers ≡ false
unfolding search_bye_peer init_buffer_bye_peer find_first init_node gossip_query
asker_here = refl

has_song : search_hashfile (padded (take (count_word max_stdin song) song)) answerer.files ≡ true
unfolding search_hashfile find_first count_word dif_str dif_str_from
has_song = refl

can_answer : CanAnswer answerer init_node the_query (padded (take (count_word max_stdin song) song))
can_answer = record {
  pos = omega arith;
  valid = init_node-NodeInv (peer_of 1);
  new = not_seen;
  here = asker_here;
  have = has_song;
  linked = refl;
}

song_hash : length (padded (take (count_word max_stdin song) song)) ≡ 16
unfolding count_word
song_hash = refl

begun-found_example :
    let start = (begun padded (world_of 0) song just_started).node in
    (b : BufferRs) × (ds : List Delivery) × (process_rs
        (world_of 0).net
        start.bye_peers
        the_other
        start.rs
      ≡ ended b ds)
    × Memᴰ (peer_of 1, the_query) ds
    × (hit : GossipMessage) × (es : List Effect) × (done
          (func_helper_msg answerer the_query init_node)
        ≡ sends (peer_of 0) hit ∷ es)
    × (found : Node) × (func_helper_msg (world_of 0) hit (record start { rs = b }) ≡ go_on found [])
    × (EventLaws.answers (peer_of 1) (get_or found.events 0 free_event) ≡ 1)
begun-found_example =
    begun-found padded (world_of 0) answerer (world_of 0) song just_started free_event the_other
      init_node can_ask song_hash can_answer
