-- ===== src/Tests/Life.antt =====
-- The way of a peer through the network at concrete inputs: the settings, the start, a search and the
-- end.
use rounds.Base.{ℕ, ◌≡◌, refl, arith, false, some, List, [], ◌∷◌, ◌++◌, take, get_or, replicate, ap}
use rounds.Wire.{GossipMessage, query}
use rounds.Neighbour.{search_peer}
use rounds.MessageLog.Laws as LogLaws
use rounds.Handlers.{Node, World, go_on, func_helper_msg}
use rounds.BootServer.{BufferNodi}
use rounds.Ident.{get_id_message}
use rounds.OwnMessages.{gossip_bye, gossip_query}
use rounds.OwnMessages.Laws.{length-get_id_message}
use rounds.Bootstrap.{init_node, Contact, asking, bootstrap2_ciclic}
use rounds.Bootstrap.Joining.{OnBoot, init_node-NodeInv, bootstrap2_ciclic-OnBoot}
use rounds.Bootstrap.Refused.{requests, bootstrap2_ciclic-never_joins}
use rounds.Leaving.Laws.{gossip_bye-received}
use rounds.Search.{Console, init_th_out, asked, begun}
use rounds.Search.Answered.{begun-own_query}
use rounds.Settings.{newline, write_line, same_word, set_dir_cond, file_cond}
use rounds.Settings.Lines.{IsWord, IsDir, typed, written, word-OneLine}
use rounds.Settings.RoundTrip.{set_dir_cond-file_cond}
use rounds.Tests.{me, anna, bruno, anna_leaves}
use rounds.Tests.Messages.{world, quiet, quiet-Inv, some_room}

-- A hash that is long enough, for the one that MD5 makes.
abbrev pub padded : List ℕ → List ℕ
padded s = take 16 (s ++ replicate 16 0)

abbrev pub song : List ℕ
song = b's' ∷ b'o' ∷ b'n' ∷ b'g' ∷ newline ∷ []

abbrev console : Console
console = record { node = quiet; th_out = init_th_out }

abbrev own_query : GossipMessage
own_query = (asked padded world song console).1

own_query_asks : own_query.pay_desc ≡ query
unfolding gossip_query
own_query_asks = refl

begun-own_query_example :
    let n = (begun padded world song console).node in
    (count : ℕ) × (func_helper_msg world own_query n ≡ go_on (record n { count = count }) [])
begun-own_query_example =
    begun-own_query padded world song console (omega arith) (omega arith) quiet-Inv some_room
      own_query refl own_query_asks

-- The server names Anna alone at first, and then three peers; a bye comes in.
abbrev contacts : List Contact
contacts =
    record {
      world = world;
      servboot_nodi = record { limit = 1; boot_neighbour = anna ∷ [] };
      incoming = [];
    }
    ∷ record {
      world = world;
      servboot_nodi = record { limit = 3; boot_neighbour = anna ∷ bruno ∷ anna ∷ [] };
      incoming = (world, anna_leaves) ∷ [];
    }
    ∷ []

bootstrap2_ciclic-OnBoot_example : OnBoot me (bootstrap2_ciclic contacts init_node)
bootstrap2_ciclic-OnBoot_example =
    bootstrap2_ciclic-OnBoot me contacts init_node
      (
        (omega arith, refl, omega arith, omega arith, tt),
        ((omega arith, refl, omega arith, omega arith, ((refl, omega arith, refl), tt)), tt),
      )
      (init_node-NodeInv me)

abbrev large_table : BufferNodi
large_table = record { limit = 11; nodi = replicate 11 anna }

bootstrap2_ciclic-never_joins_example :
    bootstrap2_ciclic (requests world me ((large_table, []) ∷ (large_table, 7 ∷ []) ∷ [])) init_node
    ≡ asking init_node
bootstrap2_ciclic-never_joins_example =
    bootstrap2_ciclic-never_joins world me ((large_table, []) ∷ (large_table, 7 ∷ []) ∷ [])
      init_node (omega arith, (omega arith, tt))

-- Anna's side: what she makes her messages from.
abbrev anna_world : World
anna_world = record world { me = anna; id_msg_const = replicate 12 4 }

first_byte : get_or (gossip_bye anna_world 1).1.id 0 0 ≡ 4
unfolding gossip_bye get_id_message
first_byte = refl

unseen : LogLaws.count_id (gossip_bye anna_world 1).1.id quiet.messages ≡ 0
unfolding gossip_bye
unseen =
    LogLaws.count_id-init (gossip_bye anna_world 1).1.id
      (length-get_id_message anna_world.id_msg_const 1 (omega arith))
      (λ e. absurd (omega (arith, ap (λ (l : List ℕ). get_or l 0 0) e, first_byte)))

gossip_bye-received_example :
    (n' : Node) × (func_helper_msg world (gossip_bye anna_world 1).1 quiet ≡ go_on n' [])
    × (search_peer n'.neighbours anna ≡ false)
gossip_bye-received_example =
    gossip_bye-received anna_world 1 world quiet (omega arith) (omega arith) quiet-Inv unseen

abbrev music : List ℕ
music = b'm' ∷ b'u' ∷ b'/' ∷ []

abbrev films : List ℕ
films = b'f' ∷ b'/' ∷ []

abbrev lines : List ℕ → List ℕ
lines behind = write_line films (write_line music (write_line [] behind))

music-IsWord : IsWord music
music-IsWord = ground arith

films-IsWord : IsWord films
films-IsWord = ground arith

music-IsDir : IsDir music
unfolding same_word
music-IsDir = record {
  some_byte = omega arith;
  word = music-IsWord;
  fits = omega arith;
  other = refl;
}

films-IsDir : IsDir films
unfolding same_word
films-IsDir = record {
  some_byte = omega arith;
  word = films-IsWord;
  fits = omega arith;
  other = refl;
}

set_dir_cond_example :
    (set_dir_cond (typed (music ∷ films ∷ [])) (lines [])
      ≡ some (lines (written (music ∷ films ∷ []))))
    × (file_cond (lines (written (music ∷ films ∷ []))) ≡ some (music ∷ films ∷ []))
set_dir_cond_example =
    set_dir_cond-file_cond films music [] [] (music ∷ films ∷ []) (word-OneLine films films-IsWord)
      (word-OneLine music music-IsWord) tt (music-IsDir, (films-IsDir, tt))
