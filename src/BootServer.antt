-- ===== src/BootServer.antt =====
-- The bootstrap server, server_bootstrap/func_strutture.c and server_bootstrap/dispatcher_servboot.c:
-- a table of the peers that have asked, and for each request a selection of them. The lock
-- `sem_buf_nodi` makes each operation one step; what `rand()` returns is an argument.
pub mod Laws
pub mod Answers
use rounds.Base.{
  ℕ, zero, suc, ◌+◌, ◌-◌, Bool, true, false, Option, none, some, List, [], ◌∷◌, ◌&&◌, ◌||◌, ◌==◌,
  ltb, if◌then◌else◌, get_or, set, replicate, find_first, not,
}
use rounds.Params.{server_nodi, n_nodi}
use rounds.Peer.{Peer, same_peer, nobody}
use rounds.Random.{num_random}

-- `struct Buffer_nodi`
pub record BufferNodi : Type 0 where
  pub limit : ℕ
  pub nodi : List Peer

abbrev pub init_buffer_nodi : BufferNodi
init_buffer_nodi = record { limit = 0; nodi = replicate n_nodi nobody }

-- `struct Gossip_Server_nodi`, without its header.
pub record ServerNodi : Type 0 where
  pub limit : ℕ
  pub boot_neighbour : List Peer

abbrev pub init_gserver_nodi : ServerNodi
init_gserver_nodi = record { limit = 0; boot_neighbour = replicate server_nodi nobody }

unfoldable pub iscrizione : Peer → BufferNodi → BufferNodi × Bool
iscrizione p b =
    if ltb b.limit n_nodi
    then (record { limit = b.limit + 1; nodi = set b.nodi b.limit p }, true)
    else (b, false)

unfoldable pub search_nodo : Peer → BufferNodi → Bool
search_nodo p b = elim (find_first (λ q. same_peer q p) b.limit b.nodi) [
  | some _ ↦ true
  | none ↦ false
]

-- `for (i = 0; i < buffer_nodi->limit; ++i)`: every peer but the one that asks.
unfoldable pub copy_others : Peer → ℕ → List Peer → ServerNodi → ServerNodi
copy_others p zero nodi msg = msg
copy_others p (suc n) [] msg = msg
copy_others p (suc n) (q ∷ nodi) msg = copy_others p n nodi (
    if same_peer q p
    then msg
    else record { limit = msg.limit + 1; boot_neighbour = set msg.boot_neighbour msg.limit q })

-- The test of the inner loop: `num` was drawn before, or it is the peer that asks and something has
-- been drawn before.
unfoldable pub refused : ℕ → Peer → BufferNodi → List ℕ → Bool
refused num p b [] = false
refused num p b (w ∷ index) =
    let rest = refused num p b index in num == w || same_peer (get_or b.nodi num nobody) p || rest

-- `for (j = 0; j < SERVER_NODI; )` in the other branch, with what has been drawn so far. `msg->limit`
-- is not set there.
unfoldable pub draw_others : Peer → BufferNodi → List ℕ → ℕ → List ℕ → ServerNodi → ServerNodi
draw_others p b [] j index msg = msg
draw_others p b (rand ∷ rands) j index msg =
    let num = num_random b.limit rand in
    if ltb j server_nodi
    then elim (refused num p b index) [
      | true ↦ draw_others p b rands j index msg
      | false ↦
          draw_others p b rands (j + 1) (num ∷ index)
            (record msg { boot_neighbour = set msg.boot_neighbour j (get_or b.nodi num nobody) })
    ]
    else msg

-- `n = limit; n--; if (n < SERVER_NODI)`, with signed numbers: an empty table gives -1.
unfoldable pub set_gserver_nodi : Peer → List ℕ → BufferNodi → ServerNodi → ServerNodi
set_gserver_nodi p rands b msg =
    if ltb b.limit (server_nodi + 1)
    then copy_others p b.limit b.nodi msg
    else draw_others p b rands 0 [] msg

-- The body of the loop of `func_helper_servboot` for a message with the descriptor
-- `_BOOT_SERVER_PING`: the table afterwards and the answer.
unfoldable pub func_helper_servboot : Peer → List ℕ → BufferNodi → BufferNodi × ServerNodi
func_helper_servboot p rands b =
    let (enrolled, done) = iscrizione p b in
    let b' = if search_nodo p b then b else enrolled in
    (b', set_gserver_nodi p rands b' init_gserver_nodi)
