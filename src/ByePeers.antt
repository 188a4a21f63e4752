-- ===== src/ByePeers.antt =====
-- The buffer of the peers that have left, of two_rounds/func_strutture.c. The lock `sem_bye_peer`
-- makes every operation one step; the time that `time(NULL)` returns is an argument.
pub mod Laws
use rounds.Base.{
  ℕ, ◌+◌, Bool, true, false, List, replicate, Option, none, some, ◌==◌, ltb, find_first,
}
use rounds.Params.{max_bye_peer, dif_time_dated}
use rounds.Peer.{Peer, same_peer, nobody}
use rounds.Slots.{search_insert, reset_where}

-- `struct ByePeer`
pub record ByePeer : Type 0 where
  pub peer : Peer
  pub age_time : ℕ  -- time_t

abbrev pub BufferByePeer : Type 0
BufferByePeer = List ByePeer

abbrev pub free_peer : ByePeer
free_peer = record { peer = nobody; age_time = 0 }

unfoldable pub init_buffer_bye_peer : BufferByePeer
init_buffer_bye_peer = replicate max_bye_peer free_peer

abbrev pub is_entry : Peer → ByePeer → Bool
is_entry p c = same_peer p c.peer

abbrev pub is_free : ByePeer → Bool
is_free c = c.age_time == 0

unfoldable pub search_insert_peer : ℕ → Peer → BufferByePeer → BufferByePeer × Bool
search_insert_peer now p b =
    search_insert (is_entry p) is_free (record { peer = p; age_time = now }) max_bye_peer b

unfoldable pub search_bye_peer : Peer → BufferByePeer → Bool
search_bye_peer p b = elim (find_first (is_entry p) max_bye_peer b) [ some _ ↦ true | none ↦ false ]

unfoldable pub delete_bye_peer : Peer → BufferByePeer → BufferByePeer
delete_bye_peer p b = reset_where (is_entry p) free_peer b

abbrev pub is_dated : ℕ → ByePeer → Bool
is_dated now c = ltb (c.age_time + dif_time_dated) now

unfoldable pub delete_dated_bye_peer : ℕ → BufferByePeer → BufferByePeer
delete_dated_bye_peer now b = reset_where (is_dated now) free_peer b
