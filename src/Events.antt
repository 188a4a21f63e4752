-- ===== src/Events.antt =====
-- The event buffer of two_rounds/func_strutture.c: the searches that run, each with the peers that
-- have answered. The lock `sem_event` makes every operation one step; the time that `time(NULL)`
-- returns is an argument.
pub mod Laws
use rounds.Base.{
  ℕ, zero, suc, ◌+◌, Bool, true, false, Option, none, some, List, [], ◌∷◌, ◌==◌, ltb, if◌then◌else◌,
  set, get_or, replicate, find_first,
}
use rounds.Params.{id_m, max_evt, max_result}
use rounds.Peer.{Peer, same_peer, nobody}
use rounds.Wire.{dif_str, copy_id, zero_id}

-- `struct Event`; `struct Result` is a peer.
pub record Event : Type 0 where
  pub id : List ℕ  -- char[16]
  pub limit : ℕ
  pub age_time : ℕ  -- time_t
  pub list_result : List Peer

abbrev pub BufferEvent : Type 0
BufferEvent = List Event

abbrev pub free_event : Event
free_event = record {
  id = zero_id;
  limit = 0;
  age_time = 0;
  list_result = replicate max_result nobody;
}

unfoldable pub init_buffer_event : BufferEvent
init_buffer_event = replicate max_evt free_event

unfoldable pub reset_buffer_event : BufferEvent → ℕ → BufferEvent
reset_buffer_event b index = set b index free_event

abbrev pub is_free : Event → Bool
is_free e = e.age_time == 0

abbrev pub is_some {ℓ} : {A : Type ℓ} → Option A → Bool
is_some none = false
is_some (some i) = true

-- `insert_event`: the index of the event, or `_MAX_EVT` when no element is free.
unfoldable pub insert_event : ℕ → List ℕ → BufferEvent → BufferEvent × ℕ
insert_event now id b = elim (find_first is_free max_evt b) [
  | some i ↦ (set b i (record (get_or b i free_event) { id = copy_id id; age_time = now }), i)
  | none ↦ (b, max_evt)
]

-- The inner loop of `helper_query_hit` and the insertion behind it: the answer of a peer that is not
-- in the list yet.
unfoldable pub add_result : Peer → Event → Event
add_result p e = elim (find_first (same_peer p) e.limit e.list_result) [
  | some _ ↦ e
  | none ↦ record e { limit = e.limit + 1; list_result = set e.list_result e.limit p }
]

-- The loop over the events: it ends at an event that is full, and behind the first one with the id.
unfoldable pub record_hit : ℕ → Peer → List ℕ → BufferEvent → BufferEvent
record_hit zero p id b = b
record_hit (suc n) p id [] = []
record_hit (suc n) p id (e ∷ b) =
    let rest = record_hit n p id b in
    if ltb e.limit max_result
    then (if dif_str e.id id id_m == 0 then add_result p e ∷ b else e ∷ rest)
    else e ∷ b
