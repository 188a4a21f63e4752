-- ===== src/MessageLog.antt =====
-- The message buffer of two_rounds/func_strutture.c: the ids of the messages seen lately, so that a
-- message which comes again is dropped. The lock `sem_message` makes every operation one step; the
-- time that `time(NULL)` returns is an argument.
pub mod Laws
use rounds.Base.{ℕ, ◌+◌, Bool, List, replicate, ◌==◌, ltb}
use rounds.Params.{id_m, max_msm, dif_time_dated}
use rounds.Wire.{dif_str, copy_id, zero_id}
use rounds.Slots.{search_insert, reset_where}

-- `struct Message`
pub record Message : Type 0 where
  pub id : List ℕ
  pub age_time : ℕ  -- time_t

abbrev pub BufferMessage : Type 0
BufferMessage = List Message

abbrev pub free_message : Message
free_message = record { id = zero_id; age_time = 0 }

unfoldable pub init_buffer_message : BufferMessage
init_buffer_message = replicate max_msm free_message

abbrev pub has_id : List ℕ → Message → Bool
has_id id m = dif_str m.id id id_m == 0

abbrev pub is_free : Message → Bool
is_free m = m.age_time == 0

unfoldable pub search_insert_id : ℕ → List ℕ → BufferMessage → BufferMessage × Bool
search_insert_id now id b =
    search_insert (has_id id) is_free (record { id = copy_id id; age_time = now }) max_msm b

-- `difftime(tempo, age_time) > _DIF_TIME_DATED_MSG`, a difference of signed numbers.
abbrev pub is_dated : ℕ → Message → Bool
is_dated now m = ltb (m.age_time + dif_time_dated) now

unfoldable pub delete_dated_msg : ℕ → BufferMessage → BufferMessage
delete_dated_msg now b = reset_where (is_dated now) free_message b
