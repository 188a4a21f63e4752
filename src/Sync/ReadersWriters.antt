-- ===== src/Sync/ReadersWriters.antt =====
-- `Lightswitch` and `Writers_Reader` of two_rounds/sincronization.c, the lock around the buffer of
-- the neighbours: readers share it, a writer has it alone, and a writer that waits keeps new readers
-- out.
pub mod Invariant
pub mod Safety
use rounds.Base.{ℕ, zero, suc, ◌+◌, ◌-◌, ◌≡◌, ◌≢◌, ◌<◌}
use rounds.Sync.Threads.{move_to}

-- `Lightswitch`: the semaphore by its value.
pub record Lightswitch : Type 0 where
  pub sem : ℕ
  pub counter : ℕ

-- `Writers_Reader`. No function uses its `mutex`.
pub record WritersReader : Type 0 where
  pub no_readers : ℕ
  pub no_writers : ℕ
  pub read_switch : Lightswitch
  pub write_switch : Lightswitch

abbrev pub make_lightswitch : Lightswitch
make_lightswitch = record { sem = 1; counter = 0 }

abbrev pub make_writers_reader : WritersReader
make_writers_reader = record {
  no_readers = 1;
  no_writers = 1;
  read_switch = make_lightswitch;
  write_switch = make_lightswitch;
}

-- Where a thread stands: the constructor is named after the statement that is next. `r_` is
-- `lock_WR_Reader` and `unlock_WR_Reader`, `w_` is `lock_WR_Writers` and `unlock_WR_Writers`, each
-- with the `lockLightswitch` or `unlockLightswitch` it calls.
pub data Pc : Type 0 where
  idle : Pc
  r_switch : Pc  -- `sem_wait(ligth->sem)` of the read switch
  r_count : Pc
  r_test : Pc
  r_wait : Pc  -- `sem_wait(noWriters)`
  r_post : Pc
  r_release : Pc  -- `sem_post(noReaders)`
  reading : Pc
  r_uncount : Pc
  r_utest : Pc
  r_give : Pc  -- `sem_post(noWriters)`
  r_upost : Pc
  w_count : Pc
  w_test : Pc
  w_wait : Pc  -- `sem_wait(noReaders)`
  w_post : Pc
  w_enter : Pc  -- `sem_wait(noWriters)`
  writing : Pc
  w_leave : Pc  -- `sem_wait(ligth->sem)` of the write switch
  w_uncount : Pc
  w_utest : Pc
  w_give : Pc  -- `sem_post(noReaders)`
  w_upost : Pc

abbrev pub set_sem : Lightswitch → ℕ → Lightswitch
set_sem l k = record l { sem = k }

abbrev pub set_counter : Lightswitch → ℕ → Lightswitch
set_counter l k = record l { counter = k }

abbrev pub set_read : WritersReader → Lightswitch → WritersReader
set_read s l = record s { read_switch = l }

abbrev pub set_write : WritersReader → Lightswitch → WritersReader
set_write s l = record s { write_switch = l }

-- One step of one thread: a call on a semaphore, a test, or a `++` or `--` of a counter, whose read
-- and write are one step here; the semaphore of its switch lets one thread at a time at a counter.
-- `sem_wait` passes where the semaphore is not 0.
pub data Move (s : WritersReader) : Pc → WritersReader → Pc → Type 0 where
  ask_to_read : 0 < s.no_readers → Move s idle (record s { no_readers = s.no_readers - 1 }) r_switch
  take_read :
      0 < s.read_switch.sem
      → Move s r_switch (set_read s (set_sem s.read_switch (s.read_switch.sem - 1))) r_count
  count_reader :
      Move s r_count (set_read s (set_counter s.read_switch (s.read_switch.counter + 1))) r_test
  first_reader : s.read_switch.counter ≡ 1 → Move s r_test s r_wait
  next_reader : s.read_switch.counter ≢ 1 → Move s r_test s r_post
  stop_writers :
      0 < s.no_writers → Move s r_wait (record s { no_writers = s.no_writers - 1 }) r_post
  drop_read : Move s r_post (set_read s (set_sem s.read_switch (s.read_switch.sem + 1))) r_release
  next_one : Move s r_release (record s { no_readers = s.no_readers + 1 }) reading
  retake_read :
      0 < s.read_switch.sem
      → Move s reading (set_read s (set_sem s.read_switch (s.read_switch.sem - 1))) r_uncount
  uncount_reader :
      Move s r_uncount (set_read s (set_counter s.read_switch (s.read_switch.counter - 1))) r_utest
  last_reader : s.read_switch.counter ≡ 0 → Move s r_utest s r_give
  more_readers : s.read_switch.counter ≢ 0 → Move s r_utest s r_upost
  let_writers : Move s r_give (record s { no_writers = s.no_writers + 1 }) r_upost
  redrop_read : Move s r_upost (set_read s (set_sem s.read_switch (s.read_switch.sem + 1))) idle
  take_write :
      0 < s.write_switch.sem
      → Move s idle (set_write s (set_sem s.write_switch (s.write_switch.sem - 1))) w_count
  count_writer :
      Move s w_count (set_write s (set_counter s.write_switch (s.write_switch.counter + 1))) w_test
  first_writer : s.write_switch.counter ≡ 1 → Move s w_test s w_wait
  next_writer : s.write_switch.counter ≢ 1 → Move s w_test s w_post
  stop_readers :
      0 < s.no_readers → Move s w_wait (record s { no_readers = s.no_readers - 1 }) w_post
  drop_write : Move s w_post (set_write s (set_sem s.write_switch (s.write_switch.sem + 1))) w_enter
  begin_write :
      0 < s.no_writers → Move s w_enter (record s { no_writers = s.no_writers - 1 }) writing
  end_write : Move s writing (record s { no_writers = s.no_writers + 1 }) w_leave
  retake_write :
      0 < s.write_switch.sem
      → Move s w_leave (set_write s (set_sem s.write_switch (s.write_switch.sem - 1))) w_uncount
  uncount_writer :
      Move s w_uncount
        (set_write s (set_counter s.write_switch (s.write_switch.counter - 1)))
        w_utest
  last_writer : s.write_switch.counter ≡ 0 → Move s w_utest s w_give
  more_writers : s.write_switch.counter ≢ 0 → Move s w_utest s w_upost
  let_readers : Move s w_give (record s { no_readers = s.no_readers + 1 }) w_upost
  redrop_write : Move s w_upost (set_write s (set_sem s.write_switch (s.write_switch.sem + 1))) idle

-- The lock with `n` threads, each of which reads or writes as it likes.
pub record System : Type 0 where
  pub lock : WritersReader
  pub pc : ℕ → Pc

abbrev pub init : System
init = record { lock = make_writers_reader; pc = λ _. idle }

pub data Step (n : ℕ) (s : System) : System → Type 0 where
  pick :
      (i : ℕ) {r : WritersReader} {p : Pc}
      → i < n
      → Move s.lock (s.pc i) r p
      → Step n s (record { lock = r; pc = move_to s.pc i p })

pub data Reach (n : ℕ) : System → Type 0 where
  start : Reach n init
  later : {s t : System} → Reach n s → Step n s t → Reach n t
