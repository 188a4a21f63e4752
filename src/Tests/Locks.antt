-- ===== src/Tests/Locks.antt =====
-- The locks at concrete runs.
use rounds.Base.{ℕ, ◌≡◌, ◌≢◌, ◌<◌, refl, arith, List, [], ◌∷◌}
use rounds.Sync.Threads.{move_to}
use rounds.Sync.TwoRooms as Two
use rounds.Sync.TwoRooms.Safety.{CanMove, mutual_exclusion, deadlock_freedom}
use rounds.Sync.ReadersWriters as Rw
use rounds.Sync.ReadersWriters.Invariant.{asking}
use rounds.Sync.ReadersWriters.Safety.{no_read_while_writing, writers_first}

-- Thread 0 of two has gone through the places listed, the last first; thread 1 is idle.
abbrev walked : List Two.Pc → ℕ → Two.Pc
walked [] = Two.init.pc
walked (p ∷ ps) = move_to (walked ps) 0 p

abbrev inside : Two.System
inside = record {
  rooms = record { room1 = 0; room2 = 0; mutex = 1; t1 = 0; t2 = 0 };
  pc = walked (
      Two.critical ∷ Two.dec_room2 ∷ Two.wait_t2 ∷ Two.post_t2 ∷ Two.post_mutex_t2 ∷ Two.test_room1
      ∷ Two.dec_room1 ∷ Two.wait_mutex ∷ Two.inc_room2 ∷ Two.wait_t1 ∷ Two.post_mutex
      ∷ Two.inc_room1 ∷ []);
}

inside-Reach : Two.Reach 2 inside
inside-Reach =
    let lt : 0 < 2 = omega arith in
    let pos : 0 < 1 = omega arith in
    let a = Two.later Two.start (Two.pick 0 lt (Two.enter pos)) in
    let b = Two.later a (Two.pick 0 lt Two.count_in) in
    let c = Two.later b (Two.pick 0 lt Two.release_in) in
    let d = Two.later c (Two.pick 0 lt (Two.pass_t1 pos)) in
    let e = Two.later d (Two.pick 0 lt Two.count_two) in
    let f = Two.later e (Two.pick 0 lt (Two.acquire pos)) in
    let g = Two.later f (Two.pick 0 lt Two.count_out) in
    let h = Two.later g (Two.pick 0 lt (Two.last_in refl)) in
    let i = Two.later h (Two.pick 0 lt Two.release_last) in
    let j = Two.later i (Two.pick 0 lt Two.open_t2) in
    let k = Two.later j (Two.pick 0 lt (Two.pass_t2 pos)) in
    Two.later k (Two.pick 0 lt Two.count_done)

abbrev thread : ℕ
thread = 0

mutual_exclusion_example : thread ≡ thread
mutual_exclusion_example =
    mutual_exclusion thread thread inside-Reach (omega arith) (omega arith) refl refl

deadlock_freedom_example :
    (j : ℕ) × (j < 2) × (inside.pc j ≢ Two.idle) × CanMove inside.rooms (inside.pc j)
deadlock_freedom_example = deadlock_freedom 0 inside-Reach (omega arith) (λ e. cc (e))

-- Thread 0 reads, and thread 1 is idle; or thread 0 writes.
abbrev went : List Rw.Pc → ℕ → Rw.Pc
went [] = Rw.init.pc
went (p ∷ ps) = move_to (went ps) 0 p

abbrev with_reader : Rw.System
with_reader = record {
  lock = record {
    no_readers = 1;
    no_writers = 0;
    read_switch = record { sem = 1; counter = 1 };
    write_switch = record { sem = 1; counter = 0 };
  };
  pc = went (
      Rw.reading ∷ Rw.r_release ∷ Rw.r_post ∷ Rw.r_wait ∷ Rw.r_test ∷ Rw.r_count ∷ Rw.r_switch
      ∷ []);
}

with_reader-Reach : Rw.Reach 2 with_reader
with_reader-Reach =
    let lt : 0 < 2 = omega arith in
    let pos : 0 < 1 = omega arith in
    let a = Rw.later Rw.start (Rw.pick 0 lt (Rw.ask_to_read pos)) in
    let b = Rw.later a (Rw.pick 0 lt (Rw.take_read pos)) in
    let c = Rw.later b (Rw.pick 0 lt Rw.count_reader) in
    let d = Rw.later c (Rw.pick 0 lt (Rw.first_reader refl)) in
    let e = Rw.later d (Rw.pick 0 lt (Rw.stop_writers pos)) in
    let f = Rw.later e (Rw.pick 0 lt Rw.drop_read) in Rw.later f (Rw.pick 0 lt Rw.next_one)

abbrev with_writer : Rw.System
with_writer = record {
  lock = record {
    no_readers = 0;
    no_writers = 0;
    read_switch = record { sem = 1; counter = 0 };
    write_switch = record { sem = 1; counter = 1 };
  };
  pc = went (Rw.writing ∷ Rw.w_enter ∷ Rw.w_post ∷ Rw.w_wait ∷ Rw.w_test ∷ Rw.w_count ∷ []);
}

with_writer-Reach : Rw.Reach 2 with_writer
with_writer-Reach =
    let lt : 0 < 2 = omega arith in
    let pos : 0 < 1 = omega arith in
    let a = Rw.later Rw.start (Rw.pick 0 lt (Rw.take_write pos)) in
    let b = Rw.later a (Rw.pick 0 lt Rw.count_writer) in
    let c = Rw.later b (Rw.pick 0 lt (Rw.first_writer refl)) in
    let d = Rw.later c (Rw.pick 0 lt (Rw.stop_readers pos)) in
    let e = Rw.later d (Rw.pick 0 lt Rw.drop_write) in
    Rw.later e (Rw.pick 0 lt (Rw.begin_write pos))

no_read_while_writing_example : with_reader.pc 1 ≢ Rw.writing
no_read_while_writing_example =
    no_read_while_writing 0 1 with_reader-Reach (omega arith) (omega arith) refl

writers_first_example :
    (with_writer.lock.no_readers ≡ 0) × ((j : ℕ) → j < 2 → asking (with_writer.pc j) ≡ 0)
writers_first_example = writers_first 0 with_writer-Reach (omega arith) (omega arith)
