-- ===== src/Sync/TwoRooms.antt =====
-- `Two_rooms` of two_rounds/sincronization.c, the lock without starvation of Morris: a thread passes
-- through room 1 into room 2, and from there into the critical section, by two gates `t1`, `t2` of
-- which one at most is open.
pub mod Invariant
pub mod Safety
use rounds.Base.{ℕ, zero, suc, ◌+◌, ◌-◌, ◌≡◌, ◌≢◌, ◌<◌}
use rounds.Sync.Threads.{move_to}

-- `struct Two_rooms`, with the values of the semaphores.
pub record Rooms : Type 0 where
  pub room1 : ℕ
  pub room2 : ℕ
  pub mutex : ℕ
  pub t1 : ℕ
  pub t2 : ℕ

-- `make_Two_rooms`
abbrev pub make_two_rooms : Rooms
make_two_rooms = record { room1 = 0; room2 = 0; mutex = 1; t1 = 1; t2 = 0 }

-- Where a thread stands in `lock_Two_rooms`, in its critical section or in `unlock_Two_rooms`: the
-- constructor is named after the statement that is next.
pub data Pc : Type 0 where
  idle : Pc
  inc_room1 : Pc  -- after `sem_wait(mutex)`
  post_mutex : Pc
  wait_t1 : Pc
  inc_room2 : Pc
  wait_mutex : Pc
  dec_room1 : Pc
  test_room1 : Pc
  post_mutex_t2 : Pc  -- room 1 is empty
  post_t2 : Pc
  post_mutex_t1 : Pc  -- room 1 is not empty
  post_t1 : Pc
  wait_t2 : Pc
  dec_room2 : Pc
  critical : Pc
  unlock_t1 : Pc  -- room 2 was empty
  unlock_t2 : Pc  -- room 2 was not empty

-- One step of one thread: a call on a semaphore, a test, or a `++` or `--` of a counter, whose read
-- and write are one step here; the semaphores let one thread at a time into `++` and `--` of the same
-- counter. `sem_wait` passes where the semaphore is not 0.
pub data Move (s : Rooms) : Pc → Rooms → Pc → Type 0 where
  enter : 0 < s.mutex → Move s idle (record s { mutex = s.mutex - 1 }) inc_room1
  count_in : Move s inc_room1 (record s { room1 = s.room1 + 1 }) post_mutex
  release_in : Move s post_mutex (record s { mutex = s.mutex + 1 }) wait_t1
  pass_t1 : 0 < s.t1 → Move s wait_t1 (record s { t1 = s.t1 - 1 }) inc_room2
  count_two : Move s inc_room2 (record s { room2 = s.room2 + 1 }) wait_mutex
  acquire : 0 < s.mutex → Move s wait_mutex (record s { mutex = s.mutex - 1 }) dec_room1
  count_out : Move s dec_room1 (record s { room1 = s.room1 - 1 }) test_room1
  last_in : s.room1 ≡ 0 → Move s test_room1 s post_mutex_t2
  more_in : s.room1 ≢ 0 → Move s test_room1 s post_mutex_t1
  release_last : Move s post_mutex_t2 (record s { mutex = s.mutex + 1 }) post_t2
  open_t2 : Move s post_t2 (record s { t2 = s.t2 + 1 }) wait_t2
  release_more : Move s post_mutex_t1 (record s { mutex = s.mutex + 1 }) post_t1
  open_t1 : Move s post_t1 (record s { t1 = s.t1 + 1 }) wait_t2
  pass_t2 : 0 < s.t2 → Move s wait_t2 (record s { t2 = s.t2 - 1 }) dec_room2
  count_done : Move s dec_room2 (record s { room2 = s.room2 - 1 }) critical
  leave_last : s.room2 ≡ 0 → Move s critical s unlock_t1
  leave_more : s.room2 ≢ 0 → Move s critical s unlock_t2
  reopen_t1 : Move s unlock_t1 (record s { t1 = s.t1 + 1 }) idle
  reopen_t2 : Move s unlock_t2 (record s { t2 = s.t2 + 1 }) idle

-- The lock with `n` threads.
pub record System : Type 0 where
  pub rooms : Rooms
  pub pc : ℕ → Pc

abbrev pub init : System
init = record { rooms = make_two_rooms; pc = λ _. idle }

pub data Step (n : ℕ) (s : System) : System → Type 0 where
  pick :
      (i : ℕ) {r : Rooms} {p : Pc}
      → i < n
      → Move s.rooms (s.pc i) r p
      → Step n s (record { rooms = r; pc = move_to s.pc i p })

pub data Reach (n : ℕ) : System → Type 0 where
  start : Reach n init
  later : {s t : System} → Reach n s → Step n s t → Reach n t
