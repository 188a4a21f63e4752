-- ===== src/Sync/ReadersWriters/Invariant.antt =====
-- Who holds the switches, whom the counters count, and for whom the room is shut.
use rounds.Base.{ℕ, ◌+◌, ◌≡◌, ◌≤◌, ◌<◌, ◌⊎◌, refl, arith}
use rounds.Sync.Threads.{move_to, tally, tally-move_to, tally_zero, one-le-tally}
use rounds.Sync.ReadersWriters.{
  WritersReader, Pc, r_switch, r_count, r_test, r_wait, r_post, r_release, reading, r_uncount,
  r_utest, r_give, r_upost, w_count, w_test, w_wait, w_post, w_enter, writing, w_leave, w_uncount,
  w_utest, w_give, w_upost, Move, ask_to_read, take_read, count_reader, first_reader, next_reader,
  stop_writers, drop_read, next_one, retake_read, uncount_reader, last_reader, more_readers,
  let_writers, redrop_read, take_write, count_writer, first_writer, next_writer, stop_readers,
  drop_write, begin_write, end_write, retake_write, uncount_writer, last_writer, more_writers,
  let_readers, redrop_write, System, init, pick, Reach, start, later,
}

-- The read switch is held, at none of the places of `read_new`, `read_out` and `read_give`.
abbrev pub has_read : Pc → ℕ
has_read r_count = 1
has_read r_post = 1
has_read r_uncount = 1
has_read r_upost = 1
has_read _ = 0

-- Counted by the read switch, with the room shut for writers.
abbrev pub read_in : Pc → ℕ
read_in r_post = 1
read_in r_release = 1
read_in reading = 1
read_in r_uncount = 1
read_in _ = 0

-- Counted by the read switch, before the room is shut for writers.
abbrev pub read_new : Pc → ℕ
read_new r_test = 1
read_new r_wait = 1
read_new _ = 0

-- No longer counted by the read switch, with the room still shut for writers.
abbrev pub read_out : Pc → ℕ
read_out r_utest = 1
read_out _ = 0

-- Likewise, about to let the writers in.
abbrev pub read_give : Pc → ℕ
read_give r_give = 1
read_give _ = 0

abbrev pub is_writing : Pc → ℕ
is_writing writing = 1
is_writing _ = 0

-- Between `sem_wait(noReaders)` and `sem_post(noReaders)` of a reader.
abbrev pub asking : Pc → ℕ
asking r_switch = 1
asking r_count = 1
asking r_test = 1
asking r_wait = 1
asking r_post = 1
asking r_release = 1
asking _ = 0

-- The write switch is held, at none of the places of `write_new`, `write_out` and `write_give`.
abbrev pub has_write : Pc → ℕ
has_write w_count = 1
has_write w_post = 1
has_write w_uncount = 1
has_write w_upost = 1
has_write _ = 0

-- Counted by the write switch, with new readers kept out.
abbrev pub write_in : Pc → ℕ
write_in w_post = 1
write_in w_enter = 1
write_in writing = 1
write_in w_leave = 1
write_in w_uncount = 1
write_in _ = 0

-- Counted by the write switch, before new readers are kept out.
abbrev pub write_new : Pc → ℕ
write_new w_test = 1
write_new w_wait = 1
write_new _ = 0

-- No longer counted by the write switch, with new readers still kept out.
abbrev pub write_out : Pc → ℕ
write_out w_utest = 1
write_out _ = 0

-- Likewise, about to let new readers in.
abbrev pub write_give : Pc → ℕ
write_give w_give = 1
write_give _ = 0

-- The room is shut by a switch exactly while threads between its two ends are counted.
abbrev Shuts : ℕ → ℕ → Type 0
Shuts inside free = ((inside ≡ 0) × (free ≡ 1)) ⊎ ((1 ≤ inside) × (free ≡ 0))

pub record Inv (n : ℕ) (s : WritersReader) (pc : ℕ → Pc) : Type 0 where
  pub read_mutex :
      s.read_switch.sem
        + tally has_read n pc
        + tally read_new n pc
        + tally read_out n pc
        + tally read_give n pc
      ≡ 1
  pub read_count : s.read_switch.counter ≡ tally read_in n pc + tally read_new n pc
  pub read_shut :
      Shuts
        (tally read_in n pc + tally read_out n pc + tally read_give n pc)
        (s.no_writers + tally is_writing n pc)
  pub read_last : (tally read_give n pc ≡ 0) ⊎ (s.read_switch.counter ≡ 0)
  pub write_mutex :
      s.write_switch.sem
        + tally has_write n pc
        + tally write_new n pc
        + tally write_out n pc
        + tally write_give n pc
      ≡ 1
  pub write_count : s.write_switch.counter ≡ tally write_in n pc + tally write_new n pc
  pub write_shut :
      Shuts
        (tally write_in n pc + tally write_out n pc + tally write_give n pc)
        (s.no_readers + tally asking n pc)
  pub write_last : (tally write_give n pc ≡ 0) ⊎ (s.write_switch.counter ≡ 0)

-- How the tallies change when a thread goes from `p` to `p'`.
record Moved (n : ℕ) (pc pc' : ℕ → Pc) (p p' : Pc) : Type 0 where
  has_read_moves : tally has_read n pc' + has_read p ≡ tally has_read n pc + has_read p'
  has_read_here : has_read p ≤ tally has_read n pc
  read_in_moves : tally read_in n pc' + read_in p ≡ tally read_in n pc + read_in p'
  read_in_here : read_in p ≤ tally read_in n pc
  read_new_moves : tally read_new n pc' + read_new p ≡ tally read_new n pc + read_new p'
  read_new_here : read_new p ≤ tally read_new n pc
  read_out_moves : tally read_out n pc' + read_out p ≡ tally read_out n pc + read_out p'
  read_out_here : read_out p ≤ tally read_out n pc
  read_give_moves : tally read_give n pc' + read_give p ≡ tally read_give n pc + read_give p'
  read_give_here : read_give p ≤ tally read_give n pc
  is_writing_moves : tally is_writing n pc' + is_writing p ≡ tally is_writing n pc + is_writing p'
  is_writing_here : is_writing p ≤ tally is_writing n pc
  asking_moves : tally asking n pc' + asking p ≡ tally asking n pc + asking p'
  asking_here : asking p ≤ tally asking n pc
  has_write_moves : tally has_write n pc' + has_write p ≡ tally has_write n pc + has_write p'
  has_write_here : has_write p ≤ tally has_write n pc
  write_in_moves : tally write_in n pc' + write_in p ≡ tally write_in n pc + write_in p'
  write_in_here : write_in p ≤ tally write_in n pc
  write_new_moves : tally write_new n pc' + write_new p ≡ tally write_new n pc + write_new p'
  write_new_here : write_new p ≤ tally write_new n pc
  write_out_moves : tally write_out n pc' + write_out p ≡ tally write_out n pc + write_out p'
  write_out_here : write_out p ≤ tally write_out n pc
  write_give_moves : tally write_give n pc' + write_give p ≡ tally write_give n pc + write_give p'
  write_give_here : write_give p ≤ tally write_give n pc

moved : (n : ℕ) (pc : ℕ → Pc) (i : ℕ) (p' : Pc) → i < n → Moved n pc (move_to pc i p') (pc i) p'
moved n pc i p' h = record {
  has_read_moves = tally-move_to has_read n pc i p' h;
  has_read_here = one-le-tally has_read n pc i h;
  read_in_moves = tally-move_to read_in n pc i p' h;
  read_in_here = one-le-tally read_in n pc i h;
  read_new_moves = tally-move_to read_new n pc i p' h;
  read_new_here = one-le-tally read_new n pc i h;
  read_out_moves = tally-move_to read_out n pc i p' h;
  read_out_here = one-le-tally read_out n pc i h;
  read_give_moves = tally-move_to read_give n pc i p' h;
  read_give_here = one-le-tally read_give n pc i h;
  is_writing_moves = tally-move_to is_writing n pc i p' h;
  is_writing_here = one-le-tally is_writing n pc i h;
  asking_moves = tally-move_to asking n pc i p' h;
  asking_here = one-le-tally asking n pc i h;
  has_write_moves = tally-move_to has_write n pc i p' h;
  has_write_here = one-le-tally has_write n pc i h;
  write_in_moves = tally-move_to write_in n pc i p' h;
  write_in_here = one-le-tally write_in n pc i h;
  write_new_moves = tally-move_to write_new n pc i p' h;
  write_new_here = one-le-tally write_new n pc i h;
  write_out_moves = tally-move_to write_out n pc i p' h;
  write_out_here = one-le-tally write_out n pc i h;
  write_give_moves = tally-move_to write_give n pc i p' h;
  write_give_here = one-le-tally write_give n pc i h;
}

Move-Inv :
    {n : ℕ} {s s' : WritersReader} {pc pc' : ℕ → Pc} {p p' : Pc}
    → Move s p s' p'
    → Moved n pc pc' p p'
    → Inv n s pc
    → Inv n s' pc'
Move-Inv (ask_to_read h) m v = omega arith
Move-Inv (take_read h) m v = omega arith
Move-Inv count_reader m v = omega arith
Move-Inv (first_reader e) m v = omega arith
Move-Inv (next_reader ne) m v = omega arith
Move-Inv (stop_writers h) m v = omega arith
Move-Inv drop_read m v = omega arith
Move-Inv next_one m v = omega arith
Move-Inv (retake_read h) m v = omega arith
Move-Inv uncount_reader m v = omega arith
Move-Inv (last_reader e) m v = omega arith
Move-Inv (more_readers ne) m v = omega arith
Move-Inv let_writers m v = omega arith
Move-Inv redrop_read m v = omega arith
Move-Inv (take_write h) m v = omega arith
Move-Inv count_writer m v = omega arith
Move-Inv (first_writer e) m v = omega arith
Move-Inv (next_writer ne) m v = omega arith
Move-Inv (stop_readers h) m v = omega arith
Move-Inv drop_write m v = omega arith
Move-Inv (begin_write h) m v = omega arith
Move-Inv end_write m v = omega arith
Move-Inv (retake_write h) m v = omega arith
Move-Inv uncount_writer m v = omega arith
Move-Inv (last_writer e) m v = omega arith
Move-Inv (more_writers ne) m v = omega arith
Move-Inv let_readers m v = omega arith
Move-Inv redrop_write m v = omega arith

-- The invariant holds at the start and is kept by every step.
pub Reach-Inv : {n : ℕ} {s : System} → Reach n s → Inv n s.lock s.pc
Reach-Inv {n} start = omega (
  arith,
  tally_zero has_read n init.pc (λ _. refl),
  tally_zero read_in n init.pc (λ _. refl),
  tally_zero read_new n init.pc (λ _. refl),
  tally_zero read_out n init.pc (λ _. refl),
  tally_zero read_give n init.pc (λ _. refl),
  tally_zero is_writing n init.pc (λ _. refl),
  tally_zero asking n init.pc (λ _. refl),
  tally_zero has_write n init.pc (λ _. refl),
  tally_zero write_in n init.pc (λ _. refl),
  tally_zero write_new n init.pc (λ _. refl),
  tally_zero write_out n init.pc (λ _. refl),
  tally_zero write_give n init.pc (λ _. refl),
)
Reach-Inv {n} (later {s} r (pick i {p} lt mv)) = Move-Inv mv (moved n s.pc i p lt) (Reach-Inv r)
