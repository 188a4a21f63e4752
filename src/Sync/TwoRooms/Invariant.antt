-- ===== src/Sync/TwoRooms/Invariant.antt =====
-- Who holds the mutex and who the token: exactly one of the gates and the threads between them.
use rounds.Base.{ℕ, ◌+◌, ◌≡◌, ◌≤◌, ◌<◌, ◌⊎◌, inl, inr, refl, arith}
use rounds.Sync.Threads.{move_to, tally, tally-move_to, tally_zero, one-le-tally}
use rounds.Sync.TwoRooms.{
  Rooms, Pc, inc_room1, post_mutex, wait_t1, inc_room2, wait_mutex, dec_room1, test_room1,
  post_mutex_t2, post_t2, post_mutex_t1, post_t1, wait_t2, dec_room2, critical, unlock_t1,
  unlock_t2, Move, enter, count_in, release_in, pass_t1, count_two, acquire, count_out, last_in,
  more_in, release_last, open_t2, release_more, open_t1, pass_t2, count_done, leave_last,
  leave_more, reopen_t1, reopen_t2, System, init, pick, Reach, start, later,
}

abbrev pub has_mutex : Pc → ℕ
has_mutex inc_room1 = 1
has_mutex post_mutex = 1
has_mutex dec_room1 = 1
has_mutex test_room1 = 1
has_mutex post_mutex_t2 = 1
has_mutex post_mutex_t1 = 1
has_mutex _ = 0

-- The token is with a thread that has passed a gate, but for the three places below.
abbrev pub passing : Pc → ℕ
passing inc_room2 = 1
passing wait_mutex = 1
passing dec_room1 = 1
passing test_room1 = 1
passing post_mutex_t2 = 1
passing post_t2 = 1
passing dec_room2 = 1
passing critical = 1
passing _ = 0

abbrev pub in_room1 : Pc → ℕ
in_room1 post_mutex = 1
in_room1 wait_t1 = 1
in_room1 inc_room2 = 1
in_room1 wait_mutex = 1
in_room1 dec_room1 = 1
in_room1 _ = 0

abbrev pub in_room2 : Pc → ℕ
in_room2 wait_mutex = 1
in_room2 dec_room1 = 1
in_room2 test_room1 = 1
in_room2 post_mutex_t2 = 1
in_room2 post_t2 = 1
in_room2 post_mutex_t1 = 1
in_room2 post_t1 = 1
in_room2 wait_t2 = 1
in_room2 dec_room2 = 1
in_room2 _ = 0

-- The token is on its way to gate 2 from the critical section, or to gate 1 from room 2 or from the
-- critical section.
abbrev pub to_t2 : Pc → ℕ
to_t2 unlock_t2 = 1
to_t2 _ = 0

abbrev pub to_t1 : Pc → ℕ
to_t1 post_mutex_t1 = 1
to_t1 post_t1 = 1
to_t1 _ = 0

abbrev pub back_t1 : Pc → ℕ
back_t1 unlock_t1 = 1
back_t1 _ = 0

pub record Inv (n : ℕ) (s : Rooms) (pc : ℕ → Pc) : Type 0 where
  pub mutex_one : s.mutex + tally has_mutex n pc ≡ 1
  pub token_one :
      s.t1 + s.t2 + tally passing n pc + tally to_t1 n pc + tally to_t2 n pc + tally back_t1 n pc
      ≡ 1
  pub first : s.room1 ≡ tally in_room1 n pc
  pub second : s.room2 ≡ tally in_room2 n pc
  pub gate2 : (s.t2 + tally to_t2 n pc ≡ 0) ⊎ (1 ≤ s.room2)
  pub posting1 : (tally to_t1 n pc ≡ 0) ⊎ (1 ≤ s.room1)
  pub leaving1 : (tally back_t1 n pc ≡ 0) ⊎ (s.room2 ≡ 0)
  pub gate1 : (s.t1 ≡ 0) ⊎ (s.room2 ≡ 0) ⊎ (1 ≤ s.room1)

-- How the tallies change when a thread goes from `p` to `p'`.
record Moved (n : ℕ) (pc pc' : ℕ → Pc) (p p' : Pc) : Type 0 where
  mutexes : tally has_mutex n pc' + has_mutex p ≡ tally has_mutex n pc + has_mutex p'
  passings : tally passing n pc' + passing p ≡ tally passing n pc + passing p'
  firsts : tally in_room1 n pc' + in_room1 p ≡ tally in_room1 n pc + in_room1 p'
  seconds : tally in_room2 n pc' + in_room2 p ≡ tally in_room2 n pc + in_room2 p'
  to_t2s : tally to_t2 n pc' + to_t2 p ≡ tally to_t2 n pc + to_t2 p'
  to_t1s : tally to_t1 n pc' + to_t1 p ≡ tally to_t1 n pc + to_t1 p'
  here1 : in_room1 p ≤ tally in_room1 n pc
  here2 : in_room2 p ≤ tally in_room2 n pc
  here_passing : passing p ≤ tally passing n pc
  back_t1s : tally back_t1 n pc' + back_t1 p ≡ tally back_t1 n pc + back_t1 p'

moved : (n : ℕ) (pc : ℕ → Pc) (i : ℕ) (p' : Pc) → i < n → Moved n pc (move_to pc i p') (pc i) p'
moved n pc i p' h = record {
  mutexes = tally-move_to has_mutex n pc i p' h;
  passings = tally-move_to passing n pc i p' h;
  firsts = tally-move_to in_room1 n pc i p' h;
  seconds = tally-move_to in_room2 n pc i p' h;
  to_t2s = tally-move_to to_t2 n pc i p' h;
  to_t1s = tally-move_to to_t1 n pc i p' h;
  here1 = one-le-tally in_room1 n pc i h;
  here2 = one-le-tally in_room2 n pc i h;
  here_passing = one-le-tally passing n pc i h;
  back_t1s = tally-move_to back_t1 n pc i p' h;
}

Move-Inv :
    {n : ℕ} {s s' : Rooms} {pc pc' : ℕ → Pc} {p p' : Pc}
    → Move s p s' p'
    → Moved n pc pc' p p'
    → Inv n s pc
    → Inv n s' pc'
Move-Inv (enter h) m v = omega arith
Move-Inv count_in m v = omega arith
Move-Inv release_in m v = omega arith
Move-Inv (pass_t1 h) m v = omega arith
Move-Inv count_two m v = omega arith
Move-Inv (acquire h) m v = omega arith
Move-Inv count_out m v = omega arith
Move-Inv (last_in e) m v = omega arith
Move-Inv (more_in ne) m v = omega arith
Move-Inv release_last m v = omega arith
Move-Inv open_t2 m v = omega arith
Move-Inv release_more m v = omega arith
Move-Inv open_t1 m v = omega arith
Move-Inv (pass_t2 h) m v = omega arith
Move-Inv count_done m v = omega arith
Move-Inv (leave_last e) m v = omega arith
Move-Inv (leave_more ne) m v = omega arith
Move-Inv reopen_t1 m v = omega arith
Move-Inv reopen_t2 m v = omega arith

-- The invariant holds at the start and is kept by every step.
pub Reach-Inv : {n : ℕ} {s : System} → Reach n s → Inv n s.rooms s.pc
Reach-Inv {n} start = record {
  mutex_one = omega (arith, tally_zero has_mutex n init.pc (λ _. refl));
  token_one = omega (
    arith,
    tally_zero passing n init.pc (λ _. refl),
    tally_zero to_t1 n init.pc (λ _. refl),
    tally_zero to_t2 n init.pc (λ _. refl),
    tally_zero back_t1 n init.pc (λ _. refl),
  );
  first = omega (arith, tally_zero in_room1 n init.pc (λ _. refl));
  second = omega (arith, tally_zero in_room2 n init.pc (λ _. refl));
  gate2 = inl (omega (arith, tally_zero to_t2 n init.pc (λ _. refl)));
  posting1 = inl (tally_zero to_t1 n init.pc (λ _. refl));
  leaving1 = inr refl;
  gate1 = inr (inl refl);
}
Reach-Inv {n} (later {s} r (pick i {p} lt mv)) = Move-Inv mv (moved n s.pc i p lt) (Reach-Inv r)
