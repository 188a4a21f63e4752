-- ===== src/Sync/TwoRooms/Safety.antt =====
-- What the lock gives in every reachable state.
use rounds.Base.{ℕ, zero, suc, ◌+◌, ◌≡◌, ◌≢◌, ◌≤◌, ◌<◌, refl, ap, arith, dec_lt, ℕ_discrete}
use rounds.Sync.Threads.{tally, two-le-tally, tally-some, one-le-tally}
use rounds.Sync.TwoRooms.{
  Rooms, Pc, idle, inc_room1, post_mutex, wait_t1, inc_room2, wait_mutex, dec_room1, test_room1,
  post_mutex_t2, post_t2, post_mutex_t1, post_t1, wait_t2, dec_room2, critical, unlock_t1,
  unlock_t2, Move, enter, count_in, release_in, pass_t1, count_two, acquire, count_out, last_in,
  more_in, release_last, open_t2, release_more, open_t1, pass_t2, count_done, leave_last,
  leave_more, reopen_t1, reopen_t2, System, Reach,
}
use rounds.Sync.TwoRooms.Invariant.{
  Inv, Reach-Inv, has_mutex, passing, in_room1, in_room2, to_t1, to_t2, back_t1,
}

-- In every reachable state, two of the threads that are both between `lock_Two_rooms` and
-- `unlock_Two_rooms` are one.
pub mutual_exclusion :
    {n : ℕ} {s : System} (i j : ℕ)
    → Reach n s
    → i < n
    → j < n
    → s.pc i ≡ critical
    → s.pc j ≡ critical
    → i ≡ j
mutual_exclusion {n} {s} i j r hi hj ei ej = elim (dec_lt i j) [
  | yes below ↦ absurd (
      omega (
        arith,
        two-le-tally passing n s.pc i j below hj,
        ap passing ei,
        ap passing ej,
        (Reach-Inv r).token_one,
      ))
  | no other ↦ elim (dec_lt j i) [
    | yes above ↦ absurd (
        omega (
          arith,
          two-le-tally passing n s.pc j i above hi,
          ap passing ei,
          ap passing ej,
          (Reach-Inv r).token_one,
        ))
    | no same ↦ omega arith
  ]
]

-- A thread with a step that is not blocked.
abbrev pub CanMove : Rooms → Pc → Type 0
CanMove s p = (s' : Rooms) × (p' : Pc) × Move s p s' p'

can_move :
    (s : Rooms) (p : Pc)
    → (p ≡ idle → 0 < s.mutex)
    → (p ≡ wait_mutex → 0 < s.mutex)
    → (p ≡ wait_t1 → 0 < s.t1)
    → (p ≡ wait_t2 → 0 < s.t2)
    → CanMove s p
can_move s idle a b c d = (_, _, enter (a refl))
can_move s inc_room1 a b c d = (_, _, count_in)
can_move s post_mutex a b c d = (_, _, release_in)
can_move s wait_t1 a b c d = (_, _, pass_t1 (c refl))
can_move s inc_room2 a b c d = (_, _, count_two)
can_move s wait_mutex a b c d = (_, _, acquire (b refl))
can_move s dec_room1 a b c d = (_, _, count_out)
can_move s test_room1 a b c d = elim (ℕ_discrete s.room1 0) [
  | yes none_in ↦ (_, _, last_in none_in)
  | no some_in ↦ (_, _, more_in some_in)
]
can_move s post_mutex_t2 a b c d = (_, _, release_last)
can_move s post_t2 a b c d = (_, _, open_t2)
can_move s post_mutex_t1 a b c d = (_, _, release_more)
can_move s post_t1 a b c d = (_, _, open_t1)
can_move s wait_t2 a b c d = (_, _, pass_t2 (d refl))
can_move s dec_room2 a b c d = (_, _, count_done)
can_move s critical a b c d = elim (ℕ_discrete s.room2 0) [
  | yes none_in ↦ (_, _, leave_last none_in)
  | no some_in ↦ (_, _, leave_more some_in)
]
can_move s unlock_t1 a b c d = (_, _, reopen_t1)
can_move s unlock_t2 a b c d = (_, _, reopen_t2)

-- A thread that is inside the lock and has a step.
abbrev pub Goes : ℕ → System → Type 0
Goes n s = (j : ℕ) × (j < n) × (s.pc j ≢ idle) × CanMove s.rooms (s.pc j)

-- The token is with the thread.
abbrev carries : Pc → ℕ
carries p = passing p + to_t1 p + to_t2 p + back_t1 p

carries_lem :
    (n : ℕ) (pc : ℕ → Pc)
    → tally carries n pc
      ≡ tally passing n pc + tally to_t1 n pc + tally to_t2 n pc + tally back_t1 n pc
unfolding tally
carries_lem zero pc = refl
carries_lem (suc n) pc = omega (arith, carries_lem n pc)

-- One of the threads that `w` counts goes on, where those of them at a `sem_wait` are not blocked.
counted-Goes :
    {n : ℕ} {s : System} (w : Pc → ℕ)
    → w idle ≡ 0
    → (1 ≤ w wait_mutex → 0 < s.rooms.mutex)
    → (1 ≤ w wait_t1 → 0 < s.rooms.t1)
    → (1 ≤ w wait_t2 → 0 < s.rooms.t2)
    → 1 ≤ tally w n s.pc
    → Goes n s
counted-Goes {n} {s} w out a b c h =
    let (j, lt, there) = tally-some w n s.pc h in
    (
      j,
      lt,
      (λ e. omega (arith, ap w e)),
      can_move s.rooms (s.pc j) (λ e. absurd (omega (arith, ap w e)))
          (λ e. a (omega (arith, ap w e))) (λ e. b (omega (arith, ap w e)))
          (λ e. c (omega (arith, ap w e))),
    )

t1-Goes :
    {n : ℕ} {s : System} (i : ℕ)
    → Inv n s.rooms s.pc
    → i < n
    → s.pc i ≢ idle
    → 0 < s.rooms.mutex
    → 1 ≤ s.rooms.t1
    → Goes n s
t1-Goes {n} {s} i v lt busy free lets_in = elim (dec_lt 0 s.rooms.room2) [
  | yes some_in ↦
      counted-Goes in_room1 refl (λ _. free) (λ _. lets_in) (λ h. absurd (omega arith))
        (omega (arith, v.first, v.gate1))
  | no none_in ↦ (
    i,
    lt,
    busy,
    can_move s.rooms (s.pc i) (λ e. absurd (busy e)) (λ _. free) (λ _. lets_in)
        (λ e. absurd (omega (arith, one-le-tally in_room2 n s.pc i lt, ap in_room2 e, v.second))),
  )
]

-- No deadlock: in a reachable state in which a thread has entered the lock and not left it, some
-- thread that has entered it and not left it has a step.
pub deadlock_freedom :
    {n : ℕ} {s : System} (i : ℕ)
    → Reach n s
    → i < n
    → s.pc i ≢ idle
    → (j : ℕ) × (j < n) × (s.pc j ≢ idle) × CanMove s.rooms (s.pc j)
deadlock_freedom {n} {s} i r lt busy =
    let v = Reach-Inv r in
    elim (dec_lt 0 s.rooms.mutex) [
      | no held ↦
          counted-Goes has_mutex refl (λ h. absurd (omega arith)) (λ h. absurd (omega arith))
            (λ h. absurd (omega arith)) (omega (arith, v.mutex_one))
      | yes free ↦ elim (dec_lt 0 s.rooms.t1) [
        | yes lets_in ↦ t1-Goes i v lt busy free lets_in
        | no shut1 ↦ elim (dec_lt 0 s.rooms.t2) [
          | yes lets_in ↦
              counted-Goes in_room2 refl (λ _. free) (λ h. absurd (omega arith)) (λ _. lets_in)
                (omega (arith, v.second, v.gate2, v.token_one))
          | no shut2 ↦
              counted-Goes carries refl (λ _. free) (λ h. absurd (omega arith))
                (λ h. absurd (omega arith)) (omega (arith, v.token_one, carries_lem n s.pc))
        ]
      ]
    ]
