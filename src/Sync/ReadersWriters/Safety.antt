-- ===== src/Sync/ReadersWriters/Safety.antt =====
-- What the lock gives in every reachable state.
use rounds.Base.{ℕ, ◌≡◌, ◌≢◌, ◌≤◌, ◌<◌, ap, arith, dec_lt}
use rounds.Sync.Threads.{two-le-tally, one-le-tally}
use rounds.Sync.ReadersWriters.{reading, writing, System, Reach}
use rounds.Sync.ReadersWriters.Invariant.{Reach-Inv, read_in, is_writing, write_in, asking}

-- In every reachable state, while one of the threads reads none writes.
pub no_read_while_writing :
    {n : ℕ} {s : System} (i j : ℕ) → Reach n s → i < n → j < n → s.pc i ≡ reading → s.pc j ≢ writing
no_read_while_writing {n} {s} i j r hi hj ei ej = omega (
  arith,
  (Reach-Inv r).read_shut,
  one-le-tally read_in n s.pc i hi,
  one-le-tally is_writing n s.pc j hj,
  ap read_in ei,
  ap is_writing ej,
)

-- In every reachable state, two of the threads that both write are one.
pub one_writer :
    {n : ℕ} {s : System} (i j : ℕ)
    → Reach n s
    → i < n
    → j < n
    → s.pc i ≡ writing
    → s.pc j ≡ writing
    → i ≡ j
one_writer {n} {s} i j r hi hj ei ej = elim (dec_lt i j) [
  | yes below ↦ absurd (
      omega (
        arith,
        two-le-tally is_writing n s.pc i j below hj,
        ap is_writing ei,
        ap is_writing ej,
        (Reach-Inv r).read_shut,
      ))
  | no other ↦ elim (dec_lt j i) [
    | yes above ↦ absurd (
        omega (
          arith,
          two-le-tally is_writing n s.pc j i above hi,
          ap is_writing ei,
          ap is_writing ej,
          (Reach-Inv r).read_shut,
        ))
    | no same ↦ omega arith
  ]
]

-- In every reachable state, while a writer has been through its switch and not come back to it
-- (it waits for the room, or writes), no reader is on its way in, and `noReaders` is 0.
pub writers_first :
    {n : ℕ} {s : System} (i : ℕ)
    → Reach n s
    → i < n
    → 1 ≤ write_in (s.pc i)
    → (s.lock.no_readers ≡ 0) × ((j : ℕ) → j < n → asking (s.pc j) ≡ 0)
writers_first {n} {s} i r hi waits = (
  omega (arith, (Reach-Inv r).write_shut, one-le-tally write_in n s.pc i hi),
  λ j hj. omega (
    arith,
    (Reach-Inv r).write_shut,
    one-le-tally write_in n s.pc i hi,
    one-le-tally asking n s.pc j hj,
  ),
)
