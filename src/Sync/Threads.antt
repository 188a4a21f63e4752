-- ===== src/Sync/Threads.antt =====
-- Threads by number: the local state of each, and how many of the first `n` are in a given place.
use rounds.Base.{
  ℕ, zero, suc, ◌+◌, ◌≡◌, ◌≤◌, ◌<◌, refl, arith, dec_lt, ℕ_discrete, ◌==◌, if◌then◌else◌,
}

-- Thread `i` goes to `a`; the others stay.
abbrev pub move_to {ℓ} : {A : Type ℓ} → (ℕ → A) → ℕ → A → ℕ → A
move_to pc i a j = if i == j then a else pc j

module _ {ℓ} {A : Type ℓ} (w : A → ℕ) where
  unfoldable pub tally : ℕ → (ℕ → A) → ℕ
  tally zero pc = 0
  tally (suc n) pc = w (pc n) + tally n pc

  tally-move_to_ge :
      (n : ℕ) (pc : ℕ → A) (i : ℕ) (a : A) → n ≤ i → tally n (move_to pc i a) ≡ tally n pc
  unfolding tally
  tally-move_to_ge zero pc i a h = refl
  tally-move_to_ge (suc n) pc i a h = ground (arith, tally-move_to_ge n pc i a)

  pub tally-move_to :
      (n : ℕ) (pc : ℕ → A) (i : ℕ) (a : A)
      → i < n
      → tally n (move_to pc i a) + w (pc i) ≡ tally n pc + w a
  unfolding tally
  tally-move_to zero pc i a h = absurd (omega arith)
  tally-move_to (suc n) pc i a h = elim (dec_lt i n) [
    | yes below ↦ ground (arith, tally-move_to n pc i a below)
    | no last ↦ ground (arith, tally-move_to_ge n pc i a)
  ]

  pub one-le-tally : (n : ℕ) (pc : ℕ → A) (i : ℕ) → i < n → w (pc i) ≤ tally n pc
  unfolding tally
  one-le-tally zero pc i h = absurd (omega arith)
  one-le-tally (suc n) pc i h = elim (ℕ_discrete i n) [
    | yes last ↦ rw last (omega arith)
    | no below ↦ omega (arith, one-le-tally n pc i (omega arith))
  ]

  pub two-le-tally :
      (n : ℕ) (pc : ℕ → A) (i j : ℕ) → i < j → j < n → w (pc i) + w (pc j) ≤ tally n pc
  unfolding tally
  two-le-tally zero pc i j p h = absurd (omega arith)
  two-le-tally (suc n) pc i j p h = elim (ℕ_discrete j n) [
    | yes last ↦ rw last (omega (arith, one-le-tally n pc i (omega arith)))
    | no below ↦ omega (arith, two-le-tally n pc i j p (omega arith))
  ]

  -- A tally that is not 0 has a thread that counts.
  pub tally-some : (n : ℕ) (pc : ℕ → A) → 1 ≤ tally n pc → (i : ℕ) × (i < n) × (1 ≤ w (pc i))
  unfolding tally
  tally-some zero pc h = absurd (omega arith)
  tally-some (suc n) pc h = elim (dec_lt 0 (w (pc n))) [
    | yes here ↦ (n, omega arith, here)
    | no none_here ↦ let (i, lt, there) = tally-some n pc (omega arith) in (i, omega arith, there)
  ]

  pub tally_zero : (n : ℕ) (pc : ℕ → A) → ((i : ℕ) → w (pc i) ≡ 0) → tally n pc ≡ 0
  unfolding tally
  tally_zero zero pc h = refl
  tally_zero (suc n) pc h = omega (arith, h n, tally_zero n pc h)
