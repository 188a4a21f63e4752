-- ===== src/Random/Bounds.antt =====
-- The random numbers are in range.
use rounds.Base.{
  ℕ, zero, suc, ◌+◌, ◌*◌, ◌/◌, ◌%◌, ◌^◌, ◌≡◌, ◌≤◌, ◌<◌, refl, arith, some, List, [], ◌∷◌, ltb, leb,
  ◌==◌, if◌then◌else◌, Bool-cases, ◌⊎◌, inl, inr, ltb→lt, le→leb, lt→ltb, take, ltb→le, get_or,
  length,
}
use rounds.Params.{max_age}
use rounds.Random.{
  round_even, round_double, num_random, init_loop, init_x, age_of, suc_age, random_age,
  random_age_buffer_rg,
}

test_table : init_x ≡ record {
  estremo = 232976190;
  intorno = 100000000 ∷ 160000000 ∷ 195000000 ∷ 207500000 ∷ 217500000 ∷ 225833333 ∷ 232976190 ∷ [];
}
unfolding init_loop
test_table = refl

division : (unit p : ℕ) → 0 < unit → p / unit * unit + p % unit ≡ p
division unit p h = grind arith

round_even-le : (unit p : ℕ) → 0 < unit → 2 * round_even unit p ≤ 2 * p + unit
unfolding round_even
round_even-le unit p h = elim (Bool-cases (ltb (2 * (p % unit)) unit)) [
  | inl low ↦ rw low (omega (arith, division unit p h))
  | inr a ↦ elim (Bool-cases (ltb unit (2 * (p % unit)))) [
    | inl high ↦ rw (a, high) (omega (arith, division unit p h, ltb→lt unit (2 * (p % unit)) high))
    | inr b ↦ elim (Bool-cases (p / unit % 2 == 0)) [
      | inl even ↦ rw (a, b, even) (omega (arith, division unit p h))
      | inr odd ↦ rw (a, b, odd) (omega (arith, division unit p h, ltb→le (2 * (p % unit)) unit a))
    ]
  ]
]

below : (num rand : ℕ) → rand < 2 ^ 31 → num * rand + num ≤ 2147483648 * num
below num rand h = grind arith

round_double-lt :
    (n unit p num : ℕ)
    → 0 < unit
    → (unit ≡ 1) ⊎ (4503599627370496 * unit ≤ p)
    → p + num ≤ 2147483648 * num
    → 0 < num
    → round_double n unit p < 2147483648 * num
unfolding round_double
round_double-lt zero unit p num hu start bound h = omega arith
round_double-lt (suc n) unit p num hu start bound h = elim (Bool-cases (ltb p (2 ^ 53 * unit))) [
  | inl fits ↦ rw fits (omega (arith, round_even-le unit p hu))
  | inr big ↦ rw big (
      round_double-lt n (2 * unit) p num (omega arith)
        (inr (omega (arith, ltb→le p (2 ^ 53 * unit) big))) bound h)
]

-- The result of `num_random(num)` is below `num`, for every positive `num` and every result of
-- `rand()`.
pub num_random-lt : (num rand : ℕ) → 0 < num → rand < 2 ^ 31 → num_random num rand < num
unfolding num_random
num_random-lt num rand h hr =
    omega
      (arith, round_double-lt 10 1 (num * rand) num (omega arith) (inl refl) (below num rand hr) h)

below_all :
    (v b : ℕ) (bs : List ℕ) (i : ℕ)
    → b < v
    → ((j : ℕ) → j < i → get_or bs j 0 < v)
    → (j : ℕ) → j < suc i
    → get_or (b ∷ bs) j 0 < v
below_all v b bs i h before zero lt = h
below_all v b bs i h before (suc j) lt = before j (omega arith)

-- The first bound that is not below `v`: it is there when the bound `k` is not below `v`.
pub age_of_lem :
    (v : ℕ) (bs : List ℕ) (k : ℕ)
    → k < length bs
    → v ≤ get_or bs k 0
    → (i : ℕ) × (age_of v bs ≡ some i)
      × (i ≤ k)
      × (v ≤ get_or bs i 0)
      × ((j : ℕ) → j < i → get_or bs j 0 < v)
unfolding age_of suc_age
age_of_lem v [] k h e = absurd (omega arith)
age_of_lem v (b ∷ bs) zero h e =
    (0, rw (le→leb v b e) refl, omega arith, e, λ j lt. absurd (omega arith))
age_of_lem v (b ∷ bs) (suc k) h e = elim (Bool-cases (leb v b)) [
  | inl here ↦ (0, rw here refl, omega arith, ground arith, λ j lt. absurd (omega arith))
  | inr there ↦
      let (i, found, le, bound, before) = age_of_lem v bs k (omega arith) e in
      (suc i, rw (there, found) refl, omega arith, bound, below_all v b bs i (ground arith) before)
]

ages_7 : 6 < length init_x.intorno
unfolding init_loop
ages_7 = omega arith

last_bound : get_or init_x.intorno 6 0 ≡ init_x.estremo
unfolding init_loop
last_bound = refl

estremo_positive : 0 < init_x.estremo
unfolding init_loop
estremo_positive = omega arith

-- For every result of `rand()`, `random_age` finds an age below 7: the first one whose bound the
-- number drawn does not exceed, moved up by `traslazione` when that is an age too.
pub random_age_lem :
    (traslazione rand : ℕ)
    → rand < 2 ^ 31
    → let v = 1 + num_random init_x.estremo rand in
      (i : ℕ) × (random_age init_x traslazione rand
        ≡ some (if ltb (i + traslazione) max_age then i + traslazione else i))
      × (i < max_age)
      × (v ≤ get_or init_x.intorno i 0)
      × ((j : ℕ) → j < i → get_or init_x.intorno j 0 < v)
unfolding random_age
random_age_lem t rand h =
    let (i, found, le, bound, before) =
      age_of_lem (1 + num_random init_x.estremo rand) init_x.intorno 6 ages_7
        (omega (arith, last_bound, num_random-lt init_x.estremo rand estremo_positive h)) in
    (i, rw (found, random_age) refl, omega arith, bound, before)

first_six :
    (5 < length (take 6 init_x.intorno))
    × (get_or (take 6 init_x.intorno) 5 0 ≡ get_or init_x.intorno 5 0)
unfolding init_loop
first_six = (omega arith, refl)

-- When one of the random numbers gives a number below the bound before the last,
-- `random_age_buffer_rg` comes back with an age below 6.
pub random_age_buffer_rg_lem :
    (rands : List ℕ) (k : ℕ)
    → k < length rands
    → 1 + num_random init_x.estremo (get_or rands k 0) < get_or init_x.intorno 5 0
    → (age : ℕ) × (rest : List ℕ) × (random_age_buffer_rg init_x rands ≡ some (age, rest))
      × (age < 6)
unfolding random_age_buffer_rg
random_age_buffer_rg_lem [] k h low = absurd (omega arith)
random_age_buffer_rg_lem (r ∷ rands) zero h low =
    let (len, same) = first_six in
    let (i, found, le, bound, before) =
      age_of_lem (1 + num_random init_x.estremo r) (take 6 init_x.intorno) 5 len
        (omega (arith, same)) in
    (i, rands, rw (lt→ltb _ _ low, found) refl, omega arith)
random_age_buffer_rg_lem (r ∷ rands) (suc k) h low =
    elim (Bool-cases (ltb (1 + num_random init_x.estremo r) (get_or init_x.intorno 5 0))) [
      | inl hit ↦
          let (len, same) = first_six in
          let (i, found, le, bound, before) =
            age_of_lem (1 + num_random init_x.estremo r) (take 6 init_x.intorno) 5 len
              (omega (arith, same, ltb→lt _ _ hit)) in
          (i, rands, rw (hit, found) refl, omega arith)
      | inr miss ↦
          let (age, rest, e, lt) = random_age_buffer_rg_lem rands k (omega arith) low in
          (age, rest, rw (miss, e) refl, lt)
    ]
