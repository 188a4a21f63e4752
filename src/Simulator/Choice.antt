-- ===== src/Simulator/Choice.antt =====
-- Which neighbour the simulator draws, and where it puts one that it learns of.
use rounds.Base.{
  ℕ, zero, suc, ◌^◌, ◌≡◌, ◌<◌, ◌≤◌, ◌⊎◌, inl, inr, refl, ◌∙◌, arith, none, some, List, [], ◌∷◌,
  length, get_or, set, true, false, get_or-set_self, get_or-set_ne, ◌==◌, Bool-cases, Option-cases,
  find_first, find_first-hit, find_first-miss, ◌≢◌,
}
use rounds.Random.{num_random}
use rounds.Random.Bounds.{num_random-lt}
use rounds.Simulator.{
  max_age, vista_age, Cells, Nodo, next_rand, count_filled, random_neighbour, is_empty, put,
  ins_nodo,
}
use rounds.Simulator.Ages.{HasAges}

-- The cells before the first -1 hold nodes.
count_filled_lem :
    (n : ℕ) (cells : Cells) (i : ℕ)
    → i < count_filled n cells
    → (t : ℕ) × (get_or cells i none ≡ some t)
unfolding count_filled
count_filled_lem zero cells i h = absurd (omega arith)
count_filled_lem (suc n) [] i h = absurd (omega arith)
count_filled_lem (suc n) (none ∷ cells) i h = absurd (omega arith)
count_filled_lem (suc n) (some t ∷ cells) zero h = (t, refl)
count_filled_lem (suc n) (some t ∷ cells) (suc i) h = count_filled_lem n cells i (omega arith)

-- With a result of `rand()` below 2^31: `random_neighbour` answers -1 where the list of the age is
-- empty, and otherwise a node that stands in the list before its first -1.
pub random_neighbour_lem :
    (age : ℕ) (a : Nodo) (rands : List ℕ)
    → (next_rand rands).0 < 2 ^ 31
    → let cells = get_or a.neighbour age [] in
      ((count_filled vista_age cells ≡ 0) × ((random_neighbour age a rands).0 ≡ none))
      ⊎ ((t : ℕ) × (i : ℕ) × (i < count_filled vista_age cells)
          × (get_or cells i none ≡ some t)
          × ((random_neighbour age a rands).0 ≡ some t))
unfolding random_neighbour
random_neighbour_lem age a rands h =
    let cells = get_or a.neighbour age [] in
    let limit = count_filled vista_age cells in
    elim (Bool-cases (limit == 0)) [
      | inl empty ↦ inl (ground arith, rw empty refl)
      | inr more ↦
          let lt : num_random limit (next_rand rands).0 < limit =
            num_random-lt limit (next_rand rands).0 (ground arith) h in
          let (t, here) = count_filled_lem vista_age cells _ lt in
          inr (t, num_random limit (next_rand rands).0, lt, here, rw more here)
    ]

-- A node is put into one of the `n` cells: one that held -1, or any if none did.
put_lem :
    (n t : ℕ) (cells : Cells) (rands : List ℕ)
    → 0 < n
    → n ≤ length cells
    → (next_rand rands).0 < 2 ^ 31
    → (i : ℕ) × (i < n)
      × ((put n t cells rands).0 ≡ set cells i (some t))
      × ((is_empty (get_or cells i none) ≡ true)
          ⊎ ((j : ℕ) → j < n → is_empty (get_or cells j none) ≡ false))
unfolding put
put_lem n t cells rands pos fits h = elim (Option-cases (find_first is_empty n cells)) [
  | inr (i, hit) ↦
      let (lt, bound, free) = find_first-hit is_empty n cells none i hit in
      (i, lt, rw (hit, put) refl, inl free)
  | inl miss ↦ (
    num_random n (next_rand rands).0,
    num_random-lt n (next_rand rands).0 pos h,
    rw (miss, put) refl,
    inr (λ j lt. find_first-miss is_empty n cells none j miss lt (omega arith)),
  )
]

-- With a result of `rand()` below 2^31, and one of the ten ages of a node: `ins_nodo` writes the
-- node into one cell of the list of the age, which held -1 unless none of its cells did; the other
-- cells, the lists of the other ages and what has arrived stay.
pub ins_nodo_lem :
    (a : Nodo) (age t : ℕ) (rands : List ℕ)
    → HasAges a
    → length (get_or a.neighbour age []) ≡ vista_age
    → age < max_age
    → (next_rand rands).0 < 2 ^ 31
    → let a' = (ins_nodo a age t rands).0 in
      let cells = get_or a.neighbour age [] in
      (i : ℕ) × (i < vista_age)
      × (get_or a'.neighbour age [] ≡ set cells i (some t))
      × ((is_empty (get_or cells i none) ≡ true)
          ⊎ ((j : ℕ) → j < vista_age → is_empty (get_or cells j none) ≡ false))
      × ((other : ℕ) → age ≢ other → get_or a'.neighbour other [] ≡ get_or a.neighbour other [])
      × (a'.buffer_arrivi ≡ a.buffer_arrivi)
unfolding ins_nodo
ins_nodo_lem a age t rands v full young h =
    let cells = get_or a.neighbour age [] in
    let new = (put vista_age t cells rands).0 in
    let (i, lt, e, free) = put_lem vista_age t cells rands (omega arith) (omega arith) h in
    (
      i,
      lt,
      get_or-set_self a.neighbour age new [] (omega (arith, v.ages)) ∙ e,
      free,
      λ other ne. get_or-set_ne a.neighbour age other new [] ne,
      refl,
    )
