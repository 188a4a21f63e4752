-- ===== src/Simulator/Fanouts/Chosen.antt =====
-- What `createFanout` chooses.
use rounds.Base.{
  ℕ, zero, suc, ◌+◌, ◌^◌, ◌≡◌, ◌<◌, ◌≤◌, inl, inr, refl, ◌∙◌, arith, none, some, Option, List, [],
  ◌∷◌, length, get_or, get_or-set_self, get_or-set_ne, length-set, ◌==◌, Bool-cases, lt→ltb,
  ℕ_discrete, subst,
}
use rounds.Random.{RandomX, num_random, age_of}
use rounds.Random.Bounds.{num_random-lt, age_of_lem}
use rounds.Simulator.{
  fanout, max_age, vista_age, Cells, Nodo, next_rand, count_filled, random_neighbour,
}
use rounds.Simulator.Choice.{random_neighbour_lem}
use rounds.Simulator.Fanouts.{
  is_taken, draw_other, put_fanout, fanout_turn, fanout_from, create_fanout,
}

-- Results of `rand()`.
abbrev pub Low : List ℕ → Type 0
Low rands = (k : ℕ) → get_or rands k 0 < 2 ^ 31

pub next_rand-Low :
    (rands : List ℕ) → Low rands → ((next_rand rands).0 < 2 ^ 31) × Low (next_rand rands).1
next_rand-Low [] h = (omega arith, h)
next_rand-Low (r ∷ rands) h = (h 0, λ k. h (suc k))

pub random_neighbour-Low :
    (age : ℕ) (a : Nodo) (rands : List ℕ) → Low rands → Low (random_neighbour age a rands).1
unfolding random_neighbour
random_neighbour-Low age a rands h =
    elim (Bool-cases (count_filled vista_age (get_or a.neighbour age []) == 0)) [
      | inl empty ↦ rw empty h
      | inr more ↦ rw more (next_rand-Low rands h).1
    ]

-- The bounds of the ages reach up to `estremo`.
pub record Covers (x : RandomX) : Type 0 where
  pub positive : 0 < x.estremo
  pub bounds : length x.intorno ≡ max_age
  pub reached : x.estremo ≤ get_or x.intorno 9 0

pub age_of-Covers :
    (x : RandomX) (r : ℕ)
    → Covers x
    → r < 2 ^ 31
    → (age : ℕ) × (age < max_age) × (age_of (1 + num_random x.estremo r) x.intorno ≡ some age)
age_of-Covers x r v h =
    let lt : num_random x.estremo r < x.estremo = num_random-lt x.estremo r v.positive h in
    let (age, found, le, _, _) =
      age_of_lem (1 + num_random x.estremo r) x.intorno 9 (omega (arith, v.bounds))
        (omega (arith, lt, v.reached)) in
    (age, omega arith, found)

-- `t` is a node of the list of the age.
abbrev pub InAge : List Cells → ℕ → Option ℕ → Type 0
InAge ls age t =
    (u : ℕ) × (i : ℕ) × (i < vista_age) × (get_or (get_or ls age []) i none ≡ some u) × (t ≡ some u)

pub count_filled-le : (n : ℕ) (cells : Cells) → count_filled n cells ≤ n
unfolding count_filled
count_filled-le zero cells = omega arith
count_filled-le (suc n) [] = omega arith
count_filled-le (suc n) (none ∷ cells) = omega arith
count_filled-le (suc n) (some t ∷ cells) = omega (arith, count_filled-le n cells)

module _ (a : Nodo) (age : ℕ) (full : 0 < count_filled vista_age (get_or a.neighbour age [])) where
  random_neighbour-InAge :
      (rands : List ℕ) → Low rands → InAge a.neighbour age (random_neighbour age a rands).0
  random_neighbour-InAge rands h =
      elim (random_neighbour_lem age a rands (next_rand-Low rands h).0) [
        | inl (empty, _) ↦ absurd (omega arith)
        | inr (t, i, lt, here, drawn) ↦ (
          t,
          i,
          omega (arith, count_filled-le vista_age (get_or a.neighbour age [])),
          here,
          drawn,
        )
      ]

  -- After at least one try, or from a node of the list on.
  draw_other_lem :
      (tries : ℕ) (t : Option ℕ) (rands : List ℕ)
      → (tries ≡ 0 → InAge a.neighbour age t)
      → Low rands
      → InAge a.neighbour age (draw_other tries age a t rands).0
        × Low (draw_other tries age a t rands).1
  unfolding draw_other
  draw_other_lem zero t rands v h = (v refl, h)
  draw_other_lem (suc tries) t rands v h =
      let t' = (random_neighbour age a rands).0 in
      let drawn = random_neighbour-InAge rands h in
      let low = random_neighbour-Low age a rands h in
      elim (Bool-cases (is_taken t' a.buffer_fanout)) [
        | inl again ↦ rw (again, draw_other) (draw_other_lem tries t' _ (λ e. drawn) low)
        | inr other ↦ rw (other, draw_other) (drawn, low)
      ]

-- The first `i` cells of the fanout hold nodes of the lists `ls`, which are those of the node.
pub record Chosen (ls : List Cells) (i : ℕ) (a : Nodo) : Type 0 where
  pub size : length a.buffer_fanout ≡ fanout
  pub same : a.neighbour ≡ ls
  pub known :
      (w : ℕ) → w < i → (age : ℕ) × (age < max_age) × InAge ls age (get_or a.buffer_fanout w none)

-- Every list holds a neighbour.
abbrev pub AllFilled : List Cells → Type 0
AllFilled ls = (age : ℕ) → age < max_age → 0 < count_filled vista_age (get_or ls age [])

put_fanout-Chosen :
    (ls : List Cells) (i : ℕ) (a : Nodo) (age : ℕ) (t : Option ℕ)
    → i < fanout
    → age < max_age
    → InAge ls age t
    → Chosen ls i a
    → ((put_fanout i t a).0 ≡ i + 1) × Chosen ls (i + 1) (put_fanout i t a).1
put_fanout-Chosen ls i a age none lt young (u, j, bound, here, e) v = absurd (cc)
put_fanout-Chosen ls i a age (some t) lt young known v = (
  refl,
  record {
    size = length-set a.buffer_fanout i (some t) ∙ v.size;
    same = v.same;
    known = λ w l. elim (ℕ_discrete i w) [
      | yes last ↦ (
        age,
        young,
        rw (← last, get_or-set_self a.buffer_fanout i (some t) none (omega (arith, v.size))) known,
      )
      | no other ↦
          rw (get_or-set_ne a.buffer_fanout i w (some t) none other) (v.known w (omega arith))
    ];
  },
)

module _ (x : RandomX) (covers : Covers x) (ls : List Cells) (filled : AllFilled ls) where
  fanout_turn-Chosen :
      (i : ℕ) (a : Nodo) (rands : List ℕ)
      → i < fanout
      → Low rands
      → Chosen ls i a
      → (a' : Nodo) × (rest : List ℕ) × (fanout_turn x i a rands ≡ some (i + 1, a', rest))
        × Chosen ls (i + 1) a'
        × Low rest
  unfolding fanout_turn
  fanout_turn-Chosen i a rands lt h v =
      let (low, rest_low) = next_rand-Low rands h in
      let (age, young, found) = age_of-Covers x (next_rand rands).0 covers low in
      let full : 0 < count_filled vista_age (get_or a.neighbour age []) =
        rw v.same (filled age young) in
      let (drawn, last_low) =
        draw_other_lem a age full 15 none (next_rand rands).1 (λ e. absurd (omega arith))
          rest_low in
      let (next, chosen) =
        put_fanout-Chosen ls i a age (draw_other 15 age a none (next_rand rands).1).0 lt young
          (subst (λ l. InAge l age (draw_other 15 age a none (next_rand rands).1).0) v.same drawn)
          v in
      (_, _, rw (found, fanout_turn, next) refl, chosen, last_low)

  fanout_from-Chosen :
      (turns i : ℕ) (a : Nodo) (rands : List ℕ)
      → i + turns ≡ fanout
      → Low rands
      → Chosen ls i a
      → (a' : Nodo) × (rest : List ℕ) × (fanout_from turns x i a rands ≡ some (fanout, a', rest))
        × Chosen ls fanout a'
  unfolding fanout_from
  fanout_from-Chosen zero i a rands e h v =
      let last : i ≡ fanout = omega arith in
      (a, rands, rw last refl, subst (λ n. Chosen ls n a) last v)
  fanout_from-Chosen (suc turns) i a rands e h v =
      let (a₁, rest₁, turn, chosen, low) = fanout_turn-Chosen i a rands (omega arith) h v in
      let (a₂, rest₂, done, all) =
        fanout_from-Chosen turns (i + 1) a₁ rest₁ (omega arith) low chosen in
      (a₂, rest₂, rw (lt→ltb i fanout (omega arith), turn, fanout_from) done, all)

-- With bounds of the ages up to `estremo`, results of `rand()` below 2^31 and a neighbour in every
-- list of the node: `createFanout` ends after exactly five turns, its five cells hold nodes of the
-- lists, none of them -1, and the lists stay.
pub create_fanout-Chosen :
    (x : RandomX) (a : Nodo) (rands : List ℕ)
    → Covers x
    → AllFilled a.neighbour
    → length a.buffer_fanout ≡ fanout
    → Low rands
    → (a' : Nodo) × (rest : List ℕ) × (create_fanout fanout x a rands ≡ some (fanout, a', rest))
      × Chosen a.neighbour fanout a'
create_fanout-Chosen x a rands covers filled size h =
    fanout_from-Chosen x covers a.neighbour filled fanout 0 a rands refl h
      (record { size = size; same = refl; known = λ w l. absurd (omega arith) })
