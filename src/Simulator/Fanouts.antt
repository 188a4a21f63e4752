-- ===== src/Simulator/Fanouts.antt =====
-- `init` and `createFanout` of Simulatori/Simulator_v1.0/general_functions.c.
pub mod Chosen
pub mod Starving
use rounds.Base.{
  ℕ, zero, suc, ◌+◌, Bool, true, false, ◌==◌, ◌||◌, if◌then◌else◌, Option, none, some, List, [],
  ◌∷◌, ltb, set,
}
use rounds.Random.{RandomX, num_random, age_of}
use rounds.Simulator.{
  fanout, max_age, Cells, Nodo, Network, next_rand, reset_list_age, reset_arrivi, reset_buffer,
  random_neighbour,
}

-- The loop over the ages in `init`: `n` lists from age `j` on.
unfoldable pub reset_ages : ℕ → ℕ → Nodo → Nodo
reset_ages zero j a = a
reset_ages (suc n) j a = reset_ages n (j + 1) (reset_list_age j a)

abbrev pub init_nodo : Nodo → Nodo
init_nodo a = reset_buffer (reset_arrivi (reset_ages max_age 0 a))

unfoldable pub init : Network → Network
init [] = []
init (a ∷ net) = init_nodo a ∷ init net

-- `a->buffer_fanout[w] == temp_nodo`, where -1 is equal to -1.
abbrev pub same_cell : Option ℕ → Option ℕ → Bool
same_cell none none = true
same_cell none (some u) = false
same_cell (some t) none = false
same_cell (some t) (some u) = t == u

-- The loop over `w`: some cell holds `temp_nodo`.
unfoldable pub is_taken : Option ℕ → Cells → Bool
is_taken t [] = false
is_taken t (c ∷ cells) = let rest = is_taken t cells in same_cell t c || rest

-- `for (j = 0; j < 15 && b; j++)`: a neighbour is drawn anew while it stands in the fanout, the empty
-- cells included; `tries` are left, and `t` is the last one drawn.
unfoldable pub draw_other : ℕ → ℕ → Nodo → Option ℕ → List ℕ → Option ℕ × List ℕ
draw_other zero age a t rands = (t, rands)
draw_other (suc tries) age a t rands =
    let (t', rest) = random_neighbour age a rands in
    elim (is_taken t' a.buffer_fanout) [
      | true ↦ draw_other tries age a t' rest
      | false ↦ (t', rest)
    ]

abbrev pub put_fanout : ℕ → Option ℕ → Nodo → ℕ × Nodo
put_fanout i none a = (i, a)
put_fanout i (some t) a = (i + 1, record a { buffer_fanout = set a.buffer_fanout i (some t) })

-- A turn of the loop over `i`. `none`: no age fits, `exit(0)`.
unfoldable pub fanout_turn : RandomX → ℕ → Nodo → List ℕ → Option (ℕ × Nodo × List ℕ)
fanout_turn x i a rands =
    let (r, rest) = next_rand rands in
    elim (age_of (1 + num_random x.estremo r) x.intorno) [
      | none ↦ none
      | some age ↦
          let (t, rest') = draw_other 15 age a none rest in
          let (i', a') = put_fanout i t a in some (i', a', rest')
    ]

-- `for (i = 0; i < _FANOUT; ++i)`, where a turn without a neighbour does not count, with at most
-- `turns` turns. The first component is `i`: the loop has ended when it is `_FANOUT`.
unfoldable pub fanout_from : ℕ → RandomX → ℕ → Nodo → List ℕ → Option (ℕ × Nodo × List ℕ)
fanout_from zero x i a rands = some (i, a, rands)
fanout_from (suc turns) x i a rands = elim (ltb i fanout) [
  | false ↦ some (i, a, rands)
  | true ↦ elim (fanout_turn x i a rands) [
    | none ↦ none
    | some (i', a', rest) ↦ fanout_from turns x i' a' rest
  ]
]

abbrev pub create_fanout : ℕ → RandomX → Nodo → List ℕ → Option (ℕ × Nodo × List ℕ)
create_fanout turns x a rands = fanout_from turns x 0 a rands
