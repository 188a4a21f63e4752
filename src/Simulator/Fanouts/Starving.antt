-- ===== src/Simulator/Fanouts/Starving.antt =====
-- `createFanout` of a node that `init` has just reset.
use rounds.Base.{
  ℕ, zero, suc, ◌+◌, ◌≡◌, ◌<◌, ◌≤◌, refl, ◌∙◌, arith, none, some, List, [], ◌∷◌, length, get_or,
  replicate, get_or-set_self, get_or-set_ne, length-set, lt→ltb, ℕ_discrete, Bool-cases, Option,
  true, false, inl, inr, ap,
}
use rounds.Random.{RandomX}
use rounds.Simulator.{
  fanout, max_age, vista_age, Nodo, Network, nodo_at, next_rand, count_filled, reset_list_age,
  random_neighbour,
}
use rounds.Simulator.Fanouts.{
  reset_ages, init_nodo, init, is_taken, draw_other, fanout_turn, fanout_from, create_fanout,
}
use rounds.Simulator.Fanouts.Chosen.{Low, next_rand-Low, Covers, age_of-Covers}

count_filled-blank : (n : ℕ) → count_filled n (replicate n none) ≡ 0
unfolding count_filled
count_filled-blank zero = refl
count_filled-blank (suc n) = refl

-- The ages before `j` stay.
reset_ages-below :
    (n j : ℕ) (a : Nodo) (age : ℕ)
    → age < j
    → get_or (reset_ages n j a).neighbour age [] ≡ get_or a.neighbour age []
unfolding reset_ages reset_list_age
reset_ages-below zero j a age h = refl
reset_ages-below (suc n) j a age h =
    reset_ages-below n (j + 1) (reset_list_age j a) age (omega arith)
    ∙ get_or-set_ne a.neighbour j age (replicate vista_age none) [] (λ e. absurd (omega arith))

pub reset_ages-blank :
    (n j : ℕ) (a : Nodo) (age : ℕ)
    → j + n ≤ length a.neighbour
    → j ≤ age
    → age < j + n
    → get_or (reset_ages n j a).neighbour age [] ≡ replicate vista_age none
unfolding reset_ages reset_list_age
reset_ages-blank zero j a age fits from to = absurd (omega arith)
reset_ages-blank (suc n) j a age fits from to = elim (ℕ_discrete j age) [
  | yes here ↦ rw (← here) (
      reset_ages-below n (j + 1) (reset_list_age j a) j (omega arith)
      ∙ get_or-set_self a.neighbour j (replicate vista_age none) [] (omega arith))
  | no later ↦
      reset_ages-blank n (j + 1) (reset_list_age j a) age
        (omega (arith, length-set a.neighbour j (replicate vista_age none))) (omega arith)
        (omega arith)
]

-- No list holds a neighbour.
abbrev pub AllEmpty : Nodo → Type 0
AllEmpty a = (age : ℕ) → age < max_age → count_filled vista_age (get_or a.neighbour age []) ≡ 0

init_nodo-AllEmpty : (a : Nodo) → length a.neighbour ≡ max_age → AllEmpty (init_nodo a)
init_nodo-AllEmpty a len age young =
    ap (count_filled vista_age) (reset_ages-blank max_age 0 a age (omega arith) (omega arith) young)
    ∙ count_filled-blank vista_age

random_neighbour-none :
    (age : ℕ) (a : Nodo) (rands : List ℕ)
    → count_filled vista_age (get_or a.neighbour age []) ≡ 0
    → random_neighbour age a rands ≡ (none, rands)
unfolding random_neighbour
random_neighbour-none age a rands e = rw e refl

draw_other-empty :
    (tries age : ℕ) (a : Nodo) (rands : List ℕ)
    → count_filled vista_age (get_or a.neighbour age []) ≡ 0
    → draw_other tries age a none rands ≡ (none, rands)
unfolding draw_other
draw_other-empty zero age a rands e = refl
draw_other-empty (suc tries) age a rands e =
    let again : (Option ℕ × List ℕ → Option ℕ × List ℕ) = λ r. elim (is_taken r.0 a.buffer_fanout) [
      | true ↦ draw_other tries age a r.0 r.1
      | false ↦ r
    ] in
    ap again (random_neighbour-none age a rands e)
    ∙ elim (Bool-cases (is_taken none a.buffer_fanout)) [
      | inl taken ↦ rw taken (draw_other-empty tries age a rands e)
      | inr other ↦ rw other refl
    ]

fanout_from-empty :
    (turns : ℕ) (x : RandomX) (i : ℕ) (a : Nodo) (rands : List ℕ)
    → Covers x
    → AllEmpty a
    → Low rands
    → i < fanout
    → (rest : List ℕ) × (fanout_from turns x i a rands ≡ some (i, a, rest))
unfolding fanout_from fanout_turn
fanout_from-empty zero x i a rands covers empty h lt = (rands, refl)
fanout_from-empty (suc turns) x i a rands covers empty h lt =
    let (low, rest_low) = next_rand-Low rands h in
    let (age, young, found) = age_of-Covers x (next_rand rands).0 covers low in
    let nothing = draw_other-empty 15 age a (next_rand rands).1 (empty age young) in
    let (rest, same) = fanout_from-empty turns x i a (next_rand rands).1 covers empty rest_low lt in
    (rest, rw (lt→ltb i fanout lt, fanout_from, found, fanout_turn, nothing) same)

pub nodo_at-init :
    (net : Network) (n : ℕ) → n < length net → nodo_at (init net) n ≡ init_nodo (nodo_at net n)
unfolding init
nodo_at-init [] n lt = absurd (omega arith)
nodo_at-init (a ∷ net) zero lt = refl
nodo_at-init (a ∷ net) (suc n) lt = nodo_at-init net n (omega arith)

-- With bounds of the ages up to `estremo` and results of `rand()` below 2^31: `createFanout` does not
-- end for a node that `init` has reset and that has learnt of no neighbour: after any number of
-- turns it has chosen no cell.
pub init-create_fanout :
    (turns : ℕ) (x : RandomX) (net : Network) (n : ℕ) (rands : List ℕ)
    → Covers x
    → n < length net
    → length (nodo_at net n).neighbour ≡ max_age
    → Low rands
    → let a = nodo_at (init net) n in
      (rest : List ℕ) × (create_fanout turns x a rands ≡ some (0, a, rest))
init-create_fanout turns x net n rands covers lt len h =
    fanout_from-empty turns x 0 (nodo_at (init net) n) rands covers
      (rw (nodo_at-init net n lt) (init_nodo-AllEmpty (nodo_at net n) len)) h (omega arith)
