-- ===== src/Simulator/Run.antt =====
-- The main program of the simulator, Simulatori/Simulator_v1.0/simulator.c: the nodes get their first
-- neighbours, and then the rounds of gossip run. `_NUM_NODI` is the length of the network and
-- `_BOOTSTRAP` a parameter.
pub mod Fits
pub mod Gossip
pub mod Fanouts
pub mod Boot
pub mod Safety
use rounds.Base.{
  ℕ, zero, suc, ◌+◌, Bool, true, false, ◌==◌, ◌||◌, Option, none, some, List, [], ◌∷◌, ltb, set,
  take, length, if◌then◌else◌,
}
use rounds.Random.{RandomX, num_random}
use rounds.Simulator.{fanout, Cells, Nodo, Network, age_plus_one, gossip_informations}
use rounds.Simulator.Ages.{age_all}
use rounds.Simulator.Fanouts.{init, is_taken, create_fanout}

-- Where the simulation stands: it goes on, a loop that draws has not ended, or no age fits or an index
-- is out of bounds.
pub data Sim : Type 0 where
  goes : Network → List ℕ → Sim
  stuck : Sim
  fails : Sim

-- The loop over the first five cells of what has arrived, from the cell `j` on: a node is drawn until
-- it is another than the own one and stands in none of the five cells. `none`: the results of
-- `rand()` have run out.
unfoldable pub boot_cells : ℕ → ℕ → List ℕ → ℕ → Cells → Option (Cells × List ℕ)
boot_cells boot id [] j cells = if ltb j fanout then none else some (cells, [])
boot_cells boot id (r ∷ rands) j cells =
    let num_rand = num_random boot r in
    elim (ltb j fanout) [
      | false ↦ some (cells, r ∷ rands)
      | true ↦ elim (num_rand == id || is_taken (some num_rand) (take fanout cells)) [
        | true ↦ boot_cells boot id rands j cells
        | false ↦ boot_cells boot id rands (j + 1) (set cells j (some num_rand))
      ]
    ]

-- `for (i = 0; i < _NUM_NODI; ++i)`: the nodes from the number `i` on.
unfoldable pub boot_all : ℕ → ℕ → Network → List ℕ → Option (Network × List ℕ)
boot_all boot i [] rands = some ([], rands)
boot_all boot i (a ∷ net) rands = elim (boot_cells boot i rands 0 a.buffer_arrivi) [
  | none ↦ none
  | some (cells, rest) ↦ elim (boot_all boot (i + 1) net rest) [
    | none ↦ none
    | some (net', rest') ↦ some (record a { id_nodo = i; buffer_arrivi = cells } ∷ net', rest')
  ]
]

-- The loop of `createFanout` over the nodes.
abbrev pub with_first : Nodo → Sim → Sim
with_first a (goes net rands) = goes (a ∷ net) rands
with_first a stuck = stuck
with_first a fails = fails

unfoldable pub create_all : ℕ → RandomX → Network → List ℕ → Sim
create_all turns x [] rands = goes [] rands
create_all turns x (a ∷ net) rands = elim (create_fanout turns x a rands) [
  | none ↦ fails
  | some (i, a', rest) ↦ elim (i == fanout) [
    | true ↦ with_first a' (create_all turns x net rest)
    | false ↦ stuck
  ]
]

-- The loop of `gossip_informations` over the nodes: `n` are left, from the node `j` on.
unfoldable pub gossip_all : ℕ → ℕ → ℕ → RandomX → Network → List ℕ → Sim
gossip_all zero j turns x net rands = goes net rands
gossip_all (suc n) j turns x net rands = elim (gossip_informations turns x j rands net) [
  | none ↦ fails
  | some (net', rest) ↦ gossip_all n (j + 1) turns x net' rest
]

infixl 5 ◌then_sim◌
abbrev pub ◌then_sim◌ : Sim → (Network → List ℕ → Sim) → Sim
(goes net rands) then_sim f = f net rands
stuck then_sim f = stuck
fails then_sim f = fails

-- One turn of the loop over `_ROUND_G`, and `n` turns.
abbrev pub round_g : ℕ → RandomX → Network → List ℕ → Sim
round_g turns x net rands =
    create_all turns x (age_all net) rands
    then_sim (λ net' rest. gossip_all (length net') 0 turns x net' rest)

unfoldable pub rounds_g : ℕ → ℕ → RandomX → Network → List ℕ → Sim
rounds_g zero turns x net rands = goes net rands
rounds_g (suc n) turns x net rands = round_g turns x net rands then_sim rounds_g n turns x

-- `main` up to the statistics.
unfoldable pub simulate : ℕ → ℕ → ℕ → RandomX → Network → List ℕ → Sim
simulate boot n turns x net rands = elim (boot_all boot 0 (init net) rands) [
  | none ↦ stuck
  | some (net', rest) ↦ rounds_g n turns x net' rest
]
