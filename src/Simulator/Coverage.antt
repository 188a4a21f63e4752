-- ===== src/Simulator/Coverage.antt =====
-- `ricorsive_membership` and `copertura_rete` of Simulatori/Simulator_v1.0/statistic.c: which nodes a
-- node can learn of in six hops.
pub mod Counts
pub mod Reach
use rounds.Base.{
  ℕ, zero, suc, ◌+◌, ◌≡◌, ◌<◌, ◌≤◌, refl, ◌∙◌, arith, Option, none, some, List, [], ◌∷◌, length,
  set, get_or, take, ltb, bit, sum_of, replicate, length-set, length-replicate, take-length,
}
use rounds.Simulator.{fanout, max_age, vista_age, Cells, Nodo, Network, nodo_at, count_node}
use rounds.Simulator.Query.{AllNodes, HasFanout, AllHaveFanout}

-- `_HOPS_COPERTURA`
abbrev pub hops_copertura : ℕ
hops_copertura = 6

-- The loop over `j`: the nodes of one list are counted, the cells that hold -1 are not. `none`: an
-- index out of bounds.
unfoldable pub count_cells : ℕ → Cells → List ℕ → Option (List ℕ)
count_cells zero cells nodi = some nodi
count_cells (suc n) [] nodi = some nodi
count_cells (suc n) (none ∷ cells) nodi = count_cells n cells nodi
count_cells (suc n) (some t ∷ cells) nodi = elim (count_node t nodi) [
  | none ↦ none
  | some nodi' ↦ count_cells n cells nodi'
]

-- The loop over `i`.
unfoldable pub count_lists : ℕ → List Cells → List ℕ → Option (List ℕ)
count_lists zero ls nodi = some nodi
count_lists (suc n) [] nodi = some nodi
count_lists (suc n) (cells ∷ ls) nodi = elim (count_cells vista_age cells nodi) [
  | none ↦ none
  | some nodi' ↦ count_lists n ls nodi'
]

-- The loop over the fanout; `member` is the call for the next hop.
unfoldable pub members : (Option ℕ → List ℕ → Option (List ℕ)) → Cells → List ℕ → Option (List ℕ)
members member [] nodi = some nodi
members member (c ∷ cells) nodi = elim (member c nodi) [
  | some nodi' ↦ members member cells nodi'
  | none ↦ none
]

-- `ricorsive_membership` with `_HOPS_COPERTURA - hop` hops left. `none`: the node is -1 or that
-- of a cell is none of the network, an index out of bounds.
unfoldable pub ricorsive_membership : ℕ → Network → Option ℕ → List ℕ → Option (List ℕ)
ricorsive_membership zero net n nodi = some nodi
ricorsive_membership (suc hops) net none nodi = none
ricorsive_membership (suc hops) net (some n) nodi =
    elim (count_lists max_age (nodo_at net n).neighbour nodi) [
      | none ↦ none
      | some nodi' ↦
          members (ricorsive_membership hops net) (take fanout (nodo_at net n).buffer_fanout) nodi'
    ]

-- The number of counters that are positive; `copertura_rete` returns it as a share of the network.
abbrev pub covered : ℕ → List ℕ → ℕ
covered num_nodi nodi = sum_of (λ c. bit (ltb 0 c)) num_nodi nodi

unfoldable pub copertura_rete : Network → ℕ → ℕ → Option ℕ
copertura_rete net num_nodi n =
    elim (ricorsive_membership hops_copertura net (some n) (replicate num_nodi 0)) [
      | some nodi ↦ some (covered num_nodi nodi)
      | none ↦ none
    ]
