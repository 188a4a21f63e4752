-- ===== src/Simulator/Query.antt =====
-- How many messages a query of the simulator causes.
use rounds.Base.{
  ℕ, zero, suc, ◌+◌, ◌*◌, ◌≡◌, ◌<◌, refl, ap, ◌∙◌, arith, Option, none, some, List, [], ◌∷◌, length,
  get_or, lt→ltb, take-length, sum_of, sum_of-set, length-set, length-replicate, sum_of-replicate,
  replicate,
}
use rounds.Simulator.{
  fanout, raggio_query, Cells, Nodo, Network, nodo_at, counted, count_node, visit, ricorsive_query,
  dissemination_query,
}

-- Every cell holds a node of the network, which has `k` nodes.
abbrev pub AllNodes : ℕ → Cells → Type 0
AllNodes k [] = Unit {0}
AllNodes k (none ∷ cells) = ⊥
AllNodes k (some t ∷ cells) = (t < k) × AllNodes k cells

-- Every node has chosen its fanout.
pub record HasFanout (k : ℕ) (a : Nodo) : Type 0 where
  pub size : length a.buffer_fanout ≡ fanout
  pub nodes : AllNodes k a.buffer_fanout

abbrev pub AllHaveFanout : Network → Type 0
AllHaveFanout net = (n : ℕ) → n < length net → HasFanout (length net) (nodo_at net n)

-- The messages that a node causes with so many hops left: one to each peer of its fanout, and what
-- each of these causes.
pub messages : ℕ → ℕ
messages zero = 0
messages (suc hops) = fanout * (1 + messages hops)

abbrev pub total : ℕ → List ℕ → ℕ
total k nodi = sum_of (λ c. c) k nodi

-- Counters for all nodes, which count `more` messages in addition.
abbrev pub Counts : ℕ → ℕ → List ℕ → Option (List ℕ) → Type 0
Counts k more nodi r =
    (nodi' : List ℕ) × (r ≡ some nodi') × (length nodi' ≡ k) × (total k nodi' ≡ total k nodi + more)

total-counted :
    (k t : ℕ) (nodi : List ℕ)
    → t < k
    → length nodi ≡ k
    → total k (counted t nodi) ≡ total k nodi + 1
total-counted k t nodi lt len =
    omega (arith, sum_of-set (λ (c : ℕ). c) k nodi t (get_or nodi t 0 + 1) 0 lt (omega arith))

pub count_node-counted :
    (t : ℕ) (nodi : List ℕ) → t < length nodi → count_node t nodi ≡ some (counted t nodi)
unfolding count_node
count_node-counted t nodi lt = rw (lt→ltb t (length nodi) lt) refl

visit-Counts :
    (k more : ℕ) (query : ℕ → List ℕ → Option (List ℕ))
    → ((t : ℕ) (nodi : List ℕ) → t < k → length nodi ≡ k → Counts k more nodi (query t nodi))
    → (cells : Cells) (nodi : List ℕ) → AllNodes k cells
    → length nodi ≡ k
    → Counts k (length cells * (1 + more)) nodi (visit query cells nodi)
unfolding visit
visit-Counts k more query each [] nodi all len = (nodi, refl, len, omega arith)
visit-Counts k more query each (none ∷ cells) nodi all len = absurd all
visit-Counts k more query each (some t ∷ cells) nodi (lt, all) len =
    let (nodi₁, e₁, len₁, total₁) =
      each t (counted t nodi) lt (length-set nodi t (get_or nodi t 0 + 1) ∙ len) in
    let (nodi₂, e₂, len₂, total₂) = visit-Counts k more query each cells nodi₁ all len₁ in
    (
      nodi₂,
      rw (visit, count_node-counted t nodi (omega (arith, len)), e₁) e₂,
      len₂,
      grind (arith, total₁, total₂, total-counted k t nodi lt len),
    )

ricorsive_query-Counts :
    (hops : ℕ) (net : Network)
    → AllHaveFanout net
    → (n : ℕ) (nodi : List ℕ) → n < length net
    → length nodi ≡ length net
    → Counts (length net) (messages hops) nodi (ricorsive_query hops net n nodi)
unfolding ricorsive_query messages
ricorsive_query-Counts zero net full n nodi lt len = (nodi, refl, len, omega arith)
ricorsive_query-Counts (suc hops) net full n nodi lt len =
    let v : HasFanout (length net) (nodo_at net n) = full n lt in
    let (nodi', e, len', total') =
      visit-Counts (length net) (messages hops) (ricorsive_query hops net)
        (ricorsive_query-Counts hops net full) (nodo_at net n).buffer_fanout nodi v.nodes len in
    (
      nodi',
      rw (take-length fanout (nodo_at net n).buffer_fanout v.size) e,
      len',
      omega (arith, total', ap (λ (l : ℕ). l * (1 + messages hops)) v.size),
    )

-- In a network where every node has chosen its fanout among the nodes, a query from any node ends,
-- no index is out of bounds, and its ten hops cause 12,207,030 messages in all, however the fanouts
-- overlap.
pub dissemination_query_lem :
    (net : Network) (n : ℕ)
    → AllHaveFanout net
    → n < length net
    → (nodi : List ℕ) × (dissemination_query net (length net) n ≡ some nodi)
      × (total (length net) nodi ≡ 12207030)
unfolding messages
dissemination_query_lem net n full lt =
    let start = replicate (length net) 0 in
    let (nodi, e, len, sum) =
      ricorsive_query-Counts raggio_query net full n start lt (length-replicate (length net) 0) in
    (nodi, e, omega (arith, sum, sum_of-replicate (λ (c : ℕ). c) (length net) (length net) 0 refl))
