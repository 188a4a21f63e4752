-- ===== src/Simulator/Run/Gossip.antt =====
-- The gossip of a node, and its fanout, leave nodes of the network everywhere.
use rounds.Base.{
  ℕ, zero, suc, ◌+◌, ◌≡◌, ◌<◌, refl, ◌∙◌, arith, Bool, true, false, Option, none, some, List,
  length, set, length-set, if◌then◌else◌,
}
use rounds.Random.{RandomX}
use rounds.Simulator.{
  fanout, max_age, gossip_nodi, Cells, Nodo, Network, nodo_at, next_rand, ins_nodo,
  ins_buffer_arrivi, random_neighbour, pass_on, vicini_turn, random_vicini_gossip, gossip_to,
  gossip_from, gossip_informations,
}
use rounds.Simulator.Fanouts.Chosen.{
  Low, next_rand-Low, random_neighbour-Low, Covers, age_of-Covers,
}
use rounds.Simulator.Run.Fits.{
  CellFits, FullFanout, NodoFits, AllFit, get-AllFit, set-AllFit, ins_nodo-NodoFits,
  ins_buffer_arrivi-NodoFits, random_neighbour-CellFits,
}

-- A network of `k` nodes that all fit.
pub record NetFits (k : ℕ) (F : Cells → Type 0) (net : Network) : Type 0 where
  pub size : length net ≡ k
  pub nodes : AllFit k F net

module _ (k : ℕ) (F : Cells → Type 0) where
  pub nodo_at-NodoFits :
      (net : Network) (n : ℕ) → n < k → NetFits k F net → NodoFits k F (nodo_at net n)
  nodo_at-NodoFits net n lt v = get-AllFit k F net n (omega (arith, v.size)) v.nodes

  set-NetFits :
      (net : Network) (n : ℕ) (a : Nodo)
      → NodoFits k F a
      → NetFits k F net
      → NetFits k F (set net n a)
  set-NetFits net n a h v = record {
    size = length-set net n a ∙ v.size;
    nodes = set-AllFit k F net n a h v.nodes;
  }

  -- A turn of `random_vicini_gossip`, and what is left when a loop has run.
  abbrev TurnFits : Option (Network × Bool × List ℕ) → Type 0
  TurnFits r =
      (net : Network) × (found : Bool) × (rest : List ℕ) × (r ≡ some (net, found, rest))
      × NetFits k F net
      × Low rest

  abbrev pub Runs : Option (Network × List ℕ) → Type 0
  Runs r = (net : Network) × (rest : List ℕ) × (r ≡ some (net, rest)) × NetFits k F net × Low rest

module _ (k : ℕ) (F : Cells → Type 0) (x : RandomX) (covers : Covers x) (ric mit : ℕ)
    (ric_in : ric < k) (mit_in : mit < k) where
  pass_on-TurnFits :
      (t : Option ℕ) (age : ℕ) (rands : List ℕ) (net : Network)
      → CellFits k t
      → age < max_age
      → NetFits k F net
      → Low rands
      → TurnFits k F (some (pass_on ric t age mit rands net))
  unfolding pass_on
  pass_on-TurnFits none age rands net fits young v low = (net, false, rands, refl, v, low)
  pass_on-TurnFits (some t) age rands net fits young v low =
      let (node, rest) =
        ins_nodo-NodoFits k F (nodo_at net ric) t rands (nodo_at-NodoFits k F net ric ric_in v) fits
          low age young in
      (
        _,
        true,
        _,
        refl,
        set-NetFits k F net ric (ins_nodo (nodo_at net ric) age t rands).0 node v,
        rest,
      )

  vicini_turn-TurnFits :
      (rands : List ℕ) (net : Network)
      → NetFits k F net
      → Low rands
      → TurnFits k F (vicini_turn x ric mit rands net)
  unfolding vicini_turn
  vicini_turn-TurnFits rands net v low =
      let (first, rest_low) = next_rand-Low rands low in
      let (age, young, found) = age_of-Covers x (next_rand rands).0 covers first in
      let drawn = random_neighbour age (nodo_at net mit) (next_rand rands).1 in
      rw (found, vicini_turn)
        (pass_on-TurnFits drawn.0 age drawn.1 net
          (random_neighbour-CellFits k F (nodo_at net mit) age (next_rand rands).1
            (nodo_at-NodoFits k F net mit mit_in v) rest_low)
          young v (random_neighbour-Low age (nodo_at net mit) (next_rand rands).1 rest_low))

  random_vicini_gossip-Runs :
      (turns left : ℕ) (rands : List ℕ) (net : Network)
      → NetFits k F net
      → Low rands
      → Runs k F (random_vicini_gossip turns x left ric mit rands net)
  unfolding random_vicini_gossip
  random_vicini_gossip-Runs zero left rands net v low = (net, rands, refl, v, low)
  random_vicini_gossip-Runs (suc turns) zero rands net v low = (net, rands, refl, v, low)
  random_vicini_gossip-Runs (suc turns) (suc left) rands net v low =
      let (net', found, rest, e, v', low') = vicini_turn-TurnFits rands net v low in
      rw (e, random_vicini_gossip)
        (random_vicini_gossip-Runs turns (if found then left else suc left) rest net' v' low')

module _ (k : ℕ) (x : RandomX) (covers : Covers x) (mit : ℕ) (mit_in : mit < k) where
  gossip_to-Runs :
      (turns ric : ℕ) (rands : List ℕ) (net : Network)
      → ric < k
      → NetFits k (FullFanout k) net
      → Low rands
      → Runs k (FullFanout k) (gossip_to turns x (some ric) mit rands net)
  gossip_to-Runs turns ric rands net ric_in v low =
      let (arrived, rest) =
        ins_buffer_arrivi-NodoFits k (FullFanout k) (nodo_at net ric) (nodo_at net mit).id_nodo
          rands (nodo_at-NodoFits k (FullFanout k) net ric ric_in v)
          (nodo_at-NodoFits k (FullFanout k) net mit mit_in v).id low in
      let a = (ins_buffer_arrivi (nodo_at net ric) (nodo_at net mit).id_nodo rands).0 in
      random_vicini_gossip-Runs k (FullFanout k) x covers ric mit ric_in mit_in turns gossip_nodi _
        (set net ric a) (set-NetFits k (FullFanout k) net ric a arrived v) rest

  gossip_from-Runs :
      (n i turns : ℕ) (rands : List ℕ) (net : Network)
      → i + n ≡ fanout
      → NetFits k (FullFanout k) net
      → Low rands
      → Runs k (FullFanout k) (gossip_from n i turns x mit rands net)
  unfolding gossip_from
  gossip_from-Runs zero i turns rands net sum v low = (net, rands, refl, v, low)
  gossip_from-Runs (suc n) i turns rands net sum v low =
      let mine = nodo_at-NodoFits k (FullFanout k) net mit mit_in v in
      let (ric, ric_in, here) = mine.chosen.1 i (omega arith) in
      let (net', rest, e, v', low') = gossip_to-Runs turns ric rands net ric_in v low in
      rw (here, gossip_from, e) (gossip_from-Runs n (i + 1) turns rest net' (omega arith) v' low')

  -- The gossip of a node whose fanout is chosen.
  pub gossip_informations-Runs :
      (turns : ℕ) (rands : List ℕ) (net : Network)
      → NetFits k (FullFanout k) net
      → Low rands
      → Runs k (FullFanout k) (gossip_informations turns x mit rands net)
  gossip_informations-Runs turns rands net v low =
      gossip_from-Runs fanout 0 turns rands net refl v low
