-- ===== src/Simulator/Run/Safety.antt =====
-- The whole simulation never meets an index out of bounds.
use rounds.Base.{
  ℕ, zero, suc, ◌+◌, ◌≡◌, ◌<◌, ◌≤◌, refl, ap, ◌∙◌, arith, Option, none, some, List, [], ◌∷◌, length,
}
use rounds.Random.{RandomX}
use rounds.Simulator.{Network}
use rounds.Simulator.Ages.{age_all}
use rounds.Simulator.Fanouts.{init}
use rounds.Simulator.Fanouts.Chosen.{Low, Covers}
use rounds.Simulator.Run.{
  Sim, goes, stuck, fails, boot_all, create_all, gossip_all, ◌then_sim◌, round_g, rounds_g,
  simulate,
}
use rounds.Simulator.Run.Fits.{AnyFanout, FullFanout, AllFit, weaken-AllFit, age_all-AllFit}
use rounds.Simulator.Run.Gossip.{NetFits, gossip_informations-Runs}
use rounds.Simulator.Run.Fanouts.{OnSim, create_all-OnSim}
use rounds.Simulator.Run.Boot.{OnNodes, AllSized, boot_all-OnNodes, init-AllReset, length-init}

then_sim-OnSim :
    (P Q : Network → Type 0) (s : Sim) (f : Network → List ℕ → Sim)
    → OnSim P s
    → ((net : Network) (rands : List ℕ) → P net → Low rands → OnSim Q (f net rands))
    → OnSim Q (s then_sim f)
then_sim-OnSim P Q (goes net rands) f (v, low) keep = keep net rands v low
then_sim-OnSim P Q stuck f v keep = tt
then_sim-OnSim P Q fails f v keep = v

length-age_all : (net : Network) → length (age_all net) ≡ length net
unfolding age_all
length-age_all [] = refl
length-age_all (a ∷ net) = ap suc (length-age_all net)

module _ (k : ℕ) (x : RandomX) (covers : Covers x) where
  gossip_all-OnSim :
      (n j turns : ℕ) (net : Network) (rands : List ℕ)
      → j + n ≡ k
      → NetFits k (FullFanout k) net
      → Low rands
      → OnSim (NetFits k (FullFanout k)) (gossip_all n j turns x net rands)
  unfolding gossip_all
  gossip_all-OnSim zero j turns net rands sum v low = (v, low)
  gossip_all-OnSim (suc n) j turns net rands sum v low =
      let (net', rest, e, v', low') =
        gossip_informations-Runs k x covers j (omega arith) turns rands net v low in
      rw (e, gossip_all) (gossip_all-OnSim n (j + 1) turns net' rest (omega arith) v' low')

  round_g-OnSim :
      (turns : ℕ) (net : Network) (rands : List ℕ)
      → NetFits k (AnyFanout k) net
      → Low rands
      → OnSim (NetFits k (AnyFanout k)) (round_g turns x net rands)
  round_g-OnSim turns net rands v low =
      then_sim-OnSim (λ net'. (length net' ≡ length (age_all net)) × AllFit k (FullFanout k) net')
        (NetFits k (AnyFanout k)) (create_all turns x (age_all net) rands) _
        (create_all-OnSim k x covers turns (age_all net) rands
          (age_all-AllFit k (AnyFanout k) net v.nodes) low)
        (λ net' rest (size, all) low'.
          weaken net' rest (size ∙ length-age_all net ∙ v.size) all low')
    where
      forget : (s : Sim) → OnSim (NetFits k (FullFanout k)) s → OnSim (NetFits k (AnyFanout k)) s
      forget (goes ns rs) (h, l) = (
        record {
          size = h.size;
          nodes = weaken-AllFit k (FullFanout k) (AnyFanout k) ns (λ cells f. f.0) h.nodes;
        },
        l,
      )
      forget stuck h = tt
      forget fails h = h

      weaken :
          (ns : Network) (rs : List ℕ)
          → length ns ≡ k
          → AllFit k (FullFanout k) ns
          → Low rs
          → OnSim (NetFits k (AnyFanout k)) (gossip_all (length ns) 0 turns x ns rs)
      weaken ns rs size all l = forget (gossip_all (length ns) 0 turns x ns rs) (
          gossip_all-OnSim (length ns) 0 turns ns rs (omega arith)
            (record { size = size; nodes = all }) l)

  rounds_g-OnSim :
      (n turns : ℕ) (net : Network) (rands : List ℕ)
      → NetFits k (AnyFanout k) net
      → Low rands
      → OnSim (NetFits k (AnyFanout k)) (rounds_g n turns x net rands)
  unfolding rounds_g
  rounds_g-OnSim zero turns net rands v low = (v, low)
  rounds_g-OnSim (suc n) turns net rands v low =
      then_sim-OnSim (NetFits k (AnyFanout k)) (NetFits k (AnyFanout k)) (round_g turns x net rands)
        (rounds_g n turns x) (round_g-OnSim turns net rands v low)
        (λ net' rest v' low'. rounds_g-OnSim n turns net' rest v' low')

-- For nodes with ten lists each, bounds of the ages up to `estremo`, results of `rand()` below 2^31 and
-- at most as many nodes known at the start as there are: the simulation meets no index out of
-- bounds in any number of rounds, and always finds an age. Unless a loop that draws has not ended,
-- all arrays have their sizes behind it and hold nodes of the network only.
pub simulate-NetFits :
    (boot n turns : ℕ) (x : RandomX) (net : Network) (rands : List ℕ)
    → 0 < boot
    → boot ≤ length net
    → Covers x
    → AllSized net
    → Low rands
    → OnSim (NetFits (length net) (AnyFanout (length net))) (simulate boot n turns x net rands)
unfolding simulate
simulate-NetFits boot n turns x net rands pos within covers sized low =
    go (boot_all boot 0 (init net) rands) (
      boot_all-OnNodes (length net) boot pos within 0 (init net) rands
        (omega (arith, length-init net))
        (init-AllReset (length net) (omega arith) boot pos within net sized) low)
  where
    go :
        (o : Option (Network × List ℕ))
        → OnNodes (length net) boot pos within (length (init net)) o
        → OnSim
            (NetFits (length net) (AnyFanout (length net)))
            (elim o [ none ↦ stuck | some (net', rest) ↦ rounds_g n turns x net' rest ])
    go none h = tt
    go (some (net', rest)) (size, nodes, low') =
        rounds_g-OnSim (length net) x covers n turns net' rest
          (record { size = size ∙ length-init net; nodes = nodes }) low'
