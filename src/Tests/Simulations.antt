-- ===== src/Tests/Simulations.antt =====
-- A whole simulation of seven nodes.
use rounds.Base.{ℕ, zero, suc, refl, arith, List, [], ◌∷◌, ◌++◌, replicate}
use rounds.Simulator.{max_age, Network, blank_nodo}
use rounds.Simulator.Fanouts.Chosen.{Low}
use rounds.Simulator.Run.{simulate}
use rounds.Simulator.Run.Fits.{AnyFanout}
use rounds.Simulator.Run.Gossip.{NetFits}
use rounds.Simulator.Run.Fanouts.{OnSim}
use rounds.Simulator.Run.Safety.{simulate-NetFits}
use rounds.Tests.Simulation.{even_ages, even_ages-Covers}

abbrev seven : Network
seven = replicate 7 (record blank_nodo { neighbour = replicate max_age [] })

-- Each of the seven numbers in turn.
abbrev turn : List ℕ
turn =
    5 ∷ 306_783_400 ∷ 613_566_800 ∷ 920_350_200 ∷ 1_227_133_600 ∷ 1_533_917_000 ∷ 1_840_700_400 ∷ []

abbrev turns_of : ℕ → List ℕ
turns_of zero = []
turns_of (suc n) = turn ++ turns_of n

turn-Low : (rands : List ℕ) → Low rands → Low (turn ++ rands)
turn-Low rands h zero = omega arith
turn-Low rands h (suc zero) = omega arith
turn-Low rands h (suc (suc zero)) = omega arith
turn-Low rands h (suc (suc (suc zero))) = omega arith
turn-Low rands h (suc (suc (suc (suc zero)))) = omega arith
turn-Low rands h (suc (suc (suc (suc (suc zero))))) = omega arith
turn-Low rands h (suc (suc (suc (suc (suc (suc zero)))))) = omega arith
turn-Low rands h (suc (suc (suc (suc (suc (suc (suc k))))))) = h k

turns_of-Low : (n : ℕ) → Low (turns_of n)
turns_of-Low zero k = omega arith
turns_of-Low (suc n) k = turn-Low (turns_of n) (turns_of-Low n) k

simulate-NetFits_example :
    OnSim (NetFits 7 (AnyFanout 7)) (simulate 7 2 10 even_ages seven (turns_of 8))
simulate-NetFits_example =
    simulate-NetFits 7 2 10 even_ages seven (turns_of 8) (omega arith) (omega arith)
      even_ages-Covers (refl, (refl, (refl, (refl, (refl, (refl, (refl, tt))))))) (turns_of-Low 8)
