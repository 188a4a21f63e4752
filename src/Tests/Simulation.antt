-- ===== src/Tests/Simulation.antt =====
-- The simulator at concrete inputs.
use rounds.Base.{
  ℕ, zero, suc, ◌↔◌, ◌≡◌, ◌<◌, refl, arith, none, some, List, [], ◌∷◌, get_or, set, replicate,
}
use rounds.Simulator.{
  fanout, max_age, vista_age, Cells, Nodo, Network, count_filled, dissemination_query,
}
use rounds.Simulator.Query.{AllHaveFanout, total, dissemination_query_lem}
use rounds.Simulator.Coverage.{ricorsive_membership}
use rounds.Simulator.Coverage.Counts.{Counted}
use rounds.Simulator.Coverage.Reach.{AllKnow, Learns, ricorsive_membership_iff}
use rounds.Random.{RandomX}
use rounds.Simulator.Fanouts.{create_fanout}
use rounds.Simulator.Fanouts.Chosen.{Low, Covers, AllFilled, Chosen, create_fanout-Chosen}

abbrev no_cells : Cells
no_cells = replicate vista_age none

-- Two nodes that know each other.
abbrev left : Nodo
left = record {
  id_nodo = 0;
  neighbour = set (replicate max_age no_cells) 0 (set no_cells 0 (some 1));
  buffer_fanout = replicate 5 (some 1);
  buffer_arrivi = set no_cells 0 (some 1);
}

abbrev right : Nodo
right = record {
  id_nodo = 1;
  neighbour = replicate max_age no_cells;
  buffer_fanout = replicate 5 (some 0);
  buffer_arrivi = no_cells;
}

abbrev pair : Network
pair = left ∷ right ∷ []

pair-HasFanout : AllHaveFanout pair
pair-HasFanout zero h = record { size = refl; nodes = omega arith }
pair-HasFanout (suc zero) h = record { size = refl; nodes = omega arith }
pair-HasFanout (suc (suc n)) h = absurd (omega arith)

pair-AllKnow : AllKnow pair
pair-AllKnow zero h = omega arith
pair-AllKnow (suc zero) h = omega arith
pair-AllKnow (suc (suc n)) h = absurd (omega arith)

dissemination_query_example :
    (nodi : List ℕ) × (dissemination_query pair 2 0 ≡ some nodi) × (total 2 nodi ≡ 12207030)
dissemination_query_example = dissemination_query_lem pair 0 pair-HasFanout (omega arith)

membership_example :
    (nodi : List ℕ) × (ricorsive_membership 6 pair (some 0) (replicate 2 0) ≡ some nodi)
    × (Counted nodi 1 ↔ Learns 6 pair 0 1)
membership_example =
    ricorsive_membership_iff pair 0 1 pair-HasFanout pair-AllKnow (omega arith) (omega arith)

-- Every age has one number.
abbrev pub even_ages : RandomX
even_ages = record { estremo = 10; intorno = 1 ∷ 2 ∷ 3 ∷ 4 ∷ 5 ∷ 6 ∷ 7 ∷ 8 ∷ 9 ∷ 10 ∷ [] }

pub even_ages-Covers : Covers even_ages
even_ages-Covers = record { positive = omega arith; bounds = refl; reached = omega arith }

abbrev draws : List ℕ
draws = 2_000_000_000 ∷ 5 ∷ []

draws-Low : Low draws
draws-Low zero = omega arith
draws-Low (suc zero) = omega arith
draws-Low (suc (suc k)) = omega arith

-- A node that knows another at every age.
abbrev settled : Nodo
settled = record left { neighbour = replicate max_age (set no_cells 0 (some 1)) }

settled-AllFilled : AllFilled settled.neighbour
unfolding count_filled
settled-AllFilled = each max_age
  where
    each :
        (n age : ℕ)
        → age < n
        → 0 < count_filled vista_age (get_or (replicate n (set no_cells 0 (some 1))) age [])
    each zero age h = absurd (omega arith)
    each (suc n) zero h = omega arith
    each (suc n) (suc age) h = each n age (omega arith)

create_fanout_example :
    (a' : Nodo) × (rest : List ℕ) × (create_fanout fanout even_ages settled draws
      ≡ some (fanout, a', rest))
    × Chosen settled.neighbour fanout a'
create_fanout_example =
    create_fanout-Chosen even_ages settled draws even_ages-Covers settled-AllFilled refl draws-Low
