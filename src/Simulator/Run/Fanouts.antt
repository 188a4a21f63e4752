-- ===== src/Simulator/Run/Fanouts.antt =====
-- The fanout of a node that `createFanout` has chosen holds five nodes of the network.
use rounds.Base.{
  ℕ, zero, suc, ◌≡◌, ◌<◌, inl, inr, refl, ap, ◌∙◌, arith, Option, none, some, List, [], ◌∷◌, length,
  set_keeps, length-set, Bool-cases, ltb, ltb→lt, get_or-set_self, get_or-set_ne, ℕ_discrete, ◌==◌,
  ==_iff,
}
use rounds.Random.{RandomX}
use rounds.Simulator.{fanout, Nodo, Network, next_rand, random_neighbour}
use rounds.Simulator.Fanouts.{is_taken, draw_other, put_fanout, fanout_turn, fanout_from}
use rounds.Simulator.Fanouts.Chosen.{
  Low, next_rand-Low, random_neighbour-Low, Covers, age_of-Covers,
}
use rounds.Simulator.Run.{Sim, goes, stuck, fails, with_first, create_all}
use rounds.Simulator.Run.Fits.{
  CellFits, AnyFanout, Prefix, FullFanout, NodoFits, AllFit, random_neighbour-CellFits,
}

module _ (k : ℕ) (a : Nodo) (v : NodoFits k (AnyFanout k) a) where
  draw_other-CellFits :
      (tries age : ℕ) (t : Option ℕ) (rands : List ℕ)
      → CellFits k t
      → Low rands
      → CellFits k (draw_other tries age a t rands).0 × Low (draw_other tries age a t rands).1
  unfolding draw_other
  draw_other-CellFits zero age t rands fits low = (fits, low)
  draw_other-CellFits (suc tries) age t rands fits low =
      let t' = (random_neighbour age a rands).0 in
      let drawn = random_neighbour-CellFits k (AnyFanout k) a age rands v low in
      let left = random_neighbour-Low age a rands low in
      elim (Bool-cases (is_taken t' a.buffer_fanout)) [
        | inl again ↦ rw (again, draw_other) (draw_other-CellFits tries age t' _ drawn left)
        | inr other ↦ rw (other, draw_other) (drawn, left)
      ]

-- The first `i` cells have been chosen.
pub record Begun (k i : ℕ) (a : Nodo) : Type 0 where
  pub node : NodoFits k (AnyFanout k) a
  pub first : Prefix k i a.buffer_fanout

put_fanout-Begun :
    (k i : ℕ) (t : Option ℕ) (a : Nodo)
    → i < fanout
    → CellFits k t
    → Begun k i a
    → Begun k (put_fanout i t a).0 (put_fanout i t a).1
put_fanout-Begun k i none a lt fits v = v
put_fanout-Begun k i (some t) a lt fits v =
    let (size, cells) = v.node.chosen in
    record {
      node = record {
        ages = v.node.ages;
        sizes = v.node.sizes;
        lists = v.node.lists;
        arrivi_size = v.node.arrivi_size;
        arrivi = v.node.arrivi;
        chosen = (
          length-set a.buffer_fanout i (some t) ∙ size,
          λ j. set_keeps (CellFits k) a.buffer_fanout i j (some t) none fits (cells j),
        );
        id = v.node.id;
      };
      first = λ w l. elim (ℕ_discrete i w) [
        | yes here ↦ (
          t,
          fits,
          rw (← here) (get_or-set_self a.buffer_fanout i (some t) none (omega (arith, size))),
        )
        | no other ↦
            let (u, bound, same) = v.first w (omega arith) in
            (u, bound, get_or-set_ne a.buffer_fanout i w (some t) none other ∙ same)
      ];
    }

-- The simulation goes on with what satisfies `P`, or a loop has not ended; nothing fails.
abbrev pub OnSim : (Network → Type 0) → Sim → Type 0
OnSim P (goes net rands) = P net × Low rands
OnSim P stuck = Unit {0}
OnSim P fails = ⊥

module _ (k : ℕ) (x : RandomX) (covers : Covers x) where
  fanout_turn-Begun :
      (i : ℕ) (a : Nodo) (rands : List ℕ)
      → i < fanout
      → Begun k i a
      → Low rands
      → (i' : ℕ) × (a' : Nodo) × (rest : List ℕ) × (fanout_turn x i a rands ≡ some (i', a', rest))
        × Begun k i' a'
        × Low rest
  unfolding fanout_turn
  fanout_turn-Begun i a rands lt v low =
      let (first, rest_low) = next_rand-Low rands low in
      let (age, young, found) = age_of-Covers x (next_rand rands).0 covers first in
      let t = draw_other 15 age a none (next_rand rands).1 in
      let (fits, left) =
        draw_other-CellFits k a v.node 15 age none (next_rand rands).1 tt rest_low in
      (
        (put_fanout i t.0 a).0,
        (put_fanout i t.0 a).1,
        t.1,
        rw (found, fanout_turn) refl,
        put_fanout-Begun k i t.0 a lt fits v,
        left,
      )

  fanout_from-Begun :
      (turns i : ℕ) (a : Nodo) (rands : List ℕ)
      → Begun k i a
      → Low rands
      → (i' : ℕ) × (a' : Nodo) × (rest : List ℕ) × (fanout_from turns x i a rands
          ≡ some (i', a', rest))
        × Begun k i' a'
        × Low rest
  unfolding fanout_from
  fanout_from-Begun zero i a rands v low = (i, a, rands, refl, v, low)
  fanout_from-Begun (suc turns) i a rands v low = elim (Bool-cases (ltb i fanout)) [
    | inr done ↦ (i, a, rands, rw (done, fanout_from) refl, v, low)
    | inl more ↦
        let (i₁, a₁, rest₁, e₁, v₁, low₁) =
          fanout_turn-Begun i a rands (ltb→lt i fanout more) v low in
        let (i₂, a₂, rest₂, e₂, v₂, low₂) = fanout_from-Begun turns i₁ a₁ rest₁ v₁ low₁ in
        (i₂, a₂, rest₂, rw (more, fanout_from, e₁) e₂, v₂, low₂)
  ]

  with_first-OnSim :
      (n : ℕ) (a : Nodo) (s : Sim)
      → NodoFits k (FullFanout k) a
      → OnSim (λ net. (length net ≡ n) × AllFit k (FullFanout k) net) s
      → OnSim (λ net. (length net ≡ suc n) × AllFit k (FullFanout k) net) (with_first a s)
  with_first-OnSim n a (goes net rands) h ((size, v), low) = ((ap suc size, (h, v)), low)
  with_first-OnSim n a stuck h v = tt
  with_first-OnSim n a fails h v = v

  -- Behind `createFanout` of all nodes every fanout is chosen.
  pub create_all-OnSim :
      (turns : ℕ) (net : Network) (rands : List ℕ)
      → AllFit k (AnyFanout k) net
      → Low rands
      → OnSim
          (λ net'. (length net' ≡ length net) × AllFit k (FullFanout k) net')
          (create_all turns x net rands)
  unfolding create_all
  create_all-OnSim turns [] rands v low = ((refl, tt), low)
  create_all-OnSim turns (a ∷ net) rands (v, all) low =
      let (i, a', rest, e, begun, low') =
        fanout_from-Begun turns 0 a rands (record { node = v; first = λ w l. absurd (omega arith) })
          low in
      elim (Bool-cases (i == fanout)) [
        | inr short ↦ rw (e, create_all, short) tt
        | inl done ↦
            rw (e, create_all, done)
              (with_first-OnSim (length net) a' (create_all turns x net rest)
                (record {
                  ages = begun.node.ages;
                  sizes = begun.node.sizes;
                  lists = begun.node.lists;
                  arrivi_size = begun.node.arrivi_size;
                  arrivi = begun.node.arrivi;
                  chosen = (
                    begun.node.chosen,
                    λ w l. begun.first w (omega (arith, (==_iff i fanout).0 done)),
                  );
                  id = begun.node.id;
                })
                (create_all-OnSim turns net rest all low'))
      ]
