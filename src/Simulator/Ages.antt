-- ===== src/Simulator/Ages.antt =====
-- What a round does to the ages of the simulator.
use rounds.Base.{
  ℕ, zero, suc, ◌+◌, ◌≡◌, ◌<◌, refl, ◌∙◌, arith, ap, ap₂, none, List, [], ◌∷◌, length, get_or, set,
  take, replicate, get_or-set_self, get_or-set_ne, length-set, ℕ_discrete, sum_of, take-length,
}
use rounds.Simulator.{
  max_age, vista_age, Cells, Nodo, Network, holds, reset_list_age, shift_lists, age_plus_one,
  dissemination_nodo,
}

length-shift_lists : (k : ℕ) (ls : List Cells) → length (shift_lists k ls) ≡ length ls
unfolding shift_lists
length-shift_lists zero ls = refl
length-shift_lists (suc i) ls =
    length-shift_lists i (set ls (suc i) (get_or ls i [])) ∙ length-set ls (suc i) (get_or ls i [])

shift_lists_above :
    (k : ℕ) (ls : List Cells) (j : ℕ) → k < j → get_or (shift_lists k ls) j [] ≡ get_or ls j []
unfolding shift_lists
shift_lists_above zero ls j h = refl
shift_lists_above (suc i) ls j h =
    shift_lists_above i (set ls (suc i) (get_or ls i [])) j (omega arith)
    ∙ get_or-set_ne ls (suc i) j (get_or ls i []) [] (λ e. absurd (omega arith))

shift_lists_lem :
    (k : ℕ) (ls : List Cells) (j : ℕ)
    → j < k
    → k < length ls
    → get_or (shift_lists k ls) (suc j) [] ≡ get_or ls j []
unfolding shift_lists
shift_lists_lem zero ls j h len = absurd (omega arith)
shift_lists_lem (suc i) ls j h len = elim (ℕ_discrete i j) [
  | yes same ↦ rw (← same) (
      shift_lists_above i (set ls (suc i) (get_or ls i [])) (suc i) (omega arith)
      ∙ get_or-set_self ls (suc i) (get_or ls i []) [] len)
  | no other ↦
      shift_lists_lem i (set ls (suc i) (get_or ls i [])) j (omega arith)
        (omega (arith, length-set ls (suc i) (get_or ls i [])))
      ∙ get_or-set_ne ls (suc i) j (get_or ls i []) [] (λ e. absurd (omega arith))
]

-- The ten lists of a node, and its hundred cells for what arrives.
pub record HasAges (a : Nodo) : Type 0 where
  pub ages : length a.neighbour ≡ max_age
  pub arrivi : length a.buffer_arrivi ≡ vista_age

-- Behind `agePlusOne` what has arrived is the list of age 0, and every other list is that of the age
-- before; nothing has arrived.
pub age_plus_one_lem :
    (a : Nodo)
    → HasAges a
    → let a' = age_plus_one a in
      (get_or a'.neighbour 0 [] ≡ a.buffer_arrivi)
      × ((i : ℕ) → i < 9 → get_or a'.neighbour (suc i) [] ≡ get_or a.neighbour i [])
      × (a'.buffer_arrivi ≡ replicate vista_age none)
      × HasAges a'
unfolding age_plus_one reset_list_age
age_plus_one_lem a v =
    let ls = set a.neighbour 9 (replicate vista_age none) in
    let temp = get_or ls 9 [] in
    let moved = set (shift_lists 9 ls) 0 temp in
    let arrived = take vista_age a.buffer_arrivi in
    let len : length moved ≡ max_age =
      length-set (shift_lists 9 ls) 0 temp
      ∙ length-shift_lists 9 ls
      ∙ length-set a.neighbour 9 (replicate vista_age none)
      ∙ v.ages in
    (
      get_or-set_self moved 0 arrived [] (omega (arith, len))
          ∙ take-length vista_age a.buffer_arrivi v.arrivi,
      λ i lt.
          get_or-set_ne moved 0 (suc i) arrived [] (λ e. absurd (omega arith))
          ∙ get_or-set_ne (shift_lists 9 ls) 0 (suc i) temp [] (λ e. absurd (omega arith))
          ∙ shift_lists_lem 9 ls i lt
              (omega (arith, v.ages, length-set a.neighbour 9 (replicate vista_age none)))
          ∙ get_or-set_ne a.neighbour 9 i (replicate vista_age none) [] (λ e. absurd (omega arith)),
      refl,
      record { ages = length-set moved 0 arrived ∙ len; arrivi = refl },
    )

-- The loops over all nodes, as in `test_copertura_rete`.
unfoldable pub age_all : Network → Network
age_all [] = []
age_all (a ∷ net) = age_plus_one a ∷ age_all net

abbrev pub AllHaveAges : Network → Type 0
AllHaveAges [] = Unit {0}
AllHaveAges (a ∷ net) = HasAges a × AllHaveAges net

-- How often `n` has arrived at the nodes.
pub arrived_nodo : ℕ → Network → ℕ
arrived_nodo n [] = 0
arrived_nodo n (a ∷ net) = sum_of (holds n) vista_age a.buffer_arrivi + arrived_nodo n net

-- When all nodes grow older by a round, `dissemination_nodo` of a node shows at age 0 how often the
-- node had arrived, and at every other age what it showed at the age before.
pub dissemination_nodo-age_all :
    (n : ℕ) (net : Network)
    → AllHaveAges net
    → (dissemination_nodo n 0 (age_all net) ≡ arrived_nodo n net)
      × ((i : ℕ) → i < 9 → dissemination_nodo n (suc i) (age_all net) ≡ dissemination_nodo n i net)
unfolding dissemination_nodo age_all arrived_nodo
dissemination_nodo-age_all n [] v = (refl, λ i lt. refl)
dissemination_nodo-age_all n (a ∷ net) (v, rest) =
    let (zeroth, others, blank, valid) = age_plus_one_lem a v in
    let (ih₀, ih) = dissemination_nodo-age_all n net rest in
    (
      ap₂ ◌+◌ (ap (sum_of (holds n) vista_age) zeroth) ih₀,
      λ i lt. ap₂ ◌+◌ (ap (sum_of (holds n) vista_age) (others i lt)) (ih i lt),
    )
