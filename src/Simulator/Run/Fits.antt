-- ===== src/Simulator/Run/Fits.antt =====
-- What the nodes of the simulator hold are nodes of the network.
use rounds.Base.{
  ℕ, zero, suc, ◌≡◌, ◌<◌, inl, inr, sym, subst, ap, ◌∙◌, arith, Option, none, some, List, [], ◌∷◌,
  length, get_or, set, set_keeps, length-set, Option-cases, find_first, replicate, get_or-ge,
  get_or-replicate, dec_lt,
}
use rounds.Random.{num_random}
use rounds.Simulator.{
  fanout, max_age, vista_age, Cells, Nodo, Network, nodo_at, next_rand, put, is_empty, ins_nodo,
  ins_buffer_arrivi, random_neighbour, age_plus_one, reset_list_age,
}
use rounds.Simulator.Ages.{age_plus_one_lem, age_all}
use rounds.Simulator.Choice.{random_neighbour_lem}
use rounds.Simulator.Fanouts.Chosen.{Low, next_rand-Low}

abbrev pub CellFits : ℕ → Option ℕ → Type 0
CellFits k none = Unit {0}
CellFits k (some t) = t < k

abbrev pub CellsFit : ℕ → Cells → Type 0
CellsFit k cells = (i : ℕ) → CellFits k (get_or cells i none)

-- A fanout that holds nodes, and one that is chosen.
abbrev pub AnyFanout : ℕ → Cells → Type 0
AnyFanout k cells = (length cells ≡ fanout) × CellsFit k cells

abbrev pub Prefix : ℕ → ℕ → Cells → Type 0
Prefix k n cells = (w : ℕ) → w < n → (t : ℕ) × (t < k) × (get_or cells w none ≡ some t)

abbrev pub FullFanout : ℕ → Cells → Type 0
FullFanout k cells = AnyFanout k cells × Prefix k fanout cells

-- A node of a network of `k` nodes: its arrays have their sizes, and hold nodes only.
pub record NodoFits (k : ℕ) (F : Cells → Type 0) (a : Nodo) : Type 0 where
  pub ages : length a.neighbour ≡ max_age
  pub sizes : (age : ℕ) → age < max_age → length (get_or a.neighbour age []) ≡ vista_age
  pub lists : (age : ℕ) → CellsFit k (get_or a.neighbour age [])
  pub arrivi_size : length a.buffer_arrivi ≡ vista_age
  pub arrivi : CellsFit k a.buffer_arrivi
  pub chosen : F a.buffer_fanout
  pub id : a.id_nodo < k

abbrev pub AllFit : ℕ → (Cells → Type 0) → Network → Type 0
AllFit k F [] = Unit {0}
AllFit k F (a ∷ net) = NodoFits k F a × AllFit k F net

module _ (k : ℕ) (F : Cells → Type 0) where
  pub get-AllFit :
      (net : Network) (n : ℕ) → n < length net → AllFit k F net → NodoFits k F (nodo_at net n)
  get-AllFit [] n lt v = absurd (omega arith)
  get-AllFit (a ∷ net) zero lt (v, rest) = v
  get-AllFit (a ∷ net) (suc n) lt (v, rest) = get-AllFit net n (omega arith) rest

  pub set-AllFit :
      (net : Network) (n : ℕ) (a : Nodo)
      → NodoFits k F a
      → AllFit k F net
      → AllFit k F (set net n a)
  set-AllFit [] n a h v = tt
  set-AllFit (b ∷ net) zero a h (v, rest) = (h, rest)
  set-AllFit (b ∷ net) (suc n) a h (v, rest) = (v, set-AllFit net n a h rest)

pub weaken-AllFit :
    (k : ℕ) (F G : Cells → Type 0) (net : Network)
    → ((cells : Cells) → F cells → G cells)
    → AllFit k F net
    → AllFit k G net
weaken-AllFit k F G [] f v = tt
weaken-AllFit k F G (a ∷ net) f (v, rest) = (
  record {
    ages = v.ages;
    sizes = v.sizes;
    lists = v.lists;
    arrivi_size = v.arrivi_size;
    arrivi = v.arrivi;
    chosen = f a.buffer_fanout v.chosen;
    id = v.id;
  },
  weaken-AllFit k F G net f rest,
)

-- What `put` makes of cells, and the results of `rand()` left.
put-CellsFit :
    (k n t : ℕ) (cells : Cells) (rands : List ℕ)
    → t < k
    → CellsFit k cells
    → Low rands
    → CellsFit k (put n t cells rands).0
      × (length (put n t cells rands).0 ≡ length cells)
      × Low (put n t cells rands).1
unfolding put
put-CellsFit k n t cells rands lt v low = elim (Option-cases (find_first is_empty n cells)) [
  | inr (i, hit) ↦
      rw (hit, put)
        (
          (λ j. set_keeps (CellFits k) cells i j (some t) none lt (v j)),
          length-set cells i (some t),
          low,
        )
  | inl miss ↦
      rw (miss, put)
        (
          (λ j.
              set_keeps (CellFits k) cells (num_random n (next_rand rands).0) j (some t) none lt
                (v j)),
          length-set cells (num_random n (next_rand rands).0) (some t),
          (next_rand-Low rands low).1,
        )
]

module _ (k : ℕ) (F : Cells → Type 0) (a : Nodo) (t : ℕ) (rands : List ℕ) (v : NodoFits k F a)
    (lt : t < k) (low : Low rands) where
  pub ins_nodo-NodoFits :
      (age : ℕ)
      → age < max_age
      → NodoFits k F (ins_nodo a age t rands).0 × Low (ins_nodo a age t rands).1
  unfolding ins_nodo
  ins_nodo-NodoFits age young =
      let (fits, same, rest) =
        put-CellsFit k vista_age t (get_or a.neighbour age []) rands lt (v.lists age) low in
      let new = (put vista_age t (get_or a.neighbour age []) rands).0 in
      (
        record {
          ages = length-set a.neighbour age new ∙ v.ages;
          sizes = λ i h.
              set_keeps (λ c. length c ≡ vista_age) a.neighbour age i new []
                (same ∙ v.sizes age young) (v.sizes i h);
          lists = λ i. set_keeps (CellsFit k) a.neighbour age i new [] fits (v.lists i);
          arrivi_size = v.arrivi_size;
          arrivi = v.arrivi;
          chosen = v.chosen;
          id = v.id;
        },
        rest,
      )

  pub ins_buffer_arrivi-NodoFits :
      NodoFits k F (ins_buffer_arrivi a t rands).0 × Low (ins_buffer_arrivi a t rands).1
  unfolding ins_buffer_arrivi
  ins_buffer_arrivi-NodoFits =
      let (fits, same, rest) = put-CellsFit k fanout t a.buffer_arrivi rands lt v.arrivi low in
      (
        record {
          ages = v.ages;
          sizes = v.sizes;
          lists = v.lists;
          arrivi_size = same ∙ v.arrivi_size;
          arrivi = fits;
          chosen = v.chosen;
          id = v.id;
        },
        rest,
      )

-- A neighbour that is drawn is a node.
pub random_neighbour-CellFits :
    (k : ℕ) (F : Cells → Type 0) (a : Nodo) (age : ℕ) (rands : List ℕ)
    → NodoFits k F a
    → Low rands
    → CellFits k (random_neighbour age a rands).0
random_neighbour-CellFits k F a age rands v low =
    elim (random_neighbour_lem age a rands (next_rand-Low rands low).0) [
      | inl (empty, e) ↦ rw e tt
      | inr (t, i, lt, here, e) ↦ rw e (subst (CellFits k) here (v.lists age i))
    ]

pub blank-CellsFit : (k n : ℕ) → CellsFit k (replicate n none)
blank-CellsFit k n i = subst (CellFits k) (sym (get_or-replicate n i none)) tt

-- The list of an age behind `age_plus_one`.
module _ (k : ℕ) (F : Cells → Type 0) (a : Nodo) (v : NodoFits k F a) where
  aged-CellsFit : (age : ℕ) → CellsFit k (get_or (age_plus_one a).neighbour age [])
  aged-CellsFit zero =
      subst (CellsFit k)
        (sym (age_plus_one_lem a (record { ages = v.ages; arrivi = v.arrivi_size })).0) v.arrivi
  aged-CellsFit (suc i) =
      let (zeroth, others, blank, valid) =
        age_plus_one_lem a (record { ages = v.ages; arrivi = v.arrivi_size }) in
      elim (dec_lt i 9) [
        | yes lt ↦ subst (CellsFit k) (sym (others i lt)) (v.lists i)
        | no old ↦
            subst (CellsFit k)
              (sym (get_or-ge (age_plus_one a).neighbour (suc i) [] (omega (arith, valid.ages))))
              (λ j. tt)
      ]

  aged-size :
      (age : ℕ) → age < max_age → length (get_or (age_plus_one a).neighbour age []) ≡ vista_age
  aged-size zero h =
      ap length (age_plus_one_lem a (record { ages = v.ages; arrivi = v.arrivi_size })).0
      ∙ v.arrivi_size
  aged-size (suc i) h =
      ap length
        ((age_plus_one_lem a (record { ages = v.ages; arrivi = v.arrivi_size })).1 i (omega arith))
      ∙ v.sizes i (omega arith)

  age_plus_one-NodoFits : NodoFits k F (age_plus_one a)
  unfolding age_plus_one reset_list_age
  age_plus_one-NodoFits =
      let (zeroth, others, blank, valid) =
        age_plus_one_lem a (record { ages = v.ages; arrivi = v.arrivi_size }) in
      record {
        ages = valid.ages;
        sizes = aged-size;
        lists = aged-CellsFit;
        arrivi_size = valid.arrivi;
        arrivi = subst (CellsFit k) (sym blank) (blank-CellsFit k vista_age);
        chosen = v.chosen;
        id = v.id;
      }

pub age_all-AllFit :
    (k : ℕ) (F : Cells → Type 0) (net : Network) → AllFit k F net → AllFit k F (age_all net)
unfolding age_all
age_all-AllFit k F [] v = tt
age_all-AllFit k F (a ∷ net) (v, rest) =
    (age_plus_one-NodoFits k F a v, age_all-AllFit k F net rest)
