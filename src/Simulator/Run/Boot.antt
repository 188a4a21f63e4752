-- ===== src/Simulator/Run/Boot.antt =====
-- What `init` and the first neighbours make of the nodes.
use rounds.Base.{
  ℕ, zero, suc, ◌+◌, ◌≡◌, ◌<◌, ◌≤◌, inl, inr, refl, sym, subst, ap, ◌∙◌, arith, Option, none, some,
  List, [], ◌∷◌, length, get_or, set, set_keeps, length-set, Bool-cases, ltb, replicate,
  length-replicate, get_or-ge, dec_lt, ◌==◌, ◌||◌, take,
}
use rounds.Random.{num_random}
use rounds.Random.Bounds.{num_random-lt}
use rounds.Simulator.{fanout, max_age, vista_age, Cells, Nodo, Network, reset_list_age}
use rounds.Simulator.Fanouts.{init, init_nodo, reset_ages, is_taken}
use rounds.Simulator.Fanouts.Starving.{reset_ages-blank}
use rounds.Simulator.Fanouts.Chosen.{Low}
use rounds.Simulator.Run.{boot_cells, boot_all}
use rounds.Simulator.Run.Fits.{CellFits, CellsFit, AnyFanout, NodoFits, AllFit, blank-CellsFit}

-- The first neighbours.
module _ (k boot : ℕ) (pos : 0 < boot) (within : boot ≤ k) where
  abbrev OnCells : ℕ → Option (Cells × List ℕ) → Type 0
  OnCells size none = Unit {0}
  OnCells size (some (cells, rest)) = CellsFit k cells × (length cells ≡ size) × Low rest

  boot_cells-OnCells :
      (id : ℕ) (rands : List ℕ) (j : ℕ) (cells : Cells)
      → CellsFit k cells
      → Low rands
      → OnCells (length cells) (boot_cells boot id rands j cells)
  unfolding boot_cells
  boot_cells-OnCells id [] j cells v low = elim (Bool-cases (ltb j fanout)) [
    | inl more ↦ rw more tt
    | inr done ↦ rw done (v, refl, low)
  ]
  boot_cells-OnCells id (r ∷ rands) j cells v low = elim (Bool-cases (ltb j fanout)) [
    | inr done ↦ rw (done, boot_cells) (v, refl, low)
    | inl more ↦
        let num = num_random boot r in
        elim (Bool-cases (num == id || is_taken (some num) (take fanout cells))) [
          | inl again ↦
              rw (more, boot_cells, again)
                (boot_cells-OnCells id rands j cells v (λ i. low (suc i)))
          | inr other ↦
              rw (more, boot_cells, other)
                (subst
                  (λ size. OnCells size (boot_cells boot id rands (j + 1) (set cells j (some num))))
                  (length-set cells j (some num))
                  (boot_cells-OnCells id rands (j + 1) (set cells j (some num))
                    (λ i.
                      set_keeps (CellFits k) cells j i (some num) none
                        (omega (arith, num_random-lt boot r pos (low 0))) (v i))
                    (λ i. low (suc i))))
        ]
  ]

  -- The number of a node is written later.
  abbrev pub AllReset : Network → Type 0
  AllReset [] = Unit {0}
  AllReset (a ∷ net) = NodoFits k (AnyFanout k) (record a { id_nodo = 0 }) × AllReset net

  abbrev pub OnNodes : ℕ → Option (Network × List ℕ) → Type 0
  OnNodes size none = Unit {0}
  OnNodes size (some (net, rest)) = (length net ≡ size) × AllFit k (AnyFanout k) net × Low rest

  pub boot_all-OnNodes :
      (i : ℕ) (net : Network) (rands : List ℕ)
      → i + length net ≤ k
      → AllReset net
      → Low rands
      → OnNodes (length net) (boot_all boot i net rands)
  unfolding boot_all
  boot_all-OnNodes i [] rands room v low = (refl, tt, low)
  boot_all-OnNodes i (a ∷ net) rands room (v, all) low =
      go (boot_cells boot i rands 0 a.buffer_arrivi)
        (boot_cells-OnCells i rands 0 a.buffer_arrivi v.arrivi low)
        (λ rest low'. boot_all-OnNodes (i + 1) net rest (omega arith) all low')
    where
      join :
          (cells : Cells) (o : Option (Network × List ℕ))
          → CellsFit k cells
          → length cells ≡ length a.buffer_arrivi
          → OnNodes (length net) o
          → OnNodes (suc (length net)) (elim o [
            | none ↦ none
            | some (net', rest') ↦
                some (record a { id_nodo = i; buffer_arrivi = cells } ∷ net', rest')
          ])
      join cells none fits same h = tt
      join cells (some (net', rest')) fits same (size, nodes, low') = (
        ap suc size,
        (
          record {
            ages = v.ages;
            sizes = v.sizes;
            lists = v.lists;
            arrivi_size = same ∙ v.arrivi_size;
            arrivi = fits;
            chosen = v.chosen;
            id = omega arith;
          },
          nodes,
        ),
        low',
      )

      go :
          (o : Option (Cells × List ℕ))
          → OnCells (length a.buffer_arrivi) o
          → ((rest : List ℕ) → Low rest → OnNodes (length net) (boot_all boot (i + 1) net rest))
          → OnNodes (suc (length net)) (elim o [
            | none ↦ none
            | some (cells, rest) ↦ elim (boot_all boot (i + 1) net rest) [
              | none ↦ none
              | some (net', rest') ↦
                  some (record a { id_nodo = i; buffer_arrivi = cells } ∷ net', rest')
            ]
          ])
      go none h later = tt
      go (some (cells, rest)) (fits, same, low') later =
          join cells (boot_all boot (i + 1) net rest) fits same (later rest low')

-- The array of the nodes as it has been allocated: ten lists each.
abbrev pub AllSized : Network → Type 0
AllSized [] = Unit {0}
AllSized (a ∷ net) = (length a.neighbour ≡ max_age) × AllSized net

length-reset_ages : (n j : ℕ) (a : Nodo) → length (reset_ages n j a).neighbour ≡ length a.neighbour
unfolding reset_ages reset_list_age
length-reset_ages zero j a = refl
length-reset_ages (suc n) j a =
    length-reset_ages n (j + 1) (reset_list_age j a)
    ∙ length-set a.neighbour j (replicate vista_age none)

module _ (k : ℕ) (pos : 0 < k) where
  init_nodo-NodoFits :
      (a : Nodo)
      → length a.neighbour ≡ max_age
      → NodoFits k (AnyFanout k) (record (init_nodo a) { id_nodo = 0 })
  init_nodo-NodoFits a len =
      let sized = length-reset_ages max_age 0 a ∙ len in
      let blank : ((age : ℕ)
          → age < max_age
          → get_or (reset_ages max_age 0 a).neighbour age [] ≡ replicate vista_age none) =
        λ age young. reset_ages-blank max_age 0 a age (omega arith) (omega arith) young in
      record {
        ages = sized;
        sizes = λ age young.
            ap length (blank age young) ∙ length-replicate {A = Option ℕ} vista_age none;
        lists = λ age. elim (dec_lt age max_age) [
          | yes young ↦ subst (CellsFit k) (sym (blank age young)) (blank-CellsFit k vista_age)
          | no old ↦
              subst (CellsFit k)
                (sym (get_or-ge (reset_ages max_age 0 a).neighbour age [] (omega (arith, sized))))
                (λ i. tt)
        ];
        arrivi_size = length-replicate {A = Option ℕ} vista_age none;
        arrivi = blank-CellsFit k vista_age;
        chosen = (length-replicate {A = Option ℕ} fanout none, blank-CellsFit k fanout);
        id = pos;
      }

  pub init-AllReset :
      (boot : ℕ) (bpos : 0 < boot) (within : boot ≤ k) (net : Network)
      → AllSized net
      → AllReset k boot bpos within (init net)
  unfolding init
  init-AllReset boot bpos within [] v = tt
  init-AllReset boot bpos within (a ∷ net) (len, v) =
      (init_nodo-NodoFits a len, init-AllReset boot bpos within net v)

pub length-init : (net : Network) → length (init net) ≡ length net
unfolding init
length-init [] = refl
length-init (a ∷ net) = ap suc (length-init net)
