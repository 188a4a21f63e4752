-- ===== src/Neighbour/Lists.antt =====
-- One age list: its invariant, and what a removal and an insertion do to it.
use rounds.Base.{
  ℕ, suc, ◌+◌, ◌-◌, ◌≡◌, ◌≤◌, ◌<◌, refl, ◌∙◌, ap, subst, List, arith, length, get_or, set,
  length-set, get_or-set_self, get_or-set_ne, sum_of, sum_of-set_ge, sum_of-suc, ℕ_discrete,
  get_or-replicate,
}
use rounds.Params.{max_age, vista_age}
use rounds.Peer.{nobody}
use rounds.Neighbour.{
  Neighbour, ListaAge, blank_cell, blank_list, shift_down, clear_row, delete_cell, push_cell,
}
use rounds.Neighbour.Cells.{
  length-shift_down, sum_of-shift_down, get_or-shift_down_ge, sum_of-clear_row, length-clear_row,
  clear_row-nobody,
}

-- The cells are all there, the list is within the bound that the insertions test, and behind the
-- last peer there is none.
pub record ListIsValid (l : ListaAge) : Type 0 where
  pub size : length l.nodi_vicini ≡ vista_age
  pub bounded : l.limit ≤ max_age
  pub blank : (j : ℕ) → l.limit ≤ j → (get_or l.nodi_vicini j blank_cell).peer ≡ nobody

pub blank_list-IsValid : ListIsValid blank_list
blank_list-IsValid = record {
  size = refl;
  bounded = omega arith;
  blank = λ j _. ap (λ (c : Neighbour). c.peer) (get_or-replicate vista_age j blank_cell);
}

-- The sum of a weight over the peers of a list.
abbrev pub list_weight : (Neighbour → ℕ) → ListaAge → ℕ
list_weight f l = sum_of f l.limit l.nodi_vicini

module _ (j : ℕ) (l : ListaAge) (v : ListIsValid l) (h : j < l.limit) where
  -- the parts of `delete_cell j l`
  abbrev last : ℕ
  last = l.limit - 1

  abbrev moved : List Neighbour
  moved = shift_down (last - j) j l.nodi_vicini

  abbrev reset : List Neighbour
  reset = set moved last (record (get_or moved last blank_cell) { peer = nobody })

  length-moved : length moved ≡ vista_age
  length-moved = length-shift_down (last - j) j l.nodi_vicini ∙ v.size

  length-reset : length reset ≡ vista_age
  length-reset =
      length-set moved last (record (get_or moved last blank_cell) { peer = nobody }) ∙ length-moved

  -- The removal of cell `j` drops its peer and keeps all others.
  pub list_weight-delete_cell :
      (f : Neighbour → ℕ)
      → list_weight f (delete_cell j l) + f (get_or l.nodi_vicini j blank_cell) ≡ list_weight f l
  unfolding delete_cell
  list_weight-delete_cell f = omega (
    arith,
    sum_of-clear_row f last w last (clear_row last w reset) (omega arith),
    sum_of-clear_row f last w last reset (omega arith),
    sum_of-set_ge f last moved last (record (get_or moved last blank_cell) { peer = nobody })
        (omega arith),
    sum_of-shift_down f (last - j) j last l.nodi_vicini (omega arith) (omega (arith, v)),
    ap (λ n. sum_of f n l.nodi_vicini) last_suc,
  )
    where
      w : ℕ
      w = j + (last - j)

      last_suc : suc last ≡ l.limit
      last_suc = omega arith

  reset-nobody : (i : ℕ) → last ≤ i → (get_or reset i blank_cell).peer ≡ nobody
  reset-nobody i le = elim (ℕ_discrete last i) [
    | yes same ↦
        subst (λ k. (get_or reset k blank_cell).peer ≡ nobody) same
          (ap (λ (c : Neighbour). c.peer)
            (get_or-set_self moved last (record (get_or moved last blank_cell) { peer = nobody })
              blank_cell (omega (arith, length-moved, v))))
    | no other ↦
        ap (λ (c : Neighbour). c.peer)
          (get_or-set_ne moved last i _ blank_cell other
            ∙ get_or-shift_down_ge (last - j) j i l.nodi_vicini (omega arith))
        ∙ v.blank i (omega arith)
  ]

  pub delete_cell-IsValid : ListIsValid (delete_cell j l)
  unfolding delete_cell
  delete_cell-IsValid = record {
    size = length-clear_row last _ _ ∙ length-clear_row last _ _ ∙ length-reset;
    bounded = omega (arith, v.bounded);
    blank = λ i le. clear_row-nobody last _ i _ (clear_row-nobody last _ i _ (reset-nobody i le));
  }

module _ (c : Neighbour) (l : ListaAge) (v : ListIsValid l) (h : l.limit < max_age) where
  pub list_weight-push_cell :
      (f : Neighbour → ℕ) → list_weight f (push_cell c l) ≡ list_weight f l + f c
  unfolding push_cell
  list_weight-push_cell f = omega (
    arith,
    ap (λ n. sum_of f n (set l.nodi_vicini l.limit c)) one_more,
    sum_of-suc f l.limit (set l.nodi_vicini l.limit c) blank_cell
        (omega (arith, length-set l.nodi_vicini l.limit c, v)),
    sum_of-set_ge f l.limit l.nodi_vicini l.limit c (omega arith),
    ap f (get_or-set_self l.nodi_vicini l.limit c blank_cell (omega (arith, v))),
  )
    where
      one_more : l.limit + 1 ≡ suc l.limit
      one_more = omega arith

  pub push_cell-IsValid : ListIsValid (push_cell c l)
  unfolding push_cell
  push_cell-IsValid = record {
    size = length-set l.nodi_vicini l.limit c ∙ v.size;
    bounded = omega arith;
    blank = λ j le.
        ap (λ (x : Neighbour). x.peer)
          (get_or-set_ne l.nodi_vicini l.limit j c blank_cell (omega arith))
        ∙ v.blank j (omega arith);
  }
