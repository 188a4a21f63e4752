-- ===== src/Neighbour/Cells.antt =====
-- The loops over the cells of one age list: the shift and the reset of a removal.
use rounds.Base.{
  ℕ, zero, suc, ◌+◌, ◌*◌, ◌/◌, ◌%◌, ◌≡◌, ◌≤◌, ◌<◌, refl, sym, ◌∙◌, ap, List, arith, length, get_or,
  set, length-set, get_or-set_ne, get_or-set_cases, inl, inr, ℕ_discrete, sum_of, sum_of-set,
  sum_of-set_ge, sum_of-suc,
}
use rounds.Params.{hash_size}
use rounds.Peer.{nobody}
use rounds.Neighbour.{
  Neighbour, blank_cell, cell_size, shift_down, clear_byte, clear_bytes, clear_row,
}

pub length-shift_down :
    (n w : ℕ) (cells : List Neighbour) → length (shift_down n w cells) ≡ length cells
unfolding shift_down
length-shift_down zero w cells = refl
length-shift_down (suc n) w cells =
    length-shift_down n (w + 1) _ ∙ length-set cells w (get_or cells (w + 1) blank_cell)

-- The shift leaves the cells from its end on alone.
pub get_or-shift_down_ge :
    (n w j : ℕ) (cells : List Neighbour)
    → w + n ≤ j
    → get_or (shift_down n w cells) j blank_cell ≡ get_or cells j blank_cell
unfolding shift_down
get_or-shift_down_ge zero w j cells h = refl
get_or-shift_down_ge (suc n) w j cells h =
    get_or-shift_down_ge n (w + 1) j _ (omega arith)
    ∙ get_or-set_ne cells w j (get_or cells (w + 1) blank_cell) blank_cell (omega arith)

-- The shift by one drops the first cell of its range, and keeps all others.
pub sum_of-shift_down :
    (f : Neighbour → ℕ) (n w k : ℕ) (cells : List Neighbour)
    → k ≡ w + n
    → k < length cells
    → sum_of f k (shift_down n w cells) + f (get_or cells w blank_cell) ≡ sum_of f (suc k) cells
unfolding shift_down
sum_of-shift_down f zero w k cells e h =
    let e' : k ≡ w = omega arith in rw e' (sym (sum_of-suc f w cells blank_cell (omega arith)))
sum_of-shift_down f (suc n) w k cells e h = omega (
  arith,
  sum_of-shift_down f n (w + 1) k moved (omega arith) (omega (arith, length-set cells w next)),
  sum_of-set f (suc k) cells w next blank_cell (omega arith) (omega arith),
  ap f (get_or-set_ne cells w (w + 1) next blank_cell (omega arith)),
)
  where
    next : Neighbour
    next = get_or cells (w + 1) blank_cell

    moved : List Neighbour
    moved = set cells w next

pub length-clear_bytes :
    (n a : ℕ) (cells : List Neighbour) → length (clear_bytes n a cells) ≡ length cells
unfolding clear_bytes
length-clear_bytes zero a cells = refl
length-clear_bytes (suc n) a cells = length-clear_bytes n (a + 1) _ ∙ length-set cells _ _

-- Zero bytes behind the first `k` cells leave these alone.
pub sum_of-clear_bytes :
    (f : Neighbour → ℕ) (n a k : ℕ) (cells : List Neighbour)
    → k * cell_size ≤ a
    → sum_of f k (clear_bytes n a cells) ≡ sum_of f k cells
unfolding clear_bytes
sum_of-clear_bytes f zero a k cells h = refl
sum_of-clear_bytes f (suc n) a k cells h =
    sum_of-clear_bytes f n (a + 1) k _ (omega arith)
    ∙ sum_of-set_ge f k cells (a / cell_size) _ (omega arith)

pub get_or-clear_bytes_lt :
    (n a j : ℕ) (cells : List Neighbour)
    → suc j * cell_size ≤ a
    → get_or (clear_bytes n a cells) j blank_cell ≡ get_or cells j blank_cell
unfolding clear_bytes
get_or-clear_bytes_lt zero a j cells h = refl
get_or-clear_bytes_lt (suc n) a j cells h =
    get_or-clear_bytes_lt n (a + 1) j _ (omega arith)
    ∙ get_or-set_ne cells (a / cell_size) j _ blank_cell (omega arith)

-- A cell with no peer stays one when bytes of it are cleared.
clear_byte-nobody : (o : ℕ) (c : Neighbour) → c.peer ≡ nobody → (clear_byte o c).peer ≡ nobody
unfolding clear_byte
clear_byte-nobody o c e = ground arith

clear_cell-nobody :
    (i j o : ℕ) (cells : List Neighbour)
    → (get_or cells j blank_cell).peer ≡ nobody
    → (get_or (set cells i (clear_byte o (get_or cells i blank_cell))) j blank_cell).peer ≡ nobody
clear_cell-nobody i j o cells e = elim (ℕ_discrete i j) [
  | yes same ↦
      rw same
        (elim (get_or-set_cases cells j (clear_byte o (get_or cells j blank_cell)) blank_cell) [
          | inl new ↦ rw new (clear_byte-nobody o (get_or cells j blank_cell) e)
          | inr old ↦ rw old e
        ])
  | no other ↦
      rw (get_or-set_ne cells i j (clear_byte o (get_or cells i blank_cell)) blank_cell other) e
]

pub clear_bytes-nobody :
    (n a j : ℕ) (cells : List Neighbour)
    → (get_or cells j blank_cell).peer ≡ nobody
    → (get_or (clear_bytes n a cells) j blank_cell).peer ≡ nobody
unfolding clear_bytes
clear_bytes-nobody zero a j cells e = e
clear_bytes-nobody (suc n) a j cells e =
    clear_bytes-nobody n (a + 1) j _ (clear_cell-nobody (a / cell_size) j (a % cell_size) cells e)

-- What a removal does to one list, in the terms of the loops.
pub sum_of-clear_row :
    (f : Neighbour → ℕ) (i w k : ℕ) (cells : List Neighbour)
    → k ≤ i
    → sum_of f k (clear_row i w cells) ≡ sum_of f k cells
unfolding clear_row
sum_of-clear_row f i w k cells h =
    sum_of-clear_bytes f hash_size (cell_size * i + 8 + hash_size * w) k cells (omega arith)

pub length-clear_row :
    (i w : ℕ) (cells : List Neighbour) → length (clear_row i w cells) ≡ length cells
unfolding clear_row
length-clear_row i w cells = length-clear_bytes hash_size _ cells

pub clear_row-nobody :
    (i w j : ℕ) (cells : List Neighbour)
    → (get_or cells j blank_cell).peer ≡ nobody
    → (get_or (clear_row i w cells) j blank_cell).peer ≡ nobody
unfolding clear_row
clear_row-nobody i w j cells e = clear_bytes-nobody hash_size _ j cells e
