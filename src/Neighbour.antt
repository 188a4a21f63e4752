-- ===== src/Neighbour.antt =====
-- The neighbour buffer of two_rounds/func_strutture.c: seven lists of peers, one for each age.
-- The lock `sem_neighbour` makes every operation one step; ReadersWriters is about the lock.
pub mod Cells
pub mod Lists
pub mod Table
pub mod Distinct
pub mod Removal
pub mod Freshness
pub mod Aging
pub mod Arriving
use rounds.Base.{
  ℕ, zero, suc, ◌+◌, ◌-◌, ◌*◌, ◌/◌, ◌%◌, ◌^◌, Bool, true, false, Option, none, some, List, [], ◌∷◌,
  ◌==◌, ltb, leb, if◌then◌else◌, get_or, set, replicate, find_first,
}
use rounds.Params.{max_age, vista_age, max_hash_vicino, hash_size}
use rounds.Peer.{Peer, same_peer, nobody}

-- `struct Neighbour`; the two rows of `hash_file` stand one behind the other.
pub record Neighbour : Type 0 where
  pub peer : Peer
  pub hash_file : List ℕ  -- char[2][16]

-- An entry of `limit` with the entry of `nodiAge` of the same index.
pub record ListaAge : Type 0 where
  pub limit : ℕ
  pub nodi_vicini : List Neighbour

abbrev pub BufferNeighbour : Type 0
BufferNeighbour = List ListaAge

abbrev pub blank_cell : Neighbour
blank_cell = record { peer = nobody; hash_file = replicate (max_hash_vicino * hash_size) 0 }

abbrev pub blank_list : ListaAge
blank_list = record { limit = 0; nodi_vicini = replicate vista_age blank_cell }

unfoldable pub init_buffer_neighbour : BufferNeighbour
init_buffer_neighbour = replicate max_age blank_list

-- The sum of the `limit`s.
unfoldable pub get_number_neighbour : BufferNeighbour → ℕ
get_number_neighbour [] = 0
get_number_neighbour (l ∷ b) = l.limit + get_number_neighbour b

-- The double loop over ages and cells that the operations begin with: where the peer first stands.
next_age : Option (ℕ × ℕ) → Option (ℕ × ℕ)
next_age none = none
next_age (some (i, j)) = some (suc i, j)

unfoldable pub find_peer : Peer → BufferNeighbour → Option (ℕ × ℕ)
unfolding next_age
find_peer p [] = none
find_peer p (l ∷ b) =
    let rest = next_age (find_peer p b) in
    elim (find_first (λ c. same_peer p c.peer) l.limit l.nodi_vicini) [
      | some j ↦ some (0, j)
      | none ↦ rest
    ]

unfoldable pub search_peer : BufferNeighbour → Peer → Bool
search_peer b p = elim (find_peer p b) [ some _ ↦ true | none ↦ false ]

-- `for (w = j; w < limit - 1; ++w) nodi_vicini[w] = nodi_vicini[w + 1];`
unfoldable pub shift_down : ℕ → ℕ → List Neighbour → List Neighbour
shift_down zero w cells = cells
shift_down (suc n) w cells = shift_down n (w + 1) (set cells w (get_or cells (w + 1) blank_cell))

-- The bytes of a cell: 0 and 1 are `port`, 4 to 7 `ip`, 8 to 39 `hash_file`; 2 and 3 are padding.
abbrev pub cell_size : ℕ
cell_size = 40

abbrev clear_byte_of : ℕ → ℕ → ℕ
clear_byte_of x k = x - x / 256 ^ k % 256 * 256 ^ k

unfoldable pub clear_byte : ℕ → Neighbour → Neighbour
clear_byte o c =
    if ltb o 2
    then record c { peer = record { port = clear_byte_of c.peer.port o; ip = c.peer.ip } }
    else if ltb o 4
    then c
    else if ltb o 8
    then record c { peer = record { port = c.peer.port; ip = clear_byte_of c.peer.ip (o - 4) } }
    else record c { hash_file = set c.hash_file (o - 8) 0 }

-- `n` zero bytes from the address `a` on, counted from the first cell of the list.
unfoldable pub clear_bytes : ℕ → ℕ → List Neighbour → List Neighbour
clear_bytes zero a cells = cells
clear_bytes (suc n) a cells = clear_bytes n (a + 1) (
    set cells (a / cell_size)
      (clear_byte (a % cell_size) (get_or cells (a / cell_size) blank_cell)))

-- `nodi_vicini[i].hash_file[w][k] = 0` for k below 16. The row `w` may lie behind the cell.
unfoldable pub clear_row : ℕ → ℕ → List Neighbour → List Neighbour
clear_row i w cells = clear_bytes hash_size (cell_size * i + 8 + hash_size * w) cells

-- The removal of cell `j`: shift, decrement, reset. The reset of the hashes runs `i_temp` over the
-- rows and clears the row `w`, which the loop of the shift has left at the last index.
unfoldable pub delete_cell : ℕ → ListaAge → ListaAge
delete_cell j l =
    let last = l.limit - 1 in
    let w = j + (last - j) in
    let moved = shift_down (last - j) j l.nodi_vicini in
    let reset = set moved last (record (get_or moved last blank_cell) { peer = nobody }) in
    record { limit = last; nodi_vicini = clear_row last w (clear_row last w reset) }

unfoldable pub delete_at : ℕ → ℕ → BufferNeighbour → BufferNeighbour
delete_at i j b = set b i (delete_cell j (get_or b i blank_list))

unfoldable pub delete_peer : BufferNeighbour → Peer → BufferNeighbour
delete_peer b p = elim (find_peer p b) [ some (i, j) ↦ delete_at i j b | none ↦ b ]

-- The first age from `age` on with `limit < _MAX_AGE`.
suc_age : Option ℕ → Option ℕ
suc_age none = none
suc_age (some i) = some (suc i)

unfoldable pub first_room : ℕ → BufferNeighbour → Option ℕ
unfolding suc_age
first_room age [] = none
first_room zero (l ∷ b) =
    let rest = suc_age (first_room zero b) in if ltb l.limit max_age then some 0 else rest
first_room (suc age) (l ∷ b) = suc_age (first_room age b)

unfoldable pub push_cell : Neighbour → ListaAge → ListaAge
push_cell c l = record { limit = l.limit + 1; nodi_vicini = set l.nodi_vicini l.limit c }

-- The second half of the three insertions: write the peer behind the last one of the age found.
unfoldable pub place : ℕ → Neighbour → BufferNeighbour → BufferNeighbour
place age c b = elim (first_room age b) [
  | some i ↦ set b i (push_cell c (get_or b i blank_list))
  | none ↦ b
]

-- `insert_peer_BNeighbour`, for pings and pongs; `me` is `*my_port`, `*my_ip`.
unfoldable pub insert_peer : Peer → Neighbour → BufferNeighbour → BufferNeighbour
insert_peer me c b =
    if same_peer me c.peer then b else elim (find_peer c.peer b) [ some _ ↦ b | none ↦ place 0 c b ]

-- `insert_sorgente_gossipInf`, for the sender of an information gossip.
unfoldable pub insert_sorgente : Peer → Neighbour → BufferNeighbour → BufferNeighbour
insert_sorgente me c b = if same_peer me c.peer then b else elim (find_peer c.peer b) [
  | some (i, j) ↦ (if i == 0 then b else place 0 c (delete_at i j b))
  | none ↦ place 0 c b
]

-- `insert_peer_gossipInf`, for a peer that a gossip tells of with its age.
unfoldable pub insert_gossip : Peer → ℕ → Neighbour → BufferNeighbour → BufferNeighbour
insert_gossip me age c b = if same_peer me c.peer then b else elim (find_peer c.peer b) [
  | some (i, j) ↦ (if leb i age then b else place age c (delete_at i j b))
  | none ↦ place age c b
]

-- `reset_neighbour_age` of one list.
unfoldable pub reset_list : ListaAge → ListaAge
reset_list l = blank_list

-- `for (i = _MAX_AGE - 1; i > 0; --i) { nodiAge[i] = nodiAge[i-1]; limit[i] = limit[i-1]; }`
unfoldable pub shift_ages : ℕ → BufferNeighbour → BufferNeighbour
shift_ages zero b = b
shift_ages (suc i) b = shift_ages i (set b (suc i) (get_or b i blank_list))

-- `age_plus_one`: the reset list of the oldest becomes the list of age 0.
unfoldable pub age_plus_one : BufferNeighbour → BufferNeighbour
age_plus_one b =
    let last = max_age - 1 in
    let b' = set b last (reset_list (get_or b last blank_list)) in
    set (shift_ages last b') 0 (get_or b' last blank_list)
