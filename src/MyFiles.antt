-- ===== src/MyFiles.antt =====
-- The files that a peer shares, `Buffer_My_File` of two_rounds/func_strutture.c, and the search for a
-- hash among them and among the hashes of the neighbours.
pub mod Laws
pub mod Insertion
use rounds.Base.{
  ℕ, zero, suc, ◌+◌, ◌*◌, Bool, true, false, Option, none, some, List, [], ◌∷◌, ◌==◌, leb,
  if◌then◌else◌, get_or, set, replicate, find_first, take, drop, ltb, ◌||◌, ◌++◌,
}
use rounds.Params.{hash_size, max_hash_vicino, max_query_buffer_neighbour}
use rounds.Random.{num_random}
use rounds.Peer.{Peer, nobody}
use rounds.Wire.{dif_str}
use rounds.Neighbour.{Neighbour, ListaAge, BufferNeighbour}

-- The fields `index` and `filehash[].file` of `struct Buffer_My_File`; the path is only printed.
pub record BufferFile : Type 0 where
  pub index : ℕ
  pub file : List (List ℕ)

-- `strcpy(file, hash)`: what the 16 bytes of `file` hold then. Where no byte of `hash` is 0, `strcpy`
-- goes on with the bytes behind `hash` and writes these behind `file`, into `percorso` of the same
-- cell, which the next `strcpy` writes from its start; that `strcpy` ends within the cell is
-- tested by `copy_ends` of Sharing.
unfoldable pub str_copy : List ℕ → List ℕ → List ℕ
str_copy [] file = file
str_copy (c ∷ hash) [] = []
str_copy (c ∷ hash) (d ∷ file) =
    let rest = str_copy hash file in if c == 0 then 0 ∷ file else c ∷ rest

-- `insert_MYfile`; `md5` gives the hash of a name. A file behind the last cell of the table is
-- written out of bounds, which is left out here.
unfoldable pub insert_my_file : (List ℕ → List ℕ) → List ℕ → BufferFile → BufferFile
insert_my_file md5 name b = record {
  index = b.index + 1;
  file = set b.file b.index (str_copy (md5 name) (get_or b.file b.index []));
}

abbrev pub same_hash : List ℕ → List ℕ → Bool
same_hash hash f = dif_str f hash hash_size == 0

unfoldable pub search_hashfile : List ℕ → BufferFile → Bool
search_hashfile hash b = elim (find_first (same_hash hash) b.index b.file) [
  | some _ ↦ true
  | none ↦ false
]

-- Row `w` of `hash_file`.
abbrev pub hash_row : ℕ → List ℕ → List ℕ
hash_row w hs = take hash_size (drop (hash_size * w) hs)

-- `for (h = 0; h < 16; ++h) hash_file[i][h] = file[h];`
abbrev pub write_row : ℕ → List ℕ → List ℕ → List ℕ
write_row i f hs = take (hash_size * i) hs ++ take hash_size f ++ drop (hash_size * (i + 1)) hs

-- The two loops for fewer than two files: the files there are, then zeros.
unfoldable pub write_few : BufferFile → List ℕ → List ℕ
write_few b hs =
    let row = λ (i : ℕ). if ltb i b.index then get_or b.file i [] else replicate hash_size 0 in
    write_row 1 (row 1) (write_row 0 (row 0) hs)

unfoldable pub is_chosen : ℕ → List ℕ → Bool
is_chosen n [] = false
is_chosen n (c ∷ scelti) = let rest = is_chosen n scelti in c == n || rest

-- `while (i < _MAX_HASH_VICINO)`: a file that has not been chosen is written into row `i`. What
-- `rand()` returns is a list, and what is left of it is returned; when it runs out the loop stops.
unfoldable pub write_random : BufferFile → List ℕ → ℕ → List ℕ → List ℕ → List ℕ × List ℕ
write_random b [] i scelti hs = (hs, [])
write_random b (rand ∷ rands) i scelti hs =
    let n = num_random b.index rand in
    if ltb i max_hash_vicino
    then elim (is_chosen n scelti) [
      | true ↦ write_random b rands i scelti hs
      | false ↦ write_random b rands (i + 1) (n ∷ scelti) (write_row i (get_or b.file n []) hs)
    ]
    else (hs, rand ∷ rands)

unfoldable pub insert_random_hash_file : BufferFile → List ℕ → List ℕ → List ℕ × List ℕ
insert_random_hash_file b rands hs =
    if ltb b.index max_hash_vicino then (write_few b hs, rands) else write_random b rands 0 [] hs

-- `struct ResultHashBneighbour`
pub record ResultHash : Type 0 where
  pub limit : ℕ
  pub list : List Peer

abbrev pub init_result_hash : ResultHash
init_result_hash = record { limit = 0; list = replicate max_query_buffer_neighbour nobody }

-- The test and the body of the innermost loop. `bol`, `bol2` and `bol3` are 0 from the moment on
-- where the list is full, so a loop goes on while `limit < _MAX_QUERY_BUFFERNEIGBOUR`.
unfoldable pub match_row : List ℕ → Neighbour → ℕ → ResultHash → ResultHash
match_row hash c w r =
    if leb max_query_buffer_neighbour r.limit
    then r
    else if dif_str (hash_row w c.hash_file) hash hash_size == 0
    then record { limit = r.limit + 1; list = set r.list r.limit c.peer }
    else r

unfoldable pub match_cells : List ℕ → ℕ → List Neighbour → ResultHash → ResultHash
match_cells hash zero cells r = r
match_cells hash (suc n) [] r = r
match_cells hash (suc n) (c ∷ cells) r =
    match_cells hash n cells (match_row hash c 1 (match_row hash c 0 r))

unfoldable pub search_hash : List ℕ → BufferNeighbour → ResultHash → ResultHash
search_hash hash [] r = r
search_hash hash (l ∷ b) r = search_hash hash b (match_cells hash l.limit l.nodi_vicini r)
