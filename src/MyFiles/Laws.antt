-- ===== src/MyFiles/Laws.antt =====
-- The search for a hash finds it exactly when a shared file has it, and collects at most five
-- neighbours.
use rounds.Base.{
  ℕ, zero, suc, ◌≡◌, ◌≤◌, ◌<◌, ◌≢◌, ◌⊎◌, ==_iff, refl, arith, true, false, List, [], ◌∷◌, length,
  ◌==◌, leb, get_or, find_first, Option-cases, Bool-cases, find_first-hit, find_first-miss,
  length-set, inl, inr,
}
use rounds.Params.{hash_size, max_query_buffer_neighbour}
use rounds.Wire.{dif_str}
use rounds.Neighbour.{Neighbour, BufferNeighbour}
use rounds.MyFiles.{
  BufferFile, search_hashfile, same_hash, hash_row, ResultHash, init_result_hash, match_row,
  match_cells, search_hash,
}

-- With `index` within the table: when `search_hashfile` answers 1, one of the files below `index`
-- has the hash, and when it answers 0, none has it.
pub search_hashfile_lem :
    (hash : List ℕ) (b : BufferFile)
    → b.index ≤ length b.file
    → ((search_hashfile hash b ≡ true)
        × (i : ℕ) × (i < b.index)
        × (dif_str (get_or b.file i []) hash hash_size ≡ 0))
      ⊎ ((search_hashfile hash b ≡ false)
          × ((i : ℕ) → i < b.index → dif_str (get_or b.file i []) hash hash_size ≢ 0))
unfolding search_hashfile
search_hashfile_lem hash b h = elim (Option-cases (find_first (same_hash hash) b.index b.file)) [
  | inr (i, hit) ↦
      let (lt, len, same) = find_first-hit (same_hash hash) b.index b.file [] i hit in
      inl (rw (hit, search_hashfile) refl, i, lt, (==_iff _ 0).0 same)
  | inl miss ↦ inr (
    rw (miss, search_hashfile) refl,
    λ i lt e. cc (
      find_first-miss (same_hash hash) b.index b.file [] i miss lt (omega arith),
      (==_iff _ 0).1 e,
    ),
  )
]

pub record Bounded (r : ResultHash) : Type 0 where
  pub size : length r.list ≡ max_query_buffer_neighbour
  pub limited : r.limit ≤ max_query_buffer_neighbour

match_row-Bounded :
    (hash : List ℕ) (c : Neighbour) (w : ℕ) (r : ResultHash)
    → Bounded r
    → Bounded (match_row hash c w r)
unfolding match_row
match_row-Bounded hash c w r v = elim (Bool-cases (leb max_query_buffer_neighbour r.limit)) [
  | inl full ↦ rw full v
  | inr room ↦ elim (Bool-cases (dif_str (hash_row w c.hash_file) hash hash_size == 0)) [
    | inr other ↦ rw (room, other) v
    | inl same ↦
        rw (room, same)
          (record {
            size = omega (arith, v.size, length-set r.list r.limit c.peer);
            limited = ground arith;
          })
  ]
]

match_cells-Bounded :
    (hash : List ℕ) (n : ℕ) (cells : List Neighbour) (r : ResultHash)
    → Bounded r
    → Bounded (match_cells hash n cells r)
unfolding match_cells
match_cells-Bounded hash zero cells r v = v
match_cells-Bounded hash (suc n) [] r v = v
match_cells-Bounded hash (suc n) (c ∷ cells) r v =
    match_cells-Bounded hash n cells _
      (match_row-Bounded hash c 1 (match_row hash c 0 r) (match_row-Bounded hash c 0 r v))

search_hash_from-Bounded :
    (hash : List ℕ) (b : BufferNeighbour) (r : ResultHash)
    → Bounded r
    → Bounded (search_hash hash b r)
unfolding search_hash
search_hash_from-Bounded hash [] r v = v
search_hash_from-Bounded hash (l ∷ b) r v =
    search_hash_from-Bounded hash b _ (match_cells-Bounded hash l.limit l.nodi_vicini r v)

-- After the search of the neighbours for a hash the list of results has its five cells, and
-- `limit` is at most five.
pub search_hash-Bounded :
    (hash : List ℕ) (b : BufferNeighbour) → Bounded (search_hash hash b init_result_hash)
search_hash-Bounded hash b =
    search_hash_from-Bounded hash b init_result_hash (record { size = refl; limited = omega arith })
