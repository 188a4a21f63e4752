-- ===== src/Gossip/Starving.antt =====
-- With few neighbours of the first six ages the loop that draws for an information gossip never ends.
use rounds.Base.{
  ℕ, zero, suc, ◌+◌, ◌≡◌, ◌<◌, ◌≤◌, inl, inr, refl, ap, arith, List, [], ◌∷◌, get_or, bit, sum_of,
  sum_of_add, sum_of_ext, sum_of_mono, sum_of_one, get_or-le-sum_of, dec_lt,
}
use rounds.Params.{gossip_nodi, fanout}
use rounds.Peer.{Peer, same_peer, same_peer_refl, nobody}
use rounds.Neighbour.{Neighbour, BufferNeighbour, blank_cell, blank_list, get_number_neighbour}
use rounds.Neighbour.Lists.{ListIsValid, list_weight}
use rounds.Neighbour.Table.{IsValid, cell_at}
use rounds.Random.{RandomX}
use rounds.Gossip.{Draft, empty_draft, push_inf, add_drawn, draw_loop, choose_inf}
use rounds.Gossip.Choice.{
  Drawn, named, empty-Drawn, push_inf-Drawn, named-push_inf, entry, add_drawn_cases,
  draw_loop-keeps, choose_inf-many,
}

-- The number of neighbours of the first six ages.
abbrev pub young : BufferNeighbour → ℕ
young b = sum_of (λ l. l.limit) 6 b

-- A weight over the cells of the first six ages, and over what stands behind them.
abbrev pool : (Peer → ℕ) → BufferNeighbour → ℕ
pool w b = sum_of (list_weight (λ c. w c.peer)) 6 b + w nobody

pool_ext : (w v : Peer → ℕ) (b : BufferNeighbour) → ((p : Peer) → w p ≡ v p) → pool w b ≡ pool v b
pool_ext w v b h = omega (
  arith,
  sum_of_ext (list_weight (λ c. w c.peer)) (list_weight (λ c. v c.peer)) 6 b (λ l.
      sum_of_ext (λ (c : Neighbour). w c.peer) (λ (c : Neighbour). v c.peer) l.limit l.nodi_vicini
        (λ c. h c.peer)),
  h nobody,
)

pool_add : (w v : Peer → ℕ) (b : BufferNeighbour) → pool (λ p. w p + v p) b ≡ pool w b + pool v b
pool_add w v b = omega (
  arith,
  sum_of_ext (list_weight (λ c. w c.peer + v c.peer))
      (λ l. list_weight (λ c. w c.peer) l + list_weight (λ c. v c.peer) l) 6 b
      (λ l.
        sum_of_add (λ (c : Neighbour). w c.peer) (λ (c : Neighbour). v c.peer) l.limit
          l.nodi_vicini),
  sum_of_add (list_weight (λ c. w c.peer)) (list_weight (λ c. v c.peer)) 6 b,
)

young_lists :
    (n : ℕ) (ls : BufferNeighbour)
    → ((i : ℕ) → ListIsValid (get_or ls i blank_list))
    → sum_of (list_weight (λ _. 1)) n ls ≡ sum_of (λ l. l.limit) n ls
unfolding sum_of
young_lists zero ls v = refl
young_lists (suc n) [] v = refl
young_lists (suc n) (l ∷ ls) v =
    let v0 : ListIsValid l = v 0 in
    omega (arith, sum_of_one l.limit l.nodi_vicini (omega arith), young_lists n ls (λ i. v (suc i)))

module _ (b : BufferNeighbour) (ok : IsValid b) where
  -- Whatever is drawn is in the pool.
  pool-hit :
      (age index : ℕ) → age < 6 → 1 ≤ pool (λ p. bit (same_peer p (cell_at b age index).peer)) b
  pool-hit age index h =
      let l = get_or b age blank_list in
      let p = (cell_at b age index).peer in
      elim (dec_lt index l.limit) [
        | yes inside ↦ omega (
          arith,
          get_or-le-sum_of (list_weight (λ c. bit (same_peer c.peer p))) 6 b age blank_list h
              (omega (arith, ok.ages)),
          get_or-le-sum_of (λ (c : Neighbour). bit (same_peer c.peer p)) l.limit l.nodi_vicini index
              blank_cell inside (omega (arith, ok.lists age)),
          ap bit (same_peer_refl p),
        )
        | no behind ↦
            rw ((ok.lists age).blank index (omega arith))
              (omega (arith, ap bit (same_peer_refl nobody)))
      ]

  -- Of weight 1, the pool has a peer more than there are young neighbours.
  pool_bound : (w : Peer → ℕ) → ((p : Peer) → w p ≤ 1) → pool w b ≤ young b + 1
  pool_bound w h = omega (
    arith,
    sum_of_mono (list_weight (λ c. w c.peer)) (list_weight (λ _. 1)) 6 b (λ l.
        sum_of_mono (λ (c : Neighbour). w c.peer) (λ _. 1) l.limit l.nodi_vicini (λ c. h c.peer)),
    young_lists 6 b ok.lists,
    h nobody,
  )

record Pooled (b : BufferNeighbour) (d : Draft) : Type 0 where
  drawn : Drawn d
  pooled : d.limit ≤ pool (λ p. named p d) b

add_drawn-Pooled :
    (b : BufferNeighbour)
    → IsValid b
    → (age index : ℕ) (d : Draft) → age < 6
    → d.limit < fanout
    → Pooled b d
    → Pooled b (add_drawn age index b d)
add_drawn-Pooled b ok age index d h room v = elim (add_drawn_cases age index b d) [
  | inl kept ↦ rw kept v
  | inr (miss, e) ↦ rw e (
      let new = entry b age index d.limit in
      record {
        drawn = push_inf-Drawn new d v.drawn room miss (omega arith);
        pooled = omega (
          arith,
          v.pooled,
          pool_ext (λ p. named p (push_inf new d))
              (λ p. named p d + bit (same_peer p (cell_at b age index).peer)) b
              (named-push_inf new d v.drawn room),
          pool_add (λ p. named p d) (λ p. bit (same_peer p (cell_at b age index).peer)) b,
          pool-hit b ok age index h,
        );
      })
]

-- From a valid neighbour buffer with more than ten peers, of which at most five are younger than
-- the last age: whatever is drawn and however often, fewer than seven entries are there, so the
-- condition of the loop in `new_gossip_inf2` stays true, with the lock of the buffer held.
pub choose_inf-starves :
    (turns : ℕ) (x : RandomX) (rs : List ℕ) (b : BufferNeighbour)
    → IsValid b
    → gossip_nodi < get_number_neighbour b
    → young b ≤ 5
    → (choose_inf turns x rs b).limit < fanout
choose_inf-starves turns x rs b ok many few =
    let v : Pooled b (draw_loop turns x rs b empty_draft) =
      draw_loop-keeps (Pooled b) b (add_drawn-Pooled b ok) turns x rs empty_draft
        (record { drawn = empty-Drawn; pooled = omega arith }) in
    rw (choose_inf-many turns x rs b many) (
      omega (
        arith,
        v.pooled,
        pool_bound b ok (λ p. named p (draw_loop turns x rs b empty_draft)) v.drawn.distinct,
      ))
