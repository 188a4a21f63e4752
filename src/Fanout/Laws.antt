-- ===== src/Fanout/Laws.antt =====
-- The fanout holds at most seven peers and none of them twice; with at most seven neighbours it
-- holds them all.
use rounds.Base.{
  ℕ, zero, suc, ◌+◌, ◌≡◌, ◌≤◌, ◌<◌, inl, inr, refl, arith, List, [], ◌∷◌, length, ltb, get_or,
  find_first, Option-cases, Bool-cases, bit, sum_of, sum_of-push, sum_of-miss, sum_of-zero,
  sum_of_ext, length-set, ltb→lt, le→leb, lt→leb, ap, dec_lt,
}
use rounds.Params.{fanout}
use rounds.Peer.{Peer, same_peer, same_peer_iff, same_peer_refl, same_peer_comm}
use rounds.Neighbour.{Neighbour, BufferNeighbour, blank_list, get_number_neighbour}
use rounds.Neighbour.Lists.{ListIsValid, list_weight}
use rounds.Neighbour.Table.{count_peer, is_peer, IsValid}
use rounds.Neighbour.Distinct.{Inv}
use rounds.Random.{RandomX}
use rounds.Fanout.{
  BufferFanout, reset_buffer_fanout, push_peer, copy_cells, copy_ages, draw_peer, drawn, draw_loop,
  new_fanout,
}

-- How often `p` is in the fanout.
abbrev pub chosen : Peer → BufferFanout → ℕ
chosen p f = sum_of (λ q. bit (same_peer p q)) f.limit f.nodi

pub record FanoutIsValid (f : BufferFanout) : Type 0 where
  pub size : length f.nodi ≡ fanout
  pub limited : f.limit ≤ fanout
  pub distinct : (p : Peer) → chosen p f ≤ 1

copy_cells_lem :
    (w : Peer → ℕ) (n : ℕ) (cells : List Neighbour) (f : BufferFanout)
    → n ≤ length cells
    → f.limit + n ≤ length f.nodi
    → let f' = copy_cells n cells f in
      (f'.limit ≡ f.limit + n)
      × (length f'.nodi ≡ length f.nodi)
      × (sum_of w f'.limit f'.nodi ≡ sum_of w f.limit f.nodi + sum_of (λ c. w c.peer) n cells)
unfolding copy_cells sum_of
copy_cells_lem w zero cells f h hn = omega arith
copy_cells_lem w (suc n) [] f h hn = absurd (omega arith)
copy_cells_lem w (suc n) (c ∷ cells) f h hn = omega (
  arith,
  copy_cells_lem w n cells (push_peer c.peer f) (omega arith)
      (omega (arith, length-set f.nodi f.limit c.peer)),
  length-set f.nodi f.limit c.peer,
  sum_of-push w f.limit f.nodi c.peer (omega arith),
)

copy_ages_lem :
    (w : Peer → ℕ) (b : BufferNeighbour) (f : BufferFanout)
    → ((i : ℕ) → ListIsValid (get_or b i blank_list))
    → f.limit + get_number_neighbour b ≤ length f.nodi
    → let f' = copy_ages b f in
      (f'.limit ≡ f.limit + get_number_neighbour b)
      × (length f'.nodi ≡ length f.nodi)
      × (sum_of w f'.limit f'.nodi
          ≡ sum_of w f.limit f.nodi + sum_of (list_weight (λ c. w c.peer)) (length b) b)
unfolding copy_ages get_number_neighbour sum_of
copy_ages_lem w [] f v h = omega arith
copy_ages_lem w (l ∷ b) f v h =
    let v0 : ListIsValid l = v 0 in
    let first = copy_cells_lem w l.limit l.nodi_vicini f (omega arith) (omega arith) in
    omega (
      arith,
      first,
      copy_ages_lem w b (copy_cells l.limit l.nodi_vicini f) (λ i. v (suc i))
          (omega (arith, first)),
    )

module _ (x : RandomX) (rs : List ℕ) (b : BufferNeighbour) where
  few : get_number_neighbour b ≤ fanout → new_fanout x rs b ≡ copy_ages b reset_buffer_fanout
  unfolding new_fanout
  few h = rw (le→leb (get_number_neighbour b) fanout h) refl

  many : fanout < get_number_neighbour b → new_fanout x rs b ≡ draw_loop x rs b reset_buffer_fanout
  unfolding new_fanout
  many h = rw (lt→leb (get_number_neighbour b) fanout h) refl

-- From a valid neighbour buffer with at most seven peers: the fanout holds every neighbour, as
-- often as the neighbour buffer does, and no other peer, and `limit` is their number.
pub new_fanout-few :
    (x : RandomX) (rs : List ℕ) (b : BufferNeighbour)
    → IsValid b
    → get_number_neighbour b ≤ fanout
    → let f = new_fanout x rs b in
      (f.limit ≡ get_number_neighbour b) × ((p : Peer) → chosen p f ≡ count_peer p b)
new_fanout-few x rs b v h = rw (few x rs b h) (
  omega (arith, copy_ages_lem (λ _. 0) b reset_buffer_fanout v.lists (omega arith)),
  λ p. omega (
    arith,
    copy_ages_lem (λ q. bit (same_peer p q)) b reset_buffer_fanout v.lists (omega arith),
    sum_of-zero (λ q. bit (same_peer p q)) reset_buffer_fanout.nodi,
    ap (λ n. sum_of (list_weight (is_peer p)) n b) v.ages,
  ),
)

draw_peer-FanoutIsValid :
    (p : Peer) (f : BufferFanout)
    → FanoutIsValid f
    → f.limit < fanout
    → FanoutIsValid (draw_peer p f)
unfolding draw_peer
draw_peer-FanoutIsValid p f v room =
    elim (Option-cases (find_first (λ q. same_peer q p) f.limit f.nodi)) [
      | inr (i, hit) ↦ rw (hit, draw_peer) v
      | inl miss ↦
          rw (miss, draw_peer)
            (record {
              size = omega (arith, v.size, length-set f.nodi f.limit p);
              limited = omega arith;
              distinct = λ q. elim (Bool-cases (same_peer q p)) [
                | inl same ↦ rw ((same_peer_iff q p).0 same) (
                    omega (
                      arith,
                      sum_of-push (λ r. bit (same_peer p r)) f.limit f.nodi p
                          (omega (arith, v.size)),
                      ap bit (same_peer_refl p),
                      sum_of-miss (λ r. same_peer r p) f.limit f.nodi miss,
                      sum_of_ext (λ r. bit (same_peer p r)) (λ r. bit (same_peer r p)) f.limit
                          f.nodi (λ r. ap bit (same_peer_comm p r)),
                    ))
                | inr other ↦ omega (
                  arith,
                  sum_of-push (λ r. bit (same_peer q r)) f.limit f.nodi p (omega (arith, v.size)),
                  ap bit other,
                  v.distinct q,
                )
              ];
            })
    ]

draw_loop-FanoutIsValid :
    (x : RandomX) (rs : List ℕ) (b : BufferNeighbour) (f : BufferFanout)
    → FanoutIsValid f
    → FanoutIsValid (draw_loop x rs b f)
unfolding draw_loop
draw_loop-FanoutIsValid x [] b f v = v
draw_loop-FanoutIsValid x (r₁ ∷ []) b f v = v
draw_loop-FanoutIsValid x (r₁ ∷ r₂ ∷ rs) b f v = elim (Bool-cases (ltb f.limit fanout)) [
  | inr full ↦ rw full v
  | inl room ↦ elim (Option-cases (drawn x r₁ r₂ b)) [
    | inl stopped ↦ rw (room, stopped) v
    | inr (p, e) ↦
        rw (room, e)
          (draw_loop-FanoutIsValid x rs b (draw_peer p f)
            (draw_peer-FanoutIsValid p f v (ltb→lt f.limit fanout room)))
  ]
]

pub reset-FanoutIsValid : FanoutIsValid reset_buffer_fanout
reset-FanoutIsValid = record {
  size = refl;
  limited = omega arith;
  distinct = λ p. omega (arith, sum_of-zero (λ q. bit (same_peer p q)) reset_buffer_fanout.nodi);
}

-- From a neighbour buffer with the invariant, whatever is drawn and however often: the fanout has
-- its seven cells, `limit` is at most seven, and no peer is there twice.
pub new_fanout-FanoutIsValid :
    (me : Peer) (x : RandomX) (rs : List ℕ) (b : BufferNeighbour)
    → Inv me b
    → FanoutIsValid (new_fanout x rs b)
new_fanout-FanoutIsValid me x rs b v = elim (dec_lt fanout (get_number_neighbour b)) [
  | yes more ↦
      rw (many x rs b more) (draw_loop-FanoutIsValid x rs b reset_buffer_fanout reset-FanoutIsValid)
  | no fits ↦
      let (len, each) = new_fanout-few x rs b v.valid (omega arith) in
      record {
        size = rw (few x rs b (omega arith)) (
            omega
              (arith, copy_ages_lem (λ _. 0) b reset_buffer_fanout v.valid.lists (omega arith)));
        limited = omega arith;
        distinct = λ p. omega (arith, each p, v.distinct p);
      }
]
