-- ===== src/BootServer/Laws.antt =====
-- The table of the server holds no peer twice.
use rounds.Base.{
  ℕ, ◌≡◌, ◌≤◌, ◌<◌, ◌⊎◌, inl, inr, refl, ap, arith, true, false, List, length, ltb, find_first,
  Option-cases, Bool-cases, bit, sum_of, sum_of-push, sum_of-miss, sum_of-hit, sum_of_ext,
  sum_of-zero, length-set, length-replicate, ltb→lt,
}
use rounds.Params.{n_nodi}
use rounds.Peer.{Peer, same_peer, same_peer_iff, same_peer_refl, same_peer_comm, nobody}
use rounds.BootServer.{BufferNodi, init_buffer_nodi, iscrizione, search_nodo, func_helper_servboot}

abbrev pub enrolled : Peer → BufferNodi → ℕ
enrolled p b = sum_of (λ q. bit (same_peer p q)) b.limit b.nodi

pub record IsValid (b : BufferNodi) : Type 0 where
  pub size : length b.nodi ≡ n_nodi
  pub limited : b.limit ≤ n_nodi
  pub distinct : (p : Peer) → enrolled p b ≤ 1

-- `search_nodo` answers whether the peer is in the table.
search_nodo_lem :
    (p : Peer) (b : BufferNodi)
    → ((search_nodo p b ≡ true) × (1 ≤ enrolled p b))
      ⊎ ((search_nodo p b ≡ false) × (enrolled p b ≡ 0))
unfolding search_nodo
search_nodo_lem p b =
    let same =
      sum_of_ext (λ r. bit (same_peer p r)) (λ r. bit (same_peer r p)) b.limit b.nodi
        (λ r. ap bit (same_peer_comm p r)) in
    elim (Option-cases (find_first (λ q. same_peer q p) b.limit b.nodi)) [
      | inl miss ↦ inr (
        rw (miss, search_nodo) refl,
        omega (arith, same, sum_of-miss (λ q. same_peer q p) b.limit b.nodi miss),
      )
      | inr (i, hit) ↦ inl (
        rw (hit, search_nodo) refl,
        omega (arith, same, sum_of-hit (λ q. same_peer q p) b.limit b.nodi i hit),
      )
    ]

iscrizione-IsValid :
    (p : Peer) (b : BufferNodi) → IsValid b → enrolled p b ≡ 0 → IsValid (iscrizione p b).0
unfolding iscrizione
iscrizione-IsValid p b v new = elim (Bool-cases (ltb b.limit n_nodi)) [
  | inr full ↦ rw full v
  | inl room ↦
      let fits : b.limit < length b.nodi = omega (arith, ltb→lt b.limit n_nodi room, v.size) in
      rw room (record {
        size = omega (arith, v.size, length-set b.nodi b.limit p);
        limited = omega (arith, ltb→lt b.limit n_nodi room);
        distinct = λ q. elim (Bool-cases (same_peer q p)) [
          | inl same ↦ rw ((same_peer_iff q p).0 same) (
              omega (
                arith,
                sum_of-push (λ r. bit (same_peer p r)) b.limit b.nodi p fits,
                ap bit (same_peer_refl p),
              ))
          | inr other ↦ omega (
            arith,
            sum_of-push (λ r. bit (same_peer q r)) b.limit b.nodi p fits,
            ap bit other,
            v.distinct q,
          )
        ];
      })
]

-- A request keeps the table of the server valid: its size, the bound on `limit`, and no peer
-- twice.
pub func_helper_servboot-IsValid :
    (p : Peer) (rands : List ℕ) (b : BufferNodi)
    → IsValid b
    → IsValid (func_helper_servboot p rands b).0
unfolding func_helper_servboot
func_helper_servboot-IsValid p rands b v = elim (search_nodo_lem p b) [
  | inl (known, held) ↦ rw known v
  | inr (new, none_held) ↦ rw new (iscrizione-IsValid p b v none_held)
]

pub init-IsValid : IsValid init_buffer_nodi
init-IsValid = record {
  size = length-replicate n_nodi nobody;
  limited = omega arith;
  distinct = λ p. omega (arith, sum_of-zero (λ q. bit (same_peer p q)) init_buffer_nodi.nodi);
}
