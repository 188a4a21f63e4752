-- ===== src/BootServer/Answers.antt =====
-- What the server answers: a small table in full, and of a larger one nothing that is read.
use rounds.Base.{
  ℕ, zero, suc, ◌+◌, ◌≡◌, ◌≤◌, ◌<◌, inl, inr, refl, sym, ap, arith, true, false, List, [], ◌∷◌,
  length, ltb, if◌then◌else◌, set, Bool-cases, bit, sum_of, ◌∙◌, sum_of_mono, sum_of_one,
  sum_of-push, sum_of-zero, length-set, ltb→lt, lt→ltb,
}
use rounds.Params.{server_nodi}
use rounds.Peer.{Peer, same_peer, same_peer_iff, same_peer_comm, other_peer}
use rounds.Random.{num_random}
use rounds.BootServer.{
  BufferNodi, ServerNodi, init_gserver_nodi, copy_others, draw_others, refused, set_gserver_nodi,
}
use rounds.BootServer.Laws.{enrolled, IsValid}

abbrev pub offered : Peer → ServerNodi → ℕ
offered p msg = sum_of (λ q. bit (same_peer p q)) msg.limit msg.boot_neighbour

asker : (r p : Peer) → same_peer r p ≡ true → bit (same_peer p r) ≡ 1
asker r p h = ap bit (same_peer_comm p r) ∙ ap bit h

stays : (r p : Peer) → same_peer r p ≡ false → bit (same_peer p r) ≡ 0
stays r p h = ap bit (same_peer_comm p r) ∙ ap bit h

at_most :
    (p : Peer) (n : ℕ) (nodi : List Peer)
    → n ≤ length nodi
    → sum_of (λ r. bit (same_peer p r)) n nodi ≤ n
at_most p n nodi h = omega (
  arith,
  sum_of_mono (λ r. bit (same_peer p r)) (λ _. 1) n nodi (λ r. ground arith),
  sum_of_one n nodi h,
)

-- How many of the peers but `p` are `q`, when `r` comes in front.
pub others : Peer → Peer → ℕ → List Peer → ℕ
others p q n nodi = if same_peer p q then 0 else sum_of (λ t. bit (same_peer q t)) n nodi

no_others : (p q : Peer) (nodi : List Peer) → others p q 0 nodi ≡ 0
unfolding others
no_others p q nodi = elim (Bool-cases (same_peer p q)) [
  | inl same ↦ rw same refl
  | inr ne ↦ rw ne (sum_of-zero (λ t. bit (same_peer q t)) nodi)
]

skipped :
    (p q r : Peer)
    → same_peer r p ≡ true
    → (n : ℕ) (nodi : List Peer) → others p q (suc n) (r ∷ nodi) ≡ others p q n nodi
unfolding others sum_of
skipped p q r asks n nodi = elim (Bool-cases (same_peer p q)) [
  | inl same ↦ rw same refl
  | inr ne ↦ rw ne (
      omega (
        arith,
        other_peer q r (λ e. cc (ne, (same_peer_iff p q).1 (sym (e ∙ (same_peer_iff r p).0 asks)))),
      ))
]

added :
    (p q r : Peer)
    → same_peer r p ≡ false
    → (n : ℕ) (nodi : List Peer)
    → others p q (suc n) (r ∷ nodi) ≡ bit (same_peer q r) + others p q n nodi
unfolding others sum_of
added p q r other n nodi = elim (Bool-cases (same_peer p q)) [
  | inl same ↦ rw same (
      omega (
        arith,
        other_peer q r
            (λ e. cc (other, (same_peer_iff r p).1 (sym e ∙ sym ((same_peer_iff p q).0 same)))),
      ))
  | inr ne ↦ rw ne refl
]

copy_others_lem :
    (p q : Peer) (n : ℕ) (nodi : List Peer) (msg : ServerNodi)
    → n ≤ length nodi
    → msg.limit + n ≤ length msg.boot_neighbour + sum_of (λ r. bit (same_peer p r)) n nodi
    → offered q (copy_others p n nodi msg) ≡ offered q msg + others p q n nodi
unfolding copy_others sum_of
copy_others_lem p q zero nodi msg h fits = omega (arith, no_others p q nodi)
copy_others_lem p q (suc n) [] msg h fits = absurd (omega arith)
copy_others_lem p q (suc n) (r ∷ nodi) msg h fits = elim (Bool-cases (same_peer r p)) [
  | inl asks ↦
      rw (asks, copy_others)
        (omega (
          arith,
          copy_others_lem p q n nodi msg (omega arith) (omega (arith, asker r p asks)),
          skipped p q r asks n nodi,
        ))
  | inr other ↦
      let room : msg.limit < length msg.boot_neighbour =
        omega (arith, at_most p n nodi (omega arith), stays r p other) in
      rw (other, copy_others)
        (omega (
          arith,
          copy_others_lem p q n nodi
              (record {
                limit = msg.limit + 1;
                boot_neighbour = set msg.boot_neighbour msg.limit r;
              })
              (omega arith)
              (omega (arith, stays r p other, length-set msg.boot_neighbour msg.limit r)),
          sum_of-push (λ t. bit (same_peer q t)) msg.limit msg.boot_neighbour r room,
          added p q r other n nodi,
        ))
]

-- With a valid table of at most ten peers, the answer names every peer but the asking one as
-- often as the table does, and the asking one not at all.
pub set_gserver_nodi-few :
    (p : Peer) (rands : List ℕ) (b : BufferNodi)
    → IsValid b
    → b.limit ≤ server_nodi
    → (q : Peer)
    → offered q (set_gserver_nodi p rands b init_gserver_nodi)
      ≡ (if same_peer p q then 0 else enrolled q b)
unfolding set_gserver_nodi others
set_gserver_nodi-few p rands b v h q = rw (lt→ltb b.limit (server_nodi + 1) (omega arith)) (
    omega (
      arith,
      copy_others_lem p q b.limit b.nodi init_gserver_nodi (omega (arith, v.size, v.limited))
          (omega arith),
      sum_of-zero (λ t. bit (same_peer q t)) init_gserver_nodi.boot_neighbour,
    ))

copy_others-limit :
    (p : Peer) (n : ℕ) (nodi : List Peer) (msg : ServerNodi)
    → n ≤ length nodi
    → (copy_others p n nodi msg).limit + sum_of (λ r. bit (same_peer p r)) n nodi ≡ msg.limit + n
unfolding copy_others sum_of
copy_others-limit p zero nodi msg h = omega arith
copy_others-limit p (suc n) [] msg h = absurd (omega arith)
copy_others-limit p (suc n) (r ∷ nodi) msg h = elim (Bool-cases (same_peer r p)) [
  | inl asks ↦
      rw (asks, copy_others)
        (omega (arith, copy_others-limit p n nodi msg (omega arith), asker r p asks))
  | inr other ↦
      rw (other, copy_others)
        (omega (
          arith,
          copy_others-limit p n nodi
              (record {
                limit = msg.limit + 1;
                boot_neighbour = set msg.boot_neighbour msg.limit r;
              })
              (omega arith),
          stays r p other,
        ))
]

copy_others-length :
    (p : Peer) (n : ℕ) (nodi : List Peer) (msg : ServerNodi)
    → length (copy_others p n nodi msg).boot_neighbour ≡ length msg.boot_neighbour
unfolding copy_others
copy_others-length p zero nodi msg = refl
copy_others-length p (suc n) [] msg = refl
copy_others-length p (suc n) (r ∷ nodi) msg = elim (Bool-cases (same_peer r p)) [
  | inl asks ↦ rw (asks, copy_others) (copy_others-length p n nodi msg)
  | inr other ↦
      rw (other, copy_others)
        (copy_others-length p n nodi
            (record { limit = msg.limit + 1; boot_neighbour = set msg.boot_neighbour msg.limit r })
          ∙ length-set msg.boot_neighbour msg.limit r)
]

-- It has room for them.
pub set_gserver_nodi-room :
    (p : Peer) (rands : List ℕ) (b : BufferNodi)
    → b.limit ≤ server_nodi
    → length (set_gserver_nodi p rands b init_gserver_nodi).boot_neighbour ≡ server_nodi
unfolding set_gserver_nodi
set_gserver_nodi-room p rands b h =
    rw (lt→ltb b.limit (server_nodi + 1) (omega arith))
      (copy_others-length p b.limit b.nodi init_gserver_nodi)

-- How many peers such an answer names.
pub set_gserver_nodi-limit :
    (p : Peer) (rands : List ℕ) (b : BufferNodi)
    → IsValid b
    → b.limit ≤ server_nodi
    → (set_gserver_nodi p rands b init_gserver_nodi).limit + enrolled p b ≡ b.limit
unfolding set_gserver_nodi
set_gserver_nodi-limit p rands b v h = rw (lt→ltb b.limit (server_nodi + 1) (omega arith)) (
    omega (
      arith,
      copy_others-limit p b.limit b.nodi init_gserver_nodi (omega (arith, v.size, v.limited)),
    ))

draw_others-limit :
    (p : Peer) (b : BufferNodi) (rands : List ℕ) (j : ℕ) (index : List ℕ) (msg : ServerNodi)
    → (draw_others p b rands j index msg).limit ≡ msg.limit
unfolding draw_others
draw_others-limit p b [] j index msg = refl
draw_others-limit p b (r ∷ rands) j index msg = elim (Bool-cases (ltb j server_nodi)) [
  | inr full ↦ rw full refl
  | inl more ↦ elim (Bool-cases (refused (num_random b.limit r) p b index)) [
    | inl again ↦ rw (more, again) (draw_others-limit p b rands j index msg)
    | inr taken ↦ rw (more, taken) (draw_others-limit p b rands (j + 1) _ _)
  ]
]

-- With more than ten peers in the table the answer has `limit` 0, whatever is drawn.
pub set_gserver_nodi-many :
    (p : Peer) (rands : List ℕ) (b : BufferNodi)
    → server_nodi < b.limit
    → (set_gserver_nodi p rands b init_gserver_nodi).limit ≡ 0
unfolding set_gserver_nodi
set_gserver_nodi-many p rands b h = elim (Bool-cases (ltb b.limit (server_nodi + 1))) [
  | inl few ↦ absurd (omega (arith, ltb→lt b.limit (server_nodi + 1) few))
  | inr many ↦ rw many (draw_others-limit p b rands 0 [] init_gserver_nodi)
]
