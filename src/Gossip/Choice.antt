-- ===== src/Gossip/Choice.antt =====
-- With more than ten neighbours an information gossip tells of at most seven of them, that are drawn.
use rounds.Base.{
  ℕ, zero, suc, ◌+◌, ◌≡◌, ◌⊎◌, ◌≤◌, ◌<◌, refl, ap, subst, arith, List, [], ◌∷◌, length, get_or, bit,
  ltb, none, some, Option-cases, Bool-cases, inl, inr, take, length-take, find_first, ltb→lt,
  dec_lt, lt→leb, sum_of, sum_of-push, sum_of-miss, sum_of_ext, sum_of-zero,
}
use rounds.Params.{max_age, gossip_nodi, fanout, max_hash_vicino}
use rounds.Peer.{Peer, same_peer, same_peer_iff, same_peer_comm, same_peer_refl}
use rounds.Neighbour.{BufferNeighbour, blank_list, get_number_neighbour}
use rounds.Neighbour.Table.{IsValid, cell_at}
use rounds.MyFiles.{BufferFile}
use rounds.Random.{RandomX, age_of, num_random, random_age_buffer_rg}
use rounds.Inform.{NeighbourInf}
use rounds.Gossip.{
  Draft, empty_draft, push_inf, add_drawn, add_index, draw_turn, draw_loop, choose_inf,
}
use rounds.Gossip.Copies.{DraftIsValid, empty_draft-IsValid, push_inf-IsValid, copied-IsValid}

age_of-lt : (v : ℕ) (bs : List ℕ) (i : ℕ) → age_of v bs ≡ some i → i < length bs
unfolding age_of
age_of-lt v [] i e = absurd (cc)
age_of-lt v (b ∷ bs) zero e = omega arith
age_of-lt v (b ∷ bs) (suc i) e = ground (arith, age_of-lt v bs i)

-- The age of a neighbour that is drawn for a gossip is below 6, whatever the table.
pub random_age_buffer_rg-lt :
    (x : RandomX) (rs : List ℕ) (age : ℕ) (rest : List ℕ)
    → random_age_buffer_rg x rs ≡ some (age, rest)
    → age < 6
unfolding random_age_buffer_rg
random_age_buffer_rg-lt x [] age rest e = absurd (cc)
random_age_buffer_rg-lt x (r ∷ rs) age rest e = ground (
  arith,
  age_of-lt (1 + num_random x.estremo r) (take 6 x.intorno) age,
  length-take 6 x.intorno,
  random_age_buffer_rg-lt x rs age rest,
)

-- How often the first entries name `p`.
abbrev pub named : Peer → Draft → ℕ
named p d = sum_of (λ e. bit (same_peer p e.neighbour.peer)) d.limit d.list

pub record Drawn (d : Draft) : Type 0 where
  pub valid : DraftIsValid d
  pub limited : d.limit ≤ fanout
  pub distinct : (p : Peer) → named p d ≤ 1

pub empty-Drawn : Drawn empty_draft
empty-Drawn = record {
  valid = empty_draft-IsValid;
  limited = omega arith;
  distinct = λ p. omega (
    arith,
    sum_of-zero (λ (e : NeighbourInf). bit (same_peer p e.neighbour.peer)) empty_draft.list,
  );
}

module _ (e : NeighbourInf) (d : Draft) (v : Drawn d) (room : d.limit < fanout) where
  pub named-push_inf :
      (q : Peer) → named q (push_inf e d) ≡ named q d + bit (same_peer q e.neighbour.peer)
  named-push_inf q =
      sum_of-push (λ (f : NeighbourInf). bit (same_peer q f.neighbour.peer)) d.limit d.list e
        (omega (arith, v.valid.size))

  pub push_inf-Drawn :
      find_first (λ f. same_peer f.neighbour.peer e.neighbour.peer) d.limit d.list ≡ none
      → e.age < max_age
      → Drawn (push_inf e d)
  push_inf-Drawn miss young = record {
    valid = push_inf-IsValid e d v.valid (omega arith) young;
    limited = omega arith;
    distinct = λ q. elim (Bool-cases (same_peer q e.neighbour.peer)) [
      | inl same ↦ rw ((same_peer_iff q e.neighbour.peer).0 same) (
          omega (
            arith,
            named-push_inf e.neighbour.peer,
            ap bit (same_peer_refl e.neighbour.peer),
            sum_of-miss (λ (f : NeighbourInf). same_peer f.neighbour.peer e.neighbour.peer) d.limit
                d.list miss,
            sum_of_ext (λ (f : NeighbourInf). bit (same_peer e.neighbour.peer f.neighbour.peer))
                (λ (f : NeighbourInf). bit (same_peer f.neighbour.peer e.neighbour.peer)) d.limit
                d.list (λ f. ap bit (same_peer_comm e.neighbour.peer f.neighbour.peer)),
          ))
      | inr other ↦ omega (arith, named-push_inf q, ap bit other, v.distinct q)
    ];
  }

-- A turn adds, or passes over, the peer that the next two draws name.
pub draw_turn-inv :
    (x : RandomX) (rs : List ℕ) (b : BufferNeighbour) (d d' : Draft) (rest : List ℕ)
    → draw_turn x rs b d ≡ some (d', rest)
    → (age : ℕ) × (r : ℕ) × (random_age_buffer_rg x rs ≡ some (age, r ∷ rest))
      × (add_drawn age (num_random (get_or b age blank_list).limit r) b d ≡ d')
unfolding draw_turn add_index
draw_turn-inv x rs b d d' rest e = elim (Option-cases (random_age_buffer_rg x rs)) [
  | inl stopped ↦ absurd (cc (rw (stopped, draw_turn) at e))
  | inr ((age, []), found) ↦ absurd (cc (rw (found, draw_turn) at e))
  | inr ((age, r ∷ left), found) ↦ (
    age,
    r,
    let e' = rw (found, draw_turn) at e in let same : left ≡ rest = cc e' in rw (← same) found,
    let e' = rw (found, draw_turn) at e in cc e',
  )
]

-- What every turn keeps holds at the end of the loop.
module _ {ℓ} (P : Draft → Type ℓ) (b : BufferNeighbour)
    (keep : (age index : ℕ) (d : Draft)
      → age < 6
      → d.limit < fanout
      → P d
      → P (add_drawn age index b d)) where
  pub draw_loop-keeps :
      (turns : ℕ) (x : RandomX) (rs : List ℕ) (d : Draft) → P d → P (draw_loop turns x rs b d)
  unfolding draw_loop
  draw_loop-keeps zero x rs d v = v
  draw_loop-keeps (suc turns) x rs d v = elim (Bool-cases (ltb d.limit fanout)) [
    | inr full ↦ rw full v
    | inl room ↦ elim (Option-cases (draw_turn x rs b d)) [
      | inl stopped ↦ rw (room, stopped) v
      | inr ((d', rest), e) ↦
          rw (room, e)
            (draw_loop-keeps turns x rest d' (
              let (age, r, found, same) = draw_turn-inv x rs b d d' rest e in
              subst P same (
                keep age (num_random (get_or b age blank_list).limit r) d
                  (random_age_buffer_rg-lt x rs age (r ∷ rest) found) (ltb→lt d.limit fanout room)
                  v)))
    ]
  ]

-- What a turn writes when the peer is new.
abbrev pub entry : BufferNeighbour → ℕ → ℕ → ℕ → NeighbourInf
entry b age index limit = record {
  neighbour = record {
    peer = (cell_at b age index).peer;
    hash_file = (cell_at b limit max_hash_vicino).hash_file;
  };
  age = age;
}

pub add_drawn_cases :
    (age index : ℕ) (b : BufferNeighbour) (d : Draft)
    → (add_drawn age index b d ≡ d)
      ⊎ ((find_first (λ e. same_peer e.neighbour.peer (cell_at b age index).peer) d.limit d.list
            ≡ none)
          × (add_drawn age index b d ≡ push_inf (entry b age index d.limit) d))
unfolding add_drawn
add_drawn_cases age index b d =
    let p = (cell_at b age index).peer in
    elim (Option-cases (find_first (λ e. same_peer e.neighbour.peer p) d.limit d.list)) [
      | inr (i, hit) ↦ inl (rw (hit, add_drawn) refl)
      | inl miss ↦ inr (miss, rw (miss, add_drawn) refl)
    ]

pub add_drawn-Drawn :
    (b : BufferNeighbour) (age index : ℕ) (d : Draft)
    → age < 6
    → d.limit < fanout
    → Drawn d
    → Drawn (add_drawn age index b d)
add_drawn-Drawn b age index d young room v = elim (add_drawn_cases age index b d) [
  | inl kept ↦ rw kept v
  | inr (miss, e) ↦ rw e (push_inf-Drawn (entry b age index d.limit) d v room miss (omega arith))
]

-- Whatever is drawn and however often: at most seven entries, with ages of the seven, and no peer
-- is named twice.
pub draw_loop-Drawn :
    (turns : ℕ) (x : RandomX) (rs : List ℕ) (b : BufferNeighbour)
    → Drawn (draw_loop turns x rs b empty_draft)
draw_loop-Drawn turns x rs b =
    draw_loop-keeps Drawn b (add_drawn-Drawn b) turns x rs empty_draft empty-Drawn

pub choose_inf-many :
    (turns : ℕ) (x : RandomX) (rs : List ℕ) (b : BufferNeighbour)
    → gossip_nodi < get_number_neighbour b
    → choose_inf turns x rs b ≡ draw_loop turns x rs b empty_draft
unfolding choose_inf
choose_inf-many turns x rs b h = rw (lt→leb (get_number_neighbour b) gossip_nodi h) refl

-- From a valid neighbour buffer, whatever is drawn: a gossip has its ten entries and every age in
-- it is one of the seven.
pub choose_inf-IsValid :
    (me : Peer) (files : BufferFile) (turns : ℕ) (x : RandomX) (rs : List ℕ) (b : BufferNeighbour)
    → IsValid b
    → DraftIsValid (choose_inf turns x rs b)
choose_inf-IsValid me files turns x rs b v = elim (dec_lt gossip_nodi (get_number_neighbour b)) [
  | yes more ↦ rw (choose_inf-many turns x rs b more) (draw_loop-Drawn turns x rs b).valid
  | no fits ↦ copied-IsValid me files turns x rs b v (omega arith)
]
