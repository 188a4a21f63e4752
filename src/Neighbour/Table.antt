-- ===== src/Neighbour/Table.antt =====
-- The whole buffer: its invariant, what the searches find, and the multiset of its peers under a
-- removal and an insertion.
use rounds.Base.{
  ℕ, zero, suc, ◌+◌, ◌≡◌, ◌≤◌, ◌<◌, refl, sym, ◌∙◌, ap, subst, [], ◌∷◌, arith, length, none, some,
  get_or, set, length-set, get_or-set_self, get_or-set_ne, sum_of, sum_of-set, ℕ_discrete, inl, inr,
  get_or-replicate, bit, sum_of-miss, find_first-hit, Option-cases, Bool-cases, get_or-le-sum_of,
  ltb,
}
use rounds.Params.{max_age}
use rounds.Peer.{Peer, same_peer, same_peer_iff}
use rounds.Neighbour.{
  Neighbour, ListaAge, BufferNeighbour, blank_cell, blank_list, init_buffer_neighbour, find_peer,
  delete_cell, delete_at, push_cell, place, first_room,
}
use rounds.Neighbour.Lists.{
  ListIsValid, blank_list-IsValid, list_weight, list_weight-delete_cell, delete_cell-IsValid,
  list_weight-push_cell, push_cell-IsValid,
}

pub record IsValid (b : BufferNeighbour) : Type 0 where
  pub ages : length b ≡ max_age
  pub lists : (i : ℕ) → ListIsValid (get_or b i blank_list)

-- The sum of a weight over all peers of the buffer.
abbrev pub total : (Neighbour → ℕ) → BufferNeighbour → ℕ
total f b = sum_of (list_weight f) max_age b

-- The peer `p`, as a weight: the total is the number of times that the buffer holds it.
abbrev pub is_peer : Peer → Neighbour → ℕ
is_peer p c = bit (same_peer p c.peer)

abbrev pub count_peer : Peer → BufferNeighbour → ℕ
count_peer p b = total (is_peer p) b

abbrev pub cell_at : BufferNeighbour → ℕ → ℕ → Neighbour
cell_at b i j = get_or (get_or b i blank_list).nodi_vicini j blank_cell

pub init_buffer_neighbour-IsValid : IsValid init_buffer_neighbour
unfolding init_buffer_neighbour
init_buffer_neighbour-IsValid = record {
  ages = refl;
  lists = λ i. subst ListIsValid (sym (get_or-replicate max_age i blank_list)) blank_list-IsValid;
}

set-IsValid :
    (b : BufferNeighbour) (i : ℕ) (l : ListaAge)
    → IsValid b
    → ListIsValid l
    → i < max_age
    → IsValid (set b i l)
set-IsValid b i l v lv h = record {
  ages = length-set b i l ∙ v.ages;
  lists = λ k. elim (ℕ_discrete i k) [
    | yes same ↦
        subst (λ n. ListIsValid (get_or (set b i l) n blank_list)) same
          (subst ListIsValid (sym (get_or-set_self b i l blank_list (omega (arith, v.ages)))) lv)
    | no other ↦ subst ListIsValid (sym (get_or-set_ne b i k l blank_list other)) (v.lists k)
  ];
}

-- A hit is a cell of the buffer that holds the peer.
pub find_peer-hit :
    (p : Peer) (b : BufferNeighbour) (i j : ℕ)
    → find_peer p b ≡ some (i, j)
    → (i < length b) × (j < (get_or b i blank_list).limit) × ((cell_at b i j).peer ≡ p)
unfolding find_peer
find_peer-hit p [] i j e = absurd (cc)
find_peer-hit p (l ∷ b) zero j e = ground (
  arith,
  find_first-hit (λ (c : Neighbour). same_peer p c.peer) l.limit l.nodi_vicini blank_cell j,
)
find_peer-hit p (l ∷ b) (suc i) j e = ground (arith, find_peer-hit p b i j)

-- Without a hit the buffer does not hold the peer.
pub find_peer-miss :
    (p : Peer) (n : ℕ) (b : BufferNeighbour)
    → find_peer p b ≡ none
    → sum_of (list_weight (is_peer p)) n b ≡ 0
unfolding find_peer sum_of
find_peer-miss p zero b e = refl
find_peer-miss p (suc n) [] e = refl
find_peer-miss p (suc n) (l ∷ b) e = ground (
  arith,
  sum_of-miss (λ (c : Neighbour). same_peer p c.peer) l.limit l.nodi_vicini,
  find_peer-miss p n b,
)

-- The buffer holds a peer that it finds.
pub find_peer-counted :
    (p : Peer) (b : BufferNeighbour) (i j : ℕ)
    → IsValid b
    → find_peer p b ≡ some (i, j)
    → 1 ≤ count_peer p b
find_peer-counted p b i j v e =
    let (lt, lj, same) = find_peer-hit p b i j e in
    omega (
      arith,
      get_or-le-sum_of (list_weight (is_peer p)) max_age b i blank_list (omega (arith, v.ages)) lt,
      get_or-le-sum_of (is_peer p) (get_or b i blank_list).limit (get_or b i blank_list).nodi_vicini
          j blank_cell lj (omega (arith, v.lists i)),
      ap bit ((same_peer_iff p (cell_at b i j).peer).1 (sym same)),
    )

-- `first_room` finds the first age from `age` on that is not full.
pub first_room-hit :
    (age : ℕ) (b : BufferNeighbour) (i : ℕ)
    → first_room age b ≡ some i
    → (age ≤ i) × (i < length b) × ((get_or b i blank_list).limit < max_age)
unfolding first_room
first_room-hit age [] i e = absurd (cc)
first_room-hit zero (l ∷ b) zero e = ground arith
first_room-hit zero (l ∷ b) (suc i) e = ground (arith, first_room-hit zero b i)
first_room-hit (suc age) (l ∷ b) zero e = ground arith
first_room-hit (suc age) (l ∷ b) (suc i) e = ground (arith, first_room-hit age b i)

-- No age with room is passed over.
pub first_room-some :
    (age : ℕ) (b : BufferNeighbour) (k : ℕ)
    → age ≤ k
    → k < length b
    → (get_or b k blank_list).limit < max_age
    → (i : ℕ) × (first_room age b ≡ some i) × (i ≤ k)
unfolding first_room
first_room-some age [] k h l r = absurd (omega arith)
first_room-some zero (x ∷ b) zero h l r = (0, ground arith, omega arith)
first_room-some zero (x ∷ b) (suc k) h l r =
    let (i, e, le) = first_room-some zero b k (omega arith) (omega arith) r in
    elim (Bool-cases (ltb x.limit max_age)) [
      | inl room ↦ (0, rw room, omega arith)
      | inr full ↦ (suc i, rw (full, e), omega arith)
    ]
first_room-some (suc age) (x ∷ b) zero h l r = absurd (omega arith)
first_room-some (suc age) (x ∷ b) (suc k) h l r =
    let (i, e, le) = first_room-some age b k (omega arith) (omega arith) r in
    (suc i, rw e, omega arith)

pub place-full :
    (age : ℕ) (c : Neighbour) (b : BufferNeighbour) → first_room age b ≡ none → place age c b ≡ b
unfolding place
place-full age c b e = rw (e, place)

pub place-room :
    (age : ℕ) (c : Neighbour) (b : BufferNeighbour) (i : ℕ)
    → first_room age b ≡ some i
    → place age c b ≡ set b i (push_cell c (get_or b i blank_list))
unfolding place
place-room age c b i e = rw (e, place)

module _ (b : BufferNeighbour) (v : IsValid b) where
  -- A removal drops the one cell, and keeps all others.
  pub total-delete_at :
      (i j : ℕ)
      → i < max_age
      → j < (get_or b i blank_list).limit
      → (f : Neighbour → ℕ) → total f (delete_at i j b) + f (cell_at b i j) ≡ total f b
  unfolding delete_at
  total-delete_at i j hi hj f = omega (
    arith,
    sum_of-set (list_weight f) max_age b i (delete_cell j (get_or b i blank_list)) blank_list hi
        (omega (arith, v.ages)),
    list_weight-delete_cell j (get_or b i blank_list) (v.lists i) hj f,
  )

  pub delete_at-IsValid :
      (i j : ℕ) → i < max_age → j < (get_or b i blank_list).limit → IsValid (delete_at i j b)
  unfolding delete_at
  delete_at-IsValid i j hi hj =
      set-IsValid b i (delete_cell j (get_or b i blank_list)) v
        (delete_cell-IsValid j (get_or b i blank_list) (v.lists i) hj) hi

  -- An insertion that finds room adds the one cell, and one that finds none changes nothing.
  pub total-place :
      (age : ℕ) (c : Neighbour) (i : ℕ)
      → first_room age b ≡ some i
      → (f : Neighbour → ℕ) → total f (place age c b) ≡ total f b + f c
  total-place age c i e f =
      let (le, lt, room) = first_room-hit age b i e in
      rw (place-room age c b i e) (
        omega (
          arith,
          sum_of-set (list_weight f) max_age b i (push_cell c (get_or b i blank_list)) blank_list
              (omega (arith, v.ages)) lt,
          list_weight-push_cell c (get_or b i blank_list) (v.lists i) room f,
        ))

  pub place-IsValid : (age : ℕ) (c : Neighbour) → IsValid (place age c b)
  place-IsValid age c = elim (Option-cases (first_room age b)) [
    | inl full ↦ rw (place-full age c b full) v
    | inr (i, e) ↦
        let (le, lt, room) = first_room-hit age b i e in
        rw (place-room age c b i e) (
          set-IsValid b i (push_cell c (get_or b i blank_list)) v
            (push_cell-IsValid c (get_or b i blank_list) (v.lists i) room) (omega (arith, v.ages)))
  ]

  -- A weight grows by at most the cell that is placed.
  pub total-place-le :
      (age : ℕ) (c : Neighbour) (f : Neighbour → ℕ) → total f (place age c b) ≤ total f b + f c
  total-place-le age c f = elim (Option-cases (first_room age b)) [
    | inl full ↦ rw (place-full age c b full) (omega arith)
    | inr (i, e) ↦ omega (arith, total-place age c i e f)
  ]
