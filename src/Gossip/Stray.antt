-- ===== src/Gossip/Stray.antt =====
-- Which peers and which hashes an information gossip with drawn entries holds.
use rounds.Base.{
  ℕ, zero, suc, ◌+◌, ◌*◌, ◌^◌, ◌≡◌, ◌<◌, ◌⊎◌, inl, inr, refl, sym, ap, ◌∙◌, arith, List, [], ◌∷◌,
  get_or, set, subst, get_or-set_self, get_or-set_ne, ℕ_discrete, dec_lt, some, ltb, Bool-cases,
  Option-cases, ltb→lt,
}
use rounds.Params.{gossip_nodi, max_hash_vicino, fanout}
use rounds.Peer.{Peer}
use rounds.Wire.{zero_hashes}
use rounds.Neighbour.{BufferNeighbour, blank_list, get_number_neighbour}
use rounds.Neighbour.Table.{cell_at}
use rounds.MyFiles.{BufferFile, is_chosen, write_row, write_random, insert_random_hash_file}
use rounds.Random.{RandomX, round_even, round_double, num_random, random_age_buffer_rg}
use rounds.Random.Bounds.{num_random-lt}
use rounds.Inform.{NeighbourInf}
use rounds.Gossip.{
  blank_inf, Draft, empty_draft, add_drawn, draw_turn, draw_loop, hashes_twice, new_gossip_inf2,
}
use rounds.Gossip.Choice.{
  Drawn, empty-Drawn, push_inf-Drawn, entry, add_drawn_cases, draw_turn-inv,
  random_age_buffer_rg-lt, choose_inf-many,
}

-- Each is a result of `rand()`.
abbrev pub AllLow : List ℕ → Type 0
AllLow [] = Unit {0}
AllLow (r ∷ rs) = (r < 2 ^ 31) × AllLow rs

-- The index is one of a peer of that age; an empty list is drawn from at its first cell.
abbrev pub IsDrawn : BufferNeighbour → ℕ → ℕ → Type 0
IsDrawn b age index =
    (index < (get_or b age blank_list).limit)
    ⊎ (((get_or b age blank_list).limit ≡ 0) × (index ≡ 0))

-- The entry `i` names a peer of the buffer under its age, with the hashes of cell 2 of age `i`.
abbrev pub IsStray : BufferNeighbour → ℕ → NeighbourInf → Type 0
IsStray b i e =
    (e.age < 6)
    × (e.neighbour.hash_file ≡ (cell_at b i max_hash_vicino).hash_file)
    × ((index : ℕ) × IsDrawn b e.age index × (e.neighbour.peer ≡ (cell_at b e.age index).peer))

pub record AllStray (b : BufferNeighbour) (d : Draft) : Type 0 where
  pub drawn : Drawn d
  pub stray : (i : ℕ) → i < d.limit → IsStray b i (get_or d.list i blank_inf)

add_drawn-AllStray :
    (b : BufferNeighbour) (age index : ℕ) (d : Draft)
    → age < 6
    → IsDrawn b age index
    → d.limit < fanout
    → AllStray b d
    → AllStray b (add_drawn age index b d)
add_drawn-AllStray b age index d young drawn room v = elim (add_drawn_cases age index b d) [
  | inl kept ↦ rw kept v
  | inr (miss, e) ↦ rw e (
      let new = entry b age index d.limit in
      record {
        drawn = push_inf-Drawn new d v.drawn room miss (omega arith);
        stray = λ i h. elim (ℕ_discrete d.limit i) [
          | yes same ↦
              subst (λ (n : ℕ). IsStray b n (get_or (set d.list d.limit new) n blank_inf)) same
                (subst (IsStray b d.limit)
                  (sym (
                    get_or-set_self d.list d.limit new blank_inf
                      (omega (arith, v.drawn.valid.size))))
                  (young, refl, (index, drawn, refl)))
          | no other ↦
              subst (IsStray b i) (sym (get_or-set_ne d.list d.limit i new blank_inf other))
                (v.stray i (omega arith))
        ];
      })
]

num_random-zero : (r : ℕ) → num_random 0 r ≡ 0
unfolding num_random round_double round_even
num_random-zero r = let none : 0 * r ≡ 0 = omega arith in rw none refl

num_random-IsDrawn :
    (b : BufferNeighbour) (age r : ℕ)
    → r < 2 ^ 31
    → IsDrawn b age (num_random (get_or b age blank_list).limit r)
num_random-IsDrawn b age r low = elim (ℕ_discrete (get_or b age blank_list).limit 0) [
  | yes empty ↦ inr (empty, ap (λ n. num_random n r) empty ∙ num_random-zero r)
  | no some_peer ↦ inl (num_random-lt (get_or b age blank_list).limit r (omega arith) low)
]

random_age_buffer_rg-AllLow :
    (x : RandomX) (rs : List ℕ) (age : ℕ) (rest : List ℕ)
    → random_age_buffer_rg x rs ≡ some (age, rest)
    → AllLow rs
    → AllLow rest
unfolding random_age_buffer_rg
random_age_buffer_rg-AllLow x [] age rest e low = absurd (cc)
random_age_buffer_rg-AllLow x (r ∷ rs) age rest e (_, low) =
    ground (arith, random_age_buffer_rg-AllLow x rs age rest, subst AllLow)

write_random-AllLow :
    (b : BufferFile) (rs : List ℕ) (i : ℕ) (scelti hs : List ℕ)
    → AllLow rs
    → AllLow (write_random b rs i scelti hs).1
unfolding write_random
write_random-AllLow b [] i scelti hs low = tt
write_random-AllLow b (r ∷ rs) i scelti hs low = elim (Bool-cases (ltb i max_hash_vicino)) [
  | inr full ↦ rw full low
  | inl more ↦ elim (Bool-cases (is_chosen (num_random b.index r) scelti)) [
    | inl again ↦ rw (more, again) (write_random-AllLow b rs i scelti hs low.1)
    | inr new ↦
        rw (more, new)
          (write_random-AllLow b rs (i + 1) (num_random b.index r ∷ scelti)
            (write_row i (get_or b.file (num_random b.index r) []) hs) low.1)
  ]
]

insert_random_hash_file-AllLow :
    (b : BufferFile) (rs hs : List ℕ) → AllLow rs → AllLow (insert_random_hash_file b rs hs).1
unfolding insert_random_hash_file
insert_random_hash_file-AllLow b rs hs low = elim (Bool-cases (ltb b.index max_hash_vicino)) [
  | inl few ↦ rw few low
  | inr many ↦ rw many (write_random-AllLow b rs 0 [] hs low)
]

hashes_twice-AllLow :
    (files : BufferFile) (rs : List ℕ) → AllLow rs → AllLow (hashes_twice files rs).1
hashes_twice-AllLow files rs low =
    let (hs, rs') = insert_random_hash_file files rs zero_hashes in
    insert_random_hash_file-AllLow files rs' hs
      (insert_random_hash_file-AllLow files rs zero_hashes low)

draw_loop-AllStray :
    (b : BufferNeighbour) (turns : ℕ) (x : RandomX) (rs : List ℕ) (d : Draft)
    → AllLow rs
    → AllStray b d
    → AllStray b (draw_loop turns x rs b d)
unfolding draw_loop
draw_loop-AllStray b zero x rs d low v = v
draw_loop-AllStray b (suc turns) x rs d low v = elim (Bool-cases (ltb d.limit fanout)) [
  | inr full ↦ rw full v
  | inl room ↦ elim (Option-cases (draw_turn x rs b d)) [
    | inl stopped ↦ rw (room, stopped) v
    | inr ((d', rest), e) ↦
        let (age, r, found, same) = draw_turn-inv x rs b d d' rest e in
        let (low_r, low') = random_age_buffer_rg-AllLow x rs age (r ∷ rest) found low in
        rw (room, e)
          (draw_loop-AllStray b turns x rest d' low' (
            subst (AllStray b) same (
              add_drawn-AllStray b age (num_random (get_or b age blank_list).limit r) d
                (random_age_buffer_rg-lt x rs age (r ∷ rest) found)
                (num_random-IsDrawn b age r low_r) (ltb→lt d.limit fanout room) v)))
  ]
]

-- From a neighbour buffer with more than ten peers, with results of `rand()` below 2^31: each of the
-- ten entries is blank, or it names a peer of the buffer at the peer's age, one of the first six, or,
-- where there is no peer of that age, what the first cell of its list holds; and as its hashes it has
-- those of the third cell of the age list whose number is that of the entry.
pub new_gossip_inf2-many :
    (me : Peer) (files : BufferFile) (turns : ℕ) (x : RandomX) (rs : List ℕ) (b : BufferNeighbour)
    → gossip_nodi < get_number_neighbour b
    → AllLow rs
    → (i : ℕ)
    → let e = get_or (new_gossip_inf2 me files turns x rs b).list_neighbour i blank_inf in
      (e ≡ blank_inf) ⊎ IsStray b i e
unfolding new_gossip_inf2
new_gossip_inf2-many me files turns x rs b many low i =
    let rs' = (hashes_twice files rs).1 in
    let d = draw_loop turns x rs' b empty_draft in
    let v : AllStray b d =
      draw_loop-AllStray b turns x rs' empty_draft (hashes_twice-AllLow files rs low)
        (record { drawn = empty-Drawn; stray = λ i h. absurd (omega arith) }) in
    rw (choose_inf-many turns x rs' b many) (elim (dec_lt i d.limit) [
      | yes h ↦ inr (v.stray i h)
      | no h ↦ inl (v.drawn.valid.blank i (omega arith))
    ])
