-- ===== src/Gossip/Copies.antt =====
-- With at most ten neighbours an information gossip tells of them all.
use rounds.Base.{
  ℕ, zero, suc, ◌+◌, ◌≡◌, ◌≢◌, ◌≤◌, ◌<◌, ◌&&◌, refl, ◌∙◌, ap, subst, arith, List, [], ◌∷◌, length,
  get_or, bit, sum_of, sum_of_zero, sum_of_ext, sum_of-set, sum_of-replicate, length-set,
  get_or-set_self, get_or-set_ne, get_or-replicate, ℕ_discrete, le→leb, ◌==◌,
}
use rounds.Params.{max_age, gossip_nodi}
use rounds.Peer.{Peer, same_peer, same_peer_iff, nobody}
use rounds.Neighbour.{Neighbour, ListaAge, BufferNeighbour, blank_list, get_number_neighbour}
use rounds.Neighbour.Lists.{ListIsValid, list_weight}
use rounds.Neighbour.Table.{is_peer, IsValid}
use rounds.MyFiles.{BufferFile}
use rounds.Random.{RandomX}
use rounds.Inform.{NeighbourInf, GossipInformations}
use rounds.Gossip.{
  blank_inf, Draft, empty_draft, push_inf, copy_cells, copy_ages, choose_inf, hashes_twice,
  new_gossip_inf2,
}

-- An entry that names the peer `p` with the age `a`.
abbrev pub inf_weight : Peer → ℕ → NeighbourInf → ℕ
inf_weight p a e = bit (same_peer p e.neighbour.peer && e.age == a)

-- How often a gossip names `p` with the age `a`.
abbrev pub told : Peer → ℕ → GossipInformations → ℕ
told p a g = sum_of (inf_weight p a) gossip_nodi g.list_neighbour

-- The entries from `limit` on are blank, and every age is one of the seven.
pub record DraftIsValid (d : Draft) : Type 0 where
  pub size : length d.list ≡ gossip_nodi
  pub blank : (j : ℕ) → d.limit ≤ j → get_or d.list j blank_inf ≡ blank_inf
  pub ages : (j : ℕ) → (get_or d.list j blank_inf).age < max_age

pub empty_draft-IsValid : DraftIsValid empty_draft
empty_draft-IsValid = record {
  size = refl;
  blank = λ j _. get_or-replicate gossip_nodi j blank_inf;
  ages = λ j. rw (get_or-replicate gossip_nodi j blank_inf) (omega arith);
}

module _ (e : NeighbourInf) (d : Draft) (v : DraftIsValid d) (room : d.limit < gossip_nodi) where
  pub push_inf-IsValid : e.age < max_age → DraftIsValid (push_inf e d)
  push_inf-IsValid young = record {
    size = length-set d.list d.limit e ∙ v.size;
    blank = λ j h.
        get_or-set_ne d.list d.limit j e blank_inf (λ same. absurd (omega arith))
        ∙ v.blank j (omega arith);
    ages = λ j. elim (ℕ_discrete d.limit j) [
      | yes same ↦
          rw (← same)
            (rw (get_or-set_self d.list d.limit e blank_inf (omega (arith, v.size))) young)
      | no other ↦ rw (get_or-set_ne d.list d.limit j e blank_inf other) (v.ages j)
    ];
  }

  pub sum_of-push_inf :
      (w : NeighbourInf → ℕ)
      → w blank_inf ≡ 0
      → sum_of w gossip_nodi (push_inf e d).list ≡ sum_of w gossip_nodi d.list + w e
  sum_of-push_inf w h = omega (
    arith,
    sum_of-set w gossip_nodi d.list d.limit e blank_inf room (omega (arith, v.size)),
    ap w (v.blank d.limit (omega arith)),
  )

-- The entries for the cells of an age list, and for all lists from the age `age` on.
abbrev entries_weight : (NeighbourInf → ℕ) → ℕ → ListaAge → ℕ
entries_weight w age l = list_weight (λ c. w (record { neighbour = c; age = age })) l

ages_weight : (NeighbourInf → ℕ) → ℕ → BufferNeighbour → ℕ
ages_weight w age [] = 0
ages_weight w age (l ∷ b) = entries_weight w age l + ages_weight w (age + 1) b

module _ (w : NeighbourInf → ℕ) (h : w blank_inf ≡ 0) where
  copy_cells_lem :
      (age n : ℕ) (cells : List Neighbour) (d : Draft)
      → age < max_age
      → n ≤ length cells
      → d.limit + n ≤ gossip_nodi
      → DraftIsValid d
      → let d' = copy_cells age n cells d in
        (d'.limit ≡ d.limit + n)
        × DraftIsValid d'
        × (sum_of w gossip_nodi d'.list
            ≡ sum_of w gossip_nodi d.list
              + sum_of (λ c. w (record { neighbour = c; age = age })) n cells)
  unfolding copy_cells sum_of
  copy_cells_lem age zero cells d y hc hl v = (omega arith, v, omega arith)
  copy_cells_lem age (suc n) [] d y hc hl v = absurd (omega arith)
  copy_cells_lem age (suc n) (c ∷ cells) d y hc hl v =
      let e : NeighbourInf = record { neighbour = c; age = age } in
      let (len, valid, total) =
        copy_cells_lem age n cells (push_inf e d) y (omega arith) (omega arith)
          (push_inf-IsValid e d v (omega arith) y) in
      (omega (arith, len), valid, omega (arith, total, sum_of-push_inf e d v (omega arith) w h))

  copy_ages_lem :
      (age : ℕ) (b : BufferNeighbour) (d : Draft)
      → age + length b ≤ max_age
      → ((i : ℕ) → ListIsValid (get_or b i blank_list))
      → d.limit + get_number_neighbour b ≤ gossip_nodi
      → DraftIsValid d
      → let d' = copy_ages age b d in
        (d'.limit ≡ d.limit + get_number_neighbour b)
        × DraftIsValid d'
        × (sum_of w gossip_nodi d'.list ≡ sum_of w gossip_nodi d.list + ages_weight w age b)
  unfolding copy_ages get_number_neighbour ages_weight
  copy_ages_lem age [] d y hb hl v = (omega arith, v, omega arith)
  copy_ages_lem age (l ∷ b) d y hb hl v =
      let v0 : ListIsValid l = hb 0 in
      let (len0, valid0, total0) =
        copy_cells_lem age l.limit l.nodi_vicini d (omega arith) (omega arith) (omega arith) v in
      let (len, valid, total) =
        copy_ages_lem (age + 1) b (copy_cells age l.limit l.nodi_vicini d) (omega arith)
          (λ i. hb (suc i)) (omega (arith, len0)) valid0 in
      (omega (arith, len, len0), valid, omega (arith, total, total0))

-- What the lists hold of a peer at an age.
module _ (p : Peer) (a age : ℕ) (l : ListaAge) where
  entries_weight_other : a ≢ age → entries_weight (inf_weight p a) age l ≡ 0
  entries_weight_other ne =
      sum_of_zero (λ (c : Neighbour). inf_weight p a (record { neighbour = c; age = age })) l.limit
        l.nodi_vicini (λ c. ground arith)

  entries_weight_same : age ≡ a → entries_weight (inf_weight p a) age l ≡ list_weight (is_peer p) l
  entries_weight_same same =
      sum_of_ext (λ (c : Neighbour). inf_weight p a (record { neighbour = c; age = age }))
        (is_peer p) l.limit l.nodi_vicini (λ c. ground arith)

ages_weight_below :
    (p : Peer) (a age : ℕ) (b : BufferNeighbour) → a < age → ages_weight (inf_weight p a) age b ≡ 0
unfolding ages_weight
ages_weight_below p a age [] h = refl
ages_weight_below p a age (l ∷ b) h = omega (
  arith,
  entries_weight_other p a age l (λ e. absurd (omega arith)),
  ages_weight_below p a (age + 1) b (omega arith),
)

ages_weight_lem :
    (p : Peer) (i age : ℕ) (b : BufferNeighbour)
    → ages_weight (inf_weight p (age + i)) age b ≡ list_weight (is_peer p) (get_or b i blank_list)
unfolding ages_weight sum_of
ages_weight_lem p i age [] = refl
ages_weight_lem p zero age (l ∷ b) = omega (
  arith,
  entries_weight_same p (age + 0) age l (omega arith),
  ages_weight_below p (age + 0) (age + 1) b (omega arith),
)
ages_weight_lem p (suc i) age (l ∷ b) = omega (
  arith,
  entries_weight_other p (age + suc i) age l (λ e. absurd (omega arith)),
  subst
      (λ (n : ℕ).
        ages_weight (inf_weight p n) (age + 1) b ≡ list_weight (is_peer p) (get_or b i blank_list))
      (let e : (age + 1) + i ≡ age + suc i = omega arith in e) (ages_weight_lem p i (age + 1) b),
)

module _ (me : Peer) (files : BufferFile) (turns : ℕ) (x : RandomX) (rs : List ℕ)
    (b : BufferNeighbour) (v : IsValid b) (few : get_number_neighbour b ≤ gossip_nodi) where
  pub choose_inf-few : choose_inf turns x rs b ≡ copy_ages 0 b empty_draft
  unfolding choose_inf
  choose_inf-few = rw (le→leb (get_number_neighbour b) gossip_nodi few) refl

  pub copied-IsValid : DraftIsValid (choose_inf turns x rs b)
  copied-IsValid = rw choose_inf-few (
      (copy_ages_lem (λ _. 0) refl 0 b empty_draft (omega (arith, v.ages)) v.lists (omega arith)
        empty_draft-IsValid).1)

-- From a valid neighbour buffer with at most ten peers: the gossip names each neighbour at its age,
-- as often as the buffer holds it there, and no other peer.
pub new_gossip_inf2-few :
    (me : Peer) (files : BufferFile) (turns : ℕ) (x : RandomX) (rs : List ℕ) (b : BufferNeighbour)
    → IsValid b
    → get_number_neighbour b ≤ gossip_nodi
    → (p : Peer) (a : ℕ) → p ≢ nobody
    → told p a (new_gossip_inf2 me files turns x rs b)
      ≡ list_weight (is_peer p) (get_or b a blank_list)
unfolding new_gossip_inf2
new_gossip_inf2-few me files turns x rs b v few p a ne =
    let none_blank : inf_weight p a blank_inf ≡ 0 = ground (arith, (same_peer_iff p nobody).0) in
    rw (choose_inf-few me files turns x (hashes_twice files rs).1 b v few) (
      omega (
        arith,
        copy_ages_lem (inf_weight p a) none_blank 0 b empty_draft (omega (arith, v.ages)) v.lists
            (omega arith) empty_draft-IsValid,
        sum_of-replicate (inf_weight p a) gossip_nodi gossip_nodi blank_inf none_blank,
        subst
            (λ (n : ℕ).
              ages_weight (inf_weight p n) 0 b ≡ list_weight (is_peer p) (get_or b a blank_list))
            (let e : 0 + a ≡ a = omega arith in e) (ages_weight_lem p a 0 b),
      ))
