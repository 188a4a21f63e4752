-- ===== src/Neighbour/Aging.antt =====
-- `age_plus_one`: every list becomes the list of the next age, and the oldest is dropped. Also the
-- number of neighbours.
use rounds.Base.{
  ℕ, zero, suc, ◌+◌, ◌*◌, ◌≡◌, ◌≤◌, ◌<◌, refl, sym, ◌∙◌, ap, subst, arith, [], ◌∷◌, get_or, set,
  get_or-set_self, length-set, get_or-set_ne, length, sum_of, sum_of_one, sum_of-suc, sum_of-zero,
  get_or-ge, dec_lt, ℕ_discrete,
}
use rounds.Params.{max_age}
use rounds.Peer.{Peer}
use rounds.Neighbour.{
  Neighbour, BufferNeighbour, blank_list, get_number_neighbour, age_plus_one, shift_ages,
  reset_list,
}
use rounds.Neighbour.Lists.{list_weight, ListIsValid, blank_list-IsValid}
use rounds.Neighbour.Table.{IsValid, total, is_peer}
use rounds.Neighbour.Distinct.{Inv}

shift_ages-above :
    (n k : ℕ) (b : BufferNeighbour)
    → n < k
    → get_or (shift_ages n b) k blank_list ≡ get_or b k blank_list
unfolding shift_ages
shift_ages-above zero k b h = refl
shift_ages-above (suc n) k b h =
    shift_ages-above n k _ (omega arith)
    ∙ get_or-set_ne b (suc n) k (get_or b n blank_list) blank_list (omega arith)

shift_ages-zero :
    (n : ℕ) (b : BufferNeighbour) → get_or (shift_ages n b) 0 blank_list ≡ get_or b 0 blank_list
unfolding shift_ages
shift_ages-zero zero b = refl
shift_ages-zero (suc n) b =
    shift_ages-zero n _ ∙ get_or-set_ne b (suc n) 0 (get_or b n blank_list) blank_list (omega arith)

shift_ages-suc :
    (n k : ℕ) (b : BufferNeighbour)
    → k < n
    → n < length b
    → get_or (shift_ages n b) (suc k) blank_list ≡ get_or b k blank_list
unfolding shift_ages
shift_ages-suc zero k b h l = absurd (omega arith)
shift_ages-suc (suc n) k b h l = elim (ℕ_discrete k n) [
  | yes same ↦ rw same (
      shift_ages-above n (suc n) _ (omega arith)
      ∙ get_or-set_self b (suc n) (get_or b n blank_list) blank_list l)
  | no other ↦
      shift_ages-suc n k _ (omega arith)
        (omega (arith, length-set b (suc n) (get_or b n blank_list)))
      ∙ get_or-set_ne b (suc n) k (get_or b n blank_list) blank_list (omega arith)
]

length-shift_ages : (n : ℕ) (b : BufferNeighbour) → length (shift_ages n b) ≡ length b
unfolding shift_ages
length-shift_ages zero b = refl
length-shift_ages (suc n) b = length-shift_ages n _ ∙ length-set b (suc n) (get_or b n blank_list)

-- The lists of the buffer after `age_plus_one`: the empty list at age 0, and each list at the next age.
age_plus_one-zero :
    (b : BufferNeighbour) → IsValid b → get_or (age_plus_one b) 0 blank_list ≡ blank_list
unfolding age_plus_one reset_list
age_plus_one-zero b v =
    let last = get_or b 6 blank_list in
    get_or-set_self (shift_ages 6 (set b 6 (reset_list last))) 0 _ blank_list (
      omega (
        arith,
        length-shift_ages 6 (set b 6 (reset_list last)),
        length-set b 6 (reset_list last),
        v.ages,
      ))
    ∙ get_or-set_self b 6 (reset_list last) blank_list (omega (arith, v.ages))

age_plus_one-suc :
    (b : BufferNeighbour) (i : ℕ)
    → IsValid b
    → i < 6
    → get_or (age_plus_one b) (suc i) blank_list ≡ get_or b i blank_list
unfolding age_plus_one
age_plus_one-suc b i v h =
    let last = reset_list (get_or b 6 blank_list) in
    get_or-set_ne (shift_ages 6 (set b 6 last)) 0 (suc i) _ blank_list (omega arith)
    ∙ shift_ages-suc 6 i (set b 6 last) h (omega (arith, length-set b 6 last, v.ages))
    ∙ get_or-set_ne b 6 i last blank_list (omega arith)

length-age_plus_one : (b : BufferNeighbour) → length (age_plus_one b) ≡ length b
unfolding age_plus_one
length-age_plus_one b =
    let last = reset_list (get_or b 6 blank_list) in
    length-set (shift_ages 6 (set b 6 last)) 0 _
    ∙ length-shift_ages 6 (set b 6 last)
    ∙ length-set b 6 last

list_at : (f : Neighbour → ℕ) → BufferNeighbour → ℕ → ℕ
list_at f b i = list_weight f (get_or b i blank_list)

total_by_ages :
    (f : Neighbour → ℕ) (b : BufferNeighbour)
    → IsValid b
    → total f b
      ≡ list_at f b 0
        + list_at f b 1
        + list_at f b 2
        + list_at f b 3
        + list_at f b 4
        + list_at f b 5
        + list_at f b 6
unfolding list_at
total_by_ages f b v = omega (arith, step 0, step 1, step 2, step 3, step 4, step 5, step 6, nil)
  where
    step :
        (n : ℕ)
        → n < length b
        → sum_of (list_weight f) (suc n) b
          ≡ sum_of (list_weight f) n b + list_weight f (get_or b n blank_list)
    step n h = sum_of-suc (list_weight f) n b blank_list h

    nil : sum_of (list_weight f) 0 b ≡ 0
    nil = sum_of-zero (list_weight f) b

age_plus_one-IsValid : (b : BufferNeighbour) → IsValid b → IsValid (age_plus_one b)
age_plus_one-IsValid b v = record { ages = length-age_plus_one b ∙ v.ages; lists = lists }
  where
    lists : (i : ℕ) → ListIsValid (get_or (age_plus_one b) i blank_list)
    lists zero = subst ListIsValid (sym (age_plus_one-zero b v)) blank_list-IsValid
    lists (suc i) = elim (dec_lt i 6) [
      | yes h ↦ subst ListIsValid (sym (age_plus_one-suc b i v h)) (v.lists i)
      | no h ↦
          subst ListIsValid
            (sym (
              get_or-ge (age_plus_one b) (suc i) blank_list
                (omega (arith, length-age_plus_one b, v.ages))))
            blank_list-IsValid
    ]

-- `age_plus_one` drops exactly the peers of the oldest list: the others are all kept.
total-age_plus_one :
    (f : Neighbour → ℕ) (b : BufferNeighbour)
    → IsValid b
    → total f (age_plus_one b) + list_at f b 6 ≡ total f b
unfolding list_at
total-age_plus_one f b v = omega (
  arith,
  total_by_ages f b v,
  total_by_ages f (age_plus_one b) (age_plus_one-IsValid b v),
  ap (list_weight f) (age_plus_one-zero b v),
  sum_of-zero f blank_list.nodi_vicini,
  ap (list_weight f) (age_plus_one-suc b 0 v (omega arith)),
  ap (list_weight f) (age_plus_one-suc b 1 v (omega arith)),
  ap (list_weight f) (age_plus_one-suc b 2 v (omega arith)),
  ap (list_weight f) (age_plus_one-suc b 3 v (omega arith)),
  ap (list_weight f) (age_plus_one-suc b 4 v (omega arith)),
  ap (list_weight f) (age_plus_one-suc b 5 v (omega arith)),
)

-- From a buffer with the invariant, `age_plus_one` keeps the invariant, empties age 0, makes
-- every list the list of the next age, and loses the peers of the oldest list and no other.
pub age_plus_one_lem :
    (me : Peer) (b : BufferNeighbour)
    → Inv me b
    → Inv me (age_plus_one b)
      × (get_or (age_plus_one b) 0 blank_list ≡ blank_list)
      × ((i : ℕ) → i < 6 → get_or (age_plus_one b) (suc i) blank_list ≡ get_or b i blank_list)
      × ((f : Neighbour → ℕ)
          → total f (age_plus_one b) + list_weight f (get_or b 6 blank_list) ≡ total f b)
unfolding list_at
age_plus_one_lem me b v = (
  record {
    valid = age_plus_one-IsValid b v.valid;
    distinct = λ p. omega (arith, total-age_plus_one (is_peer p) b v.valid, v.distinct p);
    own = omega (arith, total-age_plus_one (is_peer me) b v.valid, v.own);
  },
  age_plus_one-zero b v.valid,
  λ i h. age_plus_one-suc b i v.valid h,
  λ f. total-age_plus_one f b v.valid,
)

number_of_ages :
    (n : ℕ) (b : BufferNeighbour)
    → length b ≡ n
    → ((i : ℕ) → ListIsValid (get_or b i blank_list))
    → (get_number_neighbour b ≡ sum_of (list_weight (λ _. 1)) n b)
      × (get_number_neighbour b ≤ n * max_age)
unfolding get_number_neighbour sum_of
number_of_ages zero [] e h = omega arith
number_of_ages zero (l ∷ b) e h = absurd (omega arith)
number_of_ages (suc n) [] e h = absurd (omega arith)
number_of_ages (suc n) (l ∷ b) e h = omega (
  arith,
  number_of_ages n b (omega arith) (λ i. h (suc i)),
  sum_of_one l.limit l.nodi_vicini (omega (arith, h 0)),
  h 0,
)

-- `get_number_neighbour` is the number of peers held, and there are at most 49.
pub get_number_neighbour_lem :
    (b : BufferNeighbour)
    → IsValid b
    → (get_number_neighbour b ≡ total (λ _. 1) b) × (get_number_neighbour b ≤ 49)
get_number_neighbour_lem b v = number_of_ages max_age b v.ages v.lists
