-- ===== src/Slots.antt =====
-- The two loops that the buffers of timed entries share (two_rounds/func_strutture.c, the message
-- buffer and the buffer of the peers that have left): look for an entry, and if there is none write
-- a new one into the first free slot; reset the slots that satisfy a test.
use rounds.Base.{
  ℕ, zero, suc, ◌+◌, ◌≡◌, ◌≤◌, ◌<◌, inl, inr, refl, ap, arith, Bool, true, false, none, some,
  Option-cases, Bool-cases, List, [], ◌∷◌, if◌then◌else◌, length, get_or, set, find_first,
  find_first-hit, find_first-miss, sum_of, sum_of-set, sum_of-miss, sum_of-hit, bit,
}

module _ {ℓ} {A : Type ℓ} where
  -- The answer is the source's `r`: the entry was there before.
  unfoldable pub search_insert : (A → Bool) → (A → Bool) → A → ℕ → List A → List A × Bool
  search_insert hit free v n b = elim (find_first hit n b) [
    | some _ ↦ (b, true)
    | none ↦ elim (find_first free n b) [ some i ↦ (set b i v, false) | none ↦ (b, false) ]
  ]

  unfoldable pub reset_where : (A → Bool) → A → List A → List A
  reset_where p v [] = []
  reset_where p v (x ∷ b) = (if p x then v else x) ∷ reset_where p v b

  -- What the search and the insertion do, in terms of the entries held.
  pub data Outcome (hit free : A → Bool) (v d : A) (n : ℕ) (b : List A)
      : List A → Bool → Type ℓ where
    known : 1 ≤ sum_of (λ a. bit (hit a)) n b → Outcome hit free v d n b b true
    added :
        {b' : List A} (i : ℕ)
        → sum_of (λ a. bit (hit a)) n b ≡ 0
        → hit (get_or b i d) ≡ false
        → free (get_or b i d) ≡ true
        → i < length b
        → b' ≡ set b i v
        → ((f : A → ℕ) → sum_of f n b' + f (get_or b i d) ≡ sum_of f n b + f v)
        → Outcome hit free v d n b b' false
    full :
        sum_of (λ a. bit (hit a)) n b ≡ 0
        → sum_of (λ a. bit (free a)) n b ≡ 0
        → Outcome hit free v d n b b false

  pub search_insert-Outcome :
      (hit free : A → Bool) (v d : A) (n : ℕ) (b : List A)
      → let (b', r) = search_insert hit free v n b in Outcome hit free v d n b b' r
  unfolding search_insert
  search_insert-Outcome hit free v d n b = elim (Option-cases (find_first hit n b)) [
    | inr (j, found) ↦ rw (found, search_insert) (known (sum_of-hit hit n b j found))
    | inl miss ↦ elim (Option-cases (find_first free n b)) [
      | inl none_free ↦
          rw (miss, none_free, search_insert)
            (full (sum_of-miss hit n b miss) (sum_of-miss free n b none_free))
      | inr (i, room) ↦
          let (lt, len, is_free) = find_first-hit free n b d i room in
          rw (miss, room, search_insert)
            (added i (sum_of-miss hit n b miss) (find_first-miss hit n b d i miss lt len) is_free
              len refl (λ f. sum_of-set f n b i v d lt len))
    ]
  ]

  pub length-reset_where :
      (p : A → Bool) (v : A) (b : List A) → length (reset_where p v b) ≡ length b
  unfolding reset_where
  length-reset_where p v [] = refl
  length-reset_where p v (x ∷ b) = ap suc (length-reset_where p v b)

  pub get_or-reset_where :
      (p : A → Bool) (v : A) (b : List A) (i : ℕ) (d : A)
      → i < length b
      → get_or (reset_where p v b) i d ≡ (if p (get_or b i d) then v else get_or b i d)
  unfolding reset_where
  get_or-reset_where p v [] i d h = absurd (omega arith)
  get_or-reset_where p v (x ∷ b) zero d h = refl
  get_or-reset_where p v (x ∷ b) (suc i) d h = get_or-reset_where p v b i d (omega arith)

  pub reset_where_keeps {κ} :
      (P : A → Type κ) (p : A → Bool) (v : A) (b : List A) (j : ℕ) (d : A)
      → P v
      → P (get_or b j d)
      → P (get_or (reset_where p v b) j d)
  unfolding reset_where
  reset_where_keeps P p v [] j d hv h = h
  reset_where_keeps P p v (x ∷ b) zero d hv h = elim (Bool-cases (p x)) [
    | inl hit ↦ rw hit hv
    | inr other ↦ rw other h
  ]
  reset_where_keeps P p v (x ∷ b) (suc j) d hv h = reset_where_keeps P p v b j d hv h

  -- A weight that the reset value does not have counts, afterwards, the entries that are kept.
  pub sum_of-reset_where :
      (p : A → Bool) (v : A) (f : A → ℕ) (n : ℕ) (b : List A)
      → f v ≡ 0
      → sum_of f n (reset_where p v b) ≡ sum_of (λ a. if p a then 0 else f a) n b
  unfolding reset_where sum_of
  sum_of-reset_where p v f zero b h = refl
  sum_of-reset_where p v f (suc n) [] h = refl
  sum_of-reset_where p v f (suc n) (x ∷ b) h = ground (arith, sum_of-reset_where p v f n b h)
