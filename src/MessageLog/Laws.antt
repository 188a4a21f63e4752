-- ===== src/MessageLog/Laws.antt =====
-- What the message buffer remembers.
use rounds.Base.{
  ℕ, ◌+◌, ◌≡◌, ◌≢◌, ◌≤◌, ◌<◌, ◌⊎◌, inl, inr, refl, sym, ap, Bool-cases, ==_iff, take-length, ◌∙◌,
  arith, Bool, true, false, List, bit, length, sum_of, sum_of_mono, get_or, if◌then◌else◌,
  length-replicate, length-set, set_keeps, get_or-replicate, sum_of-replicate, subst, ltb,
}
use rounds.Params.{id_m, max_msm}
use rounds.Wire.{dif_str, copy_id, zero_id}
use rounds.Wire.Compare.{dif_str_self, dif_str_iff}
use rounds.Slots.{
  search_insert-Outcome, Outcome, known, added, full, sum_of-reset_where, length-reset_where,
  reset_where_keeps,
}
use rounds.MessageLog.{
  Message, BufferMessage, free_message, init_buffer_message, has_id, is_free, search_insert_id,
  is_dated, delete_dated_msg,
}

-- How often the buffer remembers the id, and how many slots are free.
abbrev pub count_id : List ℕ → BufferMessage → ℕ
count_id id b = sum_of (λ m. bit (has_id id m)) max_msm b

abbrev pub count_free : BufferMessage → ℕ
count_free b = sum_of (λ m. bit (is_free m)) max_msm b

-- The invariant: all slots are there and hold ids of the right size, a free slot is blank, and no id
-- but that of the free slots is remembered twice.
pub record SlotIsValid (m : Message) : Type 0 where
  pub id_size : length m.id ≡ id_m
  pub blank : is_free m ≡ true → m ≡ free_message

pub record IsValid (b : BufferMessage) : Type 0 where
  pub size : length b ≡ max_msm
  pub slots : (i : ℕ) → SlotIsValid (get_or b i free_message)
  pub distinct : (id : List ℕ) → length id ≡ id_m → id ≢ zero_id → count_id id b ≤ 1

-- The id that a slot holds, as a weight.
has_id_cases :
    (id : List ℕ) (m : Message)
    → length id ≡ id_m
    → length m.id ≡ id_m
    → ((m.id ≡ id) × (bit (has_id id m) ≡ 1)) ⊎ ((m.id ≢ id) × (bit (has_id id m) ≡ 0))
has_id_cases id m l lm = elim (Bool-cases (has_id id m)) [
  | inl same ↦ inl ((dif_str_iff id_m m.id id lm l).0.0 ((==_iff _ 0).0 same), rw same)
  | inr other ↦ inr (
    (λ e. cc (other, (==_iff (dif_str m.id id id_m) 0).1 ((dif_str_iff id_m m.id id lm l).0.1 e))),
    rw other,
  )
]

has_id_ne :
    (id : List ℕ) (m : Message)
    → length id ≡ id_m
    → length m.id ≡ id_m
    → id ≢ m.id
    → bit (has_id id m) ≡ 0
has_id_ne id m l lm ne = elim (has_id_cases id m l lm) [
  | inl (same, _) ↦ absurd (ne (sym same))
  | inr (_, zero_bit) ↦ zero_bit
]

free-IsValid : SlotIsValid free_message
free-IsValid = record { id_size = refl; blank = λ _. refl }

abbrev stored : ℕ → List ℕ → Message
stored now id = record { id = copy_id id; age_time = now }

module _ (now : ℕ) (id : List ℕ) (pos : 0 < now) (len : length id ≡ id_m) where
  stored_self : bit (has_id id (stored now id)) ≡ 1
  stored_self = rw (take-length id_m id len) (rw (dif_str_self id id_m))

  stored_size : length (copy_id id) ≡ id_m
  stored_size = ap length (take-length id_m id len) ∙ len

  stored-IsValid : SlotIsValid (stored now id)
  stored-IsValid = record { id_size = stored_size; blank = λ h. absurd (ground arith) }

  stored_used : bit (is_free (stored now id)) ≡ 0
  stored_used = ground arith

  -- For a valid buffer, `searchInsert_id_buffer_message` of an id of 16 bytes, at a time after 0,
  -- has one of three outcomes. The id was remembered: the answer is 1 and the buffer stays. It
  -- was not and there is a free slot: the answer is 0, the id is now remembered once, in one of
  -- the free slots, and every other id but that of the free slots is remembered as before. There
  -- is no free slot: the answer is 0 and the buffer stays, so the same id is taken for a new one
  -- again.
  pub search_insert_id_lem :
      (b : BufferMessage)
      → IsValid b
      → let (b', r) = search_insert_id now id b in
        ((r ≡ true) × (b' ≡ b) × (1 ≤ count_id id b))
        ⊎ ((r ≡ false)
            × (count_id id b ≡ 0)
            × (count_id id b' ≡ 1)
            × (count_free b' + 1 ≡ count_free b)
            × ((other : List ℕ)
                → length other ≡ id_m
                → other ≢ id
                → other ≢ zero_id
                → count_id other b' ≡ count_id other b))
        ⊎ ((r ≡ false) × (count_id id b ≡ 0) × (count_free b ≡ 0) × (b' ≡ b))
  unfolding search_insert_id
  search_insert_id_lem b v =
      go (search_insert-Outcome (has_id id) is_free (stored now id) free_message max_msm b)
    where
      go :
          {b' : BufferMessage} {r : Bool}
          → Outcome (has_id id) is_free (stored now id) free_message max_msm b b' r
          → ((r ≡ true) × (b' ≡ b) × (1 ≤ count_id id b))
            ⊎ ((r ≡ false)
                × (count_id id b ≡ 0)
                × (count_id id b' ≡ 1)
                × (count_free b' + 1 ≡ count_free b)
                × ((other : List ℕ)
                    → length other ≡ id_m
                    → other ≢ id
                    → other ≢ zero_id
                    → count_id other b' ≡ count_id other b))
            ⊎ ((r ≡ false) × (count_id id b ≡ 0) × (count_free b ≡ 0) × (b' ≡ b))
      go (known h) = inl (refl, refl, h)
      go (added i new miss freed lt e f) = inr (
          inl (
            refl,
            new,
            omega (arith, f (λ m. bit (has_id id m)), ap bit miss, stored_self, new),
            omega (arith, f (λ m. bit (is_free m)), ap bit freed, stored_used),
            λ other lo ne nz. omega (
              arith,
              f (λ m. bit (has_id other m)),
              has_id_ne other (stored now id) lo stored_size
                  (λ same. ne (same ∙ take-length id_m id len)),
              ap (λ m. bit (has_id other m)) ((v.slots i).blank freed),
              has_id_ne other free_message lo refl nz,
            ),
          ))
      go (full new none_free) = inr (inr (refl, new, none_free, refl))

  -- It keeps the invariant.
  pub search_insert_id-IsValid :
      (b : BufferMessage) → IsValid b → IsValid (search_insert_id now id b).0
  unfolding search_insert_id
  search_insert_id-IsValid b v =
      go (search_insert-Outcome (has_id id) is_free (stored now id) free_message max_msm b)
    where
      go :
          {b' : BufferMessage} {r : Bool}
          → Outcome (has_id id) is_free (stored now id) free_message max_msm b b' r
          → IsValid b'
      go (known h) = v
      go (full new none_free) = v
      go {b'} (added i new miss freed lt e f) = record {
        size = ap length e ∙ length-set b i (stored now id) ∙ v.size;
        slots = λ j.
            rw e
              (set_keeps SlotIsValid b i j (stored now id) free_message stored-IsValid (v.slots j));
        distinct = λ other lo nz. elim (has_id_cases other (stored now id) lo stored_size) [
          | inl (same, one) ↦ rw (← same) (
              rw (take-length id_m id len)
                (omega (arith, f (λ m. bit (has_id id m)), ap bit miss, stored_self, new)))
          | inr (_, none_more) ↦
              omega (arith, f (λ m. bit (has_id other m)), none_more, v.distinct other lo nz)
        ];
      }

module _ (now : ℕ) (b : BufferMessage) (v : IsValid b) where
  -- `delete_dated_msg` keeps a buffer valid, and it forgets an id of 16 bytes, other than that of
  -- the free slots, exactly where the slot that holds it is more than 105 seconds old.
  pub delete_dated_msg_lem :
      IsValid (delete_dated_msg now b)
      × ((id : List ℕ)
          → length id ≡ id_m
          → id ≢ zero_id
          → count_id id (delete_dated_msg now b)
            ≡ sum_of (λ m. if ltb (m.age_time + 105) now then 0 else bit (has_id id m)) max_msm b)
  unfolding delete_dated_msg
  delete_dated_msg_lem = (
    record {
      size = length-reset_where (is_dated now) free_message b ∙ v.size;
      slots = λ j.
          reset_where_keeps SlotIsValid (is_dated now) free_message b j free_message free-IsValid
            (v.slots j);
      distinct = λ id l nz. omega (arith, counted id l nz, fewer id, v.distinct id l nz);
    },
    counted,
  )
    where
      counted :
          (id : List ℕ)
          → length id ≡ id_m
          → id ≢ zero_id
          → count_id id (delete_dated_msg now b)
            ≡ sum_of (λ m. if is_dated now m then 0 else bit (has_id id m)) max_msm b
      counted id l nz =
          sum_of-reset_where (is_dated now) free_message (λ m. bit (has_id id m)) max_msm b
            (has_id_ne id free_message l refl nz)

      fewer :
          (id : List ℕ)
          → sum_of (λ m. if is_dated now m then 0 else bit (has_id id m)) max_msm b ≤ count_id id b
      fewer id = sum_of_mono _ (λ m. bit (has_id id m)) max_msm b (λ m. ground arith)

pub count_id-init :
    (id : List ℕ) → length id ≡ id_m → id ≢ zero_id → count_id id init_buffer_message ≡ 0
unfolding init_buffer_message
count_id-init id l nz =
    sum_of-replicate (λ m. bit (has_id id m)) max_msm max_msm free_message
      (has_id_ne id free_message l refl nz)

pub init-IsValid : IsValid init_buffer_message
unfolding init_buffer_message
init-IsValid = record {
  size = length-replicate max_msm free_message;
  slots = λ i. subst SlotIsValid (sym (get_or-replicate max_msm i free_message)) free-IsValid;
  distinct = λ id l nz. omega (arith, count_id-init id l nz);
}
