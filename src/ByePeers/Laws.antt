-- ===== src/ByePeers/Laws.antt =====
-- Which peers the buffer takes for gone.
use rounds.Base.{
  ℕ, ◌+◌, ◌≡◌, ◌≢◌, ◌≤◌, ◌<◌, ◌⊎◌, inl, inr, refl, sym, ap, subst, Bool-cases, Option-cases, ◌∙◌,
  arith, Bool, true, false, bit, sum_of, sum_of_zero, sum_of_ext, sum_of-miss, sum_of-hit,
  find_first, get_or, get_or-replicate, set_keeps, if◌then◌else◌, ltb,
}
use rounds.Params.{max_bye_peer}
use rounds.Peer.{Peer, same_peer, same_peer_iff, same_peer_refl, nobody}
use rounds.Slots.{
  reset_where, search_insert-Outcome, Outcome, known, added, full, sum_of-reset_where,
  reset_where_keeps,
}
use rounds.ByePeers.{
  ByePeer, BufferByePeer, free_peer, init_buffer_bye_peer, is_entry, is_free, search_insert_peer,
  search_bye_peer, delete_bye_peer, is_dated, delete_dated_bye_peer,
}

-- How often the buffer holds the peer, and how many slots are free.
abbrev pub count_bye : Peer → BufferByePeer → ℕ
count_bye p b = sum_of (λ c. bit (is_entry p c)) max_bye_peer b

abbrev pub count_free : BufferByePeer → ℕ
count_free b = sum_of (λ c. bit (is_free c)) max_bye_peer b

-- A slot that is free holds no peer.
abbrev pub IsBlank : ByePeer → Type 0
IsBlank c = is_free c ≡ true → c ≡ free_peer

abbrev pub AllBlank : BufferByePeer → Type 0
AllBlank b = (i : ℕ) → IsBlank (get_or b i free_peer)

entry_ne : (p : Peer) (c : ByePeer) → p ≢ c.peer → bit (is_entry p c) ≡ 0
entry_ne p c ne = elim (Bool-cases (same_peer p c.peer)) [
  | inl same ↦ absurd (ne ((same_peer_iff p c.peer).0 same))
  | inr other ↦ rw other
]

-- `search_buffer_bye_peer` answers 1 when the buffer holds the peer and 0 when it does not.
pub search_bye_peer_iff :
    (p : Peer) (b : BufferByePeer)
    → ((search_bye_peer p b ≡ true) × (1 ≤ count_bye p b))
      ⊎ ((search_bye_peer p b ≡ false) × (count_bye p b ≡ 0))
unfolding search_bye_peer
search_bye_peer_iff p b = elim (Option-cases (find_first (is_entry p) max_bye_peer b)) [
  | inl miss ↦ inr (rw (miss, search_bye_peer), sum_of-miss (is_entry p) max_bye_peer b miss)
  | inr (i, hit) ↦ inl (rw (hit, search_bye_peer), sum_of-hit (is_entry p) max_bye_peer b i hit)
]

found : (p : Peer) (b : BufferByePeer) → 1 ≤ count_bye p b → search_bye_peer p b ≡ true
found p b h = elim (search_bye_peer_iff p b) [
  | inl (hit, _) ↦ hit
  | inr (_, none_held) ↦ absurd (omega arith)
]

absent : (p : Peer) (b : BufferByePeer) → count_bye p b ≡ 0 → search_bye_peer p b ≡ false
absent p b h = elim (search_bye_peer_iff p b) [
  | inl (_, held) ↦ absurd (omega arith)
  | inr (miss, _) ↦ miss
]

module _ (now : ℕ) (p : Peer) (pos : 0 < now) (b : BufferByePeer) (blank : AllBlank b) where
  -- With free slots that are blank, `searchInsert_buffer_bye_peer` of a peer, at a time after 0,
  -- has one of three outcomes: the peer was there and the buffer stays; it was not, a slot was
  -- free, and a search finds the peer now while every other peer but `nobody` is held as before;
  -- or no slot was free and the buffer stays, so a search still does not find the peer.
  pub search_insert_peer_lem :
      let (b', r) = search_insert_peer now p b in
      ((r ≡ true) × (b' ≡ b) × (search_bye_peer p b' ≡ true))
      ⊎ ((r ≡ false)
          × (count_free b' + 1 ≡ count_free b)
          × (search_bye_peer p b' ≡ true)
          × ((q : Peer) → q ≢ p → q ≢ nobody → count_bye q b' ≡ count_bye q b))
      ⊎ ((r ≡ false) × (count_free b ≡ 0) × (b' ≡ b) × (search_bye_peer p b' ≡ false))
  unfolding search_insert_peer
  search_insert_peer_lem =
      go (search_insert-Outcome (is_entry p) is_free entry free_peer max_bye_peer b)
    where
      entry : ByePeer
      entry = record { peer = p; age_time = now }

      used : bit (is_free entry) ≡ 0
      used = ground arith

      go :
          {b' : BufferByePeer} {r : Bool}
          → Outcome (is_entry p) is_free entry free_peer max_bye_peer b b' r
          → ((r ≡ true) × (b' ≡ b) × (search_bye_peer p b' ≡ true))
            ⊎ ((r ≡ false)
                × (count_free b' + 1 ≡ count_free b)
                × (search_bye_peer p b' ≡ true)
                × ((q : Peer) → q ≢ p → q ≢ nobody → count_bye q b' ≡ count_bye q b))
            ⊎ ((r ≡ false) × (count_free b ≡ 0) × (b' ≡ b) × (search_bye_peer p b' ≡ false))
      go (known h) = inl (refl, refl, found p b h)
      go (added {b'} i new miss freed lt e f) = inr (
          inl (
            refl,
            omega (arith, f (λ c. bit (is_free c)), ap bit freed, used),
            found p b' (
                omega (arith, f (λ c. bit (is_entry p c)), ap bit miss, ap bit (same_peer_refl p))),
            λ q ne nz. omega (
              arith,
              f (λ c. bit (is_entry q c)),
              entry_ne q entry ne,
              ap (λ c. bit (is_entry q c)) (blank i freed),
              entry_ne q free_peer nz,
            ),
          ))
      go (full new none_free) = inr (inr (refl, none_free, refl, absent p b new))

-- `delete_bye_peer` of a peer other than `nobody` takes every entry of it out, so that a search
-- does not find it, and keeps the other peers but `nobody`.
pub delete_bye_peer_lem :
    (p : Peer) (b : BufferByePeer)
    → p ≢ nobody
    → (search_bye_peer p (delete_bye_peer p b) ≡ false)
      × ((q : Peer) → q ≢ p → q ≢ nobody → count_bye q (delete_bye_peer p b) ≡ count_bye q b)
unfolding delete_bye_peer
delete_bye_peer_lem p b nz =
    (absent p _ (counted p nz ∙ all_zero), λ q ne qz. counted q qz ∙ same_count q ne)
  where
    counted :
        (q : Peer)
        → q ≢ nobody
        → count_bye q (reset_where (is_entry p) free_peer b)
          ≡ sum_of (λ c. if is_entry p c then 0 else bit (is_entry q c)) max_bye_peer b
    counted q qz =
        sum_of-reset_where (is_entry p) free_peer (λ c. bit (is_entry q c)) max_bye_peer b
          (entry_ne q free_peer qz)

    all_zero : sum_of (λ c. if is_entry p c then 0 else bit (is_entry p c)) max_bye_peer b ≡ 0
    all_zero =
        sum_of_zero _ max_bye_peer b
          (λ c. elim (Bool-cases (is_entry p c)) [ inl e ↦ rw e | inr e ↦ rw e ])

    same_count :
        (q : Peer)
        → q ≢ p
        → sum_of (λ c. if is_entry p c then 0 else bit (is_entry q c)) max_bye_peer b
          ≡ count_bye q b
    same_count q ne =
        sum_of_ext _ (λ c. bit (is_entry q c)) max_bye_peer b
          (λ c. elim (Bool-cases (is_entry p c)) [
            | inl e ↦ rw e (sym (entry_ne q c (λ h. ne (h ∙ sym ((same_peer_iff p c.peer).0 e)))))
            | inr e ↦ rw e
          ])

-- `delete_dated_bye_peer` forgets a peer other than `nobody` exactly where the entry is more than
-- 105 seconds old.
pub delete_dated_bye_peer_lem :
    (now : ℕ) (p : Peer) (b : BufferByePeer)
    → p ≢ nobody
    → count_bye p (delete_dated_bye_peer now b)
      ≡ sum_of
          (λ c. if ltb (c.age_time + 105) now then 0 else bit (same_peer p c.peer))
          max_bye_peer
          b
unfolding delete_dated_bye_peer
delete_dated_bye_peer_lem now p b nz =
    sum_of-reset_where (is_dated now) free_peer (λ c. bit (is_entry p c)) max_bye_peer b
      (entry_ne p free_peer nz)

-- Every operation leaves the free slots blank.
pub search_insert_peer-AllBlank :
    (now : ℕ) (p : Peer) (b : BufferByePeer)
    → 0 < now
    → AllBlank b
    → AllBlank (search_insert_peer now p b).0
unfolding search_insert_peer
search_insert_peer-AllBlank now p b pos blank = go (
    search_insert-Outcome (is_entry p) is_free (record { peer = p; age_time = now }) free_peer
      max_bye_peer b)
  where
    go :
        {b' : BufferByePeer} {r : Bool}
        → Outcome
            (is_entry p)
            is_free
            (record { peer = p; age_time = now })
            free_peer
            max_bye_peer
            b
            b'
            r
        → AllBlank b'
    go (known h) = blank
    go (full new none_free) = blank
    go (added i new miss freed lt e f) = λ j. rw e (
        set_keeps IsBlank b i j (record { peer = p; age_time = now }) free_peer
          (λ h. absurd (ground arith)) (blank j))

pub delete_bye_peer-AllBlank :
    (p : Peer) (b : BufferByePeer) → AllBlank b → AllBlank (delete_bye_peer p b)
unfolding delete_bye_peer
delete_bye_peer-AllBlank p b blank =
    λ j. reset_where_keeps IsBlank (is_entry p) free_peer b j free_peer (λ _. refl) (blank j)

pub init-AllBlank : AllBlank init_buffer_bye_peer
unfolding init_buffer_bye_peer
init-AllBlank = λ i. subst IsBlank (sym (get_or-replicate max_bye_peer i free_peer)) (λ _. refl)

pub delete_dated_bye_peer-AllBlank :
    (now : ℕ) (b : BufferByePeer) → AllBlank b → AllBlank (delete_dated_bye_peer now b)
unfolding delete_dated_bye_peer
delete_dated_bye_peer-AllBlank now b blank =
    λ j. reset_where_keeps IsBlank (is_dated now) free_peer b j free_peer (λ _. refl) (blank j)
