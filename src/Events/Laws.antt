-- ===== src/Events/Laws.antt =====
-- The answers to a search: no peer twice, at most 100, and none lost below that bound.
use rounds.Base.{
  ℕ, suc, ◌+◌, ◌≡◌, ◌≤◌, ◌<◌, ◌≢◌, ◌⊎◌, inl, inr, refl, ap, arith, true, false, List, [], ◌∷◌,
  length, ltb, ◌==◌, if◌then◌else◌, ◌&&◌, set, get_or, find_first, Option-cases, Bool-cases, bit,
  sum_of, sum_of-set, sum_of-suc, sum_of-hit, sum_of-miss, ltb→lt, length-set, length-replicate,
  find_first-hit, find_first-miss, sum_of-zero, plus_one,
}
use rounds.Params.{max_result, max_evt, id_m}
use rounds.Peer.{Peer, same_peer, nobody, same_peer_iff, same_peer_refl, other_peer}
use rounds.Wire.{dif_str, copy_id}
use rounds.Events.{
  is_some, Event, BufferEvent, free_event, is_free, insert_event, add_result, record_hit,
}

-- How often `p` is among the answers.
abbrev pub answers : Peer → Event → ℕ
answers p e = sum_of (λ q. bit (same_peer p q)) e.limit e.list_result

pub record IsValid (e : Event) : Type 0 where
  pub size : length e.list_result ≡ max_result
  pub bounded : e.limit ≤ max_result
  pub distinct : (p : Peer) → answers p e ≤ 1

pub free_event-IsValid : IsValid free_event
free_event-IsValid = record {
  size = length-replicate max_result nobody;
  bounded = omega arith;
  distinct = λ p. omega (arith, sum_of-zero (λ q. bit (same_peer p q)) free_event.list_result);
}

-- Writing an answer behind the others.
answers-push :
    (p q : Peer) (e : Event)
    → e.limit < length e.list_result
    → sum_of (λ r. bit (same_peer q r)) (suc e.limit) (set e.list_result e.limit p)
      ≡ answers q e + bit (same_peer q p)
answers-push p q e room =
    let w : Peer → ℕ = λ r. bit (same_peer q r) in
    omega (
      arith,
      sum_of-suc w e.limit e.list_result nobody room,
      sum_of-set w (suc e.limit) e.list_result e.limit p nobody (omega arith) room,
    )

-- An answer that was not there is written behind the others.
push-IsValid :
    (p : Peer) (e : Event)
    → IsValid e
    → e.limit < max_result
    → answers p e ≡ 0
    → let e' = record e { limit = suc e.limit; list_result = set e.list_result e.limit p } in
      IsValid e' × (answers p e' ≡ 1) × ((q : Peer) → q ≢ p → answers q e' ≡ answers q e)
push-IsValid p e v room new = (
  record {
    size = omega (arith, v.size, length-set e.list_result e.limit p);
    bounded = omega arith;
    distinct = λ q. elim (Bool-cases (same_peer q p)) [
      | inl same ↦ rw ((same_peer_iff q p).0 same) (omega (arith, here))
      | inr other ↦ omega (
        arith,
        answers-push p q e fits,
        other_peer q p (λ e. cc (other, (same_peer_iff q p).1 e)),
        v.distinct q,
      )
    ];
  },
  here,
  λ q ne. omega (arith, answers-push p q e fits, other_peer q p ne),
)
  where
    fits : e.limit < length e.list_result
    fits = omega (arith, v.size)

    here :
        answers p (record e { limit = suc e.limit; list_result = set e.list_result e.limit p }) ≡ 1
    here = omega (arith, answers-push p p e fits, ap bit (same_peer_refl p))

-- After a hit of `p` the peer is among the answers exactly once, and no other answer has changed.
pub add_result_lem :
    (p : Peer) (e : Event)
    → IsValid e
    → e.limit < max_result
    → let e' = add_result p e in
      IsValid e' × (answers p e' ≡ 1) × ((q : Peer) → q ≢ p → answers q e' ≡ answers q e)
unfolding add_result
add_result_lem p e v room = elim (Option-cases (find_first (same_peer p) e.limit e.list_result)) [
  | inr (j, hit) ↦
      rw (hit, add_result)
        (
          v,
          omega (arith, v.distinct p, sum_of-hit (same_peer p) e.limit e.list_result j hit),
          λ q ne. refl,
        )
  | inl miss ↦
      rw (miss, add_result, plus_one e.limit)
        (push-IsValid p e v room (sum_of-miss (same_peer p) e.limit e.list_result miss))
]

-- A query hit of `p` for the search `id`, with the one event that there is room for, which is
-- valid: when it is that search and has fewer than 100 answers, `p` is among its answers exactly
-- once afterwards; otherwise `p` is among them as before. The answers of other peers stay in any
-- case, and the event stays valid.
pub record_hit_lem :
    (p : Peer) (id : List ℕ) (e : Event)
    → IsValid e
    → (e' : Event) × (record_hit max_evt p id (e ∷ []) ≡ e' ∷ [])
      × IsValid e'
      × (answers p e'
          ≡ (if ltb e.limit max_result && dif_str e.id id id_m == 0 then 1 else answers p e))
      × ((q : Peer) → q ≢ p → answers q e' ≡ answers q e)
unfolding record_hit
record_hit_lem p id e v = elim (Bool-cases (ltb e.limit max_result)) [
  | inr full ↦ (e, rw full refl, v, rw full refl, λ q ne. refl)
  | inl room ↦ elim (Bool-cases (dif_str e.id id id_m == 0)) [
    | inr other ↦ (e, rw (room, other) refl, v, rw (room, other) refl, λ q ne. refl)
    | inl same ↦
        let (valid, here, others) = add_result_lem p e v (ltb→lt e.limit max_result room) in
        (add_result p e, rw (room, same) refl, valid, rw (room, same) here, others)
  ]
]

-- With a buffer of one event: a search is entered at the index returned, which was free, with its
-- id and its time; or no element is free, nothing changes, and the index returned is the one
-- behind the last.
pub insert_event_lem :
    (now : ℕ) (id : List ℕ) (b : BufferEvent)
    → length b ≡ max_evt
    → let (b', i) = insert_event now id b in
      (i < max_evt
        × is_free (get_or b i free_event) ≡ true
        × (b' ≡ set b i (record (get_or b i free_event) { id = copy_id id; age_time = now })))
      ⊎ (i ≡ max_evt × (b' ≡ b) × ((j : ℕ) → j < max_evt → is_free (get_or b j free_event) ≡ false))
unfolding insert_event
insert_event_lem now id b len = elim (Option-cases (find_first is_free max_evt b)) [
  | inr (i, hit) ↦
      let (lt, bound, is_room) = find_first-hit is_free max_evt b free_event i hit in
      rw (hit, insert_event) (inl (lt, is_room, refl))
  | inl miss ↦
      rw (miss, insert_event)
        (inr (
          refl,
          refl,
          λ j lt. find_first-miss is_free max_evt b free_event j miss lt (omega arith),
        ))
]

-- Where an element is free, the index is one of an element.
pub insert_event-inside :
    (now : ℕ) (id : List ℕ) (b : BufferEvent)
    → is_some (find_first is_free max_evt b) ≡ true
    → ltb (insert_event now id b).1 max_evt ≡ true
unfolding insert_event
insert_event-inside now id b free = elim (Option-cases (find_first is_free max_evt b)) [
  | inl miss ↦ absurd (cc (rw miss at free))
  | inr (i, hit) ↦
      let (lt, bound, is_room) = find_first-hit is_free max_evt b free_event i hit in
      rw (insert_event, hit) (ground (arith, lt))
]

-- One event, and the answers in it.
pub record_hit-Event :
    (p : Peer) (id : List ℕ) (b : List Event)
    → length b ≡ max_evt
    → IsValid (get_or b 0 free_event)
    → let b' = record_hit max_evt p id b in (length b' ≡ max_evt) × IsValid (get_or b' 0 free_event)
record_hit-Event p id [] len v = absurd (omega arith)
record_hit-Event p id (e ∷ f ∷ b) len v = absurd (omega arith)
record_hit-Event p id (e ∷ []) len v =
    let (e', same, valid, own, others) = record_hit_lem p id e v in rw same (refl, valid)
