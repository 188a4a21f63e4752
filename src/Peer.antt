-- ===== src/Peer.antt =====
-- The address of a peer, as two_rounds/strutture.h keeps it in every buffer.
use rounds.Base.{ℕ, ◌≡◌, ◌↔◌, Bool, true, ◌&&◌, ◌==◌, arith, ◌≢◌, bit, Bool-cases, inl, inr, refl}

-- The pair `port`, `ip` of `struct Nodi_fanout`, and alike of `Neighbour`, `ByePeer`, `Result`,
-- `Neighbour_boot` and the messages; both in network order.
pub record Peer : Type 0 where
  pub port : ℕ  -- in_port_t
  pub ip : ℕ  -- struct in_addr

-- The comparison `port == b.port && ip.s_addr == b.ip.s_addr` that the buffers make.
abbrev pub same_peer : Peer → Peer → Bool
same_peer p q = p.port == q.port && p.ip == q.ip

-- What the buffers hold where no peer is.
abbrev pub nobody : Peer
nobody = record { port = 0; ip = 0 }

pub same_peer_iff : (p q : Peer) → (same_peer p q ≡ true) ↔ (p ≡ q)
same_peer_iff p q = (λ h. ground arith, λ e. ground arith)

pub same_peer_refl : (p : Peer) → same_peer p p ≡ true
same_peer_refl p = ground arith

pub same_peer_comm : (p q : Peer) → same_peer p q ≡ same_peer q p
same_peer_comm p q = ground arith

-- Another peer weighs nothing.
pub other_peer : (q p : Peer) → q ≢ p → bit (same_peer q p) ≡ 0
other_peer q p ne = elim (Bool-cases (same_peer q p)) [
  | inl same ↦ absurd (ne ((same_peer_iff q p).0 same))
  | inr other ↦ rw other refl
]
