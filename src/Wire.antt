-- ===== src/Wire.antt =====
-- The messages of two_rounds/strutture.h, and the comparison of byte strings.
pub mod Compare
use rounds.Base.{
  ℕ, zero, suc, ◌+◌, ◌*◌, List, get_or, replicate, ◌==◌, if◌then◌else◌, take, ltb, Bool, true,
  false, ◌%◌,
}
use rounds.Params.{id_m, max_hash_vicino, hash_size}
use rounds.Peer.{Peer, nobody}

-- The payload descriptors of the gossip messages, `char pay_desc`.
abbrev pub boot_ping2 : ℕ
boot_ping2 = 3

abbrev pub boot_pong2 : ℕ
boot_pong2 = 4

abbrev pub bye : ℕ
bye = 2

abbrev pub query : ℕ
query = 80

abbrev pub query_hits : ℕ
query_hits = 81

-- `struct Gossip_message` with its header; `pay_lgth` is always the size of the structure.
pub record GossipMessage : Type 0 where
  pub id : List ℕ  -- char[16]
  pub pay_desc : ℕ  -- char
  pub age : ℕ  -- char
  pub peer : Peer
  pub hash_file : List ℕ  -- char[2][16]

-- The loop of `dif_str`: from byte `i` on, `n` bytes are left.
unfoldable pub dif_str_from : ℕ → ℕ → List ℕ → List ℕ → ℕ
dif_str_from zero i s₁ s₂ = 0
dif_str_from (suc n) i s₁ s₂ =
    let rest = dif_str_from n (i + 1) s₁ s₂ in if get_or s₁ i 0 == get_or s₂ i 0 then rest else 1

-- `dif_str`: 0 when the first `size` bytes agree.
unfoldable pub dif_str : List ℕ → List ℕ → ℕ → ℕ
dif_str s₁ s₂ size = dif_str_from size 0 s₁ s₂

-- `for (h = 0; h < _ID_M; ++h) id[h] = m[h];`
abbrev pub copy_id : List ℕ → List ℕ
copy_id id = take id_m id

abbrev pub zero_id : List ℕ
zero_id = replicate id_m 0

abbrev pub zero_hashes : List ℕ
zero_hashes = replicate (max_hash_vicino * hash_size) 0

-- A `char` is signed: a byte from 128 on is negative. `c < k`, for a k that is not negative.
abbrev pub char_below : ℕ → ℕ → Bool
char_below c k = if ltb c 128 then ltb c k else true

-- `age++` of a `char`
abbrev pub next_char : ℕ → ℕ
next_char c = (c + 1) % 256
