-- ===== src/OwnMessages/Laws.antt =====
-- The messages that a peer makes have ids of 16 bytes.
use rounds.Base.{ℕ, ◌≡◌, ◌≤◌, arith, List, length, take, length-take, length-append}
use rounds.Params.{id_m, id_m_partial}
use rounds.Ident.{count_bytes, get_id_message, parse_count_message, get_count_message}

pub length-get_id_message :
    (const : List ℕ) (count : ℕ)
    → id_m_partial ≤ length const
    → length (get_id_message const count).1 ≡ id_m
unfolding get_id_message count_bytes
length-get_id_message const count h = omega (
  arith,
  length-append (take id_m_partial const) (parse_count_message (get_count_message count)),
  length-take id_m_partial const,
)
