-- ===== src/Ident/Laws.antt =====
-- The ids tell messages apart: the four bytes determine the counter, and the counter comes back to a
-- value only after 9999 messages.
use rounds.Base.{
  ℕ, zero, suc, ◌+◌, ◌-◌, ◌*◌, ◌^◌, ◌≡◌, ◌≢◌, ◌≤◌, ◌<◌, sym, ◌∙◌, ap, arith, List, [], ◌∷◌, ◌++◌,
  if◌then◌else◌, leb, take,
}
use rounds.Params.{max_count_msg, id_m_partial}
use rounds.Ident.{get_count_message, count_bytes, parse_count_message, get_id_message}

-- The number that four bytes stand for, the lowest first.
abbrev pub count_of : List ℕ → ℕ
count_of (a ∷ b ∷ c ∷ d ∷ []) = a + 256 * b + 65536 * c + 16777216 * d
count_of _ = 0

-- The four bytes of a counter below 2^32 give it back.
pub count_of-parse_count_message : (n : ℕ) → n < 2 ^ 32 → count_of (parse_count_message n) ≡ n
unfolding count_bytes
count_of-parse_count_message n h = omega arith

-- `k` messages on.
unfoldable pub count_after : ℕ → ℕ → ℕ
count_after zero count = count
count_after (suc k) count = get_count_message (count_after k count)

count_after_lem :
    (k count : ℕ)
    → 1 ≤ count
    → count < max_count_msg
    → k < max_count_msg - 1
    → count_after k count ≡ (if leb (count + k) 9999 then count + k else count + k - 9999)
unfolding count_after get_count_message
count_after_lem zero count h hc hk = ground arith
count_after_lem (suc k) count h hc hk = ground (arith, count_after_lem k count)

++_cancel : (zs xs ys : List ℕ) → zs ++ xs ≡ zs ++ ys → xs ≡ ys
++_cancel [] xs ys e = e
++_cancel (z ∷ zs) xs ys e = ++_cancel zs xs ys (cc (e))

get_count_message-lt :
    (count : ℕ) → 1 ≤ count → count < max_count_msg → get_count_message count < 2 ^ 32
unfolding get_count_message
get_count_message-lt count h hc = ground arith

get_count_message_injective :
    (a b : ℕ)
    → 1 ≤ a
    → a < max_count_msg
    → 1 ≤ b
    → b < max_count_msg
    → get_count_message a ≡ get_count_message b
    → a ≡ b
unfolding get_count_message
get_count_message_injective a b ha hac hb hbc e = ground arith

-- From a counter between 1 and 9999 on, the id of a message and that of the one `k` messages
-- later differ, for `k` from 1 to 9998.
pub get_id_message-distinct :
    (id_msg_const : List ℕ) (count k : ℕ)
    → 1 ≤ count
    → count < max_count_msg
    → 0 < k
    → k < max_count_msg - 1
    → (get_id_message id_msg_const count).1 ≢ (get_id_message id_msg_const (count_after k count)).1
unfolding get_id_message
get_id_message-distinct c count k h hc hk hk' same =
    let later = count_after_lem k count h hc hk' in
    let a = get_count_message count in
    let b = get_count_message (count_after k count) in
    let bytes =
      ++_cancel (take id_m_partial c) (parse_count_message a) (parse_count_message b) same in
    let equal =
      get_count_message_injective count (count_after k count) h hc (ground arith) (ground arith) (
        sym (count_of-parse_count_message a (get_count_message-lt count h hc))
        ∙ ap count_of bytes
        ∙ count_of-parse_count_message b
            (get_count_message-lt (count_after k count) (ground arith) (ground arith))) in
    ground arith
