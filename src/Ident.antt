-- ===== src/Ident.antt =====
-- The message ids of two_rounds/general_functions.c and two_rounds/bootstrap.c: twelve constant bytes
-- of the peer and four bytes of a counter. The lock `sem_id` makes the counting one step.
pub mod Laws
use rounds.Base.{
  ℕ, zero, suc, ◌+◌, ◌-◌, ◌*◌, ◌/◌, ◌%◌, ◌^◌, Bool, true, false, List, [], ◌∷◌, ◌++◌, ◌==◌,
  if◌then◌else◌, take, get_or,
}
use rounds.Params.{max_count_msg, id_m_partial, id_count, port1}
use rounds.Random.{num_random}

-- `get_count_message`: the new value of `id_count_msg`, an `unsigned int`, and what is returned.
unfoldable pub get_count_message : ℕ → ℕ
get_count_message count =
    let next = (count + 1) % 2 ^ 32 in if next == max_count_msg then 1 else next

-- The body of the loop of `parse_count_message`: byte `i` of `n`, by three shifts of an
-- `unsigned int`; `j` is `_ID_COUNT - 1 - i`.
abbrev count_byte : ℕ → ℕ → ℕ → ℕ
count_byte n i j =
    let temp = n / 2 ^ (i * 8) in
    let temp = temp * 2 ^ (j * 8) % 2 ^ 32 in let temp = temp / 2 ^ (j * 8) in temp % 256

unfoldable pub count_bytes : ℕ → ℕ → ℕ → List ℕ
count_bytes zero n i = []
count_bytes (suc left) n i = count_byte n i (id_count - 1 - i) ∷ count_bytes left n (i + 1)

-- `parse_count_message`, after the counter has been read.
abbrev pub parse_count_message : ℕ → List ℕ
parse_count_message n = count_bytes id_count n 0

-- `get_id_message`: the counter afterwards, and the id.
unfoldable pub get_id_message : List ℕ → ℕ → ℕ × List ℕ
get_id_message id_msg_const count =
    let n = get_count_message count in (n, take id_m_partial id_msg_const ++ parse_count_message n)

-- `create_id_const`: the port, the four numbers of the address, and six random bytes. `id[0]` is a
-- `char` that holds 5196 % 256 = 76, so its sign plays no part.
unfoldable pub random_bytes : List ℕ → List ℕ
random_bytes [] = []
random_bytes (rand ∷ rands) = num_random 256 rand ∷ random_bytes rands

unfoldable pub create_id_const : ℕ → ℕ → ℕ → ℕ → List ℕ → List ℕ
create_id_const var1 var2 var3 var4 rands =
    let id0 = port1 % 256 in
    id0
    ∷ (port1 - id0) / 256
    ∷ var1 % 256
    ∷ var2 % 256
    ∷ var3 % 256
    ∷ var4 % 256
    ∷ random_bytes (take 6 rands)
