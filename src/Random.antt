-- ===== src/Random.antt =====
-- The random choices of two_rounds/general_functions.c and two_rounds/func_strutture.c. What `rand()`
-- returns, a number below 2^31, is an argument: `RAND_MAX` is 2^31 - 1.
pub mod Bounds
use rounds.Base.{
  ℕ, zero, suc, ◌+◌, ◌-◌, ◌*◌, ◌/◌, ◌%◌, ◌^◌, Bool, true, false, Option, none, some, List, [], ◌∷◌,
  ltb, leb, ◌==◌, if◌then◌else◌, get_or, set, replicate, take,
}
use rounds.Params.{max_age, big_num}

-- `p / 2^e` as the nearest multiple of 2^e, the even one of two that are as near.
unfoldable pub round_even : ℕ → ℕ → ℕ
round_even unit p =
    let q = p / unit in
    let r = p % unit in
    (if ltb (2 * r) unit
      then q
      else if ltb unit (2 * r)
      then q + 1
      else if q % 2 == 0
      then q
      else q + 1)
    * unit

-- The double nearest to `p`: 53 bits. `unit` is the distance of the doubles below `2^53 * unit`.
unfoldable pub round_double : ℕ → ℕ → ℕ → ℕ
round_double zero unit p = p
round_double (suc n) unit p =
    let rest = round_double n (2 * unit) p in
    if ltb p (2 ^ 53 * unit) then round_even unit p else rest

-- `(int)(num * (rand() / (RAND_MAX + 1.0)))`: the quotient is exact and the product is rounded. A
-- product of two numbers below 2^31 has at most 62 bits, so ten units are enough.
unfoldable pub num_random : ℕ → ℕ → ℕ
num_random num rand = round_double 10 1 (num * rand) / 2 ^ 31

-- `struct X`
pub record RandomX : Type 0 where
  pub estremo : ℕ
  pub intorno : List ℕ

-- The loop `for (i = 4; i <= _MAX_AGE; ++i)` of `initX`. `estremo + temp` is below 2^53 and is
-- truncated to an `int`: what is added is the truncation of `_BIG_NUM / (2 * i)`.
unfoldable pub init_loop : ℕ → ℕ → RandomX → RandomX
init_loop zero i x = x
init_loop (suc n) i x =
    let e = x.estremo + big_num / (2 * i) in
    init_loop n (i + 1) (record { estremo = e; intorno = set x.intorno (i - 1) e })

-- `initX`, with `_P0`, `_P1`, `_P2` as 1, 6/10 and 35/100.
abbrev pub init_x : RandomX
init_x =
    let e0 = big_num in
    let e1 = e0 + big_num * 6 / 10 in
    let e2 = e1 + big_num * 35 / 100 in
    init_loop (max_age - 3) 4
      (record { estremo = e2; intorno = set (set (set (replicate max_age 0) 0 e0) 1 e1) 2 e2 })

-- The first age whose bound is not below the number drawn. The source leaves `age` unset when there
-- is none; Bounds shows that there is one.
pub suc_age : Option ℕ → Option ℕ
suc_age none = none
suc_age (some i) = some (suc i)

unfoldable pub age_of : ℕ → List ℕ → Option ℕ
unfolding suc_age
age_of v [] = none
age_of v (b ∷ bs) = let rest = suc_age (age_of v bs) in if leb v b then some 0 else rest

unfoldable pub random_age : RandomX → ℕ → ℕ → Option ℕ
random_age x traslazione rand = elim (age_of (1 + num_random x.estremo rand) x.intorno) [
  | some i ↦ some (if ltb (i + traslazione) max_age then i + traslazione else i)
  | none ↦ none
]

-- `random_age_buffer_rg`: draws until the number is below the bound before the last, then looks it up
-- among the ages but the last. `none`: the results of `rand()` have run out.
unfoldable pub random_age_buffer_rg : RandomX → List ℕ → Option (ℕ × List ℕ)
random_age_buffer_rg x [] = none
random_age_buffer_rg x (rand ∷ rands) =
    let rest = random_age_buffer_rg x rands in
    let intervallo = 1 + num_random x.estremo rand in
    if ltb intervallo (get_or x.intorno (max_age - 2) 0)
    then elim (age_of intervallo (take (max_age - 1) x.intorno)) [
      | some i ↦ some (i, rands)
      | none ↦ none
    ]
    else rest
