-- ===== src/Base/Arrays.antt =====
-- C arrays as lists with native indices. A write out of bounds changes nothing and a read out of
-- bounds gives the default: the bounds theorems rule both out.
use Prim.Native.Nat.{ℕ, zero, suc, ◌+◌, ◌≤◌, ◌<◌, min}
use mathlib.Core.Path.{◌≡◌, refl, ap}
use mathlib.Core.Logic.{◌≢◌, ◌⊎◌, inl, inr}
use mathlib.Core.List.{List, [], ◌∷◌, ◌++◌}
use mathlib.Core.Bool.{Bool, true, false}
use mathlib.Core.Option.{Option, none, some}
use native.Mathlib.Omega.{arith}
use rounds.Base.Tests.{if◌then◌else◌}

module _ {ℓ} {A : Type ℓ} where
  abbrev pub length : List A → ℕ
  length [] = 0
  length (x ∷ xs) = suc (length xs)

  abbrev pub get_or : List A → ℕ → A → A
  get_or [] i d = d
  get_or (x ∷ xs) zero d = x
  get_or (x ∷ xs) (suc i) d = get_or xs i d

  abbrev pub set : List A → ℕ → A → List A
  set [] i v = []
  set (x ∷ xs) zero v = v ∷ xs
  set (x ∷ xs) (suc i) v = x ∷ set xs i v

  abbrev pub take : ℕ → List A → List A
  take zero xs = []
  take (suc n) [] = []
  take (suc n) (x ∷ xs) = x ∷ take n xs

  abbrev pub replicate : ℕ → A → List A
  replicate zero a = []
  replicate (suc n) a = a ∷ replicate n a

module _ {ℓ} {A : Type ℓ} where
  pub length-set : (xs : List A) (i : ℕ) (v : A) → length (set xs i v) ≡ length xs
  length-set [] i v = refl
  length-set (x ∷ xs) zero v = refl
  length-set (x ∷ xs) (suc i) v = ap suc (length-set xs i v)

  pub length-replicate : (n : ℕ) (a : A) → length (replicate n a) ≡ n
  length-replicate zero a = refl
  length-replicate (suc n) a = ap suc (length-replicate n a)

  pub length-take : (n : ℕ) (xs : List A) → length (take n xs) ≡ min n (length xs)
  length-take zero xs = omega arith
  length-take (suc n) [] = omega arith
  length-take (suc n) (x ∷ xs) = omega (arith, length-take n xs)

  pub take-length : (n : ℕ) (xs : List A) → length xs ≡ n → take n xs ≡ xs
  take-length zero [] h = refl
  take-length zero (x ∷ xs) h = absurd (omega arith)
  take-length (suc n) [] h = refl
  take-length (suc n) (x ∷ xs) h = ap (λ t. x ∷ t) (take-length n xs (omega arith))

  pub get_or-replicate : (n i : ℕ) (a : A) → get_or (replicate n a) i a ≡ a
  get_or-replicate zero i a = refl
  get_or-replicate (suc n) zero a = refl
  get_or-replicate (suc n) (suc i) a = get_or-replicate n i a

  pub get_or-ge : (xs : List A) (i : ℕ) (d : A) → length xs ≤ i → get_or xs i d ≡ d
  get_or-ge [] i d h = refl
  get_or-ge (x ∷ xs) zero d h = absurd (omega arith)
  get_or-ge (x ∷ xs) (suc i) d h = get_or-ge xs i d (omega arith)

  pub get_or-set_self :
      (xs : List A) (i : ℕ) (v d : A) → i < length xs → get_or (set xs i v) i d ≡ v
  get_or-set_self [] i v d h = absurd (omega arith)
  get_or-set_self (x ∷ xs) zero v d h = refl
  get_or-set_self (x ∷ xs) (suc i) v d h = get_or-set_self xs i v d (omega arith)

  -- The cell written holds the value, or it lies out of bounds and nothing was written.
  pub get_or-set_cases :
      (xs : List A) (i : ℕ) (v d : A)
      → (get_or (set xs i v) i d ≡ v) ⊎ (get_or (set xs i v) i d ≡ get_or xs i d)
  get_or-set_cases [] i v d = inr refl
  get_or-set_cases (x ∷ xs) zero v d = inl refl
  get_or-set_cases (x ∷ xs) (suc i) v d = get_or-set_cases xs i v d

  pub get_or-set_ne :
      (xs : List A) (i j : ℕ) (v d : A) → i ≢ j → get_or (set xs i v) j d ≡ get_or xs j d
  get_or-set_ne [] i j v d h = refl
  get_or-set_ne (x ∷ xs) zero zero v d h = absurd (h refl)
  get_or-set_ne (x ∷ xs) zero (suc j) v d h = refl
  get_or-set_ne (x ∷ xs) (suc i) zero v d h = refl
  get_or-set_ne (x ∷ xs) (suc i) (suc j) v d h = get_or-set_ne xs i j v d (λ e. h (ap suc e))

pub length-append {ℓ} : {A : Type ℓ} (xs ys : List A) → length (xs ++ ys) ≡ length xs + length ys
length-append [] ys = omega arith
length-append (x ∷ xs) ys = omega (arith, length-append xs ys)

-- What all cells satisfy, and the value written too, all cells satisfy after the write.
pub set_keeps {ℓ κ} :
    {A : Type ℓ} (P : A → Type κ) (xs : List A) (i j : ℕ) (v d : A)
    → P v
    → P (get_or xs j d)
    → P (get_or (set xs i v) j d)
set_keeps P [] i j v d hv h = h
set_keeps P (x ∷ xs) zero zero v d hv h = hv
set_keeps P (x ∷ xs) zero (suc j) v d hv h = h
set_keeps P (x ∷ xs) (suc i) zero v d hv h = h
set_keeps P (x ∷ xs) (suc i) (suc j) v d hv h = set_keeps P xs i j v d hv h

-- `for (j = 0; j < n; ++j) if (p(xs[j])) { found at j; leave the loop }`
suc? : Option ℕ → Option ℕ
suc? none = none
suc? (some j) = some (suc j)

module _ {ℓ} {A : Type ℓ} (p : A → Bool) where
  unfoldable pub find_first : ℕ → List A → Option ℕ
  unfolding suc?
  find_first zero xs = none
  find_first (suc n) [] = none
  find_first (suc n) (x ∷ xs) = let rest = suc? (find_first n xs) in if p x then some 0 else rest

  pub find_first-hit :
      (n : ℕ) (xs : List A) (d : A) (j : ℕ)
      → find_first n xs ≡ some j
      → (j < n) × (j < length xs) × (p (get_or xs j d) ≡ true)
  unfolding find_first
  find_first-hit zero xs d j e = absurd (cc)
  find_first-hit (suc n) [] d j e = absurd (cc)
  find_first-hit (suc n) (x ∷ xs) d zero e = ground arith
  find_first-hit (suc n) (x ∷ xs) d (suc j) e = ground (arith, find_first-hit n xs d j)

  pub find_first-before :
      (n : ℕ) (xs : List A) (d : A) (j i : ℕ)
      → find_first n xs ≡ some j
      → i < j
      → p (get_or xs i d) ≡ false
  unfolding find_first
  find_first-before zero xs d j i e h = absurd (cc)
  find_first-before (suc n) [] d j i e h = absurd (cc)
  find_first-before (suc n) (x ∷ xs) d zero i e h = absurd (omega arith)
  find_first-before (suc n) (x ∷ xs) d (suc j) zero e h = ground arith
  find_first-before (suc n) (x ∷ xs) d (suc j) (suc i) e h =
      ground (arith, find_first-before n xs d j i)

  pub find_first-miss :
      (n : ℕ) (xs : List A) (d : A) (j : ℕ)
      → find_first n xs ≡ none
      → j < n
      → j < length xs
      → p (get_or xs j d) ≡ false
  unfolding find_first
  find_first-miss zero xs d j e h l = absurd (omega arith)
  find_first-miss (suc n) [] d j e h l = absurd (omega arith)
  find_first-miss (suc n) (x ∷ xs) d zero e h l = ground arith
  find_first-miss (suc n) (x ∷ xs) d (suc j) e h l = ground (arith, find_first-miss n xs d j)

pub plus_one : (n : ℕ) → n + 1 ≡ suc n
plus_one n = omega arith

module _ {ℓ} {A : Type ℓ} where
  unfoldable pub drop : ℕ → List A → List A
  drop zero xs = xs
  drop (suc n) [] = []
  drop (suc n) (x ∷ xs) = drop n xs

  pub take-set_ge : (n : ℕ) (xs : List A) (i : ℕ) (v : A) → n ≤ i → take n (set xs i v) ≡ take n xs
  take-set_ge zero xs i v h = refl
  take-set_ge (suc n) [] i v h = refl
  take-set_ge (suc n) (x ∷ xs) zero v h = absurd (omega arith)
  take-set_ge (suc n) (x ∷ xs) (suc i) v h = ap (λ t. x ∷ t) (take-set_ge n xs i v (omega arith))

  -- The cell behind the first `n` is written: it comes behind them.
  take-set-suc :
      (n : ℕ) (xs : List A) (v : A)
      → n < length xs
      → take (suc n) (set xs n v) ≡ take n xs ++ (v ∷ [])
  take-set-suc zero (x ∷ xs) v h = refl
  take-set-suc (suc n) (x ∷ xs) v h = ap (λ t. x ∷ t) (take-set-suc n xs v (omega arith))
  take-set-suc n [] v h = absurd (omega arith)

  pub take-set_last :
      (n : ℕ) (xs : List A) (v : A)
      → n < length xs
      → take (n + 1) (set xs n v) ≡ take n xs ++ (v ∷ [])
  take-set_last n xs v h = rw (plus_one n) (take-set-suc n xs v h)

  -- The cells from `i` up to `n`, the first of them apart.
  drop-take-suc :
      (i n : ℕ) (xs : List A) (d : A)
      → i < n
      → n ≤ length xs
      → drop i (take n xs) ≡ get_or xs i d ∷ drop (suc i) (take n xs)
  unfolding drop
  drop-take-suc i zero xs d h hn = absurd (omega arith)
  drop-take-suc i (suc n) [] d h hn = absurd (omega arith)
  drop-take-suc zero (suc n) (x ∷ xs) d h hn = refl
  drop-take-suc (suc i) (suc n) (x ∷ xs) d h hn = drop-take-suc i n xs d (omega arith) (omega arith)

  pub drop-take :
      (i n : ℕ) (xs : List A) (d : A)
      → i < n
      → n ≤ length xs
      → drop i (take n xs) ≡ get_or xs i d ∷ drop (i + 1) (take n xs)
  drop-take i n xs d h hn = rw (plus_one i) (drop-take-suc i n xs d h hn)

  pub drop_ge : (n : ℕ) (xs : List A) → length xs ≤ n → drop n xs ≡ []
  unfolding drop
  drop_ge zero [] h = refl
  drop_ge zero (x ∷ xs) h = absurd (omega arith)
  drop_ge (suc n) [] h = refl
  drop_ge (suc n) (x ∷ xs) h = drop_ge n xs (omega arith)
