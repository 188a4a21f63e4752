-- ===== src/Base/Weights.antt =====
-- The multiset view of an array: the sum of a weight over its first `n` cells. Two arrays hold the
-- same items, as often, when every weight has the same sum over both.
use Prim.Native.Nat.{ℕ, zero, suc, ◌+◌, ◌≤◌, ◌<◌}
use mathlib.Core.Path.{◌≡◌, refl, ap, ap₂}
use mathlib.Core.List.{List, [], ◌∷◌}
use mathlib.Core.Bool.{Bool, true, false}
use mathlib.Core.Option.{none, some}
use native.Mathlib.Omega.{arith}
use rounds.Base.Arrays.{length, get_or, set, replicate, find_first, plus_one}

-- a test as a weight
abbrev pub bit : Bool → ℕ
bit true = 1
bit false = 0

module _ {ℓ} {A : Type ℓ} (w : A → ℕ) where
  unfoldable pub sum_of : ℕ → List A → ℕ
  sum_of zero xs = 0
  sum_of (suc n) [] = 0
  sum_of (suc n) (x ∷ xs) = w x + sum_of n xs

  pub sum_of-zero : (xs : List A) → sum_of 0 xs ≡ 0
  unfolding sum_of
  sum_of-zero xs = refl

  pub sum_of-replicate : (n k : ℕ) (a : A) → w a ≡ 0 → sum_of n (replicate k a) ≡ 0
  unfolding sum_of
  sum_of-replicate zero k a h = refl
  sum_of-replicate (suc n) zero a h = refl
  sum_of-replicate (suc n) (suc k) a h = omega (arith, sum_of-replicate n k a h)

  pub sum_of-set :
      (n : ℕ) (xs : List A) (i : ℕ) (v d : A)
      → i < n
      → i < length xs
      → sum_of n (set xs i v) + w (get_or xs i d) ≡ sum_of n xs + w v
  unfolding sum_of
  sum_of-set zero xs i v d h l = absurd (omega arith)
  sum_of-set (suc n) [] i v d h l = absurd (omega arith)
  sum_of-set (suc n) (x ∷ xs) zero v d h l = omega arith
  sum_of-set (suc n) (x ∷ xs) (suc i) v d h l =
      omega (arith, sum_of-set n xs i v d (omega arith) (omega arith))

  pub sum_of-set_ge :
      (n : ℕ) (xs : List A) (i : ℕ) (v : A) → n ≤ i → sum_of n (set xs i v) ≡ sum_of n xs
  unfolding sum_of
  sum_of-set_ge zero xs i v h = refl
  sum_of-set_ge (suc n) [] i v h = refl
  sum_of-set_ge (suc n) (x ∷ xs) zero v h = absurd (omega arith)
  sum_of-set_ge (suc n) (x ∷ xs) (suc i) v h =
      ap (λ t. w x + t) (sum_of-set_ge n xs i v (omega arith))

  pub sum_of-suc :
      (n : ℕ) (xs : List A) (d : A)
      → n < length xs
      → sum_of (suc n) xs ≡ sum_of n xs + w (get_or xs n d)
  unfolding sum_of
  sum_of-suc n [] d l = absurd (omega arith)
  sum_of-suc zero (x ∷ xs) d l = omega arith
  sum_of-suc (suc n) (x ∷ xs) d l = omega (arith, sum_of-suc n xs d (omega arith))

  pub get_or-le-sum_of :
      (n : ℕ) (xs : List A) (j : ℕ) (d : A)
      → j < n
      → j < length xs
      → w (get_or xs j d) ≤ sum_of n xs
  unfolding sum_of
  get_or-le-sum_of zero xs j d h l = absurd (omega arith)
  get_or-le-sum_of (suc n) [] j d h l = absurd (omega arith)
  get_or-le-sum_of (suc n) (x ∷ xs) zero d h l = omega arith
  get_or-le-sum_of (suc n) (x ∷ xs) (suc j) d h l =
      omega (arith, get_or-le-sum_of n xs j d (omega arith) (omega arith))

  -- With two places of weight 1 the sum is at least 2.
  pub two-le-sum_of :
      (n : ℕ) (xs : List A) (i j : ℕ) (d : A)
      → i < j
      → j < n
      → j < length xs
      → w (get_or xs i d) + w (get_or xs j d) ≤ sum_of n xs
  unfolding sum_of
  two-le-sum_of zero xs i j d p h l = absurd (omega arith)
  two-le-sum_of (suc n) [] i j d p h l = absurd (omega arith)
  two-le-sum_of (suc n) (x ∷ xs) i zero d p h l = absurd (omega arith)
  two-le-sum_of (suc n) (x ∷ xs) zero (suc j) d p h l =
      omega (arith, get_or-le-sum_of n xs j d (omega arith) (omega arith))
  two-le-sum_of (suc n) (x ∷ xs) (suc i) (suc j) d p h l =
      omega (arith, two-le-sum_of n xs i j d (omega arith) (omega arith) (omega arith))

module _ {ℓ} {A : Type ℓ} where
  -- What no cell of a range satisfies has weight 0 there.
  pub sum_of-miss :
      (p : A → Bool) (n : ℕ) (xs : List A)
      → find_first p n xs ≡ none
      → sum_of (λ a. bit (p a)) n xs ≡ 0
  unfolding sum_of find_first
  sum_of-miss p zero xs e = refl
  sum_of-miss p (suc n) [] e = refl
  sum_of-miss p (suc n) (x ∷ xs) e = ground (arith, sum_of-miss p n xs)

  pub sum_of-hit :
      (p : A → Bool) (n : ℕ) (xs : List A) (j : ℕ)
      → find_first p n xs ≡ some j
      → 1 ≤ sum_of (λ a. bit (p a)) n xs
  unfolding sum_of find_first
  sum_of-hit p zero xs j e = absurd (cc)
  sum_of-hit p (suc n) [] j e = absurd (cc)
  sum_of-hit p (suc n) (x ∷ xs) zero e = ground arith
  sum_of-hit p (suc n) (x ∷ xs) (suc j) e = ground (arith, sum_of-hit p n xs j)

  pub sum_of_zero : (w : A → ℕ) (n : ℕ) (xs : List A) → ((a : A) → w a ≡ 0) → sum_of w n xs ≡ 0
  unfolding sum_of
  sum_of_zero w zero xs h = refl
  sum_of_zero w (suc n) [] h = refl
  sum_of_zero w (suc n) (x ∷ xs) h = omega (arith, h x, sum_of_zero w n xs h)

  pub sum_of_ext :
      (w v : A → ℕ) (n : ℕ) (xs : List A) → ((a : A) → w a ≡ v a) → sum_of w n xs ≡ sum_of v n xs
  unfolding sum_of
  sum_of_ext w v zero xs h = refl
  sum_of_ext w v (suc n) [] h = refl
  sum_of_ext w v (suc n) (x ∷ xs) h = ap₂ ◌+◌ (h x) (sum_of_ext w v n xs h)

  pub sum_of_mono :
      (w v : A → ℕ) (n : ℕ) (xs : List A) → ((a : A) → w a ≤ v a) → sum_of w n xs ≤ sum_of v n xs
  unfolding sum_of
  sum_of_mono w v zero xs h = omega arith
  sum_of_mono w v (suc n) [] h = omega arith
  sum_of_mono w v (suc n) (x ∷ xs) h = omega (arith, h x, sum_of_mono w v n xs h)

  pub sum_of_one : (n : ℕ) (xs : List A) → n ≤ length xs → sum_of (λ _. 1) n xs ≡ n
  unfolding sum_of
  sum_of_one zero xs h = refl
  sum_of_one (suc n) [] h = absurd (omega arith)
  sum_of_one (suc n) (x ∷ xs) h = omega (arith, sum_of_one n xs (omega arith))

module _ {ℓ} {A : Type ℓ} where
  pub sum_of_add :
      (w v : A → ℕ) (n : ℕ) (xs : List A)
      → sum_of (λ a. w a + v a) n xs ≡ sum_of w n xs + sum_of v n xs
  unfolding sum_of
  sum_of_add w v zero xs = refl
  sum_of_add w v (suc n) [] = refl
  sum_of_add w v (suc n) (x ∷ xs) = omega (arith, sum_of_add w v n xs)

-- A cell written behind the first `n`.
pub sum_of-push {ℓ} :
    {A : Type ℓ} (w : A → ℕ) (n : ℕ) (xs : List A) (v : A)
    → n < length xs
    → sum_of w (n + 1) (set xs n v) ≡ sum_of w n xs + w v
sum_of-push w n xs v h =
    rw (plus_one n)
      (omega (arith, sum_of-suc w n xs v h, sum_of-set w (suc n) xs n v v (omega arith) h))
