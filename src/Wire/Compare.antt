-- ===== src/Wire/Compare.antt =====
-- `dif_str` decides the equality of two byte strings of the given size.
use rounds.Base.{
  ℕ, zero, suc, ◌+◌, ◌≡◌, ◌≤◌, ◌<◌, ◌↔◌, refl, ap₂, arith, List, [], ◌∷◌, length, get_or,
  ℕ_discrete,
}
use rounds.Wire.{dif_str, dif_str_from}

pub dif_str_from-le_one : (n i : ℕ) (s t : List ℕ) → dif_str_from n i s t ≤ 1
unfolding dif_str_from
dif_str_from-le_one zero i s t = omega arith
dif_str_from-le_one (suc n) i s t = ground (arith, dif_str_from-le_one n (i + 1) s t)

dif_str_from_self : (n i : ℕ) (s : List ℕ) → dif_str_from n i s s ≡ 0
unfolding dif_str_from
dif_str_from_self zero i s = refl
dif_str_from_self (suc n) i s = ground (arith, dif_str_from_self n (i + 1) s)

dif_str_from-agree :
    (n i : ℕ) (s t : List ℕ) (k : ℕ)
    → dif_str_from n i s t ≡ 0
    → i ≤ k
    → k < i + n
    → get_or s k 0 ≡ get_or t k 0
unfolding dif_str_from
dif_str_from-agree zero i s t k e l h = absurd (omega arith)
dif_str_from-agree (suc n) i s t k e l h = elim (ℕ_discrete i k) [
  | yes same ↦ rw (← same) (ground arith)
  | no other ↦ dif_str_from-agree n (i + 1) s t k (ground arith) (omega arith) (omega arith)
]

List_ext :
    (s t : List ℕ)
    → length s ≡ length t
    → ((k : ℕ) → k < length s → get_or s k 0 ≡ get_or t k 0)
    → s ≡ t
List_ext [] [] e h = refl
List_ext [] (y ∷ t) e h = absurd (omega arith)
List_ext (x ∷ s) [] e h = absurd (omega arith)
List_ext (x ∷ s) (y ∷ t) e h =
    ap₂ ◌∷◌ (h 0 (omega arith)) (List_ext s t (omega arith) (λ k l. h (suc k) (omega arith)))

pub dif_str_self : (s : List ℕ) (n : ℕ) → dif_str s s n ≡ 0
unfolding dif_str
dif_str_self s n = dif_str_from_self n 0 s

-- `dif_str` of two strings of `n` bytes is 0 exactly when they are equal, and 1 otherwise.
pub dif_str_iff :
    (n : ℕ) (s t : List ℕ)
    → length s ≡ n
    → length t ≡ n
    → ((dif_str s t n ≡ 0) ↔ (s ≡ t)) × (dif_str s t n ≤ 1)
unfolding dif_str
dif_str_iff n s t ls lt = (
  (
    λ e.
        List_ext s t (omega arith)
          (λ k h. dif_str_from-agree n 0 s t k e (omega arith) (omega arith)),
    λ e. rw e (dif_str_from_self n 0 t),
  ),
  dif_str_from-le_one n 0 s t,
)

-- Strings for which `dif_str` is 0 agree in every byte of the given size.
pub dif_str-agree :
    (n : ℕ) (s t : List ℕ) (k : ℕ) → dif_str s t n ≡ 0 → k < n → get_or s k 0 ≡ get_or t k 0
unfolding dif_str
dif_str-agree n s t k e h = dif_str_from-agree n 0 s t k e (omega arith) (omega arith)
