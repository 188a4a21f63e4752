-- ===== src/Simulator/Coverage/Counts.antt =====
-- The loops of `ricorsive_membership` over the lists of a node count the nodes that stand in them.
use rounds.Base.{
  ℕ, zero, suc, ◌+◌, ◌≡◌, ◌<◌, ◌⊎◌, inl, inr, refl, ap, ◌∙◌, arith, none, some, List, [], ◌∷◌,
  length, get_or, length-set, ℕ_discrete, get_or-set_self, get_or-set_ne, ◌↔◌, subst, sym,
}
use rounds.Simulator.{vista_age, Cells, counted}
use rounds.Simulator.Query.{count_node-counted}
use rounds.Simulator.Coverage.{count_cells, count_lists}

-- One of the first `n` cells holds `t`.
abbrev pub HoldsNode : ℕ → Cells → ℕ → Type 0
HoldsNode n cells t = (i : ℕ) × (i < n) × (get_or cells i none ≡ some t)

abbrev pub Counted : List ℕ → ℕ → Type 0
Counted nodi t = 0 < get_or nodi t 0

-- Every node that a cell holds is one of `k`.
abbrev pub CellsKnown : ℕ → Cells → Type 0
CellsKnown k [] = Unit {0}
CellsKnown k (none ∷ cells) = CellsKnown k cells
CellsKnown k (some t ∷ cells) = (t < k) × CellsKnown k cells

abbrev pub ListsKnown : ℕ → List Cells → Type 0
ListsKnown k [] = Unit {0}
ListsKnown k (cells ∷ ls) = CellsKnown k cells × ListsKnown k ls

-- The loops where no index is out of bounds.
unfoldable pub tally_cells : ℕ → Cells → List ℕ → List ℕ
tally_cells zero cells nodi = nodi
tally_cells (suc n) [] nodi = nodi
tally_cells (suc n) (none ∷ cells) nodi = tally_cells n cells nodi
tally_cells (suc n) (some t ∷ cells) nodi = tally_cells n cells (counted t nodi)

unfoldable pub tally_lists : ℕ → List Cells → List ℕ → List ℕ
tally_lists zero ls nodi = nodi
tally_lists (suc n) [] nodi = nodi
tally_lists (suc n) (cells ∷ ls) nodi = tally_lists n ls (tally_cells vista_age cells nodi)

length-tally_cells :
    (n : ℕ) (cells : Cells) (nodi : List ℕ) → length (tally_cells n cells nodi) ≡ length nodi
unfolding tally_cells
length-tally_cells zero cells nodi = refl
length-tally_cells (suc n) [] nodi = refl
length-tally_cells (suc n) (none ∷ cells) nodi = length-tally_cells n cells nodi
length-tally_cells (suc n) (some u ∷ cells) nodi =
    length-tally_cells n cells (counted u nodi) ∙ length-set nodi u (get_or nodi u 0 + 1)

pub length-tally_lists :
    (n : ℕ) (ls : List Cells) (nodi : List ℕ) → length (tally_lists n ls nodi) ≡ length nodi
unfolding tally_lists
length-tally_lists zero ls nodi = refl
length-tally_lists (suc n) [] nodi = refl
length-tally_lists (suc n) (cells ∷ ls) nodi =
    length-tally_lists n ls (tally_cells vista_age cells nodi)
    ∙ length-tally_cells vista_age cells nodi

count_cells-tally_cells :
    (n : ℕ) (cells : Cells) (nodi : List ℕ)
    → CellsKnown (length nodi) cells
    → count_cells n cells nodi ≡ some (tally_cells n cells nodi)
unfolding count_cells tally_cells
count_cells-tally_cells zero cells nodi known = refl
count_cells-tally_cells (suc n) [] nodi known = refl
count_cells-tally_cells (suc n) (none ∷ cells) nodi known =
    count_cells-tally_cells n cells nodi known
count_cells-tally_cells (suc n) (some u ∷ cells) nodi (lt, known) =
    rw (count_cells, count_node-counted u nodi lt)
      (count_cells-tally_cells n cells (counted u nodi)
        (subst (λ k. CellsKnown k cells) (sym (length-set nodi u (get_or nodi u 0 + 1))) known))

pub count_lists-tally_lists :
    (n : ℕ) (ls : List Cells) (nodi : List ℕ)
    → ListsKnown (length nodi) ls
    → count_lists n ls nodi ≡ some (tally_lists n ls nodi)
unfolding count_lists tally_lists
count_lists-tally_lists zero ls nodi known = refl
count_lists-tally_lists (suc n) [] nodi known = refl
count_lists-tally_lists (suc n) (cells ∷ ls) nodi (known, more) =
    rw (count_lists, count_cells-tally_cells vista_age cells nodi known)
      (count_lists-tally_lists n ls (tally_cells vista_age cells nodi)
        (subst (λ k. ListsKnown k ls) (sym (length-tally_cells vista_age cells nodi)) more))

module _ (t : ℕ) where
  counted_iff :
      (u : ℕ) (nodi : List ℕ)
      → t < length nodi
      → Counted (counted u nodi) t ↔ (Counted nodi t ⊎ (u ≡ t))
  counted_iff u nodi l = elim (ℕ_discrete u t) [
    | yes same ↦ (
      (λ h. inr same),
      λ h. rw same (rw (get_or-set_self nodi t (get_or nodi t 0 + 1) 0 l) (omega arith)),
    )
    | no other ↦
        let kept = get_or-set_ne nodi u t (get_or nodi u 0 + 1) 0 other in
        (
          (λ h. inl (subst (λ c. 0 < c) kept h)),
          λ h. elim h [ inl before ↦ rw kept before | inr same ↦ absurd (other same) ],
        )
  ]

  tally_cells_iff :
      (n : ℕ) (cells : Cells) (nodi : List ℕ)
      → t < length nodi
      → Counted (tally_cells n cells nodi) t ↔ (Counted nodi t ⊎ HoldsNode n cells t)
  unfolding tally_cells
  tally_cells_iff zero cells nodi l =
      (inl, λ h. elim h [ inl c ↦ c | inr (i, lt, e) ↦ absurd (omega arith) ])
  tally_cells_iff (suc n) [] nodi l =
      (inl, λ h. elim h [ inl c ↦ c | inr (i, lt, e) ↦ absurd (cc) ])
  tally_cells_iff (suc n) (none ∷ cells) nodi l =
      let (to, from) = tally_cells_iff n cells nodi l in
      (
        (λ h. elim (to h) [ inl c ↦ inl c | inr (i, lt, e) ↦ inr (suc i, omega arith, e) ]),
        λ h. elim h [
          | inl c ↦ from (inl c)
          | inr (zero, lt, e) ↦ absurd (cc)
          | inr (suc i, lt, e) ↦ from (inr (i, omega arith, e))
        ],
      )
  tally_cells_iff (suc n) (some u ∷ cells) nodi l =
      let (to, from) =
        tally_cells_iff n cells (counted u nodi)
          (omega (arith, length-set nodi u (get_or nodi u 0 + 1))) in
      let (into, out) = counted_iff u nodi l in
      (
        (λ h. elim (to h) [
          | inl c ↦ elim (into c) [
            | inl before ↦ inl before
            | inr same ↦ inr (0, omega arith, ap some same)
          ]
          | inr (i, lt, e) ↦ inr (suc i, omega arith, e)
        ]),
        λ h. elim h [
          | inl c ↦ from (inl (out (inl c)))
          | inr (zero, lt, e) ↦ from (inl (out (inr (cc))))
          | inr (suc i, lt, e) ↦ from (inr (i, omega arith, e))
        ],
      )

  pub tally_lists_iff :
      (n : ℕ) (ls : List Cells) (nodi : List ℕ)
      → t < length nodi
      → Counted (tally_lists n ls nodi) t
        ↔ (Counted nodi t ⊎ ((age : ℕ) × (age < n) × HoldsNode vista_age (get_or ls age []) t))
  unfolding tally_lists
  tally_lists_iff zero ls nodi l =
      (inl, λ h. elim h [ inl c ↦ c | inr (age, lt, e) ↦ absurd (omega arith) ])
  tally_lists_iff (suc n) [] nodi l =
      (inl, λ h. elim h [ inl c ↦ c | inr (age, lt, (i, below, e)) ↦ absurd (cc) ])
  tally_lists_iff (suc n) (cells ∷ ls) nodi l =
      let (to, from) =
        tally_lists_iff n ls (tally_cells vista_age cells nodi)
          (omega (arith, length-tally_cells vista_age cells nodi)) in
      let (into, out) = tally_cells_iff vista_age cells nodi l in
      (
        (λ h. elim (to h) [
          | inl c ↦ elim (into c) [
            | inl before ↦ inl before
            | inr held ↦ inr (0, omega arith, held)
          ]
          | inr (age, lt, held) ↦ inr (suc age, omega arith, held)
        ]),
        λ h. elim h [
          | inl c ↦ from (inl (out (inl c)))
          | inr (zero, lt, held) ↦ from (inl (out (inr held)))
          | inr (suc age, lt, held) ↦ from (inr (age, omega arith, held))
        ],
      )
