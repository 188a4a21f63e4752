-- ===== src/Simulator/Coverage/Reach.antt =====
-- The coverage of the network counts the nodes that can be learnt of.
use rounds.Base.{
  ℕ, zero, suc, ◌≡◌, ◌<◌, ◌⊎◌, inl, inr, refl, ◌∙◌, sym, arith, Option, none, some, List, [], ◌∷◌,
  length, get_or, take-length, ◌↔◌, length-replicate, replicate, subst, get_or-replicate,
}
use rounds.Simulator.{fanout, max_age, vista_age, Cells, Network, nodo_at}
use rounds.Simulator.Query.{AllNodes, HasFanout, AllHaveFanout}
use rounds.Simulator.Coverage.{hops_copertura, members, ricorsive_membership}
use rounds.Simulator.Coverage.Counts.{
  ListsKnown, tally_lists, count_lists-tally_lists, HoldsNode, Counted, length-tally_lists,
  tally_lists_iff,
}

-- The lists of every node hold nodes of the network only.
abbrev pub AllKnow : Network → Type 0
AllKnow net = (n : ℕ) → n < length net → ListsKnown (length net) (nodo_at net n).neighbour

-- A node can be learnt of in so many hops: it stands in a list of the node, or it can be learnt of, in
-- one hop less, from a peer of its fanout.
pub Learns : ℕ → Network → ℕ → ℕ → Type 0
Learns zero net n t = ⊥
Learns (suc hops) net n t =
    ((age : ℕ) × (age < max_age) × HoldsNode vista_age (get_or (nodo_at net n).neighbour age []) t)
    ⊎ ((i : ℕ) × (u : ℕ) × (i < fanout)
        × (get_or (nodo_at net n).buffer_fanout i none ≡ some u)
        × Learns hops net u t)

module _ (t : ℕ) where
  -- A result with the counters of `k` nodes, among which `t` is counted if it was before or `p` holds.
  abbrev Adds : ℕ → Type 0 → List ℕ → Option (List ℕ) → Type 0
  Adds k p nodi r =
      (nodi' : List ℕ) × (r ≡ some nodi')
      × (length nodi' ≡ k)
      × (Counted nodi' t ↔ (Counted nodi t ⊎ p))

  module _ (k : ℕ) (member : Option ℕ → List ℕ → Option (List ℕ)) (P : ℕ → Type 0)
      (each : (u : ℕ) (nodi : List ℕ)
        → u < k
        → length nodi ≡ k
        → Adds k (P u) nodi (member (some u) nodi)) where
    members-Adds :
        (cells : Cells) (nodi : List ℕ)
        → AllNodes k cells
        → length nodi ≡ k
        → Adds k
            ((i : ℕ) × (u : ℕ) × (i < length cells) × (get_or cells i none ≡ some u) × P u)
            nodi
            (members member cells nodi)
    unfolding members
    members-Adds [] nodi all len =
        (nodi, refl, len, (inl, λ h. elim h [ inl c ↦ c | inr (i, u, lt, e, p) ↦ absurd (cc) ]))
    members-Adds (none ∷ cells) nodi all len = absurd all
    members-Adds (some u ∷ cells) nodi (lt, all) len =
        let (nodi₁, e₁, len₁, (to₁, from₁)) = each u nodi lt len in
        let (nodi₂, e₂, len₂, (to₂, from₂)) = members-Adds cells nodi₁ all len₁ in
        (
          nodi₂,
          rw (e₁, members) e₂,
          len₂,
          (
            (λ h. elim (to₂ h) [
              | inl c ↦ elim (to₁ c) [
                | inl before ↦ inl before
                | inr p ↦ inr (0, u, omega arith, refl, p)
              ]
              | inr (i, v, below, e, p) ↦ inr (suc i, v, omega arith, e, p)
            ]),
            λ h. elim h [
              | inl c ↦ from₂ (inl (from₁ (inl c)))
              | inr (zero, v, below, e, p) ↦
                  let same : v ≡ u = cc in from₂ (inl (from₁ (inr (subst P same p))))
              | inr (suc i, v, below, e, p) ↦ from₂ (inr (i, v, omega arith, e, p))
            ],
          ),
        )

  ricorsive_membership-Adds :
      (hops : ℕ) (net : Network)
      → AllHaveFanout net
      → AllKnow net
      → t < length net
      → (n : ℕ) (nodi : List ℕ) → n < length net
      → length nodi ≡ length net
      → Adds (length net) (Learns hops net n t) nodi (ricorsive_membership hops net (some n) nodi)
  unfolding ricorsive_membership Learns
  ricorsive_membership-Adds zero net full know in_net n nodi lt len =
      (nodi, refl, len, (inl, λ h. elim h [ inl c ↦ c | inr p ↦ absurd p ]))
  ricorsive_membership-Adds (suc hops) net full know in_net n nodi lt len =
      let a = nodo_at net n in
      let v : HasFanout (length net) a = full n lt in
      let lists = tally_lists max_age a.neighbour nodi in
      let (into, out) = tally_lists_iff t max_age a.neighbour nodi (omega arith) in
      let (nodi', e, len', (to, from)) =
        members-Adds (length net) (ricorsive_membership hops net) (λ u. Learns hops net u t)
          (ricorsive_membership-Adds hops net full know in_net) a.buffer_fanout lists v.nodes
          (length-tally_lists max_age a.neighbour nodi ∙ len) in
      (
        nodi',
        rw
            (
              ricorsive_membership,
              count_lists-tally_lists max_age a.neighbour nodi
                  (subst (λ k. ListsKnown k a.neighbour) (sym len) (know n lt)),
              take-length fanout a.buffer_fanout v.size,
            )
            e,
        len',
        (
          (λ h. elim (to h) [
            | inl c ↦ elim (into c) [ inl before ↦ inl before | inr held ↦ inr (inl held) ]
            | inr (i, u, below, here, p) ↦ inr (inr (i, u, omega (arith, v.size), here, p))
          ]),
          λ h. elim h [
            | inl c ↦ from (inl (out (inl c)))
            | inr (inl held) ↦ from (inl (out (inr held)))
            | inr (inr (i, u, below, here, p)) ↦ from (inr (i, u, omega (arith, v.size), here, p))
          ],
        ),
      )

-- In a network where every node has chosen its fanout among the nodes, and knows nodes of the network
-- only: `ricorsive_membership` from a node on counters that are 0 ends without an index out of bounds,
-- and counts exactly the nodes that this node can learn of in six hops.
pub ricorsive_membership_iff :
    (net : Network) (n t : ℕ)
    → AllHaveFanout net
    → AllKnow net
    → n < length net
    → t < length net
    → (nodi : List ℕ) × (ricorsive_membership hops_copertura net (some n) (replicate (length net) 0)
        ≡ some nodi)
      × (Counted nodi t ↔ Learns hops_copertura net n t)
ricorsive_membership_iff net n t full know lt in_net =
    let (nodi, e, len, (to, from)) =
      ricorsive_membership-Adds t hops_copertura net full know in_net n (replicate (length net) 0)
        lt (length-replicate (length net) 0) in
    (
      nodi,
      e,
      (
        (λ h. elim (to h) [
          | inl c ↦ absurd (omega (arith, get_or-replicate {A = ℕ} (length net) t 0))
          | inr p ↦ p
        ]),
        λ p. from (inr p),
      ),
    )
