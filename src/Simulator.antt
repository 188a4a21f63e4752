-- ===== src/Simulator.antt =====
-- The simulator of the gossip, Simulatori/Simulator_v1.0/general_functions.c and statistic.c. Nodes are
-- numbers, and a cell that holds -1 is `none`. What `rand()` returns is a list; behind its end it
-- is 0.
pub mod Query
pub mod Ages
pub mod Choice
pub mod Fanouts
pub mod Coverage
pub mod Run
use rounds.Base.{
  ltb, length, ℕ, zero, suc, ◌+◌, ◌-◌, Bool, true, false, ◌==◌, if◌then◌else◌, Option, none, some,
  List, [], ◌∷◌, get_or, set, take, replicate, find_first, bit, sum_of,
}
use rounds.Random.{RandomX, num_random, age_of}

-- `_FANOUT`, `_MAX_AGE`, `_VISTA_AGE`, `_GOSSIP_NODI` and `_RAGGIO_QUERY` of the simulator
abbrev pub fanout : ℕ
fanout = 5

abbrev pub max_age : ℕ
max_age = 10

abbrev pub vista_age : ℕ
vista_age = 100

abbrev pub gossip_nodi : ℕ
gossip_nodi = 20

abbrev pub raggio_query : ℕ
raggio_query = 10

abbrev pub Cells : Type 0
Cells = List (Option ℕ)

-- `struct nodo`; `neighbour` are the cells of `nodiAge`.
pub record Nodo : Type 0 where
  pub id_nodo : ℕ
  pub neighbour : List Cells
  pub buffer_fanout : Cells
  pub buffer_arrivi : Cells

-- The array of all nodes.
abbrev pub Network : Type 0
Network = List Nodo

abbrev pub blank_nodo : Nodo
blank_nodo = record { id_nodo = 0; neighbour = []; buffer_fanout = []; buffer_arrivi = [] }

abbrev pub nodo_at : Network → ℕ → Nodo
nodo_at net n = get_or net n blank_nodo

-- `rand()`
abbrev pub next_rand : List ℕ → ℕ × List ℕ
next_rand [] = (0, [])
next_rand (r ∷ rs) = (r, rs)

unfoldable pub reset_list_age : ℕ → Nodo → Nodo
reset_list_age index a = record a { neighbour = set a.neighbour index (replicate vista_age none) }

abbrev pub reset_arrivi : Nodo → Nodo
reset_arrivi a = record a { buffer_arrivi = replicate vista_age none }

abbrev pub reset_buffer : Nodo → Nodo
reset_buffer a = record a { buffer_fanout = replicate fanout none }

-- `for (i = _MAX_AGE - 1; i > 0; --i) nodiAge[i] = nodiAge[i-1];`
unfoldable pub shift_lists : ℕ → List Cells → List Cells
shift_lists zero ls = ls
shift_lists (suc i) ls = shift_lists i (set ls (suc i) (get_or ls i []))

-- `agePlusOne`: the lists go up by one age, and what has arrived is the list of age 0.
unfoldable pub age_plus_one : Nodo → Nodo
age_plus_one a =
    let blank = reset_list_age (max_age - 1) a in
    let temp = get_or blank.neighbour (max_age - 1) [] in
    let moved = set (shift_lists (max_age - 1) blank.neighbour) 0 temp in
    reset_arrivi (record blank { neighbour = set moved 0 (take vista_age a.buffer_arrivi) })

-- The number of cells before the first that holds -1.
unfoldable pub count_filled : ℕ → Cells → ℕ
count_filled zero cells = 0
count_filled (suc n) [] = 0
count_filled (suc n) (none ∷ cells) = 0
count_filled (suc n) (some t ∷ cells) = suc (count_filled n cells)

-- `random_neighbour`: `none` is -1.
unfoldable pub random_neighbour : ℕ → Nodo → List ℕ → Option ℕ × List ℕ
random_neighbour age a rands =
    let cells = get_or a.neighbour age [] in
    let limit = count_filled vista_age cells in
    if limit == 0
    then (none, rands)
    else (let (r, rest) = next_rand rands in (get_or cells (num_random limit r) none, rest))

abbrev pub is_empty : Option ℕ → Bool
is_empty none = true
is_empty (some t) = false

-- The first of `n` cells that holds -1, or one that is drawn.
unfoldable pub put : ℕ → ℕ → Cells → List ℕ → Cells × List ℕ
put n t cells rands = elim (find_first is_empty n cells) [
  | some i ↦ (set cells i (some t), rands)
  | none ↦ let (r, rest) = next_rand rands in (set cells (num_random n r) (some t), rest)
]

unfoldable pub ins_nodo : Nodo → ℕ → ℕ → List ℕ → Nodo × List ℕ
ins_nodo a age t rands =
    let (cells, rest) = put vista_age t (get_or a.neighbour age []) rands in
    (record a { neighbour = set a.neighbour age cells }, rest)

unfoldable pub ins_buffer_arrivi : Nodo → ℕ → List ℕ → Nodo × List ℕ
ins_buffer_arrivi a t rands =
    let (cells, rest) = put fanout t a.buffer_arrivi rands in
    (record a { buffer_arrivi = cells }, rest)

-- A turn of `random_vicini_gossip` from the node `mit` to the node `ric`, which may be the same: the
-- network, and whether a neighbour was found. `none`: no age fits, `exit(0)`.
unfoldable pub pass_on : ℕ → Option ℕ → ℕ → ℕ → List ℕ → Network → Network × Bool × List ℕ
pass_on ric none age mit rands net = (net, false, rands)
pass_on ric (some t) age mit rands net =
    let (a, rest) = ins_nodo (nodo_at net ric) age t rands in (set net ric a, true, rest)

unfoldable pub vicini_turn : RandomX → ℕ → ℕ → List ℕ → Network → Option (Network × Bool × List ℕ)
vicini_turn x ric mit rands net =
    let (r, rest) = next_rand rands in
    elim (age_of (1 + num_random x.estremo r) x.intorno) [
      | none ↦ none
      | some age ↦
          let (t, rest') = random_neighbour age (nodo_at net mit) rest in
          some (pass_on ric t age mit rest' net)
    ]

-- `for (i = 0; i < _GOSSIP_NODI; i++)`, where a turn without a neighbour does not count: `left` are
-- left, and there are at most `turns` turns.
unfoldable pub random_vicini_gossip :
    ℕ → RandomX → ℕ → ℕ → ℕ → List ℕ → Network → Option (Network × List ℕ)
random_vicini_gossip zero x left ric mit rands net = some (net, rands)
random_vicini_gossip (suc turns) x zero ric mit rands net = some (net, rands)
random_vicini_gossip (suc turns) x (suc left) ric mit rands net =
    elim (vicini_turn x ric mit rands net) [
      | none ↦ none
      | some (net', found, rest) ↦
          random_vicini_gossip turns x (if found then left else suc left) ric mit rest net'
    ]

-- `gossip_informations` of the node `mit`, with the turns for each peer of its fanout. `none`: an
-- entry of the fanout is -1, an index out of bounds, or no age fits.
abbrev pub gossip_to : ℕ → RandomX → Option ℕ → ℕ → List ℕ → Network → Option (Network × List ℕ)
gossip_to turns x none mit rands net = none
gossip_to turns x (some ric) mit rands net =
    let (a, rest) = ins_buffer_arrivi (nodo_at net ric) (nodo_at net mit).id_nodo rands in
    random_vicini_gossip turns x gossip_nodi ric mit rest (set net ric a)

unfoldable pub gossip_from : ℕ → ℕ → ℕ → RandomX → ℕ → List ℕ → Network → Option (Network × List ℕ)
gossip_from zero i turns x mit rands net = some (net, rands)
gossip_from (suc n) i turns x mit rands net =
    elim (gossip_to turns x (get_or (nodo_at net mit).buffer_fanout i none) mit rands net) [
      | none ↦ none
      | some (net', rest) ↦ gossip_from n (i + 1) turns x mit rest net'
    ]

abbrev pub gossip_informations : ℕ → RandomX → ℕ → List ℕ → Network → Option (Network × List ℕ)
gossip_informations turns x mit rands net = gossip_from fanout 0 turns x mit rands net

-- `dissemination_nodo`: how often the nodes hold `n` at the age `i`.
abbrev pub holds : ℕ → Option ℕ → ℕ
holds n none = 0
holds n (some t) = bit (t == n)

unfoldable pub dissemination_nodo : ℕ → ℕ → Network → ℕ
dissemination_nodo n i [] = 0
dissemination_nodo n i (a ∷ net) =
    sum_of (holds n) vista_age (get_or a.neighbour i []) + dissemination_nodo n i net

-- `++nodi[t]`; `none`: the index is out of bounds.
abbrev pub counted : ℕ → List ℕ → List ℕ
counted t nodi = set nodi t (get_or nodi t 0 + 1)

unfoldable pub count_node : ℕ → List ℕ → Option (List ℕ)
count_node t nodi = if ltb t (length nodi) then some (counted t nodi) else none

-- The loop of `ricorsive_query` over the fanout; `query` is the call for the next hop. `none`: the
-- entry is -1, an index out of bounds.
unfoldable pub visit : (ℕ → List ℕ → Option (List ℕ)) → Cells → List ℕ → Option (List ℕ)
visit query [] nodi = some nodi
visit query (none ∷ cells) nodi = none
visit query (some t ∷ cells) nodi = elim (count_node t nodi) [
  | none ↦ none
  | some nodi₁ ↦ elim (query t nodi₁) [ some nodi₂ ↦ visit query cells nodi₂ | none ↦ none ]
]

-- `ricorsive_query` with `_RAGGIO_QUERY - hop` hops left.
unfoldable pub ricorsive_query : ℕ → Network → ℕ → List ℕ → Option (List ℕ)
ricorsive_query zero net n nodi = some nodi
ricorsive_query (suc hops) net n nodi =
    visit (ricorsive_query hops net) (take fanout (nodo_at net n).buffer_fanout) nodi

-- The counters behind `ricorsive_query` in `dissemination_query`.
abbrev pub dissemination_query : Network → ℕ → ℕ → Option (List ℕ)
dissemination_query net num_nodi n = ricorsive_query raggio_query net n (replicate num_nodi 0)
