-- ===== src/Bootstrap/Refused.antt =====
-- A peer that the bootstrap server offers too few peers keeps asking.
use rounds.Base.{ℕ, ◌≡◌, ◌<◌, ◌≤◌, refl, arith, List, [], ◌∷◌, lt→ltb, Bool-cases, inl, inr}
use rounds.Params.{server_nodi}
use rounds.Peer.{Peer}
use rounds.Handlers.{World, Node}
use rounds.BootServer.{BufferNodi, iscrizione, search_nodo, func_helper_servboot}
use rounds.BootServer.Answers.{set_gserver_nodi-many}
use rounds.Bootstrap.{servboot_min_nodi, Contact, asking, receive_all, bootstrap2_ciclic}

-- Every answer names fewer peers than a newcomer wants, and nothing comes in behind it.
abbrev pub AllTooFew : List Contact → Type 0
AllTooFew [] = Unit {0}
AllTooFew (c ∷ cs) = (c.servboot_nodi.limit < servboot_min_nodi) × (c.incoming ≡ []) × AllTooFew cs

pub bootstrap2_ciclic-refused :
    (cs : List Contact) (n : Node) → AllTooFew cs → bootstrap2_ciclic cs n ≡ asking n
unfolding bootstrap2_ciclic receive_all
bootstrap2_ciclic-refused [] n few = refl
bootstrap2_ciclic-refused (c ∷ cs) n (few, quiet, rest) =
    rw (lt→ltb c.servboot_nodi.limit servboot_min_nodi few, quiet, bootstrap2_ciclic)
      (bootstrap2_ciclic-refused cs n rest)

iscrizione-limit : (p : Peer) (b : BufferNodi) → b.limit ≤ (iscrizione p b).0.limit
unfolding iscrizione
iscrizione-limit p b = ground arith

func_helper_servboot-many :
    (p : Peer) (rands : List ℕ) (b : BufferNodi)
    → server_nodi < b.limit
    → (func_helper_servboot p rands b).1.limit ≡ 0
unfolding func_helper_servboot
func_helper_servboot-many p rands b h = elim (Bool-cases (search_nodo p b)) [
  | inl known ↦ rw known (set_gserver_nodi-many p rands b h)
  | inr new ↦
      rw new
        (set_gserver_nodi-many p rands (iscrizione p b).0 (omega (arith, iscrizione-limit p b)))
]

-- The requests of `p` to the server, with the table that each of them meets and what is drawn.
unfoldable pub requests : World → Peer → List (BufferNodi × List ℕ) → List Contact
requests w p [] = []
requests w p ((b, rands) ∷ more) =
    record { world = w; servboot_nodi = (func_helper_servboot p rands b).1; incoming = [] }
    ∷ requests w p more

abbrev pub AllLarge : List (BufferNodi × List ℕ) → Type 0
AllLarge [] = Unit {0}
AllLarge ((b, rands) ∷ more) = (server_nodi < b.limit) × AllLarge more

requests-AllTooFew :
    (w : World) (p : Peer) (tables : List (BufferNodi × List ℕ))
    → AllLarge tables
    → AllTooFew (requests w p tables)
unfolding requests
requests-AllTooFew w p [] large = tt
requests-AllTooFew w p ((b, rands) ∷ more) (large, rest) = (
  omega (arith, func_helper_servboot-many p rands b large),
  refl,
  requests-AllTooFew w p more rest,
)

-- Where the table of the server holds more than ten peers at every request, a newcomer asks again
-- after each of them: it greets nobody, and its buffers stay as they are.
pub bootstrap2_ciclic-never_joins :
    (w : World) (p : Peer) (tables : List (BufferNodi × List ℕ)) (n : Node)
    → AllLarge tables
    → bootstrap2_ciclic (requests w p tables) n ≡ asking n
bootstrap2_ciclic-never_joins w p tables n large =
    bootstrap2_ciclic-refused (requests w p tables) n (requests-AllTooFew w p tables large)
