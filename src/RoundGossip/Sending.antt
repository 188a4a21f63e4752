-- ===== src/RoundGossip/Sending.antt =====
-- The gossips that a round composes and sends.
use rounds.Base.{
  ℕ, zero, suc, ◌+◌, ◌≡◌, ◌≤◌, ◌∙◌, inl, inr, refl, arith, if◌then◌else◌, List, [], ◌∷◌, ◌++◌,
  length, get_or, Bool-cases, length-set, set, set_keeps, get_or-replicate, take, drop, drop-take,
  drop_ge, length-take, append-nil, append_assoc, ap,
}
use rounds.Params.{fanout, gossip_nodi}
use rounds.Peer.{Peer, nobody}
use rounds.Neighbour.{BufferNeighbour}
use rounds.Neighbour.Table.{IsValid}
use rounds.ByePeers.{BufferByePeer, search_bye_peer}
use rounds.MyFiles.{BufferFile}
use rounds.Random.{RandomX}
use rounds.Handlers.{Connection, connected, no_socket, not_connected}
use rounds.Inform.{GossipInformations}
use rounds.Inform.Laws.{AgesFit}
use rounds.Gossip.{
  blank_inf, reset_gossip_inf2, new_gossip_inf2, Draws, BufferRg, reset_buffer_rg, fill_rg,
  new_buffer_rg,
}
use rounds.Gossip.Received.{new_gossip_inf2-AgesFit}
use rounds.RoundGossip.{
  InfDelivery, RoundWorld, RoundState, goes, process_exits, tell, func_helper_snd_rg, tell_all,
  inf_address,
}
use rounds.RoundGossip.Arrivals.{
  RgFits, AllFit, none_told, one_more, RoundInv, OnStage, then_do-OnStage,
}

reset_gossip-AgesFit : AgesFit reset_gossip_inf2.list_neighbour
reset_gossip-AgesFit i h = rw (get_or-replicate gossip_nodi i blank_inf) (omega arith)

pub reset_buffer_rg-RgFits : RgFits reset_buffer_rg
reset_buffer_rg-RgFits = record {
  size = refl;
  fits = λ i. rw (get_or-replicate fanout i reset_gossip_inf2) reset_gossip-AgesFit;
}

module _ (me : Peer) (files : BufferFile) (x : RandomX) (b : BufferNeighbour) where
  fill_rg-RgFits :
      (n i : ℕ) (draws : ℕ → Draws) (g : BufferRg)
      → IsValid b
      → RgFits g
      → RgFits (fill_rg me files x b n i draws g)
  unfolding fill_rg
  fill_rg-RgFits zero i draws g ok v = v
  fill_rg-RgFits (suc n) i draws g ok v =
      let new = new_gossip_inf2 me files (draws i).turns x (draws i).rands b in
      fill_rg-RgFits n (i + 1) draws (record g { list_inf = set g.list_inf i new }) ok
        (record {
          size = length-set g.list_inf i new ∙ v.size;
          fits = λ k.
              set_keeps (λ h. AgesFit h.list_neighbour) g.list_inf i k new reset_gossip_inf2
                (new_gossip_inf2-AgesFit me files (draws i).turns x (draws i).rands b ok)
                (v.fits k);
        })

  pub new_buffer_rg-RgFits :
      (limit : ℕ) (draws : ℕ → Draws) → IsValid b → RgFits (new_buffer_rg me files x b limit draws)
  new_buffer_rg-RgFits limit draws ok =
      fill_rg-RgFits limit 0 draws reset_buffer_rg ok reset_buffer_rg-RgFits

AllFit-snoc :
    (ds : List InfDelivery) (p : Peer) (g : GossipInformations)
    → AllFit ds
    → AgesFit g.list_neighbour
    → AllFit (ds ++ ((p, g) ∷ []))
AllFit-snoc [] p g none_told h = one_more p g none_told h
AllFit-snoc (_ ∷ ds) p g (one_more q e all fits) h = one_more q e (AllFit-snoc ds p g all h) fits

module _ (w : RoundWorld) where
  tell-RoundInv :
      (p : Peer) (g : GossipInformations) (s : RoundState)
      → AgesFit g.list_neighbour
      → RoundInv w.me s
      → OnStage (RoundInv w.me) (tell w p g s)
  tell-RoundInv p g s fits v = go (w.net (inf_address w p))
    where
      go :
          (c : Connection)
          → OnStage (RoundInv w.me) (elim c [
            | connected ↦ goes (record s { told = s.told ++ ((inf_address w p, g) ∷ []) })
            | no_socket ↦ process_exits 3 s.sent
            | not_connected ↦ process_exits 4 s.sent
          ])
      go connected = record {
        node = v.node;
        fanout = v.fanout;
        rg = v.rg;
        told = AllFit-snoc s.told (inf_address w p) g v.told fits;
      }
      go no_socket = inl refl
      go not_connected = inr (inl refl)

  pub func_helper_snd_rg-RoundInv :
      (t : ℕ) (s : RoundState)
      → RoundInv w.me s
      → OnStage (RoundInv w.me) (func_helper_snd_rg w t s)
  unfolding func_helper_snd_rg
  func_helper_snd_rg-RoundInv t s v =
      elim (Bool-cases (search_bye_peer (get_or s.fanout.nodi t nobody) s.node.bye_peers)) [
        | inl gone ↦ rw gone v
        | inr here ↦ rw here (
            tell-RoundInv (get_or s.fanout.nodi t nobody) (get_or s.rg.list_inf t reset_gossip_inf2)
              s (v.rg.fits t) v)
      ]

  pub tell_all-RoundInv :
      (n t : ℕ) (s : RoundState) → RoundInv w.me s → OnStage (RoundInv w.me) (tell_all w n t s)
  unfolding tell_all
  tell_all-RoundInv zero t s v = v
  tell_all-RoundInv (suc n) t s v =
      then_do-OnStage (RoundInv w.me) (func_helper_snd_rg w t s) (tell_all w n (t + 1))
        (func_helper_snd_rg-RoundInv t s v) (λ s' v'. tell_all-RoundInv n (t + 1) s' v')

  -- The gossip of the same place for each peer, but for the peers that have left.
  pub due : BufferByePeer → List Peer → List GossipInformations → List InfDelivery
  due byes [] gs = []
  due byes (p ∷ ps) [] = []
  due byes (p ∷ ps) (g ∷ gs) =
      if search_bye_peer p byes then due byes ps gs else (inf_address w p, g) ∷ due byes ps gs

  module _ (reachable : (p : Peer) → w.net p ≡ connected) where
    tell_connected :
        (p : Peer) (g : GossipInformations) (s : RoundState)
        → tell w p g s ≡ goes (record s { told = s.told ++ ((inf_address w p, g) ∷ []) })
    tell_connected p g s = rw (reachable (inf_address w p), tell) refl

    tell_from :
        (n t : ℕ) (s : RoundState)
        → t + n ≡ s.fanout.limit
        → s.fanout.limit ≤ length s.fanout.nodi
        → s.fanout.limit ≤ length s.rg.list_inf
        → tell_all w n t s
          ≡ goes (record s {
            told =
                s.told
                ++ due s.node.bye_peers
                    (drop t (take s.fanout.limit s.fanout.nodi))
                    (drop t (take s.fanout.limit s.rg.list_inf));
          })
    unfolding tell_all func_helper_snd_rg due
    tell_from zero t s e hp hg =
        rw
          (
            drop_ge t (take s.fanout.limit s.fanout.nodi)
                (omega (arith, length-take s.fanout.limit s.fanout.nodi)),
            append-nil s.told,
          )
          refl
    tell_from (suc n) t s e hp hg =
        let p = get_or s.fanout.nodi t nobody in
        let g = get_or s.rg.list_inf t reset_gossip_inf2 in
        rw
          (
            drop-take t s.fanout.limit s.fanout.nodi nobody (omega arith) hp,
            drop-take t s.fanout.limit s.rg.list_inf reset_gossip_inf2 (omega arith) hg,
          )
          (elim (Bool-cases (search_bye_peer p s.node.bye_peers)) [
            | inl gone ↦ rw gone (tell_from n (t + 1) s (omega arith) hp hg)
            | inr here ↦
                rw (here, tell_connected p g s)
                  (tell_from n (t + 1) (record s { told = s.told ++ ((inf_address w p, g) ∷ []) })
                      (omega arith) hp hg
                    ∙ ap (λ ds. goes (record s { told = ds }))
                        (append_assoc s.told ((inf_address w p, g) ∷ []) (
                          due s.node.bye_peers (drop (t + 1) (take s.fanout.limit s.fanout.nodi))
                            (drop (t + 1) (take s.fanout.limit s.rg.list_inf)))))
          ])

-- From a state of a round with the invariant, where every peer can be reached: each peer of the
-- fanout that has not left gets the gossip of its place in the buffer, in order, at its address with
-- the port one higher; no other peer gets one, and nothing else changes.
pub tell_all_lem :
    (w : RoundWorld) (s : RoundState)
    → ((p : Peer) → w.net p ≡ connected)
    → RoundInv w.me s
    → tell_all w s.fanout.limit 0 s
      ≡ goes (record s {
        told =
            s.told
            ++ due w s.node.bye_peers
                (take s.fanout.limit s.fanout.nodi)
                (take s.fanout.limit s.rg.list_inf);
      })
unfolding drop
tell_all_lem w s reachable v =
    tell_from w reachable s.fanout.limit 0 s (omega arith) (omega (arith, v.fanout.size))
      (omega (arith, v.fanout.limited, v.rg.size))
