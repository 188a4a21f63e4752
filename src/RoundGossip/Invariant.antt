-- ===== src/RoundGossip/Invariant.antt =====
-- A whole round of gossip leaves the buffers of the peer valid, whatever comes in meanwhile.
use rounds.Base.{ℕ, zero, suc, ◌+◌, ◌-◌, inl, inr, Bool-cases}
use rounds.Params.{max_count_rg_rs}
use rounds.Neighbour.{age_plus_one}
use rounds.Neighbour.Aging.{age_plus_one_lem}
use rounds.MessageLog.Laws as LogLaws
use rounds.ByePeers.Laws as ByeLaws
use rounds.Fanout.Laws.{new_fanout-FanoutIsValid}
use rounds.Rounds.{Outcome, ended, exits, null_message, runs_out, process_rs}
use rounds.Rounds.Ready.{LeavesReady, process_rs-LeavesReady}
use rounds.RoundGossip.{
  RoundWorld, RoundState, Stage, ◌then_do◌, meanwhile, procedura_exit, choose_fanout, after_rs,
  round_speed, compose, grow_older, tell_all, forget_dated, rs_rounds, process_rg,
}
use rounds.RoundGossip.Arrivals.{
  RoundInv, OnStage, then_do-OnStage, with_node-RoundInv, with_neighbours-NodeInv, ArrivalsFit,
  handle_all-RoundInv,
}
use rounds.RoundGossip.Sending.{new_buffer_rg-RgFits, tell_all-RoundInv}

module _ (w : RoundWorld) where
  abbrev pub Good : Stage → Type 0
  Good = OnStage (RoundInv w.me)

  abbrev pub Keeps : (RoundState → Stage) → Type 0
  Keeps f = (s : RoundState) → RoundInv w.me s → Good (f s)

  and_then : (m : Stage) (f : RoundState → Stage) → Good m → Keeps f → Good (m then_do f)
  and_then m f v keep = then_do-OnStage (RoundInv w.me) m f v keep

  procedura_exit-Keeps : (n : ℕ) → Keeps (procedura_exit w n)
  procedura_exit-Keeps n s v = elim (Bool-cases (w.exit_rg n)) [
    | inl stop ↦ rw stop v
    | inr go ↦ rw go v
  ]

  pub choose_fanout-Keeps : Keeps (choose_fanout w)
  choose_fanout-Keeps s v = record {
    node = v.node;
    fanout = new_fanout-FanoutIsValid w.me w.x w.fanout_rands s.node.neighbours v.node.neighbours;
    rg = v.rg;
    told = v.told;
  }

  pub round_speed-Keeps : Keeps (round_speed w)
  unfolding round_speed
  round_speed-Keeps s v =
      go (process_rs w.net s.node.bye_peers s.fanout s.node.rs)
        (process_rs-LeavesReady w.net s.node.bye_peers s.fanout s.node.rs v.node.rs)
    where
      go : (o : Outcome) → LeavesReady o → Good (after_rs w s o)
      go (ended b ds) ready = record {
        node = record {
          neighbours = v.node.neighbours;
          messages = v.node.messages;
          bye_peers = v.node.bye_peers;
          rs = ready;
          one_event = v.node.one_event;
          event = v.node.event;
        };
        fanout = v.fanout;
        rg = v.rg;
        told = v.told;
      }
      go (exits code out) (inl three) = inl three
      go (exits code out) (inr four) = inr (inl four)
      go null_message h = h
      go runs_out h = h

  pub compose-Keeps : Keeps (compose w)
  compose-Keeps s v = record {
    node = v.node;
    fanout = v.fanout;
    rg =
        new_buffer_rg-RgFits w.me w.files w.x s.node.neighbours s.fanout.limit w.draws
          v.node.neighbours.valid;
    told = v.told;
  }

  pub grow_older-Keeps : Keeps (grow_older w)
  grow_older-Keeps s v = with_node-RoundInv s _ v (
      with_neighbours-NodeInv s.node (age_plus_one s.node.neighbours) v.node
        (age_plus_one_lem w.me s.node.neighbours v.node.neighbours).0)

  pub forget_dated-Keeps : Keeps (forget_dated w)
  forget_dated-Keeps s v = with_node-RoundInv s _ v (record {
    neighbours = v.node.neighbours;
    messages = (LogLaws.delete_dated_msg_lem w.now s.node.messages v.node.messages).0;
    bye_peers = ByeLaws.delete_dated_bye_peer-AllBlank w.now s.node.bye_peers v.node.bye_peers;
    rs = v.node.rs;
    one_event = v.node.one_event;
    event = v.node.event;
  })

  module _ (fit : (n : ℕ) → ArrivalsFit w.me (w.arrive n)) where
    meanwhile-Keeps : (n : ℕ) → Keeps (meanwhile w n)
    meanwhile-Keeps n s v = handle_all-RoundInv w (w.arrive n) s (fit n) v

    rs_rounds-Keeps : (n i : ℕ) → Keeps (rs_rounds w n i)
    unfolding rs_rounds
    rs_rounds-Keeps zero i s v = v
    rs_rounds-Keeps (suc n) i s v =
        and_then _ (rs_rounds w n (i + 1))
          (and_then _ (meanwhile w (i + 3))
            (and_then _ (round_speed w) (procedura_exit-Keeps i s v) round_speed-Keeps)
            (meanwhile-Keeps (i + 3)))
          (rs_rounds-Keeps n (i + 1))

    -- The steps before the fanout has been told, and those behind them.
    process_rg-Keeps : Keeps (process_rg w)
    unfolding process_rg
    process_rg-Keeps s v =
        and_then _ (rs_rounds w (max_count_rg_rs - 1) 2)
          (and_then _ (forget_dated w)
            (and_then _ (meanwhile w 4)
              (and_then _ (λ s'. tell_all w s'.fanout.limit 0 s')
                (and_then _ (meanwhile w 3)
                  (and_then _ (grow_older w)
                    (and_then _ (meanwhile w 2)
                      (and_then _ (procedura_exit w 1)
                        (and_then _ (compose w)
                          (and_then _ (meanwhile w 1)
                            (and_then _ (round_speed w)
                              (and_then _ (choose_fanout w)
                                (and_then _ (meanwhile w 0) (procedura_exit-Keeps 0 s v)
                                  (meanwhile-Keeps 0))
                                choose_fanout-Keeps)
                              round_speed-Keeps)
                            (meanwhile-Keeps 1))
                          compose-Keeps)
                        (procedura_exit-Keeps 1))
                      (meanwhile-Keeps 2))
                    grow_older-Keeps)
                  (meanwhile-Keeps 3))
                (λ s' v'. tell_all-RoundInv w s'.fanout.limit 0 s' v'))
              (meanwhile-Keeps 4))
            forget_dated-Keeps)
          (rs_rounds-Keeps (max_count_rg_rs - 1) 2)

-- One turn of the round gossip, with fit messages and gossips coming in between any two of its steps,
-- and the threads it starts running one after the other: from valid buffers it is never undefined.
-- Where it ends, or its thread does, all buffers are valid, the fanout is, and every information
-- gossip sent has ages that its receiver accepts; otherwise the process has ended with the code 1, 3
-- or 4.
pub process_rg-RoundInv :
    (w : RoundWorld) (s : RoundState)
    → ((n : ℕ) → ArrivalsFit w.me (w.arrive n))
    → RoundInv w.me s
    → OnStage (RoundInv w.me) (process_rg w s)
process_rg-RoundInv w s fit v = process_rg-Keeps w fit s v
