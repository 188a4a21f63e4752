-- ===== src/Network/Safety.antt =====
-- Peers that have started and send each other messages stay valid for ever.
use rounds.Base.{ℕ, ◌≤◌, length}
use rounds.Params.{id_m_partial}
use rounds.Peer.{Peer}
use rounds.RoundGossip.Arrivals.{AllFit, RoundInv, OnStage}
use rounds.Network.{Host, Net}
use rounds.Network.Queue.{MailFits}
use rounds.Network.Sends.{StageSound}

-- A peer that goes on, or whose threads have ended, has valid buffers. Its process has ended with the
-- code 1, 3 or 4 otherwise; nothing undefined has happened.
pub record HostInv (h : Host) : Type 0 where
  pub id : id_m_partial ≤ length h.id_msg_const
  pub stage : OnStage (RoundInv h.me) h.stage
  pub sound : StageSound h.stage

-- And what is on the way is fit for every receiver.
pub record NetInv (net : Net) : Type 0 where
  pub hosts : (i : ℕ) → HostInv (net.hosts i)
  pub mail : MailFits net.mail
  pub news : AllFit net.news
