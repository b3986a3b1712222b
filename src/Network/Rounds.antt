-- ===== src/Network/Rounds.antt =====
-- One round of the gossip loop (startGossip in agent.go) against the server (server.go).
use p2p_update.Common.{
  ℕ, ◌+◌, ◌≤◌, ◌<◌, ◌≡◌, refl, sym, subst, ◌∙◌, Bool, true, false, Option, none, some, List, Text,
  inl, inr, ltb, arith, Bool-cases, bytes_eq,
}
use p2p_update.Common.Dict.{lookup}
use p2p_update.Notification.{Notification, Crypto}
use p2p_update.Agent.{Host}
use p2p_update.Agent.Trust.{IsWellFormed}
use p2p_update.Agent.Table.{view}
use p2p_update.Agent.Sources.{Runtime, HttpReply, read_tcp, read_overlay, gossip_round}
use p2p_update.Server.{Server}
use p2p_update.Server.History.{IsStored}
use p2p_update.Distribution.{HasNoNil, fetch, fetch-returns, fetch-grows}
use p2p_update.Network.{database, IsHeard}

module _ (h : Host) (c : Crypto) (public_key : c.PublicKey) where
  -- What a round keeps of the buffer and the configuration.
  abbrev pub Returns : Runtime → Option Runtime → Type 0
  Returns rt result =
      (rt' : Runtime) × (result ≡ some rt')
      × HasNoNil rt'.buf_notifications
      × (rt'.read_tcp_interval ≡ rt.read_tcp_interval)

  read_tcp_failed :
      (rt : Runtime) (reply : HttpReply)
      → reply.failed ≡ true
      → read_tcp h c public_key rt reply ≡ some rt
  unfolding read_tcp
  read_tcp_failed rt reply e = ground (arith, e)

  read_tcp-Returns :
      (s : Server) (rt : Runtime) (reply : HttpReply)
      → IsHeard c public_key s reply
      → HasNoNil rt.buf_notifications
      → Returns rt (read_tcp h c public_key rt reply)
  read_tcp-Returns s rt reply (inl answered) p =
      subst (λ (r : HttpReply). Returns rt (read_tcp h c public_key rt r)) (sym answered)
        (fetch-returns h c public_key s 0 rt p)
  read_tcp-Returns s rt reply (inr failed) p = (rt, read_tcp_failed rt reply failed, p, refl)

  module _ (decode : List ℕ → Notification → Bool × Notification) where
    -- A round returns, whatever the overlay delivers, if the map that is kept between the rounds has
    -- no nil pointer.
    pub gossip_round-Returns :
        (s : Server) (rt : Runtime) (ready : Bool) (reply : HttpReply) (message : Option (List ℕ))
        → IsHeard c public_key s reply
        → HasNoNil rt.buf_notifications
        → Returns rt (gossip_round h c public_key decode rt ready reply message)
    unfolding gossip_round
    gossip_round-Returns s rt false reply message heard p =
        elim (Bool-cases (ltb rt.read_tcp_interval (rt.counter + 1))) [
          | inl due ↦ rw due (read_tcp-Returns s (record rt { counter = 0 }) reply heard p)
          | inr early ↦ rw early (record rt { counter = rt.counter + 1 }, refl, p, refl)
        ]
    gossip_round-Returns s rt true reply none heard p =
        unfold read_overlay in (record rt { counter = 0 }, refl, p, refl)
    gossip_round-Returns s rt true reply (some bytes) heard p =
        unfold read_overlay in (_, refl, p, refl)

    -- A round in which the overlay is not ready and the poll is due.
    pub due_round :
        (s : Server) (rt : Runtime) (message : Option (List ℕ))
        → rt.read_tcp_interval < rt.counter + 1
        → gossip_round h c public_key decode rt false (database c public_key s) message
          ≡ fetch h c public_key s 0 (record rt { counter = 0 })
    unfolding gossip_round
    due_round s rt message due = ground (arith, due)

    pub early_round :
        (s : Server) (rt : Runtime) (message : Option (List ℕ))
        → rt.counter + 1 ≤ rt.read_tcp_interval
        → gossip_round h c public_key decode rt false (database c public_key s) message
          ≡ some (record rt { counter = rt.counter + 1 })
    unfolding gossip_round
    early_round s rt message early = ground (arith, early)

    -- After a round that polls the agent holds, for each UUID of the server, its version or a later one.
    pub due_round-grows :
        (s : Server) (rt rt' : Runtime) (message : Option (List ℕ)) (k : Text) (n : Notification)
        → IsWellFormed rt.agent
        → IsStored c public_key s
        → rt.read_tcp_interval < rt.counter + 1
        → gossip_round h c public_key decode rt false (database c public_key s) message ≡ some rt'
        → lookup k s.updates ≡ some n
        → (n' : Notification) × (view rt'.agent k ≡ some n') × (n.version ≤ n'.version)
    due_round-grows s rt rt' message k n sound stored due e present =
        fetch-grows h c public_key s 0 (record rt { counter = 0 }) rt' k n sound stored
          (sym (due_round s rt message due) ∙ e) present
