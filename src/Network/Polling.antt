-- ===== src/Network/Polling.antt =====
-- How soon an agent whose overlay is not ready has what the server holds (startGossip and readTCP in
-- agent.go): an agent without UDP, or one that is cut off from its peers.
use p2p_update.Common.{
  ℕ, ◌+◌, ◌≤◌, ◌<◌, ◌≡◌, refl, Bool, false, Option, none, some, List, [], ◌∷◌, Text, inl, inr,
  arith, length, Bool-cases, ltb, bytes_eq,
}
use p2p_update.Common.Dict.{lookup}
use p2p_update.Stun.{Stun, UdpAddr}
use p2p_update.Peer.{Msgpack}
use p2p_update.Notification.{Notification, Crypto}
use p2p_update.Agent.{Agent, Host}
use p2p_update.Agent.Table.{view}
use p2p_update.Agent.Trust.{IsSound, IsWellFormed, Grows}
use p2p_update.Agent.Gossip.{gossip_round-IsWellFormed}
use p2p_update.Agent.Sources.{Runtime, gossip_round}
use p2p_update.Server.{Server}
use p2p_update.Server.History.{IsStored, Reach-Grows, Reach-IsStored}
use p2p_update.Server.Serving.{Serving, Reach}
use p2p_update.Distribution.{HasNoNil}
use p2p_update.Network.{database}
use p2p_update.Network.Rounds.{gossip_round-Returns, early_round, due_round-grows}

-- Rounds of the loop in which no overlay is ready, one for each state of the server.
module _ (st : Stun) (h : Host) (c : Crypto) (public_key : c.PublicKey)
    (decode : List ℕ → Notification → Bool × Notification) where
  abbrev one_round : Serving st → Runtime → Option Runtime
  one_round t rt = gossip_round h c public_key decode rt false (database c public_key t.server) none

  unfoldable pub poll_rounds : List (Serving st) → Runtime → Option Runtime
  poll_rounds [] rt = some rt
  poll_rounds (t ∷ ts) rt = elim (one_round t rt) [ none ↦ none | some rt' ↦ poll_rounds ts rt' ]

  -- What the agent holds against what the server held.
  abbrev HasCaughtUp : Server → Agent → Type 0
  HasCaughtUp s a =
      (k : Text) (n : Notification)
      → lookup k s.updates ≡ some n
      → (n' : Notification) × (view a k ≡ some n') × (n.version ≤ n'.version)

  HasCaughtUp-Grows :
      (s : Server) (a b : Agent) → HasCaughtUp s a → Grows h c public_key a b → HasCaughtUp s b
  HasCaughtUp-Grows s a b caught g k n e =
      let (m, held, le) = caught k n e in
      let (m', held', le') = g k m held in (m', held', omega arith)

  abbrev CatchesUp : Server → Option Runtime → Type 0
  CatchesUp s result = (rt' : Runtime) × (result ≡ some rt') × HasCaughtUp s rt'.agent

  poll_rounds-keep :
      (s : Server) (ts : List (Serving st)) (rt : Runtime)
      → IsWellFormed rt.agent
      → HasNoNil rt.buf_notifications
      → HasCaughtUp s rt.agent
      → CatchesUp s (poll_rounds ts rt)
  unfolding poll_rounds
  poll_rounds-keep s [] rt sound p caught = (rt, refl, caught)
  poll_rounds-keep s (t ∷ ts) rt sound p caught =
      let reply = database c public_key t.server in
      let (rt', e, p', same) =
        gossip_round-Returns h c public_key decode t.server rt false reply none (inl refl) p in
      let (sound', grown) =
        gossip_round-IsWellFormed h c public_key decode rt rt' false reply none sound e in
      rw (e, poll_rounds)
        (poll_rounds-keep s ts rt' sound' p' (HasCaughtUp-Grows s rt.agent rt'.agent caught grown))

  module _ (mp : Msgpack) (delivers : UdpAddr → Bool) where
    -- The server runs in any way before each round.
    abbrev pub Runs : Serving st → List (Serving st) → Type 0
    Runs t [] = Unit
    Runs t (u ∷ us) = Reach st mp delivers c public_key t u × Runs u us

    poll_rounds-reach :
        (s : Server) (t : Serving st) (ts : List (Serving st)) (rt : Runtime)
        → ((k : Text) (n : Notification)
            → lookup k s.updates ≡ some n
            → (n' : Notification) × (lookup k t.server.updates ≡ some n')
              × (n.version ≤ n'.version))
        → IsStored c public_key t.server
        → Runs t ts
        → IsWellFormed rt.agent
        → HasNoNil rt.buf_notifications
        → rt.counter ≤ rt.read_tcp_interval
        → rt.read_tcp_interval < rt.counter + length ts
        → CatchesUp s (poll_rounds ts rt)
    unfolding poll_rounds
    poll_rounds-reach s t [] rt g stored runs sound p low long = absurd (omega arith)
    poll_rounds-reach s t (u ∷ us) rt g stored runs sound p low long =
        let grown = Reach-Grows c public_key st mp delivers runs.0 in
        let stored' = Reach-IsStored c public_key st mp delivers runs.0 stored in
        elim (Bool-cases (ltb rt.read_tcp_interval (rt.counter + 1))) [
          | inr early ↦
              rw (early_round h c public_key decode u.server rt none (ground arith), poll_rounds)
                (poll_rounds-reach s u us (record rt { counter = rt.counter + 1 })
                  (λ k n e.
                    let (m, e', le) = g k n e in
                    let (m', e'', le') = grown k m e' in (m', e'', omega arith))
                  stored' runs.1 sound p (ground arith) (omega arith))
          | inl due ↦
              let reply = database c public_key u.server in
              let (rt', e, p', same) =
                gossip_round-Returns h c public_key decode u.server rt false reply none (inl refl)
                  p in
              let sound' =
                (gossip_round-IsWellFormed h c public_key decode rt rt' false reply none sound
                  e).0 in
              rw (e, poll_rounds)
                (poll_rounds-keep s us rt' sound' p' (λ k n present.
                  let (m, e', le) = g k n present in
                  let (m', e'', le') = grown k m e' in
                  let (m'', held, le'') =
                    due_round-grows h c public_key decode u.server rt rt' none k m' sound stored'
                      (ground arith) e e'' in
                  (m'', held, omega arith)))
        ]

    -- An agent that cannot use the overlay catches up with the server. It starts sound, with no nil
    -- pointer in its buffer and with its counter at most `ReadTCPInterval`; the overlay is ready in none
    -- of its rounds, of which there are enough to bring the counter above that; each request is
    -- answered, while the server, whose database is well formed, runs in any way in between. Then no
    -- round panics, and after them the agent holds, for each UUID that the server had at the start,
    -- that version or a later one.
    pub poll_rounds-catches_up :
        (t : Serving st) (ts : List (Serving st)) (rt : Runtime) (k : Text) (n : Notification)
        → IsStored c public_key t.server
        → Runs t ts
        → IsSound h c public_key rt.agent
        → HasNoNil rt.buf_notifications
        → rt.counter ≤ rt.read_tcp_interval
        → rt.read_tcp_interval < rt.counter + length ts
        → lookup k t.server.updates ≡ some n
        → (rt' : Runtime) × (n' : Notification) × (poll_rounds ts rt ≡ some rt')
          × (view rt'.agent k ≡ some n')
          × (n.version ≤ n'.version)
    poll_rounds-catches_up t ts rt k n stored runs sound p low long present =
        let (rt', e, caught) =
          poll_rounds-reach t.server t ts rt (λ k n e. (n, e, omega arith)) stored runs
            sound.well_formed p low long in
        let (n', held, le) = caught k n present in (rt', n', e, held, le)
