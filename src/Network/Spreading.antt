-- ===== src/Network/Spreading.antt =====
-- How an update spreads from the server to the agents (server.go, agent.go).
use p2p_update.Common.{
  ℕ, ◌+◌, ◌≤◌, ◌<◌, ◌≡◌, refl, subst, ◌∙◌, Bool, true, false, Option, some, List, Text, inl, inr,
  eqb, arith, Bool-cases, bytes_eq,
}
use p2p_update.Common.Dict.{lookup}
use p2p_update.Stun.{Stun, UdpAddr}
use p2p_update.Peer.{Msgpack}
use p2p_update.Notification.{Notification, Crypto}
use p2p_update.Agent.{Host}
use p2p_update.Agent.Table.{view, SameTable-view}
use p2p_update.Agent.Monitoring.{monitor_round-SameTable}
use p2p_update.Agent.Gossip.{gossip_round-IsWellFormed}
use p2p_update.Agent.Sources.{Runtime, gossip_round}
use p2p_update.Api.Handler.{request_handler}
use p2p_update.Api.Keeping.{deletes, GrowsAt, KeepsAt, request_handler-IsWellFormed}
use p2p_update.Server.History.{Reach-Grows}
use p2p_update.Server.Serving
use p2p_update.Server.Serving.{Serving}
use p2p_update.Network.{
  Network, put, database, Step, serve, gossip, request, monitor, Reach, here, next,
}
use p2p_update.Network.Rounds.{due_round-grows}
use p2p_update.Network.Consistency.{IsConsistent, Step-IsConsistent, Reach-IsConsistent}

module _ (st : Stun) (mp : Msgpack) (delivers : UdpAddr → Bool) (c : Crypto)
    (public_key : c.PublicKey) (hosts : ℕ → Host)
    (decode : List ℕ → Notification → Bool × Notification) where
  module _ (i : ℕ) (k : Text) where
    -- The step is not a DELETE of `k` at the agent `i`.
    abbrev Spares :
        {w w' : Network st} → Step st mp delivers c public_key hosts decode w w' → Type 0
    Spares (serve w s step) = Unit
    Spares (gossip w j ready reply message rt heard e) = Unit
    Spares (request w j v fine) = j ≡ i → deletes v k ≡ false
    Spares (monitor w j r s to_save to_save' a e) = Unit

    -- Nobody deletes `k` at the agent `i` in the run.
    abbrev pub IsKept :
        {w w' : Network st} → Reach st mp delivers c public_key hosts decode w w' → Type 0
    IsKept here = Unit
    IsKept (next r step) = IsKept r × Spares step

    abbrev AgentGrows : (ℕ → Runtime) → (ℕ → Runtime) → Type 0
    AgentGrows f g = GrowsAt k (f i).agent (g i).agent

    put-AgentGrows :
        (f : ℕ → Runtime) (j : ℕ) (rt : Runtime)
        → (j ≡ i → GrowsAt k (f j).agent rt.agent)
        → AgentGrows f (put f j rt)
    put-AgentGrows f j rt g = elim (Bool-cases (eqb i j)) [
      | inl same ↦
          let it : j ≡ i = ground arith in
          rw same (subst (λ (x : ℕ). GrowsAt k (f x).agent rt.agent) it (g it))
      | inr other ↦ rw other (λ n e. (n, e, omega arith))
    ]

    Step-AgentGrows :
        {w w' : Network st} (s : Step st mp delivers c public_key hosts decode w w')
        → IsConsistent st c public_key hosts w
        → Spares s
        → AgentGrows w.agents w'.agents
    Step-AgentGrows (serve w s step) h spared = λ n e. (n, e, omega arith)
    Step-AgentGrows (gossip w j ready reply message rt heard e) h spared =
        put-AgentGrows w.agents j rt (λ same.
          (gossip_round-IsWellFormed (hosts j) c public_key decode (w.agents j) rt ready reply
              message (h.formed j) e).1
            k)
    Step-AgentGrows (request w j v fine) h spared =
        let a = (w.agents j).agent in
        let b = (request_handler (hosts j) c public_key a v).0 in
        put-AgentGrows w.agents j (record (w.agents j) { agent = b })
          (λ same.
            subst (λ (gone : Bool). KeepsAt gone k a b) (spared same)
              (request_handler-IsWellFormed (hosts j) c public_key a v k (h.formed j)).1)
    Step-AgentGrows (monitor w j r s to_save to_save' a e) h spared =
        put-AgentGrows w.agents j (record (w.agents j) { agent = a })
          (λ same n held. (
            n,
            SameTable-view
                  (monitor_round-SameTable (hosts j) (w.agents j).agent r s to_save to_save' a e) k
                ∙ held,
            omega arith,
          ))

    Reach-AgentGrows :
        {w w' : Network st} (r : Reach st mp delivers c public_key hosts decode w w')
        → IsConsistent st c public_key hosts w
        → IsKept r
        → AgentGrows w.agents w'.agents
    Reach-AgentGrows here h kept = λ n e. (n, e, omega arith)
    Reach-AgentGrows (next r step) h (kept, spared) = λ n e.
        let (m, e', le) = Reach-AgentGrows r h kept n e in
        let (m', e'', le') =
          Step-AgentGrows step (Reach-IsConsistent st mp delivers c public_key hosts decode r h)
            spared m e' in
        (m', e'', omega arith)

  Reach-serving :
      {w w' : Network st}
      → Reach st mp delivers c public_key hosts decode w w'
      → Serving.Reach st mp delivers c public_key w.server w'.server
  Reach-serving here = Serving.here
  Reach-serving (next r (serve w s step)) = Serving.next (Reach-serving r) step
  Reach-serving (next r (gossip w i ready reply message rt heard e)) = Reach-serving r
  Reach-serving (next r (request w i v fine)) = Reach-serving r
  Reach-serving (next r (monitor w i r' s to_save to_save' a e)) = Reach-serving r

  -- How an update spreads. In a consistent network the server holds a notification. Later, in any
  -- state that is reached, an agent whose overlay is not ready and whose poll is due has a round
  -- in which the server answers. In every state that is reached from there, if nobody has deleted
  -- the UUID at that agent since, it holds that version or a later one.
  pub Reach-spreads :
      {w u v : Network st} (i : ℕ) (message : Option (List ℕ)) (rt : Runtime) (k : Text)
      (n : Notification)
      → IsConsistent st c public_key hosts w
      → lookup k w.server.server.updates ≡ some n
      → Reach st mp delivers c public_key hosts decode w u
      → (u.agents i).read_tcp_interval < (u.agents i).counter + 1
      → gossip_round
          (hosts i)
          c
          public_key
          decode
          (u.agents i)
          false
          (database c public_key u.server.server)
          message
        ≡ some rt
      → (r : Reach st mp delivers c public_key hosts decode
          (record u { agents = put u.agents i rt })
          v)
      → IsKept i k r
      → (n' : Notification) × (view (v.agents i).agent k ≡ some n') × (n.version ≤ n'.version)
  Reach-spreads {w} {u} {v} i message rt k n h present before due e r kept =
      let h' = Reach-IsConsistent st mp delivers c public_key hosts decode before h in
      let step = gossip u i false (database c public_key u.server.server) message rt (inl refl) e in
      let (m, there, le) =
        Reach-Grows c public_key st mp delivers (Reach-serving before) k n present in
      let (m', held, le') =
        due_round-grows (hosts i) c public_key decode u.server.server (u.agents i) rt message k m
          (h'.formed i) h'.stored due e there in
      let (m'', held', le'') =
        Reach-AgentGrows i k r (Step-IsConsistent st mp delivers c public_key hosts decode step h')
          kept m' (own i rt u.agents k m' held) in
      (m'', held', omega (arith, le, le', le''))
    where
      own :
          (i : ℕ) (rt : Runtime) (f : ℕ → Runtime) (k : Text) (m : Notification)
          → view rt.agent k ≡ some m
          → view (put f i rt i).agent k ≡ some m
      own i rt f k m e = let it : eqb i i ≡ true = ground arith in rw it e
