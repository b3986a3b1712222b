-- ===== src/Network/Consistency.antt =====
-- What holds of a server and its agents however their steps interleave (server.go, agent.go, api.go).
use p2p_update.Common.{
  refl, ℕ, ◌≡◌, sym, subst, ◌∙◌, Bool, Option, some, List, [], inl, inr, eqb, arith, Bool-cases,
  bytes_eq,
}
use p2p_update.Stun.{Stun, UdpAddr}
use p2p_update.Peer.{Msgpack}
use p2p_update.Notification.{Notification, Crypto}
use p2p_update.Agent.{Host}
use p2p_update.Agent.Monitoring.{monitor_round-SameTable}
use p2p_update.Agent.Trust.{IsWellFormed, Grows, SameTable-IsWellFormed}
use p2p_update.Agent.Provenance.{
  IsGuarded, Traces-IsGuarded, SameTable-Traces, gossip_round-IsGuarded,
}
use p2p_update.Api.Provenance.{request_handler-Traces}
use p2p_update.Agent.Gossip.{gossip_round-IsWellFormed}
use p2p_update.Agent.Sources.{Runtime, HttpReply, gossip_round}
use p2p_update.Api.Handler.{request_handler}
use p2p_update.Api.Keeping.{request_handler-IsWellFormed}
use p2p_update.Server.History.{IsStored, Reach-IsStored}
use p2p_update.Server.Serving
use p2p_update.Server.Serving.{Serving}
use p2p_update.Distribution.{HasNoNil}
use p2p_update.Network.{
  Network, put, IsHeard, Step, serve, gossip, request, monitor, Reach, here, next,
}
use p2p_update.Network.Rounds.{gossip_round-Returns}

module _ (st : Stun) (c : Crypto) (public_key : c.PublicKey) (hosts : ℕ → Host) where
  -- The server's database is well formed, the table of every agent is well formed, every update in it
  -- has an accepted signature, unless it shares the map of the buffer of the overlay, and no agent's
  -- buffer has a nil pointer.
  pub record IsConsistent (w : Network st) : Type 0 where
    pub stored : IsStored c public_key w.server.server
    pub formed : (i : ℕ) → IsWellFormed (w.agents i).agent
    pub guarded : (i : ℕ) → IsGuarded (hosts i) c public_key (w.agents i)
    pub pointers : (i : ℕ) → HasNoNil (w.agents i).buf_notifications

module _ (st : Stun) (mp : Msgpack) (delivers : UdpAddr → Bool) (c : Crypto)
    (public_key : c.PublicKey) (hosts : ℕ → Host)
    (decode : List ℕ → Notification → Bool × Notification) where
  -- A step of one agent that keeps its part of this keeps the network consistent.
  put-IsConsistent :
      (w : Network st) (i : ℕ) (rt : Runtime)
      → IsConsistent st c public_key hosts w
      → IsWellFormed rt.agent
      → IsGuarded (hosts i) c public_key rt
      → HasNoNil rt.buf_notifications
      → IsConsistent st c public_key hosts (record w { agents = put w.agents i rt })
  put-IsConsistent w i rt h s g p = record {
    stored = h.stored;
    formed = λ j. elim (Bool-cases (eqb j i)) [
      | inl same ↦ rw same s
      | inr other ↦ rw other (h.formed j)
    ];
    guarded = λ j. elim (Bool-cases (eqb j i)) [
      | inl same ↦ rw same (
          let it : i ≡ j = ground arith in
          subst (λ (k : ℕ). IsGuarded (hosts k) c public_key rt) it g)
      | inr other ↦ rw other (h.guarded j)
    ];
    pointers = λ j. elim (Bool-cases (eqb j i)) [
      | inl same ↦ rw same p
      | inr other ↦ rw other (h.pointers j)
    ];
  }

  some-inj : {a b : Runtime} → some a ≡ some b → a ≡ b
  some-inj e = ground arith

  pub Step-IsConsistent :
      {w w' : Network st}
      → Step st mp delivers c public_key hosts decode w w'
      → IsConsistent st c public_key hosts w
      → IsConsistent st c public_key hosts w'
  Step-IsConsistent (serve w s step) h = record {
    stored = Reach-IsStored c public_key st mp delivers (Serving.next Serving.here step) h.stored;
    formed = h.formed;
    guarded = h.guarded;
    pointers = h.pointers;
  }
  Step-IsConsistent (gossip w i ready reply message rt heard e) h =
      let (rt', e', p, same) =
        gossip_round-Returns (hosts i) c public_key decode w.server.server (w.agents i) ready reply
          message heard (h.pointers i) in
      put-IsConsistent w i rt h
        (gossip_round-IsWellFormed (hosts i) c public_key decode (w.agents i) rt ready reply message
          (h.formed i) e).0
        (gossip_round-IsGuarded (hosts i) c public_key decode (w.agents i) rt ready reply message
          (h.formed i) (h.guarded i) e)
        (subst (λ (x : Runtime). HasNoNil x.buf_notifications) (some-inj (sym e' ∙ e)) p)
  Step-IsConsistent (request w i v fine) h =
      let a = (w.agents i).agent in
      put-IsConsistent w i
        (record (w.agents i) { agent = (request_handler (hosts i) c public_key a v).0 }) h
        (request_handler-IsWellFormed (hosts i) c public_key a v [] (h.formed i)).0
        (Traces-IsGuarded (hosts i) c public_key (w.agents i)
          (record (w.agents i) { agent = (request_handler (hosts i) c public_key a v).0 })
          (request_handler-Traces (hosts i) c public_key a v (h.formed i)) refl (h.guarded i))
        (h.pointers i)
  Step-IsConsistent (monitor w i r s to_save to_save' a e) h =
      put-IsConsistent w i (record (w.agents i) { agent = a }) h
        (SameTable-IsWellFormed
          (monitor_round-SameTable (hosts i) (w.agents i).agent r s to_save to_save' a e)
          (h.formed i))
        (Traces-IsGuarded (hosts i) c public_key (w.agents i) (record (w.agents i) { agent = a })
          (SameTable-Traces (hosts i) c public_key
            (monitor_round-SameTable (hosts i) (w.agents i).agent r s to_save to_save' a e))
          refl (h.guarded i))
        (h.pointers i)

  -- In every state that a server and its agents reach, from one where this holds, it holds again: the
  -- server's database and the table of every agent are well formed; every update that an agent holds
  -- has an accepted signature, unless it came over the overlay and shares the map of signatures that
  -- later messages are decoded into; and no agent's buffer has a nil pointer. This is so whatever
  -- the overlay delivers, whatever is posted to the server and asked of the agents' REST services,
  -- and in whatever order.
  pub Reach-IsConsistent :
      {w w' : Network st}
      → Reach st mp delivers c public_key hosts decode w w'
      → IsConsistent st c public_key hosts w
      → IsConsistent st c public_key hosts w'
  Reach-IsConsistent here h = h
  Reach-IsConsistent (next r step) h = Step-IsConsistent step (Reach-IsConsistent r h)

  -- In every state that a consistent network reaches, a round of any agent does not panic, whether
  -- its overlay is ready, whatever that delivers, and whether the server answers. After it the
  -- agent's table is well formed, every update in it has an accepted signature, unless it shares the
  -- map of signatures that messages of the overlay are decoded into, and no update and no version is
  -- lost.
  pub Reach-returns :
      {w w' : Network st} (i : ℕ) (ready : Bool) (reply : HttpReply) (message : Option (List ℕ))
      → IsConsistent st c public_key hosts w
      → Reach st mp delivers c public_key hosts decode w w'
      → IsHeard c public_key w'.server.server reply
      → (rt : Runtime) × (gossip_round
            (hosts i)
            c
            public_key
            decode
            (w'.agents i)
            ready
            reply
            message
          ≡ some rt)
        × IsWellFormed rt.agent
        × IsGuarded (hosts i) c public_key rt
        × Grows (hosts i) c public_key (w'.agents i).agent rt.agent
  Reach-returns {w} {w'} i ready reply message h r heard =
      let h' = Reach-IsConsistent r h in
      let (rt, e, p, same) =
        gossip_round-Returns (hosts i) c public_key decode w'.server.server (w'.agents i) ready
          reply message heard (h'.pointers i) in
      let (sound, grown) =
        gossip_round-IsWellFormed (hosts i) c public_key decode (w'.agents i) rt ready reply message
          (h'.formed i) e in
      (
        rt,
        e,
        sound,
        gossip_round-IsGuarded (hosts i) c public_key decode (w'.agents i) rt ready reply message
            (h'.formed i) (h'.guarded i) e,
        grown,
      )
