-- ===== src/Agent/Gossip.antt =====
-- The gossip loop of the agent (agent.go): what its rounds keep, and deletions by the API.
use p2p_update.Common.{
  ℕ, ◌+◌, ◌≡◌, refl, subst, ◌∙◌, ap, Bool, true, false, not, ◌&&◌, ◌||◌, Option, none, some, List,
  if◌then◌else◌, eqb, ltb, arith, Option-cases, Bool-cases, inl, inr, bytes_eq, ◌==◌, beq_refl,
}
use p2p_update.Common.Dict.{merge}
use p2p_update.Notification.{Notification, Crypto}
use p2p_update.Update.{new_update}
use p2p_update.Agent.{Agent, Host, accepts}
use p2p_update.Agent.Table.{view}
use p2p_update.Agent.Starting.{takes}
use p2p_update.Agent.Trust.{
  IsSound, IsWellFormed, Grows, Grows-refl, Grows-trans, receive-IsWellFormed, receive-Grows,
  receive_all-IsWellFormed, view-start_new, write_shared-IsWellFormed, write_shared-Grows,
  view-write_shared,
}
use p2p_update.Agent.Sources.{
  Runtime, HttpReply, write_shared, values, receive, receive_all, read_tcp, read_overlay,
  gossip_round,
}

module _ (h : Host) (c : Crypto) (public_key : c.PublicKey) where
  read_tcp-IsWellFormed :
      (rt rt' : Runtime) (reply : HttpReply)
      → IsWellFormed rt.agent
      → read_tcp h c public_key rt reply ≡ some rt'
      → IsWellFormed rt'.agent × Grows h c public_key rt.agent rt'.agent
  unfolding read_tcp
  read_tcp-IsWellFormed rt rt' reply w e =
      let agents = receive_all h c public_key rt.agent in
      let buf = merge rt.buf_notifications reply.entries in
      let unchanged =
        λ (same : rt.agent ≡ rt'.agent). kept same (w, Grows-refl h c public_key rt.agent) in
      elim (Bool-cases (not (eqb reply.code 200) || reply.failed)) [
        | inl failed ↦ unchanged (ground arith)
        | inr answered ↦ elim (Bool-cases reply.decoded) [
          | inl decoded ↦ elim (Option-cases (agents (values buf))) [
            | inl crashed ↦ absurd (ground arith)
            | inr (b, received) ↦
                let same : b ≡ rt'.agent = ground arith in
                kept same
                  (receive_all-IsWellFormed h c public_key rt.agent b (values buf) w received)
          ]
          | inr garbled ↦ unchanged (ground arith)
        ]
      ]
    where
      kept :
          {x y : Agent}
          → x ≡ y
          → IsWellFormed x × Grows h c public_key rt.agent x
          → IsWellFormed y × Grows h c public_key rt.agent y
      kept same = subst (λ x. IsWellFormed x × Grows h c public_key rt.agent x) same

  read_overlay-IsWellFormed :
      (decode : List ℕ → Notification → Bool × Notification) (rt : Runtime)
      (message : Option (List ℕ))
      → IsWellFormed rt.agent
      → let rt' = read_overlay h c public_key decode rt message in
        IsWellFormed rt'.agent × Grows h c public_key rt.agent rt'.agent
  unfolding read_overlay
  read_overlay-IsWellFormed decode rt none w = (w, Grows-refl h c public_key rt.agent)
  read_overlay-IsWellFormed decode rt (some bytes) w =
      let n = (decode bytes rt.buf_notification).1 in
      let a = write_shared n.signatures rt.sharing rt.agent in
      let w' = write_shared-IsWellFormed h c public_key n.signatures rt.sharing rt.agent w in
      (
        receive-IsWellFormed h c public_key a n w',
        Grows-trans h c public_key rt.agent a (receive h c public_key a n).0
            (write_shared-Grows h c public_key n.signatures rt.sharing rt.agent)
            (receive-Grows h c public_key a n w'),
      )

  -- A round of the gossip loop that does not crash, whatever the server, the overlay and the
  -- decoder return, keeps the agent's table well formed. It loses no update, and replaces none by an
  -- older version.
  pub gossip_round-IsWellFormed :
      (decode : List ℕ → Notification → Bool × Notification) (rt rt' : Runtime) (ready : Bool)
      (reply : HttpReply) (message : Option (List ℕ))
      → IsWellFormed rt.agent
      → gossip_round h c public_key decode rt ready reply message ≡ some rt'
      → IsWellFormed rt'.agent × Grows h c public_key rt.agent rt'.agent
  unfolding gossip_round
  gossip_round-IsWellFormed decode rt rt' false reply message w e =
      elim (Bool-cases (ltb rt.read_tcp_interval (rt.counter + 1))) [
        | inl due ↦ read_tcp-IsWellFormed (record rt { counter = 0 }) rt' reply w (ground arith)
        | inr not_due ↦
            let same : rt.agent ≡ rt'.agent = ground arith in
            subst (λ x. IsWellFormed x × Grows h c public_key rt.agent x) same
              (w, Grows-refl h c public_key rt.agent)
      ]
  gossip_round-IsWellFormed decode rt rt' true reply message w e =
      let rt0 = record rt { counter = 0 } in
      let same : (read_overlay h c public_key decode rt0 message).agent ≡ rt'.agent =
        ground arith in
      subst (λ x. IsWellFormed x × Grows h c public_key rt.agent x) same
        (read_overlay-IsWellFormed decode rt0 message w)

  -- A gossip message that the decoder rejects, leaving its struct as it was, still has the last
  -- decoded notification received once more. If that is accepted, and the agent holds no update
  -- of its UUID (one that was deleted), the agent holds it again afterwards.
  pub read_overlay-garbage :
      (decode : List ℕ → Notification → Bool × Notification) (rt : Runtime) (bytes : List ℕ)
      → IsSound h c public_key rt.agent
      → decode bytes rt.buf_notification ≡ (false, rt.buf_notification)
      → accepts h c public_key rt.buf_notification ≡ true
      → view rt.agent rt.buf_notification.uuid ≡ none
      → view (read_overlay h c public_key decode rt (some bytes)).agent rt.buf_notification.uuid
        ≡ some rt.buf_notification
  unfolding read_overlay receive new_update
  read_overlay-garbage decode rt bytes s rejected accepted absent =
      let n = rt.buf_notification in
      let a = write_shared n.signatures rt.sharing rt.agent in
      let left : (decode bytes n).1 ≡ n = ap (λ (x : Bool × Notification). x.1) rejected in
      rw left (
        view-start_new h c public_key a (new_update n) n.uuid
          (write_shared-IsWellFormed h c public_key n.signatures rt.sharing rt.agent s.well_formed)
        ∙ held a n accepted
            (view-write_shared h c public_key n.signatures rt.sharing rt.agent n.uuid absent))
    where
      held :
          (a : Agent) (n : Notification)
          → accepts h c public_key n ≡ true
          → view a n.uuid ≡ none
          → (if takes (accepts h c public_key) (view a n.uuid) n && (n.uuid == n.uuid)
              then some n
              else view a n.uuid)
            ≡ some n
      held a n yes' gone = rw (gone, yes', beq_refl n.uuid) refl
