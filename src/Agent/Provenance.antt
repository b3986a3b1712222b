-- ===== src/Agent/Provenance.antt =====
-- Where the updates that an agent holds come from (agent.go, update.go): each one that an operation adds
-- has an accepted signature, and the others are the objects that were there.
use p2p_update.Common.{
  ℕ, ◌+◌, ◌<◌, ◌≡◌, ◌⊎◌, inl, inr, refl, sym, subst, ap, ◌∙◌, Bool, true, false, not, ◌||◌, Option,
  none, some, List, [], ◌∷◌, Text, arith, Option-cases, Bool-cases, eqb, ltb, bytes_eq, ◌==◌,
}
use p2p_update.Common.Dict.{Dict, lookup, insert, lookup-insert, merge}
use p2p_update.Notification.{Notification, Signature, Crypto}
use p2p_update.Update.{Update, new_update}
use p2p_update.Agent.{Agent, Host, accepts, allocate}
use p2p_update.Agent.Table.{view, SameTable}
use p2p_update.Agent.Starting.{takes, start-SameTable, start-unchanged}
use p2p_update.Agent.Trust.{
  IsWellFormed, start_new, receive-eq, receive-IsWellFormed, write_shared-IsWellFormed,
  updates-write_shared,
}
use p2p_update.Agent.Sources.{
  Runtime, HttpReply, has, write_shared, share, values, receive, receive_all, read_tcp,
  read_overlay, gossip_round,
}

module _ (h : Host) (c : Crypto) (public_key : c.PublicKey) where
  -- The object that `b` holds has an accepted signature, or is one of `a` with the same notification.
  abbrev pub HasOrigin : Agent → Agent → Text → ℕ → Type 0
  HasOrigin a b k r =
      (accepts h c public_key (b.heap r).notification ≡ true)
      ⊎ ((lookup k a.updates ≡ some r) × ((b.heap r).notification ≡ (a.heap r).notification))

  abbrev pub Traces : Agent → Agent → Type 0
  Traces a b = (k : Text) (r : ℕ) → lookup k b.updates ≡ some r → HasOrigin a b k r

  pub Traces-refl : (a : Agent) → Traces a a
  Traces-refl a k r e = inr (e, refl)

  pub Traces-trans : (a b d : Agent) → Traces a b → Traces b d → Traces a d
  Traces-trans a b d f g k r e = elim (g k r e) [
    | inl fine ↦ inl fine
    | inr (held, same) ↦ elim (f k r held) [
      | inl fine ↦ inl (ap (accepts h c public_key) same ∙ fine)
      | inr (held', same') ↦ inr (held', same ∙ same')
    ]
  ]

  pub SameTable-Traces : {a b : Agent} → SameTable a b → Traces a b
  SameTable-Traces {a} {b} t k r e = inr (ap (lookup k) (sym t.updates) ∙ e, t.notifications r)

  allocate-old :
      (a : Agent) (u : Update) (r : ℕ)
      → r < a.next
      → ((allocate a u).0.heap r).notification ≡ (a.heap r).notification
  unfolding allocate
  allocate-old a u r old = ground arith

  updates-allocate : (a : Agent) (u : Update) → (allocate a u).0.updates ≡ a.updates
  unfolding allocate
  updates-allocate a u = refl

  taken-accepted :
      (held : Option Notification) (n : Notification)
      → takes (accepts h c public_key) held n ≡ true
      → accepts h c public_key n ≡ true
  taken-accepted held n taken = ground (arith, taken)

  some-inj : {q r : ℕ} → some q ≡ some r → q ≡ r
  some-inj e = ground arith

  pub start_new-Traces :
      (a : Agent) (u : Update) → IsWellFormed a → Traces a (start_new h c public_key a u)
  start_new-Traces a u w k r e =
      let a' = (allocate a u).0 in
      let q = (allocate a u).1 in
      let n = (a'.heap q).notification in
      elim (Bool-cases (takes (accepts h c public_key) (view a' n.uuid) n)) [
        | inr refused ↦
            let same : start_new h c public_key a u ≡ a' =
              ap (λ (x : Agent × _). x.0) (start-unchanged h c public_key a' q refused) in
            let there : lookup k a.updates ≡ some r =
              ap (lookup k) (sym (updates-allocate a u))
              ∙ subst (λ (x : Agent). lookup k x.updates ≡ some r) same e in
            inr (
              there,
              ap (λ (x : Agent). (x.heap r).notification) same
                  ∙ allocate-old a u r (w.allocated k r there),
            )
        | inl taken ↦
            let t = start-SameTable h c public_key a' q taken in
            let there : lookup k (insert n.uuid q a'.updates) ≡ some r =
              ap (lookup k) (sym t.updates) ∙ e in
            elim (Bool-cases (n.uuid == k)) [
              | inl own ↦
                  let it : q ≡ r =
                    some-inj (sym (rw own at (lookup-insert n.uuid k q a'.updates)) ∙ there) in
                  inl (
                    ap (accepts h c public_key)
                      (t.notifications r ∙ ap (λ x. (a'.heap x).notification) (sym it))
                    ∙ taken-accepted (view a' n.uuid) n taken)
              | inr other ↦
                  let old : lookup k a.updates ≡ some r =
                    ap (lookup k) (sym (updates-allocate a u))
                    ∙ (sym (rw other at (lookup-insert n.uuid k q a'.updates)) ∙ there) in
                  inr (old, t.notifications r ∙ allocate-old a u r (w.allocated k r old))
            ]
      ]

  pub receive-Traces :
      (a : Agent) (n : Notification) → IsWellFormed a → Traces a (receive h c public_key a n).0
  receive-Traces a n w = rw receive-eq (start_new-Traces a (new_update n) w)

  receive_all-Traces :
      (a b : Agent) (ns : List (Option Notification))
      → IsWellFormed a
      → receive_all h c public_key a ns ≡ some b
      → Traces a b
  unfolding receive_all
  receive_all-Traces a b [] w e = let same : a ≡ b = cc in subst (Traces a) same (Traces-refl a)
  receive_all-Traces a b (none ∷ ns) w e = cc
  receive_all-Traces a b (some n ∷ ns) w e =
      let a' = (receive h c public_key a n).0 in
      Traces-trans a a' b (receive-Traces a n w)
        (receive_all-Traces a' b ns (receive-IsWellFormed h c public_key a n w) e)

  read_tcp-Traces :
      (rt rt' : Runtime) (reply : HttpReply)
      → IsWellFormed rt.agent
      → read_tcp h c public_key rt reply ≡ some rt'
      → Traces rt.agent rt'.agent × (rt'.sharing ≡ rt.sharing)
  unfolding read_tcp
  read_tcp-Traces rt rt' reply w e =
      let agents = receive_all h c public_key rt.agent in
      let buf = merge rt.buf_notifications reply.entries in
      let unchanged =
        λ (same : rt.agent ≡ rt'.agent). subst (Traces rt.agent) same (Traces-refl rt.agent) in
      elim (Bool-cases (not (eqb reply.code 200) || reply.failed)) [
        | inl failed ↦ (unchanged (ground arith), ground arith)
        | inr answered ↦ elim (Bool-cases reply.decoded) [
          | inl decoded ↦ elim (Option-cases (agents (values buf))) [
            | inl crashed ↦ absurd (ground arith)
            | inr (b, received) ↦
                let same : b ≡ rt'.agent = ground arith in
                (
                  subst (Traces rt.agent) same
                      (receive_all-Traces rt.agent b (values buf) w received),
                  ground arith,
                )
          ]
          | inr garbled ↦ (unchanged (ground arith), ground arith)
        ]
      ]

  -- Every update that the agent holds has an accepted signature, unless it shares the map of
  -- signatures of the buffer that messages of the overlay are decoded into.
  abbrev pub IsGuarded : Runtime → Type 0
  IsGuarded rt =
      (k : Text) (r : ℕ)
      → lookup k rt.agent.updates ≡ some r
      → has r rt.sharing ≡ false
      → accepts h c public_key (rt.agent.heap r).notification ≡ true

  pub Traces-IsGuarded :
      (rt rt' : Runtime)
      → Traces rt.agent rt'.agent
      → rt'.sharing ≡ rt.sharing
      → IsGuarded rt
      → IsGuarded rt'
  Traces-IsGuarded rt rt' t same g k r e own = elim (t k r e) [
    | inl fine ↦ fine
    | inr (held, as_before) ↦
        ap (accepts h c public_key) as_before ∙ g k r held (ap (has r) (sym same) ∙ own)
  ]

  has-share :
      (m : Option (Dict Text Signature)) (q r : ℕ) (rs : List ℕ)
      → has r (share m q rs) ≡ false
      → has r rs ≡ false
  has-share none q r rs e = e
  has-share (some m) q r rs e = ground (arith, e)

  own-write_shared :
      (m : Option (Dict Text Signature)) (rs : List ℕ) (a : Agent) (r : ℕ)
      → has r rs ≡ false
      → ((write_shared m rs a).heap r).notification ≡ (a.heap r).notification
  own-write_shared none rs a r e = refl
  own-write_shared (some m) rs a r e = rw e refl

  read_overlay-IsGuarded :
      (decode : List ℕ → Notification → Bool × Notification) (rt : Runtime)
      (message : Option (List ℕ))
      → IsWellFormed rt.agent
      → IsGuarded rt
      → IsGuarded (read_overlay h c public_key decode rt message)
  unfolding read_overlay
  read_overlay-IsGuarded decode rt none w g k r e own = g k r e own
  read_overlay-IsGuarded decode rt (some bytes) w g k r e own =
      let n = (decode bytes rt.buf_notification).1 in
      let m = n.signatures in
      let a = write_shared m rt.sharing rt.agent in
      let w' = write_shared-IsWellFormed h c public_key m rt.sharing rt.agent w in
      let mine = has-share m a.next r rt.sharing own in
      elim (receive-Traces a n w' k r e) [
        | inl fine ↦ fine
        | inr (held, same) ↦
            ap (accepts h c public_key) (same ∙ own-write_shared m rt.sharing rt.agent r mine)
            ∙ g k r
                (ap (lookup k) (sym (updates-write_shared h c public_key m rt.sharing rt.agent).0)
                  ∙ held)
                mine
      ]

  -- A round that does not panic keeps this.
  pub gossip_round-IsGuarded :
      (decode : List ℕ → Notification → Bool × Notification) (rt rt' : Runtime) (ready : Bool)
      (reply : HttpReply) (message : Option (List ℕ))
      → IsWellFormed rt.agent
      → IsGuarded rt
      → gossip_round h c public_key decode rt ready reply message ≡ some rt'
      → IsGuarded rt'
  unfolding gossip_round
  gossip_round-IsGuarded decode rt rt' false reply message w g e =
      elim (Bool-cases (ltb rt.read_tcp_interval (rt.counter + 1))) [
        | inl due ↦
            let (traced, same) =
              read_tcp-Traces (record rt { counter = 0 }) rt' reply w (ground arith) in
            Traces-IsGuarded rt rt' traced same g
        | inr not_due ↦
            let same : record rt { counter = rt.counter + 1 } ≡ rt' = ground arith in
            subst IsGuarded same g
      ]
  gossip_round-IsGuarded decode rt rt' true reply message w g e =
      let rt0 = record rt { counter = 0 } in
      let same : read_overlay h c public_key decode rt0 message ≡ rt' = ground arith in
      subst IsGuarded same (read_overlay-IsGuarded decode rt0 message w g)
