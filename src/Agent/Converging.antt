-- ===== src/Agent/Converging.antt =====
-- What an agent holds after it has received notifications (readTCP in agent.go): for each one that
-- it accepts, that version or a later one.
use p2p_update.Common.{
  ◌≢◌, ◌≤◌, ◌≡◌, refl, subst, ap, ◌∙◌, true, false, ◌&&◌, Option, none, some, List, [], ◌∷◌, Text,
  if◌then◌else◌, ltb, arith, All, Option-cases, Bool-cases, inl, inr, ◌==◌, bytes_eq,
  bytes_equal_iff, beq_refl,
}
use p2p_update.Common.Dict.{Dict, lookup, insert, merge, lookup-insert, HasDistinctKeys}
use p2p_update.Notification.{Notification, Crypto}
use p2p_update.Update.{new_update}
use p2p_update.Agent.{Agent, Host, accepts}
use p2p_update.Agent.Table.{view}
use p2p_update.Agent.Starting.{takes, is_newer}
use p2p_update.Agent.Trust.{
  IsWellFormed, Grows, view-start_new, receive-eq, receive-IsWellFormed, receive_all-IsWellFormed,
}
use p2p_update.Agent.Sources.{Runtime, HttpReply, values, receive, receive_all, read_tcp}

pub lookup-merge :
    {V : Type 0} (k : Text) (m other : Dict Text V)
    → HasDistinctKeys other
    → lookup k (merge m other) ≡ elim (lookup k other) [ none ↦ lookup k m | some v ↦ some v ]
lookup-merge k m [] d = refl
lookup-merge k m ((j, v) ∷ other) d =
    ground
      (arith, lookup-merge k (insert j v m) other d.1, lookup-insert j k v m, bytes_equal_iff j k)

pub All-values :
    (P : Option Notification → Type 0) (m : Dict Text (Option Notification)) (k : Text)
    {v : Option Notification}
    → All P (values m)
    → lookup k m ≡ some v
    → P v
All-values P [] k h e = absurd (cc)
All-values P ((j, w) ∷ m) k {v} h e = elim (Bool-cases (j == k)) [
  | inl same ↦ let it : w ≡ v = ground arith in subst P it h.0
  | inr other ↦ All-values P m k h.1 (rw other at e)
]

-- A map of pointers may hold nil.
abbrev pub IsPointer : Option Notification → Type 0
IsPointer o = o ≢ none

module _ (h : Host) (c : Crypto) (public_key : c.PublicKey) where
  -- If the notification is accepted, the agent holds that version or a later one.
  abbrev pub Holds : Agent → Option Notification → Type 0
  Holds a none = Unit
  Holds a (some n) =
      accepts h c public_key n ≡ true
      → (n' : Notification) × (view a n.uuid ≡ some n') × (n.version ≤ n'.version)

  newest :
      (held : Option Notification) (n : Notification)
      → (n' : Notification) × ((if is_newer held n then some n else held) ≡ some n')
        × (n.version ≤ n'.version)
  newest none n = (n, refl, omega arith)
  newest (some old) n = elim (Bool-cases (ltb old.version n.version)) [
    | inl later ↦ (n, rw later refl, omega arith)
    | inr not_later ↦ (old, rw not_later refl, ground arith)
  ]

  receive-Holds :
      (a : Agent) (n : Notification)
      → IsWellFormed a
      → Holds (receive h c public_key a n).0 (some n)
  unfolding new_update
  receive-Holds a n s accepted =
      let (n', held, le) = newest (view a n.uuid) n in
      let shown : view (receive h c public_key a n).0 n.uuid
          ≡ (if is_newer (view a n.uuid) n then some n else view a n.uuid) =
        ap (λ (x : Agent). view x n.uuid) (receive-eq h c public_key a n)
        ∙ (view-start_new h c public_key a (new_update n) n.uuid s ∙ tidy) in
      (n', shown ∙ held, le)
    where
      tidy :
          (if takes (accepts h c public_key) (view a n.uuid) n && (n.uuid == n.uuid)
            then some n
            else view a n.uuid)
          ≡ (if is_newer (view a n.uuid) n then some n else view a n.uuid)
      tidy = rw (accepted, beq_refl n.uuid) (ground arith)

  Holds-Grows :
      (a b : Agent) (o : Option Notification) → Grows h c public_key a b → Holds a o → Holds b o
  Holds-Grows a b none g k = tt
  Holds-Grows a b (some n) g k = λ accepted.
      let (m, e, le) = k accepted in let (m', e', le') = g n.uuid m e in (m', e', omega arith)

  pub receive_all-returns :
      (a : Agent) (ns : List (Option Notification))
      → All IsPointer ns
      → (b : Agent) × (receive_all h c public_key a ns ≡ some b)
  unfolding receive_all
  receive_all-returns a [] p = (a, refl)
  receive_all-returns a (none ∷ ns) p = absurd (p.0 refl)
  receive_all-returns a (some n ∷ ns) p = receive_all-returns (receive h c public_key a n).0 ns p.1

  receive_all-All :
      (a b : Agent) (ns : List (Option Notification))
      → IsWellFormed a
      → receive_all h c public_key a ns ≡ some b
      → All (Holds b) ns
  unfolding receive_all
  receive_all-All a b [] s e = tt
  receive_all-All a b (none ∷ ns) s e = absurd (cc)
  receive_all-All a b (some n ∷ ns) s e =
      let a' = (receive h c public_key a n).0 in
      let s' = receive-IsWellFormed h c public_key a n s in
      let (sound, grown) = receive_all-IsWellFormed h c public_key a' b ns s' e in
      (Holds-Grows a' b (some n) grown (receive-Holds a n s), receive_all-All a' b ns s' e)

  -- The loop of `readTCP` ends without a panic where no pointer of the map is nil, and the agent then
  -- holds every accepted notification of the map, or a later version of it.
  pub receive_all-Holds :
      (a : Agent) (ns : List (Option Notification))
      → IsWellFormed a
      → All IsPointer ns
      → (b : Agent) × (receive_all h c public_key a ns ≡ some b) × All (Holds b) ns
  receive_all-Holds a ns s p =
      let (b, received) = receive_all-returns a ns p in
      (b, received, receive_all-All a b ns s received)

  -- The same for a reply of the server that has arrived and is decoded.
  pub read_tcp-Holds :
      (rt rt' : Runtime) (reply : HttpReply) (k : Text) {o : Option Notification}
      → IsWellFormed rt.agent
      → (reply.code ≡ 200) × (reply.failed ≡ false) × (reply.decoded ≡ true)
      → HasDistinctKeys reply.entries
      → lookup k reply.entries ≡ some o
      → read_tcp h c public_key rt reply ≡ some rt'
      → Holds rt'.agent o
  unfolding read_tcp
  read_tcp-Holds rt rt' reply k {o} s fine d present e =
      let buf = merge rt.buf_notifications reply.entries in
      let there : lookup k buf ≡ some o =
        lookup-merge k rt.buf_notifications reply.entries d ∙ rw present refl in
      elim (Option-cases (receive_all h c public_key rt.agent (values buf))) [
        | inl crashed ↦ absurd (ground arith)
        | inr (b, received) ↦
            let same : b ≡ rt'.agent = ground arith in
            subst (λ (x : Agent). Holds x o) same
              (All-values (Holds b) buf k (receive_all-All rt.agent b (values buf) s received)
                there)
      ]
