-- ===== src/Distribution.antt =====
-- How an update spreads: the `submit` command (main.go) posts it to a server (server.go), and the
-- agents of other hosts (agent.go) fetch the notifications of the server.
use p2p_update.Common.{
  ◌≢◌, All, Bool-cases, inl, inr, ◌==◌, bytes_eq, ℕ, ◌≤◌, ◌≡◌, refl, sym, ap, ◌∙◌, Bool, true,
  false, Option, none, some, [], ◌∷◌, Text, arith, if◌then◌else◌,
}
use p2p_update.Common.Dict.{insert, merge, Dict, lookup, HasDistinctKeys}
use p2p_update.Stun.{Stun, UdpAddr}
use p2p_update.Peer.{Msgpack}
use p2p_update.Notification.{Notification, Crypto}
use p2p_update.Agent.{Agent, Host}
use p2p_update.Agent.Table.{view}
use p2p_update.Agent.Trust.{IsWellFormed, IsSound}
use p2p_update.Agent.Converging.{IsPointer, receive_all-returns, read_tcp-Holds}
use p2p_update.Agent.Sources.{values, Runtime, HttpReply, read_tcp}
use p2p_update.Server.{Server}
use p2p_update.Server.Updates.{get_request, Response, serve_http_request}
use p2p_update.Server.History.{IsStored, Reach-Grows, Reach-IsStored}
use p2p_update.Server.Serving.{Serving, serving, Reach}
use p2p_update.Command.{SubmitFlags, Surroundings, version_of, submit_cmd}
use p2p_update.Command.Submitting.{Network, reachable, submit_cmd-holds, submit_cmd-IsStored}
mod Tests

-- The map that JSON carries to an agent, none of whose pointers is nil.
abbrev pub carried : Dict Text Notification → Dict Text (Option Notification)
carried [] = []
carried ((k, n) ∷ m) = (k, some n) ∷ carried m

-- What `fasthttp.Get` and `json.Unmarshal` make of a response that arrives.
abbrev pub reply_of : Response → HttpReply
reply_of r = record {
  code = r.status;
  failed = false;
  decoded = elim r.body [ none ↦ false | some db ↦ true ];
  entries = elim r.body [ none ↦ [] | some db ↦ carried db ];
}

lookup-carried :
    (k : Text) (m : Dict Text Notification)
    → lookup k (carried m) ≡ elim (lookup k m) [ none ↦ none | some n ↦ some (some n) ]
lookup-carried k [] = refl
lookup-carried k ((j, n) ∷ m) = ground (arith, lookup-carried k m)

carried-HasDistinctKeys :
    (m : Dict Text Notification) → HasDistinctKeys m → HasDistinctKeys (carried m)
carried-HasDistinctKeys [] d = tt
carried-HasDistinctKeys ((k, n) ∷ m) d =
    (lookup-carried k m ∙ rw d.0 refl, carried-HasDistinctKeys m d.1)

-- The map that readTCP keeps between its calls has no nil pointer.
abbrev pub HasNoNil : Dict Text (Option Notification) → Type 0
HasNoNil m = All IsPointer (values m)

HasNoNil-insert :
    (k : Text) (v : Option Notification) (m : Dict Text (Option Notification))
    → IsPointer v
    → HasNoNil m
    → HasNoNil (insert k v m)
HasNoNil-insert k v [] p h = (p, tt)
HasNoNil-insert k v ((j, w) ∷ m) p h = elim (Bool-cases (j == k)) [
  | inl same ↦ rw (same) (p, h.1)
  | inr other ↦ rw (other) (h.0, HasNoNil-insert k v m p h.1)
]

HasNoNil-merge :
    (m : Dict Text (Option Notification)) (db : Dict Text Notification)
    → HasNoNil m
    → HasNoNil (merge m (carried db))
HasNoNil-merge m [] h = h
HasNoNil-merge m ((k, n) ∷ db) h =
    HasNoNil-merge (insert k (some n) m) db (HasNoNil-insert k (some n) m (λ e. absurd (cc)) h)

module _ (h : Host) (c : Crypto) (public_key : c.PublicKey) where
  -- One fetch of an agent from a server.
  abbrev pub fetch : Server → ℕ → Runtime → Option Runtime
  fetch s now rt =
      read_tcp h c public_key rt (reply_of (serve_http_request c public_key s get_request now).1)

  -- After a fetch that does not crash, the agent holds, for each UUID of a server that verifies with
  -- the same public key, the server's version or a later one.
  pub fetch-grows :
      (s : Server) (now : ℕ) (rt rt' : Runtime) (k : Text) (n : Notification)
      → IsWellFormed rt.agent
      → IsStored c public_key s
      → fetch s now rt ≡ some rt'
      → lookup k s.updates ≡ some n
      → (n' : Notification) × (view rt'.agent k ≡ some n') × (n.version ≤ n'.version)
  unfolding serve_http_request
  fetch-grows s now rt rt' k n sound stored e present =
      let (n', shown, le) =
        read_tcp-Holds h c public_key rt rt'
          (reply_of (serve_http_request c public_key s get_request now).1) k {o = some n} sound
          (refl, refl, refl) (carried-HasDistinctKeys s.updates stored.distinct)
          (lookup-carried k s.updates ∙ rw present refl) e (stored.signed k n present) in
      (n', ap (λ (j : Text). view rt'.agent j) (sym (stored.keyed k n present)) ∙ shown, le)

  -- A fetch does not dereference a nil pointer, and leaves none.
  pub fetch-returns :
      (s : Server) (now : ℕ) (rt : Runtime)
      → HasNoNil rt.buf_notifications
      → (rt' : Runtime) × (fetch s now rt ≡ some rt')
        × HasNoNil rt'.buf_notifications
        × (rt'.read_tcp_interval ≡ rt.read_tcp_interval)
  unfolding serve_http_request read_tcp
  fetch-returns s now rt p =
      let buf = merge rt.buf_notifications (carried s.updates) in
      let pointers = HasNoNil-merge rt.buf_notifications s.updates p in
      let (b, received) = receive_all-returns h c public_key rt.agent (values buf) pointers in
      (record rt { buf_notifications = buf; agent = b }, rw received refl, pointers, refl)

module _ (h remote : Host) (c : Crypto) (agent_key public_key : c.PublicKey) where
  module _ (st : Stun) (mp : Msgpack) (delivers : UdpAddr → Bool) where
    -- The whole way of an update. The database of a server is well formed, and a `submit` without an
    -- output file to the well-formed agent of a host and to that server ends without an error. The
    -- server then runs in any way, and the agent of any host, sound and with the server's public key,
    -- fetches from it, with no nil pointer left from its earlier fetches. Then the fetch does not
    -- panic, and that agent holds, for the UUID submitted, the version submitted (the current time
    -- for 0) or a later one.
    pub submit_cmd-spreads :
        (e : Surroundings c Network) (f : SubmitFlags) (a a' : Agent) (s s' : Server)
        (t : Serving st) (now : ℕ) (rt : Runtime) {x : ℕ} {xs : Text}
        → IsWellFormed a
        → IsStored c public_key s
        → f.output ≡ []
        → f.server ≡ x ∷ xs
        → submit_cmd c (reachable h c agent_key public_key e) f (a, s) ≡ ((a', s'), none)
        → Reach st mp delivers c public_key (serving st s') t
        → IsSound remote c public_key rt.agent
        → HasNoNil rt.buf_notifications
        → (rt' : Runtime) × (n : Notification) × (fetch remote c public_key t.server now rt
            ≡ some rt')
          × (view rt'.agent f.uuid ≡ some n)
          × (version_of c e f ≤ n.version)
    submit_cmd-spreads e f a a' s s' t now rt w stored no_output given done run sound pointers =
        let (n, uuid, version, held, present) =
          submit_cmd-holds h c agent_key public_key e f a a' s s' w no_output given done in
        let stored' = submit_cmd-IsStored h c agent_key public_key e f a a' s s' none stored done in
        let (m, there, le) = Reach-Grows c public_key st mp delivers run n.uuid n present in
        let kept = Reach-IsStored c public_key st mp delivers run stored' in
        let (rt', fetched, pointers', same) =
          fetch-returns remote c public_key t.server now rt pointers in
        let (m', shown, le') =
          fetch-grows remote c public_key t.server now rt rt' n.uuid m sound.well_formed kept
            fetched there in
        (
          rt',
          m',
          fetched,
          ap (λ (k : Text). view rt'.agent k) (sym uuid) ∙ shown,
          omega (arith, le, le', ap (λ (v : ℕ). v) version),
        )
