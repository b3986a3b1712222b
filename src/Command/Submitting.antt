-- ===== src/Command/Submitting.antt =====
-- The `submit` command (main.go) with an agent (api.go, update.go) and a server (server.go): what
-- the two hold after it.
use p2p_update.Common.{
  ℕ, ◌≡◌, refl, ap, ◌∙◌, subst, Bool, true, false, Option, none, some, [], ◌∷◌, Text, eqb, arith,
  Option-cases, inl, inr, bytes_eq, beq_refl,
}
use p2p_update.Common.Dict.{lookup}
use p2p_update.Notification.{Notification, Crypto}
use p2p_update.Notification.Creating.{new_notification_fields}
use p2p_update.Update.{Update}
use p2p_update.Agent.{Agent, Host, accepts}
use p2p_update.Agent.Table.{view}
use p2p_update.Agent.Starting.{takes, register_error}
use p2p_update.Agent.Trust.{IsWellFormed}
use p2p_update.Api.{Answer, reply, crashed, request_post_update, start_status}
use p2p_update.Api.Requests.{request_post_update_cases}
use p2p_update.Server.{Server}
use p2p_update.Server.Updates.{serve_post_request}
use p2p_update.Server.Versions.{serve_post_request_cases}
use p2p_update.Command.Stages.{submit_cmd-eq-none, submit_cmd-keeps}
use p2p_update.Server.History.{IsStored, serve_post_request-IsStored}
use p2p_update.Command.{
  SubmitFlags, SubmitError, Surroundings, agent_failed, server_failed, submit_error, submission,
  version_of, agent_step, server_step, submit_cmd,
}

-- The host of an agent, and a server.
abbrev pub Network : Type 0
Network = Agent × Server

abbrev pub status_of : Answer → Option ℕ
status_of (reply code body) = some code
status_of crashed = none

module _ (h : Host) (c : Crypto) (agent_key server_key : c.PublicKey) where
  -- A POST to the agent, whose source file is there and is copied. JSON carries the fields that a
  -- submission sets.
  abbrev pub post_agent : Network → Update → Network × Option ℕ
  post_agent (a, s) u =
      let (a', answer) =
        request_post_update h c agent_key a
          (record { decoded = some u; source_exists = true; copied = true }) in
      ((a', s), status_of answer)

  -- A POST to the server at a given time.
  abbrev pub post_server : ℕ → Network → Notification → Network × Option ℕ
  post_server now (a, s) n =
      let (s', r) = serve_post_request c server_key s (some n) now in ((a, s'), some r.status)

  -- What the command meets where the network can be reached.
  abbrev pub reachable : Surroundings c Network → Surroundings c Network
  reachable e = record e { post_agent = post_agent; post_server = post_server e.now }

  refused_status :
      (accept : Notification → Bool) (held : Option Notification) (n : Notification)
      → takes accept held n ≡ false
      → eqb (start_status h c agent_key (register_error accept held n)) 200 ≡ false
  refused_status accept none n e = ground arith
  refused_status accept (some old) n e = ground arith

  -- A POST that the agent answers with 200 has left the notification there.
  agent_holds :
      (a : Agent) (s : Server) (u : Update)
      → IsWellFormed a
      → submit_error agent_failed (post_agent (a, s) u).1 ≡ none
      → view (post_agent (a, s) u).0.0 u.notification.uuid ≡ some u.notification
  unfolding submit_error
  agent_holds a s u w e =
      let n = u.notification in
      elim (request_post_update_cases h c agent_key a u n.uuid w) [
        | inl (refused, answered, kept) ↦
            let not_ok = refused_status (accepts h c agent_key) (view a n.uuid) n refused in
            absurd (ground (arith, not_ok, ap status_of answered))
        | inr (taken, answered, shown) ↦ shown ∙ rw (beq_refl n.uuid) refl
      ]

  -- A POST that the server answers with 200 has left the notification there.
  server_holds :
      (now : ℕ) (a : Agent) (s : Server) (n : Notification)
      → submit_error server_failed (post_server now (a, s) n).1 ≡ none
      → lookup n.uuid (post_server now (a, s) n).0.1.updates ≡ some n
  unfolding submit_error
  server_holds now a s n e =
      let (status, handed, shown) = serve_post_request_cases c server_key s now n n.uuid in
      ground (arith, status, shown, beq_refl n.uuid)

  module _ (e : Surroundings c Network) (f : SubmitFlags) where
    server_step-holds :
        (u : Update) (a a' : Agent) (s s' : Server) {x : ℕ} {xs : Text}
        → f.server ≡ x ∷ xs
        → server_step c (reachable e) f u (a, s) ≡ ((a', s'), none)
        → (a ≡ a') × (lookup u.notification.uuid s'.updates ≡ some u.notification)
    server_step-holds u a a' s s' given done =
        let n = u.notification in
        let p = post_server e.now (a, s) n in
        let done' : (p.0, submit_error server_failed p.1) ≡ ((a', s'), none) = rw given at done in
        let stored : p.0.1 ≡ s' = ap (λ (r : Network × Option SubmitError). r.0.1) done' in
        (
          ap (λ (r : Network × Option SubmitError). r.0.0) done',
          subst (λ (x : Server). lookup n.uuid x.updates ≡ some n) stored
              (server_holds e.now a s n (ap (λ (r : Network × Option SubmitError). r.1) done')),
        )

    agent_step-holds :
        (u : Update) (a a' : Agent) (s s' : Server) {x : ℕ} {xs : Text}
        → IsWellFormed a
        → f.server ≡ x ∷ xs
        → agent_step c (reachable e) f u (a, s) ≡ ((a', s'), none)
        → (view a' u.notification.uuid ≡ some u.notification)
          × (lookup u.notification.uuid s'.updates ≡ some u.notification)
    agent_step-holds u a a' s s' w given done =
        let p = post_agent (a, s) u in
        elim (Option-cases (submit_error agent_failed p.1)) [
          | inl accepted' ↦
              let later : server_step c (reachable e) f u p.0 ≡ ((a', s'), none) =
                rw (accepted', agent_step) at done in
              let (same, stored) = server_step-holds u p.0.0 a' s s' given later in
              (
                subst (λ (x : Agent). view x u.notification.uuid ≡ some u.notification) same
                    (agent_holds a s u w accepted'),
                stored,
              )
          | inr (error, failed) ↦ absurd (cc (rw (failed, agent_step) at done))
        ]

    -- What a `submit` without an output file, given a server, has done if it ends without an error:
    -- there is a notification of the UUID and the version asked for (the current time for 0), which
    -- both the agent of the host and the server hold.
    pub submit_cmd-holds :
        (a a' : Agent) (s s' : Server) {x : ℕ} {xs : Text}
        → IsWellFormed a
        → f.output ≡ []
        → f.server ≡ x ∷ xs
        → submit_cmd c (reachable e) f (a, s) ≡ ((a', s'), none)
        → (n : Notification) × (n.uuid ≡ f.uuid)
          × (n.version ≡ version_of c e f)
          × (view a' n.uuid ≡ some n)
          × (lookup n.uuid s'.updates ≡ some n)
    submit_cmd-holds a a' s s' w no_output given done =
        let (key, n, made, step) =
          submit_cmd-eq-none c (reachable e) f (a, s) (a', s') no_output done in
        let (same_uuid, same_version, same_tracker) =
          new_notification_fields c e.build_from (e.absolute f.file) f.uuid (version_of c e f)
            f.tracker f.piece_length e.now key n made in
        let u = submission (e.absolute f.file) n in
        let (held, stored) = agent_step-holds u a a' s s' w given step in
        (n, same_uuid, same_version, held, stored)

    -- The command leaves a database of the server that is well formed well formed, with whatever
    -- result it ends.
    pub submit_cmd-IsStored :
        (a a' : Agent) (s s' : Server) (r : Option SubmitError)
        → IsStored c server_key s
        → submit_cmd c (reachable e) f (a, s) ≡ ((a', s'), r)
        → IsStored c server_key s'
    submit_cmd-IsStored a a' s s' r stored done =
        subst (IsStored c server_key) (ap (λ (x : Network × Option SubmitError). x.0.1) done) (
          submit_cmd-keeps c (reachable e) (λ (w : Network). IsStored c server_key w.1) (λ w u p. p)
            (λ w n p. serve_post_request-IsStored c server_key w.1 n e.now p) f (a, s) stored)
