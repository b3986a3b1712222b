-- ===== src/Network/Tests.antt =====
-- A server with a notification, and the agents of any number of hosts, one of which polls it.
use p2p_update.Common.{
  ℕ, ◌≤◌, ◌≡◌, ◌≢◌, refl, false, none, some, [], ◌∷◌, codes, inl, arith, bytes_eq, Bool, List,
}
use p2p_update.Notification.{Notification}
use p2p_update.Update.{uuid_shell}
use p2p_update.Agent.Table.{view}
use p2p_update.Agent.Provenance.{IsGuarded}
use p2p_update.Agent.Trust.{IsWellFormed, Grows}
use p2p_update.Agent.Sources.{Runtime, receive, receive_all, read_tcp, gossip_round}
use p2p_update.Api.{get, crashed, route}
use p2p_update.Api.Keeping.{deletes}
use p2p_update.Agent.Monitoring.{write_panics}
use p2p_update.Api.Handler.{Visit, request_handler}
use p2p_update.Server.Updates.{serve_http_request}
use p2p_update.Server.Serving
use p2p_update.Server.Serving.{Serving, serving}
use p2p_update.Network.{Network, put, put_agent, database, Reach, here, next, gossip, request}
use p2p_update.Network.Consistency.{IsConsistent, Reach-IsConsistent, Reach-returns}
use p2p_update.Network.Spreading.{Reach-spreads}
use p2p_update.Network.Polling.{poll_rounds, poll_rounds-catches_up}
use p2p_update.Fixtures.Stored.{stored_server, stored_server-IsStored}
use p2p_update.Fixtures.{
  empty_agent-IsSound, empty_agent-IsWellFormed, toy_crypto, toy_host, plain_stun, no_codec,
  everywhere, empty_agent, shell_notification,
}

abbrev full_server : Serving plain_stun
full_server = serving plain_stun stored_server

-- An agent whose poll is due.
abbrev waiting : Runtime
waiting = record {
  agent = empty_agent;
  buf_notification = shell_notification 2;
  sharing = [];
  buf_notifications = [];
  counter = 60;
  read_tcp_interval = 60;
}

-- The same agent after it has polled the server.
abbrev polled : Runtime
polled = record waiting {
  agent = (receive toy_host toy_crypto 7 empty_agent (shell_notification 3)).0;
  buf_notifications = (uuid_shell, some (shell_notification 3)) ∷ [];
  counter = 0;
}

abbrev start : Network plain_stun
start = record { server = full_server; agents = λ i. waiting }

start-IsConsistent : IsConsistent plain_stun toy_crypto 7 (λ i. toy_host) start
start-IsConsistent = record {
  stored = stored_server-IsStored;
  formed = λ i. empty_agent-IsWellFormed;
  guarded = λ i k r e own. cc;
  pointers = λ i. tt;
}

polls :
    gossip_round toy_host toy_crypto 7
      (λ b n. (false, n))
      waiting
      false
      (database toy_crypto 7 full_server.server)
      none
    ≡ some polled
unfolding gossip_round read_tcp serve_http_request receive_all
polls = refl

abbrev config_visit : Visit
config_visit = record {
  host = codes "v1";
  path = codes "/config";
  method = get;
  body = record { decoded = none; source_exists = false; copied = false };
  connection = none;
  write = λ n. write_panics;
}

config_visit_fine : (request_handler toy_host toy_crypto 7 empty_agent config_visit).1 ≢ crashed
unfolding request_handler route
config_visit_fine e = cc

abbrev reject : List ℕ → Notification → Bool × Notification
reject bytes n = (false, n)

-- Agent 4 has polled, and then agent 1 is asked for its configuration.
abbrev visited : Network plain_stun
visited = record start {
  agents =
      put_agent (put start.agents 4 polled) 1
        (request_handler toy_host toy_crypto 7 empty_agent config_visit).0;
}

abbrev visiting :
    Reach plain_stun no_codec everywhere toy_crypto 7
      (λ i. toy_host)
      reject
      (record start { agents = put start.agents 4 polled })
      visited
visiting =
    next here (
      request (record start { agents = put start.agents 4 polled }) 1 config_visit
        config_visit_fine)

visiting_all : Reach plain_stun no_codec everywhere toy_crypto 7 (λ i. toy_host) reject start start
visiting_all = here

config_visit-deletes : (k : List ℕ) → deletes config_visit k ≡ false
unfolding route
config_visit-deletes k = refl

Reach-IsConsistent_example : IsConsistent plain_stun toy_crypto 7 (λ i. toy_host) visited
Reach-IsConsistent_example =
    Reach-IsConsistent plain_stun no_codec everywhere toy_crypto 7 (λ i. toy_host) reject
      (next
        (next here (
          gossip start 4 false (database toy_crypto 7 full_server.server) none polled (inl refl)
            polls))
        (request (record start { agents = put start.agents 4 polled }) 1 config_visit
          config_visit_fine))
      start-IsConsistent

Reach-returns_example :
    (rt : Runtime) × (gossip_round toy_host toy_crypto 7 reject waiting false
        (database toy_crypto 7 full_server.server)
        none
      ≡ some rt)
    × IsWellFormed rt.agent
    × IsGuarded toy_host toy_crypto 7 rt
    × Grows toy_host toy_crypto 7 empty_agent rt.agent
Reach-returns_example =
    Reach-returns plain_stun no_codec everywhere toy_crypto 7 (λ i. toy_host) reject 4 false
      (database toy_crypto 7 full_server.server) none start-IsConsistent visiting_all (inl refl)

Reach-spreads_example :
    (n' : Notification) × (view polled.agent uuid_shell ≡ some n') × (3 ≤ n'.version)
Reach-spreads_example =
    Reach-spreads plain_stun no_codec everywhere toy_crypto 7 (λ i. toy_host) reject 4 none polled
      uuid_shell (shell_notification 3) start-IsConsistent refl visiting_all (omega arith) polls
      visiting (tt, λ same. config_visit-deletes uuid_shell)

poll_rounds-catches_up_example :
    (rt' : Runtime) × (n' : Notification) × (poll_rounds plain_stun toy_host toy_crypto 7 reject
        (full_server ∷ full_server ∷ [])
        waiting
      ≡ some rt')
    × (view rt'.agent uuid_shell ≡ some n')
    × (3 ≤ n'.version)
poll_rounds-catches_up_example =
    poll_rounds-catches_up plain_stun toy_host toy_crypto 7 reject no_codec everywhere full_server
      (full_server ∷ full_server ∷ []) waiting uuid_shell (shell_notification 3)
      stored_server-IsStored (Serving.here, (Serving.here, tt)) empty_agent-IsSound tt (omega arith)
      (omega arith) refl
