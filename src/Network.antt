-- ===== src/Network.antt =====
-- A server (server.go) and the agents of any number of hosts (agent.go) that poll it, listen to the
-- overlay and serve their REST services (api.go), as interleaved steps. What a message of the overlay
-- holds is left open.
use p2p_update.Common.{ℕ, ◌≡◌, ◌≢◌, ◌⊎◌, Bool, true, Option, some, List, if◌then◌else◌, eqb}
use p2p_update.Stun.{Stun, UdpAddr}
use p2p_update.Peer.{Msgpack}
use p2p_update.Notification.{Notification, Crypto}
use p2p_update.Agent.{Agent, Host}
use p2p_update.Agent.Monitoring.{Surroundings, monitor_round, continued}
use p2p_update.Agent.Sources.{Runtime, HttpReply, gossip_round}
use p2p_update.Api.{crashed}
use p2p_update.Api.Handler.{Visit, request_handler}
use p2p_update.Server.{Server}
use p2p_update.Server.Updates.{get_request, serve_http_request}
use p2p_update.Server.Serving
use p2p_update.Server.Serving.{Serving}
use p2p_update.Distribution.{reply_of}
pub mod Rounds
pub mod Polling
pub mod Consistency
pub mod Spreading
mod Tests

pub record Network (st : Stun) : Type 0 where
  pub server : Serving st
  pub agents : ℕ → Runtime

abbrev pub put : (ℕ → Runtime) → ℕ → Runtime → ℕ → Runtime
put f i rt j = if eqb j i then rt else f j

abbrev pub put_agent : (ℕ → Runtime) → ℕ → Agent → ℕ → Runtime
put_agent f i a = put f i (record (f i) { agent = a })

module _ (c : Crypto) (public_key : c.PublicKey) where
  -- What a GET of the server's database gets, and is decoded to.
  abbrev pub database : Server → HttpReply
  database s = reply_of (serve_http_request c public_key s get_request 0).1

  -- What the server answers to `readTCP`, unless the request fails.
  abbrev pub IsHeard : Server → HttpReply → Type 0
  IsHeard s reply = (reply ≡ database s) ⊎ (reply.failed ≡ true)

module _ (st : Stun) (mp : Msgpack) (delivers : UdpAddr → Bool) (c : Crypto)
    (public_key : c.PublicKey) (hosts : ℕ → Host)
    (decode : List ℕ → Notification → Bool × Notification) where
  pub data Step : Network st → Network st → Type 0 where
    serve :
        (w : Network st) (s : Serving st)
        → Serving.Step st mp delivers c public_key w.server s
        → Step w (record w { server = s })
    gossip :
        (w : Network st) (i : ℕ) (ready : Bool) (reply : HttpReply) (message : Option (List ℕ))
        (rt : Runtime)
        → IsHeard c public_key w.server.server reply
        → gossip_round (hosts i) c public_key decode (w.agents i) ready reply message ≡ some rt
        → Step w (record w { agents = put w.agents i rt })
    request :
        (w : Network st) (i : ℕ) (v : Visit)
        → (request_handler (hosts i) c public_key (w.agents i).agent v).1 ≢ crashed
        → Step w (record w {
          agents =
              put_agent w.agents i (request_handler (hosts i) c public_key (w.agents i).agent v).0;
        })
    monitor :
        (w : Network st) (i r : ℕ) (s : Surroundings) (to_save to_save' : Bool) (a : Agent)
        → monitor_round (hosts i) (w.agents i).agent r s to_save ≡ continued a to_save'
        → Step w (record w { agents = put_agent w.agents i a })

  pub data Reach (w : Network st) : Network st → Type 0 where
    here : Reach w w
    next : {u v : Network st} → Reach w u → Step u v → Reach w v
