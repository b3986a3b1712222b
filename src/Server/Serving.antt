-- ===== src/Server/Serving.antt =====
-- The running server (serveUDP, udpWorker, serveTCP and the timers in server.go) as interleaved
-- steps: the reader of datagrams, three workers, HTTP requests, broadcasts and the two timers. A
-- worker holds the lock while it changes the table of sessions, and not while it answers, so other
-- steps can come between the two, and a change by another worker can end the process.
use p2p_update.Common.{
  ℕ, ◌<◌, ◌≡◌, ◌≢◌, Bool, true, false, not, ◌&&◌, Option, none, some, List, [], ◌∷◌, ◌++◌, Text,
  if◌then◌else◌, length, Outcome, ok, err, panic, ◌>>=◌,
}
use p2p_update.Common.Dict.{Dict}
use p2p_update.Stun.{Stun, UdpAddr, method_binding, class_request, same_method, same_class}
use p2p_update.Peer.{PeerId, TorrentPorts, Msgpack, validate_message}
use p2p_update.Notification.{Notification, Crypto}
use p2p_update.Server.{
  Server, NetAddr, ServerError, invalid_message, not_binding, update_session_table, read_request,
  answer_peer, advertise_session_table,
}
use p2p_update.Server.Updates.{
  Request, serve_http_request, Write, save_updates, send_update_notification,
}
mod Tests

-- make(chan stunRequestJob, 100), and the number of workers.
abbrev pub job_capacity : ℕ
job_capacity = 100

abbrev pub worker_count : ℕ
worker_count = 3

module _ (st : Stun) where
  -- The reader's tests on a datagram: other datagrams are dropped.
  unfoldable pub read_datagram : List ℕ → Option st.Message
  read_datagram bytes = if not (st.is_message bytes) then none else st.decode bytes

  -- Where a worker stands in `processMessage`.
  pub data Phase : Type 0 where
    started : NetAddr → st.Message → Phase
    answering : PeerId → st.Message → Bool → Phase

  -- `log` keeps every request that was read; `crashed` tells that the process has ended, and `raced`
  -- that it was for two goroutines that used the table of sessions at once.
  pub record Serving : Type 0 where
    pub server : Server
    pub jobs : List (NetAddr × st.Message)
    pub workers : List Phase
    pub log : List st.Message
    pub crashed : Bool
    pub raced : Bool

  abbrev pub serving : Server → Serving
  serving s = record {
    server = s;
    jobs = [];
    workers = [];
    log = [];
    crashed = false;
    raced = false;
  }

module _ (st : Stun) (mp : Msgpack) (delivers : UdpAddr → Bool) where
  abbrev pub with_peer :
      PeerId → Outcome ServerError (Server × Bool) → Outcome ServerError (Server × PeerId × Bool)
  with_peer pid u = do (s', updated) ← u; ok (s', pid, updated)

  abbrev pub update_with_request :
      Server
      → NetAddr
      → Outcome ServerError (PeerId × UdpAddr × TorrentPorts)
      → Outcome ServerError (Server × PeerId × Bool)
  update_with_request s addr r = do
    (pid, internal, ports) ← r
    with_peer pid (update_session_table s addr pid internal ports)

  -- `processMessage` up to and with the change of the table.
  unfoldable pub register :
      Server → NetAddr → st.Message → Outcome ServerError (Server × PeerId × Bool)
  register s addr req = elim (validate_message st req none s.stun_password) [
    | some e ↦ err (invalid_message e)
    | none ↦
        let t = st.message_type req in
        if same_method t.method method_binding && same_class t.class class_request
        then update_with_request s addr (read_request st mp delivers req)
        else err not_binding
  ]

  module _ (c : Crypto) (public_key : c.PublicKey) where
    pub data Step : Serving st → Serving st → Type 0 where
      receive :
          (t : Serving st) (bytes : List ℕ) (addr : NetAddr) (req : st.Message)
          → t.crashed ≡ false
          → read_datagram st bytes ≡ some req
          → length t.jobs < job_capacity
          → Step t (record t { jobs = t.jobs ++ (addr, req) ∷ []; log = req ∷ t.log })
      take_job :
          (t : Serving st) (addr : NetAddr) (req : st.Message) (rest : List (NetAddr × st.Message))
          → t.crashed ≡ false
          → t.jobs ≡ (addr, req) ∷ rest
          → length t.workers < worker_count
          → Step t (record t { jobs = rest; workers = started addr req ∷ t.workers })
      change_table :
          (t : Serving st) (before after : List (Phase st)) (addr : NetAddr) (req : st.Message)
          (s : Server) (pid : PeerId) (updated : Bool)
          → t.crashed ≡ false
          → t.workers ≡ before ++ started addr req ∷ after
          → register t.server addr req ≡ ok (s, pid, updated)
          → Step t (record t { server = s; workers = before ++ answering pid req updated ∷ after })
      refuse :
          (t : Serving st) (before after : List (Phase st)) (addr : NetAddr) (req : st.Message)
          (e : ServerError)
          → t.crashed ≡ false
          → t.workers ≡ before ++ started addr req ∷ after
          → register t.server addr req ≡ err e
          → Step t (record t { workers = before ++ after })
      finish :
          (t : Serving st) (before after : List (Phase st)) (pid : PeerId) (req : st.Message)
          (updated : Bool)
          → t.crashed ≡ false
          → t.workers ≡ before ++ answering pid req updated ∷ after
          → answer_peer st mp delivers t.server pid req updated ≢ panic
          → Step t (record t { workers = before ++ after })
      http :
          (t : Serving st) (r : Request) (now : ℕ)
          → t.crashed ≡ false
          → Step t (record t { server = (serve_http_request c public_key t.server r now).0 })
      snapshot :
          (t : Serving st) (file : Option (Dict Text Notification)) (result : Write)
          → t.crashed ≡ false
          → Step t (record t { server = (save_updates t.server file result).0 })
      crash_registering :
          (t : Serving st) (before after : List (Phase st)) (addr : NetAddr) (req : st.Message)
          → t.workers ≡ before ++ started addr req ∷ after
          → register t.server addr req ≡ panic
          → Step t (record t { crashed = true })
      crash_answering :
          (t : Serving st) (before after : List (Phase st)) (pid : PeerId) (req : st.Message)
          (updated : Bool)
          → t.workers ≡ before ++ answering pid req updated ∷ after
          → answer_peer st mp delivers t.server pid req updated ≡ panic
          → Step t (record t { crashed = true })
      crash_advertising :
          (t : Serving st)
          → advertise_session_table st mp delivers t.server ≡ panic
          → Step t (record t { crashed = true })
      crash_broadcasting :
          (t : Serving st) (bytes : Option (List ℕ))
          → send_update_notification st delivers t.server bytes ≡ none
          → Step t (record t { crashed = true })
      -- advertiseSessionTableToPeer iterates over the table without the lock while another worker
      -- changes it, which the runtime of Go may find and end the process for.
      collide :
          (t : Serving st) (before after left right : List (Phase st)) (addr : NetAddr)
          (req asked : st.Message) (s : Server) (pid other : PeerId)
          → t.crashed ≡ false
          → t.workers ≡ before ++ started addr req ∷ after
          → before ++ after ≡ left ++ answering other asked true ∷ right
          → register t.server addr req ≡ ok (s, pid, true)
          → Step t (record t { crashed = true; raced = true })

    pub data Reach (s : Serving st) : Serving st → Type 0 where
      here : Reach s s
      next : {t u : Serving st} → Reach s t → Step t u → Reach s u
