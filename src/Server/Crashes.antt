-- ===== src/Server/Crashes.antt =====
-- What a worker, a timer or a broadcast of the running server (server.go) does to its state, and
-- when it panics.
use p2p_update.Common.{
  ℕ, ◌≡◌, ◌≢◌, refl, Bool, true, false, not, Option, none, some, List, [], ◌∷◌, ◌++◌, Outcome, ok,
  err, panic, arith, Option-cases, inl, inr, bytes_eq,
}
use p2p_update.Common.Dict.{lookup}
use p2p_update.Stun.{Stun, UdpAddr}
use p2p_update.Peer.{PeerId, SessionTable, TorrentPorts, Msgpack, torrent_ports_get_from}
use p2p_update.Server.{
  Server, NetAddr, udp_addr, other_addr, ServerError, update_session_table, read_request,
  advertise_loop,
}
use p2p_update.Server.Sessions.{IsServing, update_session_table-IsServing}
use p2p_update.Server.Advertising.{HaveTwo}
use p2p_update.Server.Panics.{
  update_session_table-ne-panic, read_request-panic, advertise_session_table_to_peer-ne-panic,
  IsServing-HaveTwo,
}
use p2p_update.Server.Updates.{notification_loop, send_update_notification}
use p2p_update.Server.Serving.{register, with_peer, update_with_request}

module _ (st : Stun) (mp : Msgpack) (delivers : UdpAddr → Bool) where
  with_peer-eq-ok :
      (q : PeerId) (u : Outcome ServerError (Server × Bool)) {s : Server} {pid : PeerId}
      {updated : Bool}
      → with_peer st mp delivers q u ≡ ok (s, pid, updated)
      → u ≡ ok (s, updated)
  with_peer-eq-ok q (ok (s, updated)) e = ground arith
  with_peer-eq-ok q (err f) e = cc
  with_peer-eq-ok q panic e = cc

  update_with_request-IsServing :
      (s s' : Server) (addr : NetAddr) (r : Outcome ServerError (PeerId × UdpAddr × TorrentPorts))
      {pid : PeerId} {updated : Bool}
      → IsServing s
      → update_with_request st mp delivers s addr r ≡ ok (s', pid, updated)
      → IsServing s'
  update_with_request-IsServing s s' addr (ok (q, internal, ports)) {updated} i e =
      update_session_table-IsServing s s' addr q internal ports updated i
        (with_peer-eq-ok q (update_session_table s addr q internal ports) e)
  update_with_request-IsServing s s' addr (err f) i e = cc
  update_with_request-IsServing s s' addr panic i e = cc

  -- A worker's change of the table keeps the server's invariant.
  pub register-IsServing :
      (s s' : Server) (addr : NetAddr) (req : st.Message) {pid : PeerId} {updated : Bool}
      → IsServing s
      → register st mp delivers s addr req ≡ ok (s', pid, updated)
      → IsServing s'
  unfolding register
  register-IsServing s s' addr req {pid} {updated} i e =
      let r = read_request st mp delivers req in
      let changed : update_with_request st mp delivers s addr r ≡ ok (s', pid, updated) =
        ground arith in
      update_with_request-IsServing s s' addr r i changed

  update_session_table-updates :
      (s s' : Server) (addr : NetAddr) (pid : PeerId) (internal : UdpAddr) (ports : TorrentPorts)
      (updated : Bool)
      → update_session_table s addr pid internal ports ≡ ok (s', updated)
      → s'.updates ≡ s.updates
  unfolding update_session_table
  update_session_table-updates s s' (udp_addr peer) pid internal ports updated e =
      elim (Option-cases (lookup pid s.peers)) [
        | inl absent ↦ ground arith
        | inr (old, present) ↦ ground arith
      ]
  update_session_table-updates s s' other_addr pid internal ports updated e = cc

  update_with_request-updates :
      (s s' : Server) (addr : NetAddr) (r : Outcome ServerError (PeerId × UdpAddr × TorrentPorts))
      {pid : PeerId} {updated : Bool}
      → update_with_request st mp delivers s addr r ≡ ok (s', pid, updated)
      → s'.updates ≡ s.updates
  update_with_request-updates s s' addr (ok (q, internal, ports)) {updated} e =
      update_session_table-updates s s' addr q internal ports updated
        (with_peer-eq-ok q (update_session_table s addr q internal ports) e)
  update_with_request-updates s s' addr (err f) e = cc
  update_with_request-updates s s' addr panic e = cc

  -- A worker's change of the table leaves the notifications alone.
  pub register-updates :
      (s s' : Server) (addr : NetAddr) (req : st.Message) {pid : PeerId} {updated : Bool}
      → register st mp delivers s addr req ≡ ok (s', pid, updated)
      → s'.updates ≡ s.updates
  unfolding register
  register-updates s s' addr req {pid} {updated} e =
      let r = read_request st mp delivers req in
      let changed : update_with_request st mp delivers s addr r ≡ ok (s', pid, updated) =
        ground arith in
      update_with_request-updates s s' addr r changed

  with_peer-ne-panic :
      (q : PeerId) (u : Outcome ServerError (Server × Bool))
      → u ≢ panic
      → with_peer st mp delivers q u ≢ panic
  with_peer-ne-panic q (ok (s, updated)) n = λ p. cc
  with_peer-ne-panic q (err f) n = λ p. cc
  with_peer-ne-panic q panic n = absurd (n refl)

  update_with_request-panic :
      (s : Server) (addr : NetAddr) (r : Outcome ServerError (PeerId × UdpAddr × TorrentPorts))
      → update_with_request st mp delivers s addr r ≡ panic
      → r ≡ panic
  update_with_request-panic s addr (ok (q, internal, ports)) e = absurd (
      with_peer-ne-panic q (update_session_table s addr q internal ports)
        (update_session_table-ne-panic st mp delivers s addr q internal ports) e)
  update_with_request-panic s addr (err f) e = cc
  update_with_request-panic s addr panic e = refl

  pub register-panic :
      (s : Server) (addr : NetAddr) (req : st.Message)
      → register st mp delivers s addr req ≡ panic
      → torrent_ports_get_from st req ≡ panic
  unfolding register
  register-panic s addr req e =
      let r = read_request st mp delivers req in
      let reading : r ≡ panic = ground (arith, update_with_request-panic s addr r) in
      (read_request-panic st mp delivers req reading).2

  pub advertise_loop-ne-panic :
      (s : Server) (ps : SessionTable) → IsServing s → advertise_loop st mp delivers s ps ≢ panic
  unfolding advertise_loop
  advertise_loop-ne-panic s [] i = λ p. cc
  advertise_loop-ne-panic s ((pid, session) ∷ ps) i = ground (
    arith,
    advertise_session_table_to_peer-ne-panic st mp delivers s i pid,
    advertise_loop-ne-panic s ps i,
  )

  notification_loop-ne-none :
      (ps : SessionTable) (failed : Bool) (sent : List UdpAddr)
      → HaveTwo ps
      → notification_loop st delivers ps failed sent ≢ none
  unfolding notification_loop
  notification_loop-ne-none [] failed sent h = λ p. cc
  notification_loop-ne-none ((pid, []) ∷ ps) failed sent h = absurd (omega arith)
  notification_loop-ne-none ((pid, a ∷ []) ∷ ps) failed sent h = absurd (omega arith)
  notification_loop-ne-none ((pid, a ∷ b ∷ rest) ∷ ps) true sent h =
      notification_loop-ne-none ps true sent h.1
  notification_loop-ne-none ((pid, a ∷ b ∷ rest) ∷ ps) false sent h =
      notification_loop-ne-none ps (not (delivers a)) (sent ++ a ∷ []) h.1

  pub send_update_notification-ne-none :
      (s : Server) (bytes : Option (List ℕ))
      → IsServing s
      → send_update_notification st delivers s bytes ≢ none
  unfolding send_update_notification
  send_update_notification-ne-none s none i = λ p. cc
  send_update_notification-ne-none s (some bytes) i =
      let two = IsServing-HaveTwo s i in
      ground (
        arith,
        notification_loop-ne-none s.peers true [] two,
        notification_loop-ne-none s.peers false [] two,
      )
