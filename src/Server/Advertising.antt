-- ===== src/Server/Advertising.antt =====
-- The handler of STUN messages (processMessage in server.go) and the datagrams of advertisements.
use p2p_update.Common.{
  ◌≡◌, ◌≢◌, ◌<◌, ◌∙◌, subst, length, refl, Bool, false, none, some, List, [], ◌∷◌, if◌then◌else◌,
  ◌==◌, bytes_eq, bytes_equal_iff, arith, Bool-cases, Option-cases, inl, inr, Outcome, ok, err,
  panic, Memᴰ,
}
use p2p_update.Common.Dict.{lookup}
use p2p_update.Stun.{Stun, UdpAddr}
use p2p_update.Peer.{PeerId, Session, SessionTable, TorrentPorts, Msgpack}
use p2p_update.Server.{
  Server, NetAddr, answer, register_with, read_request, Datagram, ServerError, external, Sent,
  new_peer_loop, advertised_to, advertise_new_peer, advertisement, process_message, register_peer,
  update_session_table,
}
use p2p_update.Server.Sessions.{IsServing, update_session_table-IsServing}

-- Every session has an external and an internal address.
abbrev pub HaveTwo : SessionTable → Type 0
HaveTwo [] = Unit
HaveTwo ((pid, session) ∷ ps) = (1 < length session) × HaveTwo ps

pub external_of_two :
    (session : Session) → 1 < length session → (a : UdpAddr) × (external session ≡ some a)
external_of_two [] h = absurd (omega arith)
external_of_two (a ∷ rest) h = (a, refl)

lookup-HaveTwo :
    (pid : PeerId) (ps : SessionTable) {session : Session}
    → HaveTwo ps
    → lookup pid ps ≡ some session
    → 1 < length session
lookup-HaveTwo pid [] h e = cc
lookup-HaveTwo pid ((q, v) ∷ ps) {session} h e = elim (Bool-cases (q == pid)) [
  | inl same ↦ let it : v ≡ session = ground arith in subst (λ (x : Session). 1 < length x) it h.0
  | inr other ↦ lookup-HaveTwo pid ps h.1 (rw other at e)
]

module _ (st : Stun) (mp : Msgpack) (delivers : UdpAddr → Bool) where
  -- A message to each other peer, at its external address.
  abbrev pub to_others : st.Message → PeerId → SessionTable → List (Datagram st.Message)
  to_others msg pid [] = []
  to_others msg pid ((q, session) ∷ ps) =
      let rest = to_others msg pid ps in
      if q == pid then rest else elim (external session) [
        | none ↦ rest
        | some a ↦ record { message = msg; dest = a } ∷ rest
      ]

  advertised_to-external :
      (session paddrs : Session)
      → 1 < length session
      → 1 < length paddrs
      → advertised_to st mp delivers session paddrs ≡ external paddrs
  advertised_to-external session [] h h' = refl
  advertised_to-external session (a ∷ rest) h h' = ground arith

  pub new_peer_loop-to_others :
      (msg : st.Message) (pid : PeerId) (session : Session) (ps : SessionTable)
      → 1 < length session
      → HaveTwo ps
      → new_peer_loop st mp delivers msg pid session ps ≡ ok (to_others msg pid ps)
  unfolding new_peer_loop
  new_peer_loop-to_others msg pid session [] two h = refl
  new_peer_loop-to_others msg pid session ((q, paddrs) ∷ ps) two h =
      let (a, there) = external_of_two paddrs h.0 in
      let same : advertised_to st mp delivers session paddrs ≡ some a =
        advertised_to-external session paddrs two h.0 ∙ there in
      let later = new_peer_loop-to_others msg pid session ps two h.1 in
      elim (Bool-cases (q == pid)) [
        | inl skipped ↦ rw skipped later
        | inr other ↦ rw other (rw same (rw there (rw later refl)))
      ]

  answer-IsServing :
      (s : Server) (pid : PeerId) (req : st.Message) (u : Outcome ServerError (Server × Bool))
      → IsServing s
      → ((s' : Server) (updated : Bool) → u ≡ ok (s', updated) → IsServing s')
      → IsServing (answer st mp delivers s pid req u).0
  answer-IsServing s pid req (ok (s', updated)) i k = k s' updated refl
  answer-IsServing s pid req (err e) i k = i
  answer-IsServing s pid req panic i k = i

  register_with-IsServing :
      (s : Server) (addr : NetAddr) (req : st.Message)
      (r : Outcome ServerError (PeerId × UdpAddr × TorrentPorts))
      → IsServing s
      → IsServing (register_with st mp delivers s addr req r).0
  register_with-IsServing s addr req (ok (pid, internal, ports)) i =
      answer-IsServing s pid req (update_session_table s addr pid internal ports) i
        (λ s' updated. update_session_table-IsServing s s' addr pid internal ports updated i)
  register_with-IsServing s addr req (err e) i = i
  register_with-IsServing s addr req panic i = i

  -- Every handled message, valid or not, leaves each session with four addresses and each peer
  -- with one session.
  pub process_message-IsServing :
      (s : Server) (addr : NetAddr) (req : st.Message)
      → IsServing s
      → IsServing (process_message st mp delivers s addr req).0
  unfolding process_message register_peer
  process_message-IsServing s addr req i =
      ground (arith, register_with-IsServing s addr req (read_request st mp delivers req) i)

  to_others-mem :
      (msg : st.Message) (pid q : PeerId) (ps : SessionTable) {session : Session} {a : UdpAddr}
      → lookup q ps ≡ some session
      → external session ≡ some a
      → pid ≢ q
      → Memᴰ (record { message = msg; dest = a }) (to_others msg pid ps)
  to_others-mem msg pid q [] e x n = absurd (cc)
  to_others-mem msg pid q ((k, v) ∷ ps) {session} {a} e x n =
      let datagram : Datagram st.Message = record { message = msg; dest = a } in
      let rest = to_others msg pid ps in
      elim (Bool-cases (k == q)) [
        | inl same ↦
            let here : external v ≡ some a = ground arith in
            let other : (k == pid) ≡ false =
              ground (arith, bytes_equal_iff k q, bytes_equal_iff k pid) in
            rw other (rw here (Memᴰ.head refl))
        | inr differs ↦
            let later : Memᴰ datagram rest = to_others-mem msg pid q ps (ground arith) x n in
            elim (Bool-cases (k == pid)) [
              | inl skipped ↦ rw skipped later
              | inr other ↦ rw other (elim (Option-cases (external v)) [
                | inl missing ↦ rw missing later
                | inr (b, there) ↦ rw there (Memᴰ.tail later)
              ])
            ]
      ]

  -- Where every session has at least two addresses, a new peer whose advertisement can be built is
  -- made known to every other peer: the datagrams hold one with the advertisement for the external
  -- address of each peer but the new one.
  pub advertise_new_peer-mem :
      (s : Server) (pid q : PeerId) {new session : Session} {msg : st.Message} {a : UdpAddr}
      → HaveTwo s.peers
      → lookup pid s.peers ≡ some new
      → advertisement st mp delivers s pid new ≡ some msg
      → lookup q s.peers ≡ some session
      → external session ≡ some a
      → pid ≢ q
      → (sent : Sent st mp delivers) × (advertise_new_peer st mp delivers s pid ≡ ok sent)
        × Memᴰ (record { message = msg; dest = a }) sent
  unfolding advertise_new_peer
  advertise_new_peer-mem s pid q {new} {msg} h known built other x n = (
    to_others msg pid s.peers,
    ground
        (arith, new_peer_loop-to_others msg pid new s.peers (lookup-HaveTwo pid s.peers h known) h),
    to_others-mem msg pid q s.peers other x n,
  )
