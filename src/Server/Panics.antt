-- ===== src/Server/Panics.antt =====
-- When the handler of STUN messages panics (server.go).
use p2p_update.Common.{
  ◌<◌, ◌≡◌, ◌≢◌, ◌↔◌, refl, ap, Bool, none, some, [], ◌∷◌, length, ◌==◌, bytes_eq, bytes_equal_iff,
  beq_refl, arith, Bool-cases, Option-cases, inl, inr, Outcome, ok, err, panic,
}
use p2p_update.Common.Dict.{lookup, HasDistinctKeys}
use p2p_update.Stun.{Stun, UdpAddr, method_binding, class_request}
use p2p_update.Peer.{
  PeerId, Session, SessionTable, TorrentPorts, Msgpack, zero_peer_id, peer_id_get_from,
  torrent_ports_get_from, validate_message,
}
use p2p_update.Peer.Identity.{peer_id_get_from-ne-panic}
use p2p_update.Server.{
  Server, NetAddr, udp_addr, other_addr, answer, register_with, read_request, ServerError, external,
  advertise_new_peer, advertise_session_table_to_peer, advertisement, advertisement_setters,
  process_message, register_peer, update_session_table, answer_peer, send_binding_success,
}
use p2p_update.Server.Sessions.{IsServing, update_session_table-IsServing}
use p2p_update.Server.Advertising.{HaveTwo, external_of_two, new_peer_loop-to_others}

two_of_four : (session : Session) → length session ≡ 4 → 1 < length session
two_of_four session h = omega arith

table-HaveTwo :
    (ps : SessionTable)
    → HasDistinctKeys ps
    → ((pid : PeerId) (session : Session) → lookup pid ps ≡ some session → length session ≡ 4)
    → HaveTwo ps
table-HaveTwo [] d four = tt
table-HaveTwo ((k, v) ∷ ps) d four = (
  two_of_four v (four k v (rw (beq_refl k))),
  table-HaveTwo ps d.1 (λ pid session e. four pid session (in_tail pid session e)),
)
  where
    in_tail :
        (pid : PeerId) (session : Session)
        → lookup pid ps ≡ some session
        → lookup pid ((k, v) ∷ ps) ≡ some session
    in_tail pid session e = elim (Bool-cases (k == pid)) [
      | inl same ↦ cc (ap (λ (x : PeerId). lookup x ps) ((bytes_equal_iff k pid).0 same), d.0)
      | inr other ↦ rw other e
    ]

pub IsServing-HaveTwo : (s : Server) → IsServing s → HaveTwo s.peers
IsServing-HaveTwo s i = table-HaveTwo s.peers i.distinct i.four

known_external :
    (s : Server) (pid : PeerId) {session : Session}
    → IsServing s
    → lookup pid s.peers ≡ some session
    → (a : UdpAddr) × (external session ≡ some a)
known_external s pid {session} i e =
    external_of_two session (two_of_four session (i.four pid session e))

module _ (st : Stun) (mp : Msgpack) (delivers : UdpAddr → Bool) (s : Server) (i : IsServing s) where
  advertise_new_peer-ne-panic : (pid : PeerId) → advertise_new_peer st mp delivers s pid ≢ panic
  unfolding advertise_new_peer
  advertise_new_peer-ne-panic pid = elim (Option-cases (lookup pid s.peers)) [
    | inl absent ↦ ground arith
    | inr (session, known) ↦
        let others = IsServing-HaveTwo s i in
        let two = two_of_four session (i.four pid session known) in
        elim (Option-cases (advertisement st mp delivers s pid session)) [
          | inl failed ↦
              let left = st.partly_built (advertisement_setters st mp delivers s pid session) in
              ground
                (arith, new_peer_loop-to_others st mp delivers left pid session s.peers two others)
          | inr (msg, built) ↦
              ground
                (arith, new_peer_loop-to_others st mp delivers msg pid session s.peers two others)
        ]
  ]

  pub advertise_session_table_to_peer-ne-panic :
      (pid : PeerId) → advertise_session_table_to_peer st mp delivers s pid ≢ panic
  unfolding advertise_session_table_to_peer
  advertise_session_table_to_peer-ne-panic pid = elim (Option-cases (lookup pid s.peers)) [
    | inl absent ↦ ground arith
    | inr (session, known) ↦ ground (arith, known_external s pid i known)
  ]

  send_binding_success-ne-panic :
      (pid : PeerId) (req : st.Message) → send_binding_success st mp delivers s pid req ≢ panic
  unfolding send_binding_success
  send_binding_success-ne-panic pid req = elim (Option-cases (lookup pid s.peers)) [
    | inl absent ↦ ground arith
    | inr (session, known) ↦ ground (arith, known_external s pid i known)
  ]

  pub answer_peer-ne-panic :
      (pid : PeerId) (req : st.Message) (updated : Bool)
      → answer_peer st mp delivers s pid req updated ≢ panic
  unfolding answer_peer
  answer_peer-ne-panic pid req updated = ground (
    arith,
    send_binding_success-ne-panic pid req,
    advertise_new_peer-ne-panic pid,
    advertise_session_table_to_peer-ne-panic pid,
  )

module _ (st : Stun) (mp : Msgpack) (delivers : UdpAddr → Bool) where
  answer-ne-panic :
      (s : Server) (pid : PeerId) (req : st.Message) (u : Outcome ServerError (Server × Bool))
      → u ≢ panic
      → ((s' : Server) (updated : Bool) → u ≡ ok (s', updated) → IsServing s')
      → (answer st mp delivers s pid req u).1 ≢ panic
  answer-ne-panic s pid req (ok (s', updated)) n k =
      answer_peer-ne-panic st mp delivers s' (k s' updated refl) pid req updated
  answer-ne-panic s pid req (err e) n k = λ p. cc
  answer-ne-panic s pid req panic n k = absurd (n refl)

  pub update_session_table-ne-panic :
      (s : Server) (addr : NetAddr) (pid : PeerId) (internal : UdpAddr) (ports : TorrentPorts)
      → update_session_table s addr pid internal ports ≢ panic
  unfolding update_session_table
  update_session_table-ne-panic s (udp_addr peer) pid internal ports = λ p. cc
  update_session_table-ne-panic s other_addr pid internal ports = λ p. cc

  register_with-ne-panic :
      (s : Server) (addr : NetAddr) (req : st.Message)
      (r : Outcome ServerError (PeerId × UdpAddr × TorrentPorts))
      → IsServing s
      → (register_with st mp delivers s addr req r).1 ≡ panic
      → r ≡ panic
  register_with-ne-panic s addr req (ok (pid, internal, ports)) i h = absurd (
      answer-ne-panic s pid req (update_session_table s addr pid internal ports)
        (update_session_table-ne-panic s addr pid internal ports)
        (λ s' updated. update_session_table-IsServing s s' addr pid internal ports updated i) h)
  register_with-ne-panic s addr req (err e) i h = cc
  register_with-ne-panic s addr req panic i h = refl

  -- What the handler must get through before it reads the torrent ports.
  pub record ReachesPorts (s : Server) (req : st.Message) : Type 0 where
    pub valid : validate_message st req none s.stun_password ≡ none
    pub method : (st.message_type req).method ≡ method_binding
    pub class : (st.message_type req).class ≡ class_request
    pub identified : (pid : PeerId) × (peer_id_get_from st zero_peer_id req ≡ ok pid)
    pub addressed : (a : UdpAddr) × (st.get_xor_address req ≡ some a)

  pub read_request-panic :
      (req : st.Message)
      → read_request st mp delivers req ≡ panic
      → ((pid : PeerId) × (peer_id_get_from st zero_peer_id req ≡ ok pid))
        × ((a : UdpAddr) × (st.get_xor_address req ≡ some a))
        × (torrent_ports_get_from st req ≡ panic)
  read_request-panic req h = ground (arith, peer_id_get_from-ne-panic st zero_peer_id req)

  -- On a server all of whose sessions have four addresses, the handler of a message panics exactly
  -- when the message is a valid binding request with a peer identifier and an internal address,
  -- and reading its torrent ports panics.
  pub process_message-panic_iff :
      (s : Server) (addr : NetAddr) (req : st.Message)
      → IsServing s
      → ((process_message st mp delivers s addr req).1 ≡ panic)
        ↔ (ReachesPorts s req × (torrent_ports_get_from st req ≡ panic))
  unfolding process_message register_peer
  process_message-panic_iff s addr req i = (
    λ h.
        let r = read_request st mp delivers req in
        let p : r ≡ panic = ground (arith, register_with-ne-panic s addr req r i) in
        let (identified, addressed, short) = read_request-panic req p in
        (
          record {
            valid = ground arith;
            method = ground arith;
            class = ground arith;
            identified = identified;
            addressed = addressed;
          },
          short,
        ),
    λ h. ground arith,
  )
