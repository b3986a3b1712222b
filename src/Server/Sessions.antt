-- ===== src/Server/Sessions.antt =====
-- The session table of the server (updateSessionTable and processMessage in server.go).
use p2p_update.Common.{
  ◌≡◌, ◌≢◌, ◌⊎◌, refl, subst, Bool, true, false, some, length, bytes_eq, arith, Bool-cases,
  Option-cases, inl, inr, ok,
}
use p2p_update.Common.Dict.{
  lookup, insert, lookup-insert, lookup-insert_self, lookup-insert_ne, HasDistinctKeys,
  HasDistinctKeys-insert,
}
use p2p_update.Stun.{UdpAddr}
use p2p_update.Peer.{PeerId, Session, TorrentPorts, session_equal}
use p2p_update.Peer.Sessions.{DifferEverywhere, session_equal_iff}
use p2p_update.Server.{Server, NetAddr, udp_addr, other_addr, new_session, update_session_table}

-- Every session has its four addresses, and a peer has one session.
pub record IsServing (s : Server) : Type 0 where
  pub distinct : HasDistinctKeys s.peers
  pub four :
      (pid : PeerId) (session : Session) → lookup pid s.peers ≡ some session → length session ≡ 4

module _ (s : Server) (peer internal : UdpAddr) (pid : PeerId) (ports : TorrentPorts) where
  abbrev offered : Session
  offered = new_session peer internal ports

  -- `updateSessionTable` on a UDP address never fails. It leaves the server unchanged and says so
  -- exactly if the peer is known with a session as long as the offered one that differs from it at
  -- every position; in every other case, also where the two are the same, it stores the offered
  -- session under the peer's identifier and says that the table has changed.
  pub update_session_table_cases :
      ((old : Session) × (lookup pid s.peers ≡ some old)
        × (length old ≡ 4)
        × DifferEverywhere old offered
        × (update_session_table s (udp_addr peer) pid internal ports ≡ ok (s, false)))
      ⊎ (((old : Session)
            → lookup pid s.peers ≡ some old
            → ¬ ((length old ≡ 4) × DifferEverywhere old offered))
          × (update_session_table s (udp_addr peer) pid internal ports
              ≡ ok (record s { peers = insert pid offered s.peers }, true)))
  unfolding update_session_table
  update_session_table_cases = elim (Option-cases (lookup pid s.peers)) [
    | inl absent ↦ inr (λ old e. absurd (ground arith), ground arith)
    | inr (old, present) ↦ elim (Bool-cases (session_equal old offered)) [
      | inl equal ↦
          let (size, differ) = (session_equal_iff old offered).0 equal in
          inl (old, present, size, differ, ground arith)
      | inr unequal ↦ inr (
        λ other e d.
            let same : other ≡ old = cc in
            let d' = subst (λ x. (length x ≡ 4) × DifferEverywhere x offered) same d in
            cc ((session_equal_iff old offered).1 d'),
        ground arith,
      )
    ]
  ]

  stored-IsServing : IsServing s → IsServing (record s { peers = insert pid offered s.peers })
  unfolding new_session
  stored-IsServing i = record {
    distinct = HasDistinctKeys-insert pid offered s.peers i.distinct;
    four = λ q session e. ground (arith, lookup-insert pid q offered s.peers, i.four q session);
  }

  -- After `updateSessionTable` on a UDP address the peer has a session, and the sessions of the
  -- other peers are as before.
  pub update_session_table-lookup :
      (s' : Server) (updated : Bool)
      → update_session_table s (udp_addr peer) pid internal ports ≡ ok (s', updated)
      → ((session : Session) × (lookup pid s'.peers ≡ some session))
        × ((q : PeerId) → pid ≢ q → lookup q s'.peers ≡ lookup q s.peers)
  unfolding update_session_table
  update_session_table-lookup s' updated e = elim update_session_table_cases [
    | inl (old, present, size, differ, kept) ↦
        let same : s ≡ s' = ground arith in
        subst
          (λ x.
            ((session : Session) × (lookup pid x.peers ≡ some session))
            × ((q : PeerId) → pid ≢ q → lookup q x.peers ≡ lookup q s.peers))
          same ((old, present), λ q ne. refl)
    | inr (changed, stored) ↦
        let same : record s { peers = insert pid offered s.peers } ≡ s' = ground arith in
        subst
          (λ x.
            ((session : Session) × (lookup pid x.peers ≡ some session))
            × ((q : PeerId) → pid ≢ q → lookup q x.peers ≡ lookup q s.peers))
          same
          (
            (offered, lookup-insert_self pid offered s.peers),
            λ q ne. lookup-insert_ne pid q offered s.peers ne,
          )
  ]

pub update_session_table-IsServing :
    (s s' : Server) (addr : NetAddr) (pid : PeerId) (internal : UdpAddr) (ports : TorrentPorts)
    (updated : Bool)
    → IsServing s
    → update_session_table s addr pid internal ports ≡ ok (s', updated)
    → IsServing s'
update_session_table-IsServing s s' (udp_addr peer) pid internal ports updated i e =
    elim (update_session_table_cases s peer internal pid ports) [
      | inl (old, present, size, differ, kept) ↦
          let same : s ≡ s' = ground arith in subst IsServing same i
      | inr (changed, stored) ↦
          let offered = new_session peer internal ports in
          let same : record s { peers = insert pid offered s.peers } ≡ s' = ground arith in
          subst IsServing same (stored-IsServing s peer internal pid ports i)
    ]
update_session_table-IsServing s s' other_addr pid internal ports updated i e =
    absurd (unfold update_session_table in ground arith)
