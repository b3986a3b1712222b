-- ===== src/Overlay/Socket.antt =====
-- The socket under the STUN client of the overlay (overlayUDPConn in overlaysock.go), whose writes all
-- go to the rendezvous server, and the addresses of the overlay. What the calls of the UDP socket do is
-- a parameter.
use p2p_update.Common.{
  ℕ, ◌≡◌, ◌≢◌, ◌⊎◌, inl, inr, subst, Bool-cases, ◌↔◌, refl, Bool, true, false, Option, none, some,
  List, arith, Outcome, ok, err, panic,
}
use p2p_update.Stun.{UdpAddr}
use p2p_update.Overlay.{OverlayConn}

-- A UDP socket: its local address, what a read finds, and which writes succeed.
pub record UdpSocket : Type 0 where
  pub local : UdpAddr
  pub incoming : Option (List ℕ)
  pub delivers : List ℕ → UdpAddr → Bool
  pub closes : Bool

pub record OverlayUdpConn : Type 0 where
  pub conn : Option UdpSocket
  pub rendezvous_addr : UdpAddr

pub data SocketError : Type 0 where
  creating_failed conn_not_opened call_failed : SocketError

-- newOverlayUDPConn, given what net.ListenUDP returns.
unfoldable pub new_overlay_udp_conn :
    UdpAddr → Option UdpSocket → Outcome SocketError OverlayUdpConn
new_overlay_udp_conn rendezvous none = err creating_failed
new_overlay_udp_conn rendezvous (some socket) =
    ok (record { conn = some socket; rendezvous_addr = rendezvous })

abbrev done : {A : Type 0} → Option A → Outcome SocketError A
done none = err call_failed
done (some a) = ok a

module _ (oc : OverlayUdpConn) where
  unfoldable pub read : Outcome SocketError (List ℕ)
  read = elim oc.conn [ none ↦ err conn_not_opened | some socket ↦ done socket.incoming ]

  -- Write: the data and the address that it went to.
  unfoldable pub write : List ℕ → Outcome SocketError (List ℕ × UdpAddr)
  write p = elim oc.conn [
    | none ↦ err conn_not_opened
    | some socket ↦ elim (socket.delivers p oc.rendezvous_addr) [
      | true ↦ ok (p, oc.rendezvous_addr)
      | false ↦ err call_failed
    ]
  ]

  -- Close: a socket that is nil is closed already.
  unfoldable pub close : Outcome SocketError Unit
  close = elim oc.conn [
    | none ↦ ok tt
    | some socket ↦ elim socket.closes [ true ↦ ok tt | false ↦ err call_failed ]
  ]

  -- InternalAddr, on an overlay with this connection or with none.
  unfoldable pub internal_addr : OverlayConn → Outcome SocketError UdpAddr
  internal_addr o = elim o.conn [
    | false ↦ panic
    | true ↦ elim oc.conn [ none ↦ panic | some socket ↦ ok socket.local ]
  ]

unfoldable pub external_addr : OverlayConn → Option UdpAddr
external_addr o = o.external_addr

-- On a connection that was made, a read finds a socket, a write goes to the rendezvous server or the
-- call fails, and the overlay's internal address panics exactly while the overlay has no connection.
pub new_overlay_udp_conn-opened :
    (rendezvous : UdpAddr) (socket : Option UdpSocket) (oc : OverlayUdpConn) (o : OverlayConn)
    (p : List ℕ)
    → new_overlay_udp_conn rendezvous socket ≡ ok oc
    → (read oc ≢ err conn_not_opened)
      × ((write oc p ≡ ok (p, rendezvous)) ⊎ (write oc p ≡ err call_failed))
      × ((internal_addr oc o ≡ panic) ↔ (o.conn ≡ false))
unfolding new_overlay_udp_conn
new_overlay_udp_conn-opened rendezvous none oc o p made = absurd (cc)
new_overlay_udp_conn-opened rendezvous (some socket) oc o p made =
    let same : record { conn = some socket; rendezvous_addr = rendezvous } ≡ oc = ground arith in
    subst
      (λ (oc : OverlayUdpConn).
        (read oc ≢ err conn_not_opened)
        × ((write oc p ≡ ok (p, rendezvous)) ⊎ (write oc p ≡ err call_failed))
        × ((internal_addr oc o ≡ panic) ↔ (o.conn ≡ false)))
      same (found, sent, located)
  where
    found : read (record { conn = some socket; rendezvous_addr = rendezvous }) ≢ err conn_not_opened
    found = unfold read in λ e. ground (arith, e)

    sent :
        let oc : OverlayUdpConn = record { conn = some socket; rendezvous_addr = rendezvous } in
        (write oc p ≡ ok (p, rendezvous)) ⊎ (write oc p ≡ err call_failed)
    sent = elim (Bool-cases (socket.delivers p rendezvous)) [
      | inl fine ↦ inl (unfold write in rw fine refl)
      | inr lost ↦ inr (unfold write in rw lost refl)
    ]

    located :
        let oc : OverlayUdpConn = record { conn = some socket; rendezvous_addr = rendezvous } in
        (internal_addr oc o ≡ panic) ↔ (o.conn ≡ false)
    located = unfold internal_addr in (λ e. ground (arith, e), λ e. ground (arith, e))
