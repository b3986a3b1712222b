-- ===== src/Overlay/KeepAlive.antt =====
-- The packets that keep the overlay's channels open (sendKeepAlive in overlaysock.go).
use p2p_update.Common.{
  ◌≡◌, Bool, true, false, not, ◌&&◌, Option, none, some, List, [], ◌∷◌, if◌then◌else◌, ltb, length,
  ◌==◌, bytes_eq, arith, Bool-cases, Option-cases, inl, inr,
}
use p2p_update.Stun.{UdpAddr}
use p2p_update.Peer.{Session, SessionTable}
use p2p_update.Overlay.{OverlayConn}
use p2p_update.Overlay.Io.{choose_address, logged_address, ready}
use p2p_update.Overlay.Multicast.{targets}

-- The address of a peer; a write that fails is logged with two addresses.
abbrev kept_address : (UdpAddr → Bool) → Option UdpAddr → Session → Option UdpAddr
kept_address delivers ext addrs = elim (choose_address ext addrs) [
  | none ↦ none
  | some a ↦ if not (delivers a) && not (ltb 1 (length addrs)) then none else some a
]

-- The loop over the peers: the addresses that are written to, whether or not a write fails. `none`
-- is a panic.
unfoldable pub keep_alive_loop :
    (UdpAddr → Bool) → OverlayConn → SessionTable → Option (List UdpAddr)
keep_alive_loop delivers o [] = some []
keep_alive_loop delivers o ((id, addrs) ∷ ps) =
    let rest = keep_alive_loop delivers o ps in
    if id == o.id then rest else elim (kept_address delivers o.external_addr addrs) [
      | none ↦ none
      | some a ↦ elim rest [ none ↦ none | some as' ↦ some (a ∷ as') ]
    ]

-- What the timer's function writes: whether the server is sent a binding request, and to which
-- peers the channel bind indication goes. `built` tells whether the request could be built.
unfoldable pub send_keep_alive :
    (UdpAddr → Bool) → Bool → OverlayConn → Option (Bool × List UdpAddr)
unfolding ready
send_keep_alive delivers built o =
    if not o.conn
    then some (false, [])
    else if not (ready o)
    then some (built, [])
    else elim (keep_alive_loop delivers o o.peers) [ none ↦ none | some as' ↦ some (built, as') ]

module _ (delivers : UdpAddr → Bool) (o : OverlayConn) where
  kept_of_logged :
      (addrs : Session) {a : UdpAddr}
      → logged_address o.external_addr addrs ≡ some a
      → kept_address delivers o.external_addr addrs ≡ some a
  unfolding logged_address
  kept_of_logged [] e = cc
  kept_of_logged (x ∷ []) e = cc
  kept_of_logged (x ∷ y ∷ s) e = ground arith

  keep_alive_targets :
      (ps : SessionTable) (as' : List UdpAddr)
      → targets o ps ≡ some as'
      → keep_alive_loop delivers o ps ≡ some as'
  unfolding keep_alive_loop
  keep_alive_targets [] as' e = e
  keep_alive_targets ((id, addrs) ∷ ps) as' e = elim (Bool-cases (id == o.id)) [
    | inl own ↦ rw own (keep_alive_targets ps as' (rw own at e))
    | inr other ↦ elim (Option-cases (logged_address o.external_addr addrs)) [
      | inl missing ↦ absurd (ground arith)
      | inr (a, there) ↦ elim (Option-cases (targets o ps)) [
        | inl unusable ↦ absurd (ground arith)
        | inr (rest, found) ↦
            let kept = kept_of_logged addrs there in
            let later = keep_alive_targets ps rest found in ground (arith, kept, later)
      ]
    ]
  ]

  -- Where every other peer has addresses that can be used, a ready overlay with a connection sends
  -- the keep-alive packet to each of them in the table's order, also where earlier writes fail.
  pub send_keep_alive-targets :
      (built : Bool) (as' : List UdpAddr)
      → o.conn ≡ true
      → ready o ≡ true
      → targets o o.peers ≡ some as'
      → send_keep_alive delivers built o ≡ some (built, as')
  unfolding send_keep_alive
  send_keep_alive-targets built as' connected is_ready found =
      ground (arith, keep_alive_targets o.peers as' found)
