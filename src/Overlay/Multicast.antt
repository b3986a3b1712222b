-- ===== src/Overlay/Multicast.antt =====
-- Whom the overlay writes to (multicastMessage and Write in overlaysock.go).
use p2p_update.Common.{
  ℕ, ◌≡◌, ◌↔◌, ◌≤◌, refl, sym, subst, ap, Bool, true, false, Option, none, some, List, [], ◌∷◌,
  ◌++◌, if◌then◌else◌, length, ◌==◌, bytes_eq, arith, Option-cases, inl, inr,
}
use mathlib.Core.List.{append-nil, append_assoc}
use p2p_update.Stun.{Stun, UdpAddr}
use p2p_update.Peer.{SessionTable}
use p2p_update.Overlay.{OverlayConn}
use p2p_update.Overlay.Io.{logged_address, multicast_loop, write, panics, stun_max_packet_data_size}

-- The addresses of the peers other than the overlay itself, in the table's order; `none` if one of
-- them has none that can be used.
abbrev pub targets : OverlayConn → SessionTable → Option (List UdpAddr)
targets o [] = some []
targets o ((id, addrs) ∷ ps) =
    let rest = targets o ps in
    if id == o.id then rest else elim (logged_address o.external_addr addrs) [
      | none ↦ none
      | some addr ↦ elim rest [ none ↦ none | some as' ↦ some (addr ∷ as') ]
    ]

-- A list up to and with the first address that cannot be written to.
abbrev pub up_to_failure : (UdpAddr → Bool) → List UdpAddr → List UdpAddr
up_to_failure delivers [] = []
up_to_failure delivers (a ∷ as') = a ∷ (if delivers a then up_to_failure delivers as' else [])

module _ (delivers : UdpAddr → Bool) (o : OverlayConn) where
  multicast_failed :
      (ps : SessionTable) (sent as' : List UdpAddr)
      → targets o ps ≡ some as'
      → multicast_loop delivers o ps true sent ≡ some sent
  unfolding multicast_loop
  multicast_failed [] sent as' h = refl
  multicast_failed ((id, addrs) ∷ ps) sent as' h = elim (Option-cases (targets o ps)) [
    | inl missing ↦ absurd (ground arith)
    | inr (rest, e) ↦ ground (arith, multicast_failed ps sent rest e)
  ]

  multicast_from :
      (ps : SessionTable) (sent as' : List UdpAddr)
      → targets o ps ≡ some as'
      → multicast_loop delivers o ps false sent ≡ some (sent ++ up_to_failure delivers as')
  unfolding multicast_loop
  multicast_from [] sent as' h =
      let same : [] ≡ as' = cc in
      subst (λ x. some sent ≡ some (sent ++ up_to_failure delivers x)) same
        (ap some (sym (append-nil sent)))
  multicast_from ((id, addrs) ∷ ps) sent as' h = elim (Option-cases (targets o ps)) [
    | inl missing ↦ absurd (ground arith)
    | inr (rest, e) ↦ elim (Option-cases (logged_address o.external_addr addrs)) [
      | inl unusable ↦ ground (arith, multicast_from ps sent rest e)
      | inr (addr, usable) ↦
          let sent' = sent ++ addr ∷ [] in
          ground (
            arith,
            multicast_from ps sent rest e,
            multicast_from ps sent' rest e,
            multicast_failed ps sent' rest e,
            append_assoc sent (addr ∷ []) (up_to_failure delivers rest),
          )
    ]
  ]

  -- If every other peer has a usable address, a message is written to these addresses, in the
  -- table's order, up to and with the first that fails: the peers after it get nothing.
  pub multicast_loop-targets :
      (as' : List UdpAddr)
      → targets o o.peers ≡ some as'
      → multicast_loop delivers o o.peers false [] ≡ some (up_to_failure delivers as')
  multicast_loop-targets as' h = multicast_from o.peers [] as' h

-- On an agent without UDP, whose overlay is nil, a write panics exactly when the message has at
-- most 56 KiB.
pub write-no_overlay :
    (s : Stun) (delivers : UdpAddr → Bool) (b : List ℕ)
    → (write s delivers none b ≡ panics) ↔ (length b ≤ stun_max_packet_data_size)
unfolding write
write-no_overlay s delivers b = ground arith
