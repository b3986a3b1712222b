-- ===== src/TorrentPort/Choosing.antt =====
-- The ports of the agent (torrentClientConfig and bindRandomPort in agent.go).
use p2p_update.Common.{
  ℕ, suc, zero, ◌+◌, ◌≡◌, ◌≢◌, ◌<◌, ◌≤◌, ◌⊎◌, inl, inr, refl, Bool, true, Option, none, some, List,
  [], ◌∷◌, arith, Bool-cases, Option-cases,
}
use p2p_update.Config.{Config}
use p2p_update.TorrentPort.{
  overlay_port, random_port, map_port, bind_random_port, or_else, torrent_port,
}

or_else-ge :
    (o : Option ℕ) (p : ℕ) → ((q : ℕ) → o ≡ some q → 50000 ≤ q) → 50000 ≤ p → 50000 ≤ or_else o p
or_else-ge none p h k = k
or_else-ge (some q) p h k = h q refl

map_port-ge :
    (draw : ℕ → ℕ) (attempts n : ℕ) (maps : ℕ → Bool) (q : ℕ)
    → map_port draw attempts n maps ≡ some q
    → 50000 ≤ q
map_port-ge draw zero n maps q e = absurd (cc)
map_port-ge draw (suc attempts) n maps q e =
    ground (arith, map_port-ge draw attempts (n + 1) maps q)

pub bind_random_port-ge :
    (draw : ℕ → ℕ) (n : ℕ) (gateways : List (ℕ → Bool)) → 50000 ≤ bind_random_port draw n gateways
unfolding bind_random_port
bind_random_port-ge draw n [] = omega arith
bind_random_port-ge draw n (maps ∷ gateways) =
    or_else-ge (map_port draw 50 n maps) (bind_random_port draw (n + 50) gateways)
      (map_port-ge draw 50 n maps) (bind_random_port-ge draw (n + 50) gateways)

module _ (draw : ℕ → ℕ) (small : (i : ℕ) → draw i < 10000) where
  abbrev IsRandomPort : ℕ → Type 0
  IsRandomPort p = (50000 ≤ p) × (p < 60000)

  random_port-IsRandomPort : (n : ℕ) → IsRandomPort (random_port draw n)
  random_port-IsRandomPort n = (omega arith, omega (arith, small n))

  map_port-IsRandomPort :
      (attempts n : ℕ) (maps : ℕ → Bool) {p : ℕ}
      → map_port draw attempts n maps ≡ some p
      → IsRandomPort p × (maps p ≡ true)
  map_port-IsRandomPort zero n maps e = absurd (cc)
  map_port-IsRandomPort (suc attempts) n maps {p} e =
      elim (Bool-cases (maps (random_port draw n))) [
        | inl mapped ↦
            let same : random_port draw n ≡ p = ground (arith, mapped) in
            (ground (arith, same, random_port-IsRandomPort n), rw⁻¹ same mapped)
        | inr refused ↦ map_port-IsRandomPort attempts (n + 1) maps (rw (refused) at e)
      ]

  bind_random_port-IsRandomPort :
      (n : ℕ) (gateways : List (ℕ → Bool)) → IsRandomPort (bind_random_port draw n gateways)
  unfolding bind_random_port
  bind_random_port-IsRandomPort n [] = random_port-IsRandomPort n
  bind_random_port-IsRandomPort n (maps ∷ gateways) =
      elim (Option-cases (map_port draw 50 n maps)) [
        | inl unmapped ↦
            rw (unmapped, bind_random_port) (bind_random_port-IsRandomPort (n + 50) gateways)
        | inr (p, mapped) ↦ rw (mapped, bind_random_port) (map_port-IsRandomPort 50 n maps mapped).0
      ]

  -- The BitTorrent client listens at the configured port if that is neither 0 nor the port of the
  -- overlay in the agent's address, and else at a port from 50000 to 59999, whatever the gateways
  -- answer, where each random number is below 10000.
  pub torrent_port_cases :
      (cfg : Config) (gateways : List (ℕ → Bool))
      → let port = torrent_port cfg (bind_random_port draw 0 gateways) in
        ((port ≡ cfg.bit_torrent.port) × (port ≢ 0) × (port ≢ overlay_port cfg.address))
        ⊎ (((cfg.bit_torrent.port ≡ 0) ⊎ (cfg.bit_torrent.port ≡ overlay_port cfg.address))
            × (50000 ≤ port)
            × (port < 60000))
  unfolding torrent_port
  torrent_port_cases cfg gateways =
      let random = bind_random_port-IsRandomPort 0 gateways in ground (arith, random)
