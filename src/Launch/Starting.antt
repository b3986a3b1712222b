-- ===== src/Launch/Starting.antt =====
-- What NewAgent (agent.go) has set up when it returns an agent.
use p2p_update.Common.{
  ◌≡◌, ◌≢◌, ◌↔◌, Bool, false, refl, codes, inl, inr, sym, ◌∙◌, subst, true, Option, none, some,
  arith, Bool-cases, ok, require, bind-eq-ok, require-eq-ok,
}
use p2p_update.Stun.{Stun}
use p2p_update.Notification.{Crypto}
use p2p_update.Agent.{Agent, Host}
use p2p_update.Agent.Trust.{IsSound, load_updates-IsSound}
use p2p_update.Overlay.Machine.{Running}
use p2p_update.Config.{Config}
use p2p_update.TorrentPort.{
  TorrentConfig, torrent_client_config, torrent_port, bind_random_port, with_port,
}
use p2p_update.TorrentPort.Choosing.{bind_random_port-ge}
use p2p_update.Launch.{
  Machine, LaunchError, dir_of, no_client, no_public_key, Launched, test, create_dirs,
  choose_address, new_overlay, with_overlay, overlay_of, config_of, fresh_agent, launched,
  new_agent,
}

module _ (st : Stun) (h : Host) (c : Crypto) (m : Machine c) where
  overlay_of-none_iff :
      (cfg : Config) (o : Option (Running st))
      → overlay_of st h c m cfg ≡ ok o
      → (o ≡ none) ↔ (cfg.no_udp ≡ true)
  overlay_of-none_iff cfg o e = elim (Bool-cases cfg.no_udp) [
    | inl off ↦ let none_made : none ≡ o = ground arith in (λ p. off, λ p. sym none_made)
    | inr on ↦
        let (r, made, same) =
          bind-eq-ok (new_overlay st h c m (with_overlay st h c m cfg).overlay) (λ r. ok (some r))
            (rw (on) at e) in
        (λ p. absurd (cc), λ p. absurd (cc))
  ]

  choose_address-no_udp : (cfg : Config) → (choose_address st h c m cfg).no_udp ≡ cfg.no_udp
  unfolding choose_address
  choose_address-no_udp cfg = ground arith

  fresh_agent-IsSound :
      (key : c.PublicKey) (cfg : Config) (empty : Agent)
      → IsSound h c key (fresh_agent st h c m cfg empty)
  fresh_agent-IsSound key cfg empty = record {
    well_formed = record { distinct = tt; allocated = λ k r e. cc; keyed = λ k r e. cc };
    trusted = λ k n e. cc;
  }

  abbrev configured : Config → Config
  configured given =
      let addressed = choose_address st h c m given in
      with_port addressed (torrent_port addressed (bind_random_port m.draw 0 m.gateways))

  abbrev pub client_config : Config → TorrentConfig
  client_config cfg = torrent_client_config cfg (dir_of st h c m cfg (codes "update"))

  -- The BitTorrent client of a configuration was made, and has a port.
  abbrev pub HasClient : Config → Type 0
  HasClient cfg = (m.new_client (client_config cfg) ≡ true) × ((client_config cfg).listen_port ≢ 0)

  config_of-client :
      (cfg : Config)
      → m.new_client (client_config cfg) ≡ true
      → m.new_client (client_config (config_of st h c m cfg)) ≡ true
  unfolding torrent_client_config
  config_of-client cfg e = elim (Bool-cases cfg.no_udp) [
    | inl off ↦ ground (arith, off, e)
    | inr on ↦ ground (arith, on, e)
  ]

  tested : (e : LaunchError) (b : Bool) {x : Unit} → test e b ≡ ok x → b ≡ true
  tested e true h = refl
  tested e false h = cc

  -- The stages that a start without an error has passed.
  new_agent-eq-ok :
      (empty : Agent) (given : Config) {l : Launched st c}
      → new_agent st h c m empty given ≡ ok l
      → (overlay : Option (Running st)) × (key : c.PublicKey) × (overlay_of st h c m
            (configured given)
          ≡ ok overlay)
        × (m.load_public_key given.public_key.filename ≡ some key)
        × (m.new_client (client_config (configured given)) ≡ true)
        × (launched st h c m empty (config_of st h c m (configured given)) overlay key ≡ l)
  unfolding new_agent
  new_agent-eq-ok empty given {l} e =
      let cfg = configured given in
      let (_, dirs, e1) = bind-eq-ok (create_dirs st h c m given) _ e in
      let (_, client, e2) = bind-eq-ok (test no_client (m.new_client (client_config cfg))) _ e1 in
      let (overlay, made, e3) = bind-eq-ok (overlay_of st h c m cfg) _ e2 in
      let (key, loaded, e4) =
        bind-eq-ok (require no_public_key (m.load_public_key given.public_key.filename)) _ e3 in
      (
        overlay,
        key,
        made,
        require-eq-ok no_public_key _ loaded,
        tested no_client (m.new_client (client_config cfg)) client,
        ground (arith, e4),
      )

  port-ne-zero :
      (given : Config) → (client_config (config_of st h c m (configured given))).listen_port ≢ 0
  unfolding torrent_port torrent_client_config
  port-ne-zero given = ground (arith, bind_random_port-ge m.draw 0 m.gateways)

  -- An agent that starts verifies with the key in the configured file, holds only notifications
  -- that this key accepts, whatever the files of an earlier run contain, has an overlay exactly if
  -- UDP is not disabled, and has a BitTorrent client of its configuration, which does not listen at
  -- port 0.
  pub new_agent-starts :
      (empty : Agent) (given : Config) (l : Launched st c)
      → new_agent st h c m empty given ≡ ok l
      → (m.load_public_key given.public_key.filename ≡ some l.public_key)
        × IsSound h c l.public_key l.agent
        × ((l.overlay ≡ none) ↔ (given.no_udp ≡ true))
        × HasClient l.config
  new_agent-starts empty given l e =
      let cfg = configured given in
      let (overlay, key, made, loaded, client, same) = new_agent-eq-ok empty given e in
      let a = fresh_agent st h c m (config_of st h c m cfg) empty in
      let sound =
        (load_updates-IsSound h c key a (m.metadata_files a.metadata_dir)
          (fresh_agent-IsSound key (config_of st h c m cfg) empty)).0 in
      let (to, from) = overlay_of-none_iff cfg overlay made in
      let udp = choose_address-no_udp given in
      subst
        (λ (l : Launched st c).
          (m.load_public_key given.public_key.filename ≡ some l.public_key)
          × IsSound h c l.public_key l.agent
          × ((l.overlay ≡ none) ↔ (given.no_udp ≡ true))
          × HasClient l.config)
        same
        (
          loaded,
          sound,
          (λ p. sym udp ∙ to p, λ p. from (udp ∙ p)),
          (config_of-client cfg client, port-ne-zero given),
        )
