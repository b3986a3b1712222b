-- ===== src/Launch.antt =====
-- How the agent starts (agent.go): createDirs and NewAgent,
-- with what NewOverlayConn (overlaysock.go) can fail at. What the machine answers is a parameter.
use p2p_update.Common.{
  ℕ, ◌+◌, ◌*◌, ◌-◌, ◌^◌, Bool, true, false, ◌&&◌, ◌||◌, Option, none, some, List, [], ◌∷◌, ◌++◌,
  Text, codes, if◌then◌else◌, Outcome, ok, err, panic, ◌>>=◌, require,
}
use p2p_update.Stun.{Stun}
use p2p_update.Peer.{PeerId}
use p2p_update.Notification.{Crypto}
use p2p_update.Update.{Update}
use p2p_update.Agent.{Agent, Host}
use p2p_update.Agent.Sources.{load_updates}
use p2p_update.Overlay.{OverlayConfig}
use p2p_update.Overlay.Machine.{Running, start_overlay}
use p2p_update.Local.{Interface, Net, IdError, ipv4_of_interface, local_ipv4, local_peer_id}
use p2p_update.Config.{Config, default_server_addr, default_config, new_config}
use p2p_update.TorrentPort.{
  TorrentConfig, torrent_client_config, bind_random_port, torrent_port, with_port,
}
pub mod Starting
mod Tests

pub data LaunchError : Type 0 where
  no_data_dir no_metadata_dir no_client no_local_id unresolved_server unresolved_address :
      LaunchError
  no_keep_alive no_public_key : LaunchError

-- What the machine answers.
pub record Machine (c : Crypto) : Type 0 where
  pub net : Net
  pub interfaces : Option (List Interface)
  pub interface_named : Text → Option Interface
  pub cpuinfo : Option (List Text × Bool)
  pub ip_text : List ℕ → Text
  pub resolves : Text → Bool
  pub resolves_ip : Text → Bool
  pub make_dir : Text → Bool
  pub new_client : TorrentConfig → Bool
  pub builds_keep_alive : OverlayConfig → Bool
  pub load_public_key : Text → Option c.PublicKey
  pub metadata_files : Text → List (Option Update)
  pub draw : ℕ → ℕ
  pub gateways : List (ℕ → Bool)

-- What NewAgent returns: the configuration that it has changed, the table of updates, the overlay,
-- if there is one, and the public key.
pub record Launched (st : Stun) (c : Crypto) : Type 0 where
  pub config : Config
  pub agent : Agent
  pub overlay : Option (Running st)
  pub public_key : c.PublicKey

abbrev pub test : LaunchError → Bool → Outcome LaunchError Unit
test e done = if done then ok tt else err e

module _ (st : Stun) (h : Host) (c : Crypto) (m : Machine c) where
  abbrev pub dir_of : Config → Text → Text
  dir_of cfg name = h.sys.join cfg.data_dir name

  unfoldable pub create_dirs : Config → Outcome LaunchError Unit
  create_dirs cfg = do
    _ ← test no_data_dir (m.make_dir (dir_of cfg (codes "update")))
    test no_metadata_dir (m.make_dir (dir_of cfg (codes "notification")))

  abbrev pub first_of : Option (List ℕ) → Option (List ℕ) → Option (List ℕ)
  first_of none b = b
  first_of (some ip) b = some ip

  abbrev pub with_ip : Config → Option (List ℕ) → Config
  with_ip cfg none = cfg
  with_ip cfg (some []) = cfg
  with_ip cfg (some (b ∷ ip)) = record cfg { address = m.ip_text (b ∷ ip) ++ codes ":" }

  -- A configuration without an address gets that of its interface, or of the machine. An empty
  -- address is nil.
  unfoldable pub choose_address : Config → Config
  choose_address cfg = elim cfg.address [
    | _ ∷ _ ↦ cfg
    | [] ↦ with_ip cfg (
        first_of (ipv4_of_interface m.net (m.interface_named cfg.interface))
          (local_ipv4 m.net (m.resolves_ip default_server_addr) m.interfaces))
  ]

  abbrev local_id : Outcome IdError PeerId → Outcome LaunchError PeerId
  local_id (ok pid) = ok pid
  local_id (err e) = err no_local_id
  local_id panic = panic

  -- NewOverlayConn, up to the first event and with the message of the keep-alive packets.
  unfoldable pub new_overlay : OverlayConfig → Outcome LaunchError (Running st)
  new_overlay cfg = do
    pid ← local_id (local_peer_id m.cpuinfo m.interfaces)
    _ ← test unresolved_server (m.resolves cfg.server)
    _ ← test unresolved_address (m.resolves cfg.address)
    _ ← test no_keep_alive (m.builds_keep_alive cfg)
    ok (start_overlay st pid cfg)

  abbrev pub with_overlay : Config → Config
  with_overlay cfg = record cfg {
    overlay = record cfg.overlay {
      address = cfg.address;
      server = cfg.server;
      torrent_ports = record { external = cfg.bit_torrent.port; internal = cfg.bit_torrent.port };
    };
  }

  abbrev some_overlay : Outcome LaunchError (Running st) → Outcome LaunchError (Option (Running st))
  some_overlay r = do r' ← r; ok (some r')

  abbrev pub overlay_of : Config → Outcome LaunchError (Option (Running st))
  overlay_of cfg =
      if cfg.no_udp then ok none else some_overlay (new_overlay (with_overlay cfg).overlay)

  abbrev pub config_of : Config → Config
  config_of cfg = if cfg.no_udp then cfg else with_overlay cfg

  -- The agent before it has loaded the updates of its metadata directory.
  abbrev pub fresh_agent : Config → Agent → Agent
  fresh_agent cfg empty = record empty {
    proxy = cfg.proxy;
    data_dir = dir_of cfg (codes "update");
    metadata_dir = dir_of cfg (codes "notification");
    next = 0;
    updates = [];
    dropped = [];
    monitored = [];
  }

  abbrev launched : Agent → Config → Option (Running st) → c.PublicKey → Launched st c
  launched empty cfg overlay key =
      let a = fresh_agent cfg empty in
      record {
        config = cfg;
        agent = load_updates h c key a (m.metadata_files a.metadata_dir);
        overlay = overlay;
        public_key = key;
      }

  -- NewAgent. `empty` holds the files of the disk and the heap of the process.
  unfoldable pub new_agent : Agent → Config → Outcome LaunchError (Launched st c)
  new_agent empty given = do
    _ ← create_dirs given
    let addressed = choose_address given
    let cfg = with_port addressed (torrent_port addressed (bind_random_port m.draw 0 m.gateways))
    _ ← test no_client (m.new_client (torrent_client_config cfg (dir_of cfg (codes "update"))))
    overlay ← overlay_of cfg
    key ← require no_public_key (m.load_public_key given.public_key.filename)
    ok (launched empty (config_of cfg) overlay key)

-- How agentCmd (main.go) ends: the default configuration is printed, an error, or an agent to wait
-- for. A panic ends the process.
pub data AgentEnd (st : Stun) (c : Crypto) : Type 0 where
  printed : Config → AgentEnd st c
  no_config panicked : AgentEnd st c
  not_launched : LaunchError → AgentEnd st c
  runs : Launched st c → AgentEnd st c

module _ (st : Stun) (h : Host) (c : Crypto) (m : Machine c) where
  abbrev end_of : Outcome LaunchError (Launched st c) → AgentEnd st c
  end_of (ok l) = runs l
  end_of (err e) = not_launched e
  end_of panic = panicked

  abbrev launch_with : Agent → Config × Bool → AgentEnd st c
  launch_with empty (cfg, false) = no_config
  launch_with empty (cfg, true) = end_of (new_agent st h c m empty cfg)

  unfoldable pub agent_cmd :
      Bool → Option Text → Option (Config → Config × Bool) → Agent → AgentEnd st c
  agent_cmd default user file empty =
      if default then printed (default_config user) else launch_with empty (new_config user file)
