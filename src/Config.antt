-- ===== src/Config.antt =====
-- The configuration of the agent (agent.go): Config, DefaultConfig and NewConfig.
use p2p_update.Common.{ℕ, ◌*◌, Bool, false, Option, none, some, [], ◌++◌, Text, codes, decimal}
use p2p_update.Overlay.{OverlayConfig}

-- Constants of common.go.
abbrev pub default_tracker : Text
default_tracker = codes "http://fruit-testbed.org:6969/announce"

abbrev pub default_piece_length : ℕ
default_piece_length = 32 * 1024

abbrev pub default_server_addr : Text
default_server_addr = codes "fruit-testbed.org"

abbrev pub default_server_port : ℕ
default_server_port = 3478

abbrev pub default_stun_password : Text
default_stun_password = codes "P2PupdateIsR0ck"

abbrev pub default_unix_socket : Text
default_unix_socket = codes "/var/run/p2pupdate.sock"

pub record BitTorrentConfig : Type 0 where
  pub tracker : Text
  pub debug : Bool
  pub piece_length : ℕ
  pub port : ℕ
  pub no_dht : Bool

pub record Key : Type 0 where
  pub filename : Text
  pub value : Text

-- `api_address` is the field Address of APIConfig.
pub record Config : Type 0 where
  pub interface : Text
  pub address : Text
  pub server : Text
  pub data_dir : Text
  pub log_file : Text
  pub no_udp : Bool
  pub read_tcp_interval : ℕ
  pub public_key : Key
  pub proxy : Bool
  pub overlay : OverlayConfig
  pub api_address : Text
  pub bit_torrent : BitTorrentConfig

abbrev pub default_overlay_config : OverlayConfig
default_overlay_config = record {
  address = [];
  server = [];
  stun_password = default_stun_password;
  binding_wait = 10;
  binding_max_errors = 5;
  listening_wait = 30;
  listening_max_errors = 10;
  listening_buffer_size = 64 * 1024;
  error_backoff = 10;
  channel_lifespan = 60;
  torrent_ports = record { external = 0; internal = 0 };
}

-- The home directory of the user, which is not known where looking the user up fails.
abbrev pub home_dir : Option Text → Text
home_dir none = codes "~/"
home_dir (some dir) = dir

unfoldable pub default_config : Option Text → Config
default_config user = record {
  interface = [];
  address = [];
  server = default_server_addr ++ codes ":" ++ decimal default_server_port;
  data_dir = codes "/var/lib/p2pupdate";
  log_file = codes "/var/log/p2pupdate.log";
  no_udp = false;
  read_tcp_interval = 60;
  public_key = record { filename = home_dir user ++ codes "/.ssh/id_rsa.pub"; value = [] };
  proxy = false;
  overlay = default_overlay_config;
  api_address = default_unix_socket;
  bit_torrent = record {
    tracker = default_tracker;
    debug = false;
    piece_length = default_piece_length;
    port = 0;
    no_dht = false;
  };
}

-- NewConfig: `decode` is the decoder of the file over a configuration, with whether it succeeded,
-- and `none` where the file cannot be opened. The configuration is returned beside an error too.
unfoldable pub new_config : Option Text → Option (Config → Config × Bool) → Config × Bool
new_config user none = (default_config user, false)
new_config user (some decode) = decode (default_config user)
