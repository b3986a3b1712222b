-- ===== src/Server/Startup.antt =====
-- NewServer and DefaultServerConfig (server.go), and the flags of the `server` command (main.go).
use p2p_update.Common.{
  ℕ, Bool, Option, none, some, [], ◌∷◌, Text, codes, if◌then◌else◌, ltb, Outcome, ok, err, ◌>>=◌,
  require, bytes_eq,
}
use p2p_update.Common.Dict.{Dict}
use p2p_update.Peer.{PeerId}
use p2p_update.Notification.{Notification}
use p2p_update.Server.{Server}
use p2p_update.Server.Updates.{load_updates}

pub record ServerConfig : Type 0 where
  pub address : Text
  pub session_advertise_time : ℕ
  pub database : Text
  pub snapshot_time : ℕ
  pub public_key : Text
  pub stun_password : Text

abbrev pub default_server_config : ServerConfig
default_server_config = record {
  address = [];
  session_advertise_time = 60;
  database = codes "server.db";
  snapshot_time = 5;
  public_key = codes "key.pub";
  stun_password = codes "P2PupdateIsR0ck";
}

-- The flags of the command; an int flag that is not positive is left out by the code.
pub record ServerFlags : Type 0 where
  pub address : Text
  pub advertise_session : ℕ
  pub database : Text
  pub snapshot_time : ℕ
  pub public_key : Text
  pub stun_password : Text

abbrev pub or_default : Text → Text → Text
or_default [] default = default
or_default (c ∷ t) default = c ∷ t

abbrev int_flag : ℕ → ℕ → ℕ
int_flag n default = if ltb 0 n then n else default

-- serverCmd, up to NewServer.
unfoldable pub server_config : ServerFlags → ServerConfig
server_config f =
    let d = default_server_config in
    record {
      address = or_default f.address d.address;
      session_advertise_time = int_flag f.advertise_session d.session_advertise_time;
      database = or_default f.database d.database;
      snapshot_time = int_flag f.snapshot_time d.snapshot_time;
      public_key = or_default f.public_key d.public_key;
      stun_password = or_default f.stun_password d.stun_password;
    }

-- The database file: it is not there, it cannot be read or decoded, or it holds a map.
pub data DatabaseFile : Type 0 where
  no_file unreadable : DatabaseFile
  holds : Dict Text Notification → DatabaseFile

pub data NewServerError : Type 0 where
  unresolved_address no_local_id no_public_key unreadable_database : NewServerError

abbrev pub read_database : Server → DatabaseFile → Outcome NewServerError Server
read_database s no_file = ok (load_updates s none)
read_database s unreadable = err unreadable_database
read_database s (holds db) = ok (load_updates s (some db))

-- NewServer, given what the resolver, LocalPeerID and LoadPublicKey return.
unfoldable pub new_server :
    {K : Type 0}
    → ServerConfig
    → Bool
    → Outcome NewServerError PeerId
    → (Text → Option K)
    → (Text → DatabaseFile)
    → Outcome NewServerError (Server × K)
new_server cfg resolves local_id load_public_key open_database = do
  _ ← require unresolved_address (if resolves then some tt else none)
  id ← local_id
  key ← require no_public_key (load_public_key cfg.public_key)
  s ←
      read_database
        (record {
          id = id;
          stun_password = cfg.stun_password;
          peers = [];
          updates = [];
          last_modified = 0;
          last_saved = 0;
        })
        (open_database cfg.database)
  ok (s, key)
