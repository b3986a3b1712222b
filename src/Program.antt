-- ===== src/Program.antt =====
-- main of main.go: the commands with their flags, and how the actions read them. The command-line
-- library is a parameter: what it returns for a flag.
use p2p_update.Common.{
  ℕ, ◌≡◌, ◌⊎◌, Bool, true, false, Option, none, some, List, [], ◌∷◌, ◌++◌, Text, codes, decimal,
  All, Outcome, ok, err, panic,
}
use p2p_update.Update.{uuid_shell}
use p2p_update.Config.{
  default_tracker, default_piece_length, default_unix_socket, default_server_addr,
  default_server_port, home_dir,
}
use p2p_update.Command.{SubmitFlags}
use p2p_update.Stun.{Stun}
use p2p_update.Peer.{PeerId}
use p2p_update.Server.{Server}
use p2p_update.Server.Serving.{Serving, serving}
use p2p_update.Server.Startup.{ServerFlags, NewServerError, DatabaseFile, new_server, server_config}
pub mod Defaults
pub mod Restoring
mod Tests

-- The value of a flag, and what it is where the flag is not given.
pub data FlagValue : Type 0 where
  text_value : Text → FlagValue
  number_value : ℕ → FlagValue
  bool_value : Bool → FlagValue

pub record Flag : Type 0 where
  pub name : Text
  pub short : Text
  pub default : FlagValue

pub data Action : Type 0 where
  submit_action agent_action server_action : Action

pub record CommandSpec : Type 0 where
  pub name : Text
  pub action : Action
  pub flags : List Flag

abbrev pub text_flag : Text → Text → Text → Flag
text_flag name short default = record { name = name; short = short; default = text_value default }

abbrev pub number_flag : Text → Text → ℕ → Flag
number_flag name short default = record {
  name = name;
  short = short;
  default = number_value default;
}

abbrev pub bool_flag : Text → Text → Flag
bool_flag name short = record { name = name; short = short; default = bool_value false }

-- fmt.Sprintf("%s:%d", defaultServerAddr, defaultServerPort)
abbrev pub default_server : Text
default_server = default_server_addr ++ codes ":" ++ decimal default_server_port

abbrev pub submit_flags : Text → List Flag
submit_flags home =
    text_flag (codes "file") (codes "f") []
    ∷ number_flag (codes "version") (codes "v") 0
    ∷ text_flag (codes "uuid") (codes "u") uuid_shell
    ∷ text_flag (codes "private-key") (codes "k") (home ++ codes "/.ssh/id_rsa")
    ∷ text_flag (codes "output") (codes "o") []
    ∷ text_flag (codes "tracker") (codes "r") default_tracker
    ∷ number_flag (codes "piece-length") (codes "l") default_piece_length
    ∷ text_flag (codes "unix-socket") (codes "x") default_unix_socket
    ∷ text_flag (codes "server") (codes "s") default_server
    ∷ bool_flag (codes "torrent-file") (codes "t")
    ∷ []

abbrev pub agent_flags : List Flag
agent_flags =
    text_flag (codes "config-file") (codes "c") (codes "config.json")
    ∷ bool_flag (codes "default-config") (codes "d")
    ∷ []

abbrev pub server_flags : Text → List Flag
server_flags home =
    text_flag (codes "address") (codes "a") (codes ":3478")
    ∷ number_flag (codes "advertise-session") (codes "s") 60
    ∷ text_flag (codes "database") (codes "d") (codes "/var/lib/p2pupdate-server.db")
    ∷ number_flag (codes "snapshot-time") (codes "n") 10
    ∷ text_flag (codes "public-key") (codes "k") (home ++ codes "/.ssh/id_rsa.pub")
    ∷ text_flag (codes "stun-password") (codes "p") []
    ∷ text_flag (codes "log-file") (codes "g") (codes "/var/log/p2pupdate-server.log")
    ∷ []

unfoldable pub commands : Option Text → List CommandSpec
commands user =
    record { name = codes "submit"; action = submit_action; flags = submit_flags (home_dir user) }
    ∷ record { name = codes "agent"; action = agent_action; flags = agent_flags }
    ∷ record { name = codes "server"; action = server_action; flags = server_flags (home_dir user) }
    ∷ []

-- What the library returns for the flags of a command: ctx.String, ctx.Int and its like, ctx.Bool,
-- and whether the flag was given.
pub record Context : Type 0 where
  pub text : Text → Text
  pub number : Text → ℕ
  pub bool : Text → Bool
  pub is_given : Text → Bool

abbrev pub Returns : Context → Flag → FlagValue → Type 0
Returns ctx f (text_value t) = ctx.text f.name ≡ t
Returns ctx f (number_value n) = ctx.number f.name ≡ n
Returns ctx f (bool_value b) = ctx.bool f.name ≡ b

-- A flag of the command that is not given has its default.
abbrev pub HasDefaults : Context → List Flag → Type 0
HasDefaults ctx = All (λ (f : Flag). (ctx.is_given f.name ≡ true) ⊎ Returns ctx f f.default)

-- The flags as submitCmd and serverCmd read them.
unfoldable pub read_submit_flags : Context → SubmitFlags
read_submit_flags ctx = record {
  file = ctx.text (codes "file");
  version = ctx.number (codes "version");
  uuid = ctx.text (codes "uuid");
  private_key = ctx.text (codes "private-key");
  output = ctx.text (codes "output");
  tracker = ctx.text (codes "tracker");
  piece_length = ctx.number (codes "piece-length");
  server = ctx.text (codes "server");
  torrent_file = ctx.bool (codes "torrent-file");
}

unfoldable pub read_server_flags : Context → ServerFlags
read_server_flags ctx = record {
  address = ctx.text (codes "address");
  advertise_session = ctx.number (codes "advertise-session");
  database = ctx.text (codes "database");
  snapshot_time = ctx.number (codes "snapshot-time");
  public_key = ctx.text (codes "public-key");
  stun_password = ctx.text (codes "stun-password");
}

-- How serverCmd ends, or what it serves.
pub data ServerEnd (st : Stun) (K : Type 0) : Type 0 where
  not_started : NewServerError → ServerEnd st K
  panicked : ServerEnd st K
  serves : Serving st → K → ServerEnd st K

abbrev served : {K : Type 0} (st : Stun) → Outcome NewServerError (Server × K) → ServerEnd st K
served st (ok (s, key)) = serves (serving st s) key
served st (err e) = not_started e
served st panic = panicked

-- serverCmd: the flags, NewServer, and the start of the goroutines.
unfoldable pub server_cmd :
    {K : Type 0} (st : Stun)
    → Context
    → Bool
    → Outcome NewServerError PeerId
    → (Text → Option K)
    → (Text → DatabaseFile)
    → ServerEnd st K
unfolding read_server_flags
server_cmd st ctx resolves local_id keys open_database =
    served st
      (new_server (server_config (read_server_flags ctx)) resolves local_id keys open_database)
