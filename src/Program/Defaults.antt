-- ===== src/Program/Defaults.antt =====
-- What the commands of main.go do without flags, against the defaults of the agent and the server.
use p2p_update.Common.{
  ℕ, ◌≡◌, refl, Bool, true, false, Option, [], ◌∷◌, ◌++◌, Text, codes, inl, inr, ◌⊎◌,
}
use p2p_update.Update.{uuid_shell}
use p2p_update.Config.{default_config, home_dir}
use p2p_update.Server.Startup.{or_default, server_config}
use p2p_update.Program.{
  Context, HasDefaults, submit_flags, server_flags, read_submit_flags, read_server_flags,
}

unset : {P : Type 0} (given : Bool) → (given ≡ true) ⊎ P → given ≡ false → P
unset given (inl there) absent = absurd (cc)
unset given (inr returned) absent = returned

-- A `submit` for which none of these flags is given is of the shell update, with the tracker and the
-- piece length of the agent's default configuration; it goes to the socket at which an agent with the
-- default configuration serves, and to the server that such an agent polls.
pub read_submit_flags-default_config :
    (user : Option Text) (ctx : Context)
    → HasDefaults ctx (submit_flags (home_dir user))
    → ctx.is_given (codes "uuid") ≡ false
    → ctx.is_given (codes "tracker") ≡ false
    → ctx.is_given (codes "piece-length") ≡ false
    → ctx.is_given (codes "unix-socket") ≡ false
    → ctx.is_given (codes "server") ≡ false
    → let cfg = default_config user in
      let f = read_submit_flags ctx in
      (f.uuid ≡ uuid_shell)
      × (f.tracker ≡ cfg.bit_torrent.tracker)
      × (f.piece_length ≡ cfg.bit_torrent.piece_length)
      × (ctx.text (codes "unix-socket") ≡ cfg.api_address)
      × (f.server ≡ cfg.server)
unfolding read_submit_flags default_config
read_submit_flags-default_config user ctx d uuid tracker piece socket server = (
  unset _ d.1.1.0 uuid,
  unset _ d.1.1.1.1.1.0 tracker,
  unset _ d.1.1.1.1.1.1.0 piece,
  unset _ d.1.1.1.1.1.1.1.0 socket,
  unset _ d.1.1.1.1.1.1.1.1.0 server,
)

-- A server that is started without flags has the configuration of the table of flags, not that of
-- DefaultServerConfig, except for the STUN password, which is that of the agent's default
-- configuration.
pub server_config-defaults :
    (user : Option Text) (ctx : Context)
    → HasDefaults ctx (server_flags (home_dir user))
    → ((name : Text) → ctx.is_given name ≡ false)
    → let cfg = server_config (read_server_flags ctx) in
      (cfg.address ≡ codes ":3478")
      × (cfg.session_advertise_time ≡ 60)
      × (cfg.database ≡ codes "/var/lib/p2pupdate-server.db")
      × (cfg.snapshot_time ≡ 10)
      × (cfg.public_key ≡ (default_config user).public_key.filename)
      × (cfg.stun_password ≡ (default_config user).overlay.stun_password)
unfolding server_config read_server_flags default_config
server_config-defaults user ctx d absent = (
  rw (unset _ d.0 (absent (codes "address"))) refl,
  rw (unset _ d.1.0 (absent (codes "advertise-session"))) refl,
  rw (unset _ d.1.1.0 (absent (codes "database"))) refl,
  rw (unset _ d.1.1.1.0 (absent (codes "snapshot-time"))) refl,
  rw (unset _ d.1.1.1.1.0 (absent (codes "public-key")))
      (in_home (home_dir user) b'/' (codes ".ssh/id_rsa.pub") (codes "key.pub")),
  rw (unset _ d.1.1.1.1.1.0 (absent (codes "stun-password"))) refl,
)
  where
    in_home : (home : Text) (c : ℕ) (t d : Text) → or_default (home ++ c ∷ t) d ≡ home ++ c ∷ t
    in_home [] c t d = refl
    in_home (x ∷ home) c t d = refl
