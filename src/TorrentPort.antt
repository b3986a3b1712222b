-- ===== src/TorrentPort.antt =====
-- The port of the BitTorrent client (agent.go): torrentClientConfig and bindRandomPort, with the
-- functions of strings, regexp and strconv that they call.
use p2p_update.Common.{
  ℕ, suc, zero, ◌+◌, ◌*◌, ◌-◌, ◌^◌, Bool, true, false, not, ◌&&◌, ◌||◌, Option, none, some, List,
  [], ◌∷◌, Text, if◌then◌else◌, ltb, eqb,
}
use p2p_update.Common.Numerals.{is_digit, number_from}
use p2p_update.Notification.{software_name}
use p2p_update.Config.{Config}
pub mod Choosing
pub mod Numerals
mod Tests

-- strings.Trim with the set of a space, a tab, a carriage return and a newline.
abbrev is_blank : ℕ → Bool
is_blank c = eqb c 32 || (eqb c 9 || (eqb c 10 || eqb c 13))

abbrev trim_front : Text → Text
trim_front [] = []
trim_front (c ∷ t) = let rest = trim_front t in if is_blank c then rest else c ∷ t

abbrev onto_trimmed : ℕ → Text → Text
onto_trimmed c [] = if is_blank c then [] else c ∷ []
onto_trimmed c (d ∷ t) = c ∷ d ∷ t

abbrev trim_back : Text → Text
trim_back [] = []
trim_back (c ∷ t) = onto_trimmed c (trim_back t)

unfoldable pub trim : Text → Text
trim t = trim_back (trim_front t)

abbrev pub colon : ℕ
colon = 58

abbrev all_digits : Text → Bool
all_digits [] = true
all_digits (c ∷ t) = is_digit c && all_digits t

abbrev pub is_numeral : Text → Bool
is_numeral [] = false
is_numeral (c ∷ t) = all_digits (c ∷ t)

-- The regular expression ^.*:[0-9]+$, whose dot is no newline.
unfoldable pub has_port : Text → Bool
has_port [] = false
has_port (c ∷ t) = (eqb c colon && is_numeral t) || (not (eqb c 10) && has_port t)

-- What stands behind the first colon.
abbrev pub after_colon : Text → Text
after_colon [] = []
after_colon (c ∷ t) = let rest = after_colon t in if eqb c colon then t else rest

-- strconv.Atoi on text without a sign: a syntax error gives 0, a number out of range the largest.
abbrev pub atoi : Text → ℕ
atoi t =
    let n = number_from 0 t in
    if not (is_numeral t) then 0 else if ltb n (2 ^ 63) then n else 2 ^ 63 - 1

-- The port of the overlay in the agent's address, or 0.
unfoldable pub overlay_port : Text → ℕ
unfolding trim has_port
overlay_port address =
    let addr = trim address in if has_port addr then atoi (after_colon addr) else 0

abbrev pub or_else : Option ℕ → ℕ → ℕ
or_else none later = later
or_else (some port) later = port

-- The gateways that UPnP has found: for each, whether it maps the port of an attempt. `draw` is the
-- sequence of random numbers, each below 10000.
module _ (draw : ℕ → ℕ) where
  abbrev pub random_port : ℕ → ℕ
  random_port n = draw n + 50000

  -- The attempts on one gateway: a port, or none of them was mapped.
  abbrev pub map_port : ℕ → ℕ → (ℕ → Bool) → Option ℕ
  map_port zero n maps = none
  map_port (suc attempts) n maps =
      let later = map_port attempts (n + 1) maps in
      if maps (random_port n) then some (random_port n) else later

  unfoldable pub bind_random_port : ℕ → List (ℕ → Bool) → ℕ
  bind_random_port n [] = random_port n
  bind_random_port n (maps ∷ gateways) =
      let later = bind_random_port (n + 50) gateways in or_else (map_port 50 n maps) later

-- The port of the BitTorrent client, which torrentClientConfig writes to the configuration.
unfoldable pub torrent_port : Config → ℕ → ℕ
torrent_port cfg random =
    let port = cfg.bit_torrent.port in
    if eqb port 0 || eqb port (overlay_port cfg.address) then random else port

abbrev pub with_port : Config → ℕ → Config
with_port cfg port = record cfg { bit_torrent = record cfg.bit_torrent { port = port } }

-- torrent.Config as torrentClientConfig fills it; the nodes that a DHT starts with are the library's.
pub record TorrentConfig : Type 0 where
  pub listen_port : ℕ
  pub data_dir : Text
  pub seed : Bool
  pub no_dht : Bool
  pub http_user_agent : Text
  pub debug : Bool

-- The configuration of the client, of a configuration to which the port has been written.
unfoldable pub torrent_client_config : Config → Text → TorrentConfig
torrent_client_config cfg dir = record {
  listen_port = cfg.bit_torrent.port;
  data_dir = dir;
  seed = true;
  no_dht = cfg.bit_torrent.no_dht || cfg.no_udp;
  http_user_agent = software_name;
  debug = cfg.bit_torrent.debug;
}
