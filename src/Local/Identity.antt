-- ===== src/Local/Identity.antt =====
-- When LocalPeerID (common.go) panics, and what it returns.
use p2p_update.Common.{ℕ, ◌≡◌, ◌<◌, Bool, Option, some, List, Text, length, err}
use p2p_update.Serial.{SerialError, raspberry_pi_serial}
use p2p_update.Local.{Interface, active_mac_address}

-- There is no serial number, and the first active hardware address has more than six bytes.
abbrev pub HasLongMac : Option (List Text × Bool) → List Interface → Type 0
HasLongMac cpuinfo ifaces =
    ((e : SerialError) × (raspberry_pi_serial cpuinfo ≡ err e))
    × ((mac : List ℕ) × (active_mac_address ifaces ≡ some mac) × (6 < length mac))
