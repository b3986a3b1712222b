-- ===== src/Local.antt =====
-- The identity and the addresses of the machine (common.go): ActiveMacAddress, IPv4ofInterface,
-- LocalIPv4 and LocalPeerID. The interfaces are data, and what package net does is a parameter.
use p2p_update.Common.{
  ℕ, ◌+◌, ◌≡◌, Bool, true, false, not, ◌&&◌, ◌||◌, Option, none, some, List, [], ◌∷◌, Text, codes,
  if◌then◌else◌, leb, eqb, length, Outcome, ok, err, panic, in_range, ◌==◌, bytes_eq,
}
use p2p_update.Peer.{PeerId, zero_peer_id, overwrite}
use p2p_update.Serial.{SerialError, raspberry_pi_serial}
pub mod Identity
pub mod Addresses
mod Tests

-- net.Interface with what `Addrs` gives, `none` where that fails.
pub record Interface : Type 0 where
  pub name : Text
  pub up : Bool
  pub hardware_addr : List ℕ
  pub addrs : Option (List Text)

-- A nil address is empty: ParseCIDR gives it with an error.
pub record Net : Type 0 where
  pub parse_cidr : Text → Option (List ℕ)
  pub is_ipv4 : List ℕ → Bool
  pub dials : List ℕ → Bool

-- The first interface that is up and has a hardware address.
unfoldable pub active_mac_address : List Interface → Option (List ℕ)
active_mac_address [] = none
active_mac_address (i ∷ rest) =
    let later = active_mac_address rest in
    if i.up && not (i.hardware_addr == []) then some i.hardware_addr else later

pub data IdError : Type 0 where
  no_id : IdError

-- The loop that copies a hardware address into the six bytes of an identifier.
abbrev pub copied : List ℕ → Outcome IdError PeerId
copied mac = in_range (overwrite zero_peer_id mac)

abbrev from_mac : Option (List ℕ) → Outcome IdError PeerId
from_mac none = err no_id
from_mac (some mac) = if leb 6 (length mac) then copied mac else err no_id

abbrev or_mac : Option (List Interface) → Outcome SerialError PeerId → Outcome IdError PeerId
or_mac ifaces (ok pid) = ok pid
or_mac none (err e) = err no_id
or_mac (some is) (err e) = from_mac (active_mac_address is)
or_mac ifaces panic = panic

-- LocalPeerID, given /proc/cpuinfo and the interfaces.
unfoldable pub local_peer_id :
    Option (List Text × Bool) → Option (List Interface) → Outcome IdError PeerId
local_peer_id cpuinfo ifaces = or_mac ifaces (raspberry_pi_serial cpuinfo)

abbrev is_one_of : ℕ → Text → Bool
is_one_of c [] = false
is_one_of c (d ∷ class) = eqb d c || is_one_of c class

-- The address that the loop variable has after a call of ParseCIDR.
abbrev pub parsed : Option (List ℕ) → List ℕ
parsed none = []
parsed (some ip) = ip

abbrev failed : Option (List ℕ) → Bool
failed none = true
failed (some ip) = false

-- rExclude, the character class [lo|tun|utun] at the start of a name.
abbrev pub is_excluded : Text → Bool
is_excluded [] = false
is_excluded (c ∷ name) = is_one_of c (codes "lo|tun")

abbrev pub or_later : Option (List ℕ) → Option (List ℕ) → Option (List ℕ)
or_later none later = later
or_later (some ip) later = some ip

module _ (net : Net) where
  abbrev first_ipv4 : List Text → Option (List ℕ)
  first_ipv4 [] = none
  first_ipv4 (a ∷ addrs) =
      let later = first_ipv4 addrs in
      elim (net.parse_cidr a) [ none ↦ later | some ip ↦ if net.is_ipv4 ip then some ip else later ]

  -- IPv4ofInterface, given the interface of that name; `none` is nil.
  unfoldable pub ipv4_of_interface : Option Interface → Option (List ℕ)
  ipv4_of_interface none = none
  ipv4_of_interface (some i) = elim i.addrs [ none ↦ none | some addrs ↦ first_ipv4 addrs ]

  -- The inner loop of LocalIPv4.
  abbrev pub dial_addrs : List Text → Option (List ℕ)
  dial_addrs [] = none
  dial_addrs (a ∷ addrs) =
      let later = dial_addrs addrs in
      let ip = parsed (net.parse_cidr a) in
      if failed (net.parse_cidr a) && net.is_ipv4 ip
      then later
      else if net.dials ip
      then some ip
      else later

  abbrev pub dial_interfaces : List Interface → Option (List ℕ)
  dial_interfaces [] = none
  dial_interfaces (i ∷ rest) =
      let later = dial_interfaces rest in
      if is_excluded i.name || not i.up
      then later
      else elim i.addrs [ none ↦ later | some addrs ↦ or_later (dial_addrs addrs) later ]

  -- LocalIPv4, given whether the server's name resolves, and the interfaces.
  unfoldable pub local_ipv4 : Bool → Option (List Interface) → Option (List ℕ)
  local_ipv4 resolved none = none
  local_ipv4 resolved (some ifaces) = if resolved then dial_interfaces ifaces else none
