-- ===== src/Peer.antt =====
-- common.go: peer identifiers, torrent ports, sessions, the session table and the validation of
-- messages. A `[6]byte` is a list of six numbers below 256.
use p2p_update.Common.{
  ℕ, ◌+◌, ◌-◌, ◌*◌, ◌/◌, ◌%◌, ◌^◌, ◌<◌, Text, ◌≡◌, Bool, true, false, not, ◌&&◌, ◌||◌, Option, none,
  some, List, [], ◌∷◌, ◌++◌, if◌then◌else◌, ltb, eqb, length, take, drop, All, ◌==◌, bytes_eq,
  Outcome, ok, err, ◌>>=◌, require, in_range,
}
use p2p_update.Common.Dict.{Dict}
use p2p_update.Stun.{
  Stun, UdpAddr, MessageType, attr_username, attr_even_port, attr_data, same_method, same_class,
}
pub mod Identity
pub mod Ports
pub mod Sessions
pub mod Json
mod Tests

abbrev pub PeerId : Type 0
PeerId = List ℕ

abbrev pub peer_id_size : ℕ
peer_id_size = 6

abbrev pub IsPeerId : PeerId → Type 0
IsPeerId pid = (length pid ≡ peer_id_size) × All (λ b. b < 256) pid

abbrev pub zero_peer_id : PeerId
zero_peer_id = 0 ∷ 0 ∷ 0 ∷ 0 ∷ 0 ∷ 0 ∷ []

-- The code of a hexadecimal digit, as `hex.EncodeToString` writes it.
abbrev pub hex_digit : ℕ → ℕ
hex_digit n = if ltb n 10 then 48 + n else 87 + n

unfoldable pub peer_id_string : PeerId → List ℕ
peer_id_string [] = []
peer_id_string (b ∷ bs) = hex_digit (b / 16) ∷ hex_digit (b % 16) ∷ peer_id_string bs

-- for i, b := range buf { pid[i] = b }: `none` where an index is out of range.
unfoldable pub overwrite : PeerId → List ℕ → Option PeerId
overwrite pid [] = some pid
overwrite [] (b ∷ bs) = none
overwrite (p ∷ ps) (b ∷ bs) =
    let rest = overwrite ps bs in elim rest [ none ↦ none | some bs' ↦ some (b ∷ bs') ]

pub data PeerError : Type 0 where
  no_username : PeerError
  username_length : ℕ → PeerError

-- An array of two ints; the ports are not negative.
pub record TorrentPorts : Type 0 where
  pub external : ℕ
  pub internal : ℕ

-- binary.LittleEndian.PutUint32 of uint32(n), and Uint32 of the first four bytes.
unfoldable pub put_uint32 : ℕ → List ℕ
put_uint32 n =
    n % 2 ^ 32 % 256
    ∷ n % 2 ^ 32 / 256 % 256
    ∷ n % 2 ^ 32 / 65536 % 256
    ∷ n % 2 ^ 32 / 16777216
    ∷ []

unfoldable pub uint32 : List ℕ → Option ℕ
uint32 (a ∷ b ∷ c ∷ d ∷ rest) = some (a + b * 256 + c * 65536 + d * 16777216)
uint32 _ = none

pub data PortsError : Type 0 where
  no_even_port : PortsError

-- []*net.UDPAddr: external, internal, torrent external and torrent internal address.
abbrev pub Session : Type 0
Session = List UdpAddr

abbrev pub SessionTable : Type 0
SessionTable = Dict PeerId Session

-- The loop of `Session.Equal`: it gives up at a position where the two addresses are the same.
unfoldable pub equal_from : Session → Session → Bool
equal_from [] ss = true
equal_from (x ∷ s) [] = true
equal_from (x ∷ s) (y ∷ ss) = if (y.ip == x.ip) && eqb y.port x.port then false else equal_from s ss

unfoldable pub session_equal : Session → Session → Bool
unfolding equal_from
session_equal s ss = if not (eqb (length s) (length ss)) then false else equal_from s ss

-- github.com/vmihailenco/msgpack on session tables.
pub record Msgpack : Type 0 where
  pub marshal : SessionTable → Option (List ℕ)
  pub unmarshal : List ℕ → Option SessionTable

pub data Invalid : Type 0 where
  incorrect_type invalid_username bad_fingerprint bad_integrity : Invalid

module _ (s : Stun) where
  open s use {Message}

  -- PeerMessage.AddTo
  unfoldable pub peer_message_add_to : List ℕ → Message → Option Message
  peer_message_add_to data_bytes m = some (s.add attr_data data_bytes m)

  -- PeerID.AddTo and PeerID.GetFrom
  unfoldable pub peer_id_add_to : PeerId → Message → Option Message
  peer_id_add_to pid m = some (s.add attr_username pid m)

  unfoldable pub peer_id_get_from : PeerId → Message → Outcome PeerError PeerId
  peer_id_get_from pid m = do
    buf ← require no_username (s.get attr_username m)
    if not (eqb (length buf) (length pid))
        then err (username_length (length buf))
        else in_range (overwrite pid buf)

  -- TorrentPorts.AddTo and TorrentPorts.GetFrom
  unfoldable pub torrent_ports_add_to : TorrentPorts → Message → Option Message
  torrent_ports_add_to tp m =
      some (s.add attr_even_port (put_uint32 tp.external ++ put_uint32 tp.internal) m)

  -- b[:4] panics on a shorter slice, and so does Uint32 of b[4:].
  unfoldable pub torrent_ports_get_from : Message → Outcome PortsError TorrentPorts
  torrent_ports_get_from m = do
    b ← require no_even_port (s.get attr_even_port m)
    external ← in_range (uint32 (take 4 b))
    internal ← in_range (uint32 (drop 4 b))
    ok (record { external = external; internal = internal })

  -- SessionTable.AddTo and GetSessionTableFrom
  unfoldable pub session_table_add_to : Msgpack → SessionTable → Message → Option Message
  session_table_add_to mp st m = elim (mp.marshal st) [
    | none ↦ none
    | some bytes ↦ some (s.add attr_data bytes m)
  ]

  unfoldable pub get_session_table_from : Msgpack → Message → Option SessionTable
  get_session_table_from mp m = elim (s.get attr_data m) [
    | none ↦ none
    | some bytes ↦ mp.unmarshal bytes
  ]

  abbrev has_type : Option MessageType → Message → Bool
  has_type none m = true
  has_type (some t) m =
      same_method (s.message_type m).method t.method && same_class (s.message_type m).class t.class

  -- validateMessage: `none` is its nil error.
  unfoldable pub validate_message : Message → Option MessageType → Text → Option Invalid
  validate_message m t password =
      if not (has_type t m)
      then some incorrect_type
      else if not (s.has_username m)
      then some invalid_username
      else if not (s.fingerprint_holds m)
      then some bad_fingerprint
      else if not (s.integrity_holds password m)
      then some bad_integrity
      else none
