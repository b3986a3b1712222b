-- ===== src/Peer/Tests.antt =====
-- Tests of Peer.antt.
use p2p_update.Common.{◌≡◌, refl, true, false, [], ◌∷◌, panic}
use p2p_update.Stun.{attr_even_port}
use p2p_update.Peer.{peer_id_string, torrent_ports_get_from, uint32, session_equal}
use p2p_update.Fixtures.{Packet, empty_packet, plain_stun, session_at}

peer_id_string_test : peer_id_string (255 ∷ 10 ∷ []) ≡ 102 ∷ 102 ∷ 48 ∷ 97 ∷ []
unfolding peer_id_string
peer_id_string_test = refl

abbrev short_ports : Packet
short_ports = record empty_packet { attributes = (attr_even_port, 1 ∷ 2 ∷ 3 ∷ []) ∷ [] }

short_ports_panic : torrent_ports_get_from plain_stun short_ports ≡ panic
unfolding torrent_ports_get_from uint32
short_ports_panic = refl

session_equal_self : session_equal (session_at 1) (session_at 1) ≡ false
unfolding session_equal
session_equal_self = refl

session_equal_moved : session_equal (session_at 1) (session_at 2) ≡ true
unfolding session_equal
session_equal_moved = refl
