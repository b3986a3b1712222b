-- ===== src/TorrentPort/Tests.antt =====
-- Tests of TorrentPort.antt.
use p2p_update.Common.{◌≡◌, refl, codes}
use p2p_update.TorrentPort.{overlay_port, trim, has_port}

-- An address of IPv6 has its first colon too early.
ipv6_test : overlay_port (codes "[fe80::1]:9322") ≡ 0
unfolding overlay_port trim has_port
ipv6_test = refl
