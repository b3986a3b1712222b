-- ===== src/Server/Tests.antt =====
-- Tests of Server.antt.
use p2p_update.Common.{
  ◌≡◌, ◌↔◌, ◌⊎◌, refl, true, false, some, [], ◌∷◌, arith, length, ok, panic, inl, inr, List,
  bytes_eq,
}
use p2p_update.Common.Dict.{lookup, insert}
use p2p_update.Notification.{verify}
use p2p_update.Peer.{Session, TorrentPorts, session_equal, torrent_ports_get_from}
use p2p_update.Peer.Sessions.{DifferEverywhere}
use p2p_update.Update.{uuid_shell}
use p2p_update.Server.{Server, udp_addr, new_session, update_session_table, process_message}
use p2p_update.Server.Sessions.{update_session_table_cases}
use p2p_update.Server.Panics.{ReachesPorts, process_message-panic_iff}
use p2p_update.Server.Updates.{serve_post_request}
use p2p_update.Server.Versions.{serve_post_request_cases}
use p2p_update.Common.Pairwise.{fold}
use mathlib.Core.List.{Permᴰ}
use p2p_update.Server.Database.{Post, database, serve_post, post_to, serve_posts-Perm}
use p2p_update.Fixtures.{
  plain_stun, no_codec, peer_a, two_peers, address, toy_crypto, shell_notification, empty_server,
  everywhere, short_request, empty_server-IsServing,
}

abbrev server : Server
server = record {
  id = 5 ∷ [];
  stun_password = [];
  peers = two_peers;
  updates = (uuid_shell, shell_notification 3) ∷ [];
  last_modified = 4;
  last_saved = 1;
}

abbrev ports : TorrentPorts
ports = record { external = 3; internal = 4 }

abbrev session_c : Session
session_c = new_session (address 8 1) (address 9 2) ports

update_session_table_cases_example :
    ((old : Session) × (lookup peer_a server.peers ≡ some old)
      × (length old ≡ 4)
      × DifferEverywhere old session_c
      × (update_session_table server (udp_addr (address 8 1)) peer_a (address 9 2) ports
          ≡ ok (server, false)))
    ⊎ (((old : Session)
          → lookup peer_a server.peers ≡ some old
          → ¬ ((length old ≡ 4) × DifferEverywhere old session_c))
        × (update_session_table server (udp_addr (address 8 1)) peer_a (address 9 2) ports
            ≡ ok (record server { peers = insert peer_a session_c server.peers }, true)))
update_session_table_cases_example =
    update_session_table_cases server (address 8 1) (address 9 2) peer_a ports

-- A session that differs at every position is not stored.
moved_test :
    update_session_table server (udp_addr (address 8 1)) peer_a (address 9 2) ports
    ≡ ok (server, false)
unfolding update_session_table session_equal
moved_test = refl

process_message-panic_iff_example :
    ((process_message plain_stun no_codec everywhere empty_server
        (udp_addr (address 8 1))
        short_request).1
      ≡ panic)
    ↔ (ReachesPorts plain_stun no_codec everywhere empty_server short_request
        × (torrent_ports_get_from plain_stun short_request ≡ panic))
process_message-panic_iff_example =
    process_message-panic_iff plain_stun no_codec everywhere empty_server (udp_addr (address 8 1))
      short_request empty_server-IsServing

serve_post_request_cases_example :
    let (s', r) = serve_post_request toy_crypto 7 server (some (shell_notification 4)) 9 in
    (r.status ≡ 200)
    × (r.broadcast ≡ some (shell_notification 4))
    × (lookup uuid_shell s'.updates ≡ some (shell_notification 4))
unfolding verify
serve_post_request_cases_example =
    serve_post_request_cases toy_crypto 7 server 9 (shell_notification 4) uuid_shell

-- Two versions of the shell update, in both orders.
abbrev posts : List Post
posts = (shell_notification 4, 10) ∷ (shell_notification 5, 11) ∷ []

abbrev late_posts : List Post
late_posts = (shell_notification 5, 11) ∷ (shell_notification 4, 10) ∷ []

serve_posts-Perm_example :
    (database (fold (serve_post toy_crypto 7) server posts)
      ≡ fold (post_to toy_crypto 7) (database server) posts)
    × (database (fold (serve_post toy_crypto 7) server late_posts)
        ≡ database (fold (serve_post toy_crypto 7) server posts))
serve_posts-Perm_example =
    serve_posts-Perm toy_crypto 7 server posts late_posts (Permᴰ.swap refl refl)
      ((inr (inl (λ e. ground arith)), tt), (tt, tt))
