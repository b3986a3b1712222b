-- ===== src/Fixtures/Submission.antt =====
-- A `submit` to the empty agent and the empty server.
use p2p_update.Common.{◌≡◌, refl, true, false, none, some, [], ◌++◌, codes, bytes_eq}
use p2p_update.Update.{uuid_shell}
use p2p_update.Server.Updates.{serve_post_request}
use p2p_update.Agent.{allocate, start, add_update, torrent_metainfo, activate}
use p2p_update.Notification.{sign, verify}
use p2p_update.Notification.Creating.{new_notification}
use p2p_update.Api.{request_post_update}
use p2p_update.Command.{SubmitFlags, Surroundings, submit_error, submit_cmd}
use p2p_update.Command.Submitting.{Network, reachable}
use p2p_update.Fixtures.{toy_crypto, toy_host, empty_agent, empty_server}

-- What a `submit` meets where the files are there and the time is 900. The two requests are put in
-- place by `reachable`.
abbrev pub toy_surroundings : Surroundings toy_crypto Network
toy_surroundings = record {
  absolute = λ f. codes "/home/" ++ f;
  exists = λ f. true;
  load_private_key = λ f. some 7;
  build_from = λ f info. some (record info { name = f });
  now = 900;
  write_output = λ f t u. true;
  post_agent = λ w u. (w, none);
  post_server = λ w n. (w, none);
}

-- A submission of the shell update without a version, to a server.
abbrev pub submit_flags : SubmitFlags
submit_flags = record {
  file = codes "update.sh";
  version = 0;
  uuid = uuid_shell;
  private_key = codes "key.pem";
  output = [];
  tracker = [];
  piece_length = 32768;
  server = codes "10.0.0.1";
  torrent_file = false;
}

abbrev pub after_submit : Network
after_submit =
    (submit_cmd toy_crypto (reachable toy_host toy_crypto 7 7 toy_surroundings) submit_flags
      (empty_agent, empty_server)).0

-- The command ends without an error.
pub submit_done :
    submit_cmd toy_crypto
      (reachable toy_host toy_crypto 7 7 toy_surroundings)
      submit_flags
      (empty_agent, empty_server)
    ≡ (after_submit, none)
unfolding submit_cmd submit_error new_notification sign request_post_update start verify
    serve_post_request allocate add_update activate torrent_metainfo
submit_done = refl
