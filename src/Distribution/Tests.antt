-- ===== src/Distribution/Tests.antt =====
-- Tests of Distribution.antt.
use p2p_update.Common.{◌≤◌, ◌≡◌, refl, none, some, [], bytes_eq}
use p2p_update.Notification.{Notification}
use p2p_update.Update.{uuid_shell}
use p2p_update.Agent.Table.{view}
use p2p_update.Agent.Sources.{Runtime}
use p2p_update.Server.Updates.{save_updates, save_failed}
use p2p_update.Server.History.{IsStored}
use p2p_update.Server.Serving.{Serving, serving, here, next, snapshot}
use p2p_update.Distribution.{fetch, submit_cmd-spreads}
use p2p_update.Fixtures.{
  empty_agent-IsSound, empty_agent-IsWellFormed, toy_crypto, toy_host, plain_stun, no_codec,
  everywhere, empty_agent, empty_server, shell_notification,
}
use p2p_update.Fixtures.Submission.{toy_surroundings, submit_flags, after_submit, submit_done}

empty_server-IsStored : IsStored toy_crypto 7 empty_server
empty_server-IsStored = record { distinct = tt; keyed = λ k n e. cc; signed = λ k n e. cc }

-- The agent of another host, before and after it has asked the server.
abbrev remote : Runtime
remote = record {
  agent = empty_agent;
  buf_notification = shell_notification 2;
  sharing = [];
  buf_notifications = [];
  counter = 0;
  read_tcp_interval = 60;
}

abbrev saved_server : Serving plain_stun
saved_server = record (serving plain_stun after_submit.1) {
  server = (save_updates after_submit.1 none (save_failed none)).0;
}

submit_cmd-spreads_example :
    (rt' : Runtime) × (n : Notification) × (fetch toy_host toy_crypto 7 saved_server.server 950
        remote
      ≡ some rt')
    × (view rt'.agent uuid_shell ≡ some n)
    × (900 ≤ n.version)
submit_cmd-spreads_example =
    submit_cmd-spreads toy_host toy_host toy_crypto 7 7 plain_stun no_codec everywhere
      toy_surroundings submit_flags empty_agent after_submit.0 empty_server after_submit.1
      saved_server 950 remote empty_agent-IsWellFormed empty_server-IsStored refl refl submit_done
      (next here (snapshot (serving plain_stun after_submit.1) none (save_failed none) refl))
      empty_agent-IsSound tt
