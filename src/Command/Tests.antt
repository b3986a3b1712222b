-- ===== src/Command/Tests.antt =====
-- Tests of Command.antt.
use p2p_update.Common.{◌≡◌, refl, some, bytes_eq}
use p2p_update.Common.Dict.{lookup}
use p2p_update.Notification.{Notification}
use p2p_update.Update.{uuid_shell}
use p2p_update.Agent.Table.{view}
use p2p_update.Command.Submitting.{submit_cmd-holds}
use p2p_update.Fixtures.{empty_agent-IsWellFormed, toy_crypto, toy_host, empty_agent, empty_server}
use p2p_update.Fixtures.Submission.{toy_surroundings, submit_flags, after_submit, submit_done}

submit_cmd-holds_example :
    (n : Notification) × (n.uuid ≡ uuid_shell)
    × (n.version ≡ 900)
    × (view after_submit.0 n.uuid ≡ some n)
    × (lookup n.uuid after_submit.1.updates ≡ some n)
submit_cmd-holds_example =
    submit_cmd-holds toy_host toy_crypto 7 7 toy_surroundings submit_flags empty_agent
      after_submit.0 empty_server after_submit.1 empty_agent-IsWellFormed refl refl submit_done
