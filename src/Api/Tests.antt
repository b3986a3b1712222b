-- ===== src/Api/Tests.antt =====
-- Tests of Api.antt.
use p2p_update.Common.{
  List, [], ◌∷◌, ◌≤◌, length, All, arith, bytes_equal_iff, ◌≡◌, ◌⊎◌, refl, true, false, none, some,
  codes, bytes_eq,
}
use p2p_update.Notification.{verify}
use p2p_update.Update.{uuid_shell}
use p2p_update.Agent.Table.{view}
use p2p_update.Agent.Trust.{IsWellFormed, IsSound}
use p2p_update.Api.{
  get, crashed, is_uuid, route, Post, reply, no_body, request_post_update, take_hex,
}
use p2p_update.Api.Requests.{request_post_update_cases}
use p2p_update.Agent.{Agent}
use p2p_update.Agent.Monitoring.{Written, written, write_failed, write_panics}
use p2p_update.Api.Handler.{Visit, request_handler, rebroadcast_update}
use p2p_update.Api.Views.{write_servers}
use p2p_update.Api.Keeping.{deletes, KeepsAt, request_handler-IsSound}
use p2p_update.Api.Rebroadcasting.{IsBroadcast, rebroadcast_update-sent}
use p2p_update.Fixtures.{
  empty_agent-IsSound, busy_agent, empty_agent-IsWellFormed, toy_host, toy_crypto, empty_agent,
  shell_update, shell_notification,
}

is_uuid_test : is_uuid uuid_shell ≡ true
unfolding is_uuid take_hex
is_uuid_test = refl

abbrev post : Post
post = record { decoded = some (shell_update 3); source_exists = true; copied = true }

request_post_update_cases_example :
    let (a', answer) = request_post_update toy_host toy_crypto 7 empty_agent post in
    ((true ≡ false) × (answer ≡ reply 200 no_body) × (view a' uuid_shell ≡ none))
    ⊎ ((true ≡ true)
        × ((answer ≡ reply 200 no_body) ⊎ (answer ≡ reply 500 no_body))
        × (view a' uuid_shell ≡ some (shell_notification 3)))
unfolding verify
request_post_update_cases_example =
    request_post_update_cases toy_host toy_crypto 7 empty_agent (shell_update 3) uuid_shell
      empty_agent-IsWellFormed

-- A GET of the overlay from an agent without UDP.
abbrev overlay_visit : Visit
overlay_visit = record {
  host = codes "v1";
  path = codes "/overlay";
  method = get;
  body = post;
  connection = none;
  write = λ n. write_panics;
}

overlay_test : (request_handler toy_host toy_crypto 7 empty_agent overlay_visit).1 ≡ crashed
unfolding request_handler route
overlay_test = refl

-- The update is deleted before the third round.
abbrev moments : List (Agent × Written)
moments = (busy_agent, written) ∷ (busy_agent, write_failed) ∷ (empty_agent, written) ∷ []

busy_agent-IsWellFormed : IsWellFormed busy_agent
busy_agent-IsWellFormed = record {
  distinct = (refl, tt);
  allocated = λ k r e. ground arith;
  keyed = λ k r e. ground (arith, bytes_equal_iff uuid_shell k);
}

rebroadcast_update-sent_example :
    (length (rebroadcast_update uuid_shell 3 moments).sent ≤ 5)
    × All (IsBroadcast uuid_shell 3) (rebroadcast_update uuid_shell 3 moments).sent
rebroadcast_update-sent_example =
    rebroadcast_update-sent uuid_shell 3 moments
      (busy_agent-IsWellFormed, (busy_agent-IsWellFormed, (empty_agent-IsWellFormed, tt)))

request_handler-IsSound_example :
    let b = (request_handler toy_host toy_crypto 7 empty_agent overlay_visit).0 in
    IsSound toy_host toy_crypto 7 b
    × KeepsAt (deletes overlay_visit uuid_shell) uuid_shell empty_agent b
request_handler-IsSound_example =
    request_handler-IsSound toy_host toy_crypto 7 empty_agent overlay_visit uuid_shell
      empty_agent-IsSound

-- A server without a node between two with one.
write_servers_test :
    write_servers (λ n. n) 0 ((codes "a" ∷ []) ∷ [] ∷ (codes "b" ∷ []) ∷ []) ≡ codes "\"a\",\"b\""
write_servers_test = refl
