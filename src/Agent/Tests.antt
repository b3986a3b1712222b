-- ===== src/Agent/Tests.antt =====
-- Tests of Agent.antt.
use p2p_update.Common.{
  Text, ℕ, ◌<◌, ◌≤◌, ◌≡◌, inl, refl, Bool, true, false, some, List, [], ◌∷◌, arith, codes, bytes_eq,
}
use p2p_update.Notification.{Notification, verify}
use p2p_update.Update.{
  uuid_shell, uuid_apk, deploy, deploy_with, deploy_on, deploy_shell, deploy_file,
}
use p2p_update.Agent.{
  Agent, update_is_already_exist, start, activate, retire, stop, delete_files, save, add_update,
  torrent_metainfo,
}
use p2p_update.Agent.Table.{view}
use p2p_update.Agent.Starting.{view-start}
use p2p_update.Agent.Sources.{Runtime, read_overlay}
use p2p_update.Agent.Sources.{receive_all}
use p2p_update.Agent.Gossip.{read_overlay-garbage}
use p2p_update.Agent.Sharing.{read_overlay-overwrites}
use p2p_update.Agent.Retrying.{start_again}
use p2p_update.Agent.Locking.{
  Threads, Step, Reach, running, exited_blocks, monitor, exited, before_delete, here, next,
  lock_stop, unlock_stop, wake, break_loop,
}
use p2p_update.Agent.Monitoring.{
  Surroundings, Written, written, Round, continued, panicked, left_loop, progress, monitor_round,
  monitor_round-deploys,
}
use mathlib.Core.List.{Permᴰ}
use p2p_update.Agent.Ordering.{pointers, receive_all-Perm}
use p2p_update.Fixtures.{
  toy_crypto, toy_host, busy_agent, empty_agent, shell_notification, empty_agent-IsSound,
}

view-start_example :
    view (start toy_host toy_crypto 7 busy_agent 1).0 uuid_shell ≡ some (shell_notification 4)
unfolding verify
view-start_example = view-start toy_host toy_crypto 7 busy_agent 1 uuid_shell

start_again_example :
    let after = (start toy_host toy_crypto 7 busy_agent 1).0 in
    start toy_host toy_crypto 7 after 1 ≡ (after, some update_is_already_exist)
unfolding verify start activate retire stop delete_files add_update torrent_metainfo
start_again_example =
    start_again toy_host toy_crypto 7 busy_agent (start toy_host toy_crypto 7 busy_agent 1).0 1 1
      refl refl refl

abbrev reject : List ℕ → Notification → Bool × Notification
reject bytes n = (false, n)

abbrev runtime : Runtime
runtime = record {
  agent = empty_agent;
  buf_notification = shell_notification 2;
  sharing = [];
  buf_notifications = [];
  counter = 4;
  read_tcp_interval = 60;
}

read_overlay-garbage_example :
    view (read_overlay toy_host toy_crypto 7 reject runtime (some (1 ∷ []))).agent uuid_shell
    ≡ some (shell_notification 2)
unfolding verify
read_overlay-garbage_example =
    read_overlay-garbage toy_host toy_crypto 7 reject runtime (1 ∷ []) empty_agent-IsSound refl refl
      refl

-- Two messages, of two updates.
abbrev apk_message : Notification
apk_message = record (shell_notification 3) { uuid = uuid_apk }

abbrev decode_two : List ℕ → Notification → Bool × Notification
decode_two [] n = (true, apk_message)
decode_two (b ∷ bytes) n = (true, shell_notification 2)

read_overlay-overwrites_example :
    let rt₁ = read_overlay toy_host toy_crypto 7 decode_two runtime (some (1 ∷ [])) in
    let rt₂ = read_overlay toy_host toy_crypto 7 decode_two rt₁ (some []) in
    (view rt₁.agent uuid_shell ≡ some (shell_notification 2))
    × (view rt₂.agent uuid_shell
        ≡ some (record (shell_notification 2) { signatures = (shell_notification 3).signatures }))
unfolding verify
read_overlay-overwrites_example =
    read_overlay-overwrites toy_host toy_crypto 7 decode_two runtime (1 ∷ []) []
      {n₁ = shell_notification 2} {n₂ = apk_message} empty_agent-IsSound.well_formed refl refl refl
      refl refl refl refl refl

abbrev stopped_exited : Threads
stopped_exited = record {
  stopped = true;
  lock = monitor;
  caller_at = before_delete;
  monitor_at = exited;
}

stopped_run : Reach running stopped_exited
stopped_run =
    next
      (next (next (next here (lock_stop running refl refl)) (unlock_stop _ refl))
        (wake _ refl refl))
      (break_loop _ refl refl)

exited_blocks_example : (stopped_exited.lock ≡ monitor) × ((u : Threads) → ¬ Step stopped_exited u)
exited_blocks_example = exited_blocks stopped_run refl

abbrev surroundings : Written → Surroundings
surroundings w = record {
  broadcast = w;
  bytes_missing = 0;
  torrent_files = codes "update.sh" ∷ [];
  now = 500;
}

abbrev agent_after : Round → Agent
agent_after (continued a to_save) = a
agent_after left_loop = empty_agent
agent_after panicked = empty_agent

monitor_round-deploys_example :
    ((surroundings written).bytes_missing ≡ 0) × (false ≡ false) × (1 < 2000) × (0 ≤ 5)
unfolding monitor_round progress deploy deploy_with deploy_on deploy_shell deploy_file save
monitor_round-deploys_example =
    let s = surroundings written in
    monitor_round-deploys toy_host busy_agent 0 s false false
      (agent_after (monitor_round toy_host busy_agent 0 s false)) refl (inl (λ e. ground arith))

-- Two notifications of different UUIDs, in both orders.
abbrev other_notification : Notification
other_notification = record (shell_notification 3) { uuid = [] }

abbrev ordered : List Notification
ordered = shell_notification 4 ∷ other_notification ∷ []

abbrev reversed : List Notification
reversed = other_notification ∷ shell_notification 4 ∷ []

receive_all-Perm_example :
    (b b' : Agent) × (receive_all toy_host toy_crypto 7 empty_agent (pointers ordered) ≡ some b)
    × (receive_all toy_host toy_crypto 7 empty_agent (pointers reversed) ≡ some b')
    × ((k : Text) → view b k ≡ view b' k)
receive_all-Perm_example =
    receive_all-Perm toy_host toy_crypto 7 empty_agent ordered reversed empty_agent-IsSound
      (((λ e. cc), tt), (tt, tt)) (Permᴰ.swap refl refl)
