-- ===== src/Agent/Monitoring.antt =====
-- `monitor` of update.go: one round of its loop, and what a round may change.
use p2p_update.Common.{
  ℕ, ◌<◌, ◌≤◌, ◌≡◌, ◌↔◌, ◌≢◌, ◌⊎◌, refl, subst, ◌∙◌, Bool, true, false, not, ◌&&◌, ◌||◌, List, Text,
  if◌then◌else◌, ltb, arith, Bool-cases, inl, inr, is_some, bytes_eq,
}
use p2p_update.Update.{Update, deploy}
use p2p_update.Agent.{Agent, Host, set_update, save}
use p2p_update.Agent.Table.{SameTable, SameTable-trans, save-SameTable}

-- Notification.Write on the agent's overlay; it panics on a nil overlay (Overlay.Io).
pub data Written : Type 0 where
  written write_failed write_panics : Written

-- What a round meets: the result of the broadcast, the torrent's missing bytes and files, the time.
pub record Surroundings : Type 0 where
  pub broadcast : Written
  pub bytes_missing : ℕ
  pub torrent_files : List Text
  pub now : ℕ

-- A round goes on with the agent and `toSave`, leaves the loop, or ends the process.
pub data Round : Type 0 where
  continued : Agent → Bool → Round
  left_loop : Round
  panicked : Round

module _ (h : Host) (a : Agent) (r : ℕ) (s : Surroundings) where
  -- The body after the broadcast, up to Unlock.
  unfoldable pub progress : Update → Bool → Update × Bool
  progress u to_save =
      let u' = record u { missing = s.bytes_missing } in
      if ltb 0 s.bytes_missing
      then (u', to_save)
      else if not a.proxy && ltb (h.sys.year u'.deployed) 2000
      then (deploy h.sys a.data_dir s.torrent_files s.now u', true)
      else (u', to_save)

  abbrev finish : Update × Bool → Round
  finish (u, true) = continued (save h (set_update a r u) r).0 false
  finish (u, false) = continued (set_update a r u) false

  abbrev broadcast_first : Update → Bool → Written → Round
  broadcast_first u to_save written = finish (progress (record u { sent = true }) true)
  broadcast_first u to_save write_failed = finish (progress u to_save)
  broadcast_first u to_save write_panics = panicked

  unfoldable pub monitor_round : Bool → Round
  unfolding progress
  monitor_round to_save =
      let u = a.heap r in
      if u.stopped || not (is_some u.torrent)
      then left_loop
      else if not u.sent
      then broadcast_first u to_save s.broadcast
      else finish (progress u to_save)

  -- A round that goes on changes the time or the count of failures of the deployment only when no
  -- byte is missing, the agent is no proxy, the recorded time is before the year 2000, and at most
  -- five attempts have failed.
  pub monitor_round-deploys :
      (to_save to_save' : Bool) (a' : Agent)
      → monitor_round to_save ≡ continued a' to_save'
      → ((a'.heap r).deployed ≢ (a.heap r).deployed)
        ⊎ ((a'.heap r).deploy_fails ≢ (a.heap r).deploy_fails)
      → (s.bytes_missing ≡ 0)
        × (a.proxy ≡ false)
        × (h.sys.year (a.heap r).deployed < 2000)
        × ((a.heap r).deploy_fails ≤ 5)
  unfolding monitor_round deploy save
  monitor_round-deploys to_save to_save' a' e changed = ground arith

  progress_notification :
      (u : Update) (to_save : Bool) → (progress u to_save).0.notification ≡ u.notification
  unfolding progress deploy
  progress_notification u to_save = ground arith

  set_update-SameTable :
      (u : Update) → u.notification ≡ (a.heap r).notification → SameTable a (set_update a r u)
  set_update-SameTable u n = record {
    updates = refl;
    next = refl;
    notifications = λ q. ground arith;
  }

  finish-SameTable :
      (x : Update × Bool) (a' : Agent) (to_save' : Bool)
      → x.0.notification ≡ (a.heap r).notification
      → finish x ≡ continued a' to_save'
      → SameTable a a'
  finish-SameTable (u, true) a' to_save' n e =
      let same : (save h (set_update a r u) r).0 ≡ a' = cc in
      subst (SameTable a) same
        (SameTable-trans (set_update-SameTable u n) (save-SameTable h (set_update a r u) r))
  finish-SameTable (u, false) a' to_save' n e =
      let same : set_update a r u ≡ a' = cc in subst (SameTable a) same (set_update-SameTable u n)

  broadcast-SameTable :
      (u : Update) (to_save : Bool) (w : Written) (a' : Agent) (to_save' : Bool)
      → u.notification ≡ (a.heap r).notification
      → broadcast_first u to_save w ≡ continued a' to_save'
      → SameTable a a'
  broadcast-SameTable u to_save written a' to_save' n e =
      let u' = record u { sent = true } in
      finish-SameTable (progress u' true) a' to_save' (progress_notification u' true ∙ n) e
  broadcast-SameTable u to_save write_failed a' to_save' n e =
      finish-SameTable (progress u to_save) a' to_save' (progress_notification u to_save ∙ n) e
  broadcast-SameTable u to_save write_panics a' to_save' n e = cc

  -- A round of the monitor leaves the table of updates and every notification alone.
  pub monitor_round-SameTable :
      (to_save to_save' : Bool) (a' : Agent)
      → monitor_round to_save ≡ continued a' to_save'
      → SameTable a a'
  unfolding monitor_round
  monitor_round-SameTable to_save to_save' a' e =
      let u = a.heap r in
      elim (Bool-cases (u.stopped || not (is_some u.torrent))) [
        | inl ended ↦ absurd (ground arith)
        | inr active ↦ elim (Bool-cases (not u.sent)) [
          | inl unsent ↦
              broadcast-SameTable u to_save s.broadcast a' to_save' refl (rw (active, unsent) at e)
          | inr sent_before ↦
              finish-SameTable (progress u to_save) a' to_save' (progress_notification u to_save)
                (rw (active, sent_before) at e)
        ]
      ]

  -- A round ends the process by a panic exactly when the update is active (not stopped, and with a
  -- torrent), it has not been broadcast, and the write of its notification to the overlay panics.
  pub monitor_round-panicked_iff :
      (to_save : Bool)
      → (monitor_round to_save ≡ panicked) ↔ (
          ((a.heap r).stopped ≡ false)
          × (is_some (a.heap r).torrent ≡ true)
          × ((a.heap r).sent ≡ false)
          × (s.broadcast ≡ write_panics))
  unfolding monitor_round
  monitor_round-panicked_iff to_save = (λ e. ground arith, λ e. ground arith)
