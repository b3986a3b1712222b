-- ===== src/Agent/Starting.antt =====
-- `Start` and `addUpdate` (update.go, agent.go) against an abstract register of notifications.
use p2p_update.Common.{
  ℕ, ◌≡◌, ◌⊎◌, refl, ◌∙◌, ap, Bool, true, false, not, ◌&&◌, Option, none, some, Text, if◌then◌else◌,
  eqb, ltb, arith, Option-cases, Bool-cases, inl, inr, bytes_eq, ◌==◌,
}
use p2p_update.Common.Dict.{lookup, insert, lookup-insert}
use p2p_update.Notification.{Notification, Crypto}
use p2p_update.Agent.{
  Agent, Host, StartError, update_verification_failed, update_is_older, update_is_already_exist,
  torrent_metainfo_failed, adding_torrent_failed, MetaInfo, torrent_metainfo, add_update, activate,
  retire, accepts, start,
}
use p2p_update.Agent.Table.{
  view, SameTable, SameTable-view, retire-SameTable, activate-SameTable, SameTable-trans,
}

-- The specification: a register for each UUID, which takes a notification that is accepted and
-- newer than what it holds.
abbrev pub is_newer : Option Notification → Notification → Bool
is_newer none n = true
is_newer (some old) n = ltb old.version n.version

abbrev pub takes : (Notification → Bool) → Option Notification → Notification → Bool
takes accept held n = accept n && is_newer held n

abbrev pub register_error :
    (Notification → Bool) → Option Notification → Notification → Option StartError
register_error accept none n = if accept n then none else some update_verification_failed
register_error accept (some old) n =
    if not (accept n)
    then some update_verification_failed
    else if ltb n.version old.version
    then some update_is_older
    else if eqb old.version n.version
    then some update_is_already_exist
    else none

module _ (h : Host) (c : Crypto) (public_key : c.PublicKey) (a : Agent) (r : ℕ) where
  abbrev pub accept : Notification → Bool
  accept = accepts h c public_key

  abbrev pub offered : Notification
  offered = (a.heap r).notification

  abbrev pub inserted : Agent
  inserted = record a { updates = insert offered.uuid r a.updates }

  view-inserted :
      (k : Text) → view inserted k ≡ (if offered.uuid == k then some offered else view a k)
  view-inserted k = ground (arith, lookup-insert offered.uuid k r a.updates)

  pub start_taken :
      takes accept (view a offered.uuid) offered ≡ true
      → start h c public_key a r ≡ activate h (retire h inserted (lookup offered.uuid a.updates)) r
  unfolding start add_update
  start_taken h' = elim (Option-cases (lookup offered.uuid a.updates)) [
    | inl absent ↦ ground arith
    | inr (o, present) ↦ ground arith
  ]

  pub start-SameTable :
      takes accept (view a offered.uuid) offered ≡ true
      → SameTable inserted (start h c public_key a r).0
  start-SameTable h' =
      let old = lookup offered.uuid a.updates in
      rw (start_taken h') (
        SameTable-trans (retire-SameTable h inserted old)
          (activate-SameTable h (retire h inserted old) r))

  -- An update that is refused (its signature is not accepted, or the agent holds the same or a
  -- later version) leaves the agent unchanged in every field, its files included, and the error
  -- tells which of the three it was.
  pub start-unchanged :
      takes accept (view a offered.uuid) offered ≡ false
      → start h c public_key a r ≡ (a, register_error accept (view a offered.uuid) offered)
  unfolding start add_update
  start-unchanged h' = elim (Option-cases (lookup offered.uuid a.updates)) [
    | inl absent ↦ ground arith
    | inr (o, present) ↦ ground arith
  ]

  -- For every UUID, after `Start` of an update the agent holds the update's notification if the
  -- UUID is the update's own, the signature is accepted and no update of the same or of a later
  -- version was there; otherwise it holds what it held before. This is so whether or not the
  -- torrent could be added.
  pub view-start :
      (k : Text)
      → view (start h c public_key a r).0 k ≡ (
          if takes accept (view a offered.uuid) offered && (offered.uuid == k)
          then some offered
          else view a k)
  view-start k = elim (Bool-cases (takes accept (view a offered.uuid) offered)) [
    | inl taken ↦ rw taken (SameTable-view (start-SameTable taken) k ∙ view-inserted k)
    | inr not_taken ↦
        rw not_taken
          (ap (λ (x : Agent × Option StartError). view x.0 k) (start-unchanged not_taken))
  ]

  -- An update that the register takes is started, or its torrent could not be.
  pub start_taken_error :
      takes accept (view a offered.uuid) offered ≡ true
      → let e = (start h c public_key a r).1 in
        (e ≡ none) ⊎ ((e ≡ some torrent_metainfo_failed) ⊎ (e ≡ some adding_torrent_failed))
  unfolding activate
  start_taken_error h' =
      let a' = retire h inserted (lookup offered.uuid a.updates) in
      rw (start_taken h') (activate_error a' (torrent_metainfo h (a'.heap r).notification) refl)
    where
      activate_error :
          (b : Agent) (mi : Option MetaInfo)
          → torrent_metainfo h (b.heap r).notification ≡ mi
          → let e = (activate h b r).1 in
            (e ≡ none) ⊎ ((e ≡ some torrent_metainfo_failed) ⊎ (e ≡ some adding_torrent_failed))
      activate_error b none e = ground arith
      activate_error b (some mi) e = ground arith
