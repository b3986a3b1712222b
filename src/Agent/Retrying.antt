-- ===== src/Agent/Retrying.antt =====
-- What becomes of an update whose torrent could not be added (`Start` in update.go), and of the
-- update that it replaced.
use p2p_update.Common.{
  ℕ, ◌≡◌, ◌≢◌, refl, ◌∙◌, ap, true, false, Option, none, some, arith, Option-cases, Bool-cases, inl,
  inr, bytes_eq, beq_refl,
}
use p2p_update.Common.Dict.{lookup}
use p2p_update.Notification.{Notification, Crypto}
use p2p_update.Update.{Update}
use p2p_update.Agent.{
  Agent, Host, StartError, update_is_already_exist, accepts, start, activate, retire, stop,
  delete_files, torrent_metainfo,
}
use p2p_update.Agent.Table.{view}
use p2p_update.Agent.Starting.{
  takes, register_error, view-start, start-unchanged, start_taken, inserted,
}

module _ (h : Host) (c : Crypto) (public_key : c.PublicKey) where
  abbrev after : Agent → ℕ → Agent
  after a r = (start h c public_key a r).0

  -- Once `Start` has taken an update, and also where it then failed to add the torrent: as long as
  -- the agent, after whatever else it has done, holds for the UUID what this `Start` left, a
  -- `Start` of any object with the same notification is refused as already existing, and changes
  -- nothing: the torrent is not tried again.
  pub start_again :
      (a b : Agent) (r r' : ℕ)
      → takes (accepts h c public_key) (view a (a.heap r).notification.uuid) (a.heap r).notification
        ≡ true
      → view b (a.heap r).notification.uuid ≡ view (after a r) (a.heap r).notification.uuid
      → (b.heap r').notification ≡ (a.heap r).notification
      → start h c public_key b r' ≡ (b, some update_is_already_exist)
  start_again a b r r' taken as_left same =
      let n = (a.heap r).notification in
      let held : view b n.uuid ≡ some n =
        as_left ∙ (view-start h c public_key a r n.uuid ∙ rw (taken, beq_refl n.uuid) refl) in
      let accept = accepts h c public_key in
      let refused : takes accept (view b n.uuid) n ≡ false = rw held (ground arith) in
      let error : register_error accept (view b n.uuid) n ≡ some update_is_already_exist =
        rw held (ground arith) in
      start-unchanged h c public_key b r'
        (ap (λ (m : Notification). takes accept (view b m.uuid) m) same ∙ refused)
      ∙ ap (λ x. (b, x))
          (ap (λ (m : Notification). register_error accept (view b m.uuid) m) same ∙ error)

  stop_stops :
      (a : Agent) (o : ℕ)
      → (((stop a o).heap o).stopped ≡ true) × (((stop a o).heap o).torrent ≡ none)
  unfolding stop
  stop_stops a o = elim (Option-cases (a.heap o).torrent) [
    | inl absent ↦ ground arith
    | inr (t, present) ↦ ground arith
  ]

  delete_files_heap : (a : Agent) (o : ℕ) → (delete_files h a o).0.heap ≡ a.heap
  unfolding delete_files
  delete_files_heap a o = ground arith

  activate_other : (a : Agent) (r o : ℕ) → r ≢ o → (activate h a r).0.heap o ≡ a.heap o
  unfolding activate
  activate_other a r o n = elim (Option-cases (torrent_metainfo h (a.heap r).notification)) [
    | inl absent ↦ ground arith
    | inr (mi, present) ↦ elim (Bool-cases (h.adds mi)) [
      | inl added ↦ ground arith
      | inr failed ↦ ground arith
    ]
  ]

  replaces_other :
      (a : Agent) (r o : ℕ)
      → takes (accepts h c public_key) (view a (a.heap r).notification.uuid) (a.heap r).notification
        ≡ true
      → lookup (a.heap r).notification.uuid a.updates ≡ some o
      → r ≢ o
  replaces_other a r o taken present same =
      let there : view a (a.heap r).notification.uuid ≡ some (a.heap o).notification =
        rw present refl in
      ground (arith, there, ap (λ (q : ℕ). (a.heap q).notification.version) same)

  -- The update that a taken one replaces is stopped and has no torrent afterwards.
  pub start_stops_replaced :
      (a : Agent) (r o : ℕ)
      → takes (accepts h c public_key) (view a (a.heap r).notification.uuid) (a.heap r).notification
        ≡ true
      → lookup (a.heap r).notification.uuid a.updates ≡ some o
      → (((after a r).heap o).stopped ≡ true) × (((after a r).heap o).torrent ≡ none)
  unfolding retire
  start_stops_replaced a r o taken present =
      let other : r ≢ o = replaces_other a r o taken present in
      let b = inserted h c public_key a r in
      let b' = retire h b (some o) in
      let step : after a r ≡ (activate h b' r).0 =
        ap (λ (x : Agent × Option StartError). x.0) (start_taken h c public_key a r taken)
        ∙ ap (λ x. (activate h (retire h b x) r).0) present in
      let there : (after a r).heap o ≡ (stop b o).heap o =
        ap (λ (x : Agent). x.heap o) step
        ∙ (activate_other b' r o other
            ∙ ap (λ (x : ℕ → Update). x o) (delete_files_heap (stop b o) o)) in
      (
        ap (λ (u : Update). u.stopped) there ∙ (stop_stops b o).0,
        ap (λ (u : Update). u.torrent) there ∙ (stop_stops b o).1,
      )
