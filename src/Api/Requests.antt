-- ===== src/Api/Requests.antt =====
-- What the requests on updates do to the agent (api.go).
use p2p_update.Common.{
  ℕ, Bool, ltb, ◌≡◌, ◌⊎◌, refl, ◌∙◌, ap, true, false, Option, none, some, Text, if◌then◌else◌, ◌==◌,
  bytes_eq, arith, Bool-cases, Option-cases, inl, inr,
}
use p2p_update.Common.Dict.{lookup, lookup-delete}
use p2p_update.Notification.{Notification, Crypto}
use p2p_update.Update.{Update}
use p2p_update.Agent.{
  Agent, Host, StartError, torrent_metainfo_failed, adding_torrent_failed, accepts, allocate,
  delete_update, stop,
}
use p2p_update.Agent.Table.{
  view, SameTable-view, stop-SameTable, delete_files-SameTable, SameTable-trans,
}
use p2p_update.Agent.Trust.{IsWellFormed, view-start_new, view-allocate, heap-allocate}
use p2p_update.Agent.Starting.{takes, register_error, start-unchanged, start_taken_error}
use p2p_update.Api.{start_status, request_post_update, reply, no_body, request_delete_update}

module _ (h : Host) (c : Crypto) (public_key : c.PublicKey) where
  pub view-delete_update :
      (a : Agent) (uuid k : Text)
      → IsWellFormed a
      → view (delete_update a uuid).0 k ≡ (if uuid == k then none else view a k)
  unfolding delete_update
  view-delete_update a uuid k w = ground (arith, lookup-delete uuid k a.updates w.distinct)

  -- After a DELETE, whether its reply is a success or not, the agent holds no update of that UUID,
  -- and holds for every other UUID what it held.
  pub view-request_delete_update :
      (a : Agent) (uuid k : Text)
      → IsWellFormed a
      → view (request_delete_update h c public_key a uuid).0 k
        ≡ (if uuid == k then none else view a k)
  unfolding request_delete_update
  view-request_delete_update a uuid k w = elim (Option-cases (lookup uuid a.updates)) [
    | inl absent ↦ rw (found, absent) (view-delete_update a uuid k w)
    | inr (r, present) ↦
        let a' = (delete_update a uuid).0 in
        rw (found, present)
          (SameTable-view
              (SameTable-trans (stop-SameTable a' r) (delete_files-SameTable h (stop a' r) r)) k
            ∙ view-delete_update a uuid k w)
  ]
    where
      found : delete_update a uuid ≡ ((delete_update a uuid).0, lookup uuid a.updates)
      found = unfold delete_update in refl

  takes_allocated :
      (a : Agent) (u : Update)
      → IsWellFormed a
      → let a' = (allocate a u).0 in
        let m = (a'.heap (allocate a u).1).notification in
        let n = u.notification in
        (takes (accepts h c public_key) (view a' m.uuid) m
          ≡ takes (accepts h c public_key) (view a n.uuid) n)
        × (register_error (accepts h c public_key) (view a' m.uuid) m
            ≡ register_error (accepts h c public_key) (view a n.uuid) n)
  takes_allocated a u w =
      let a' = (allocate a u).0 in
      let n = u.notification in
      let taken = λ (m : Notification). takes (accepts h c public_key) (view a' m.uuid) m in
      let error =
        λ (m : Notification). register_error (accepts h c public_key) (view a' m.uuid) m in
      (
        ap (λ (v : Update). taken v.notification) (heap-allocate a u)
            ∙ ap (λ x. takes (accepts h c public_key) x n) (view-allocate a u w n.uuid),
        ap (λ (v : Update). error v.notification) (heap-allocate a u)
            ∙ ap (λ x. register_error (accepts h c public_key) x n) (view-allocate a u w n.uuid),
      )

  -- The status of a POST that is refused, given whether the signature is accepted, and what is held.
  abbrev pub refusal_status : Bool → Option Notification → Notification → ℕ
  refusal_status false held n = 401
  refusal_status true none n = 200
  refusal_status true (some m) n = if ltb n.version m.version then 406 else 208

  refusal_status-start_status :
      (held : Option Notification) (n : Notification)
      → takes (accepts h c public_key) held n ≡ false
      → start_status h c public_key (register_error (accepts h c public_key) held n)
        ≡ refusal_status (accepts h c public_key n) held n
  refusal_status-start_status held n refused = elim (Bool-cases (accepts h c public_key n)) [
    | inr bad ↦ ground (arith, bad)
    | inl good ↦ elim (Option-cases held) [
      | inl absent ↦ ground (arith, good, absent, refused)
      | inr (m, present) ↦ ground (arith, good, present, refused)
    ]
  ]

  -- A POST whose body decodes to an update, and whose source is there and is copied, has the status
  -- 401, 406 or 208 if the signature is not accepted, a later version is held or the same version
  -- is, the agent then holding what it held; otherwise 200 or 500, and the agent holds the update.
  pub request_post_update_cases :
      (a : Agent) (u : Update) (k : Text)
      → IsWellFormed a
      → let (a', answer) =
          request_post_update h c public_key a
            (record { decoded = some u; source_exists = true; copied = true }) in
        let n = u.notification in
        let status = refusal_status (accepts h c public_key n) (view a n.uuid) n in
        let taken = takes (accepts h c public_key) (view a n.uuid) n in
        ((taken ≡ false) × (answer ≡ reply status no_body) × (view a' k ≡ view a k))
        ⊎ ((taken ≡ true)
            × ((answer ≡ reply 200 no_body) ⊎ (answer ≡ reply 500 no_body))
            × (view a' k ≡ (if n.uuid == k then some n else view a k)))
  unfolding request_post_update
  request_post_update_cases a u k w =
      let n = u.notification in
      let (a', r) = allocate a u in
      let (same_taken, same_error) = takes_allocated a u w in
      let shown = view-start_new h c public_key a u k w in
      elim (Bool-cases (takes (accepts h c public_key) (view a n.uuid) n)) [
        | inl taken ↦ inr (
          taken,
          status_of (start_taken_error h c public_key a' r (same_taken ∙ taken)),
          shown ∙ rw taken refl,
        )
        | inr refused ↦
            let unchanged = start-unchanged h c public_key a' r (same_taken ∙ refused) in
            inl (
              refused,
              ap
                    (λ (x : Agent × Option StartError).
                      reply (start_status h c public_key x.1) no_body)
                    unchanged
                  ∙ (ap (λ x. reply (start_status h c public_key x) no_body) same_error
                      ∙ ap (λ s. reply s no_body)
                          (refusal_status-start_status (view a n.uuid) n refused)),
              shown ∙ rw refused refl,
            )
      ]
    where
      status_of :
          {e : Option StartError}
          → (e ≡ none) ⊎ ((e ≡ some torrent_metainfo_failed) ⊎ (e ≡ some adding_torrent_failed))
          → (reply (start_status h c public_key e) no_body ≡ reply 200 no_body)
            ⊎ (reply (start_status h c public_key e) no_body ≡ reply 500 no_body)
      status_of x = ground arith
