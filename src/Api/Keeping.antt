-- ===== src/Api/Keeping.antt =====
-- What the REST service (api.go) keeps of the agent, whatever it is asked.
use p2p_update.Common.{
  ◌≡◌, ◌≤◌, refl, ◌∙◌, Bool, false, true, none, some, Text, arith, Bool-cases, Option-cases, inl,
  inr, ◌==◌, bytes_eq,
}
use p2p_update.Common.Dict.{lookup, lookup-delete, HasDistinctKeys-delete}
use p2p_update.Notification.{Notification, Crypto}
use p2p_update.Agent.{Agent, Host, delete_update, stop}
use p2p_update.Agent.Table.{view, SameTable-trans, stop-SameTable, delete_files-SameTable}
use p2p_update.Agent.Trust.{
  IsSound, IsWellFormed, IsTrusted, SameTable-IsWellFormed, start_new-IsWellFormed,
  start_new-IsTrusted, start_new-Grows,
}
use p2p_update.Api.{
  Method, get, post, delete, patch, other_method, Route, config, overlay_peers, overlay, update,
  dht_nodes, bad_route, update_with, route, Post, request_post_update, request_delete_update,
  request_update, request_update_with,
}
use p2p_update.Api.Requests.{view-request_delete_update}
use p2p_update.Api.Handler.{Visit, request_route, request_handler}

-- The request is a DELETE of the update with the UUID `k`.
abbrev pub deletes_by : Method → Text → Text → Bool
deletes_by delete uuid k = uuid == k
deletes_by _ uuid k = false

abbrev pub deletes_on : Route → Method → Text → Bool
deletes_on (update_with uuid) m k = deletes_by m uuid k
deletes_on _ m k = false

abbrev pub deletes : Visit → Text → Bool
deletes v k = deletes_on (route v.host v.path) v.method k

-- What `b` holds for `k` is what `a` holds, or a later version of it.
abbrev pub GrowsAt : Text → Agent → Agent → Type 0
GrowsAt k a b =
    (n : Notification)
    → view a k ≡ some n
    → (n' : Notification) × (view b k ≡ some n') × (n.version ≤ n'.version)

-- What a request does to the update of a UUID: a DELETE of it removes it, and any other keeps it.
abbrev pub KeepsAt : Bool → Text → Agent → Agent → Type 0
KeepsAt true k a b = view b k ≡ none
KeepsAt false k a b = GrowsAt k a b

module _ (h : Host) (c : Crypto) (public_key : c.PublicKey) where
  abbrev KeptBy : (Text → Bool) → Agent → Agent → Type 0
  KeptBy gone a b =
      IsWellFormed b
      × (IsTrusted h c public_key a → IsTrusted h c public_key b)
      × ((k : Text) → KeepsAt (gone k) k a b)

  nothing_done : (a : Agent) → IsWellFormed a → KeptBy (λ k. false) a a
  nothing_done a s = (s, λ t. t, λ k n held. (n, held, omega arith))

  request_post_update-kept :
      (a : Agent) (p : Post)
      → IsWellFormed a
      → KeptBy (λ k. false) a (request_post_update h c public_key a p).0
  unfolding request_post_update
  request_post_update-kept a p s = elim (Option-cases p.decoded) [
    | inl garbled ↦ rw garbled (nothing_done a s)
    | inr (u, decoded) ↦ elim (Bool-cases p.source_exists) [
      | inr missing ↦ rw (decoded, missing) (nothing_done a s)
      | inl there ↦ elim (Bool-cases p.copied) [
        | inr failed ↦ rw (decoded, there, failed) (nothing_done a s)
        | inl copied ↦
            rw (decoded, there, copied)
              (
                start_new-IsWellFormed h c public_key a u s,
                start_new-IsTrusted h c public_key a u s,
                λ k. start_new-Grows h c public_key a u s k,
              )
      ]
    ]
  ]

  delete_update-IsWellFormed :
      (a : Agent) (uuid : Text) → IsWellFormed a → IsWellFormed (delete_update a uuid).0
  unfolding delete_update
  delete_update-IsWellFormed a uuid w = record {
    distinct = HasDistinctKeys-delete uuid a.updates w.distinct;
    allocated = λ k r e. ground (arith, lookup-delete uuid k a.updates w.distinct, w.allocated k r);
    keyed = λ k r e. ground (arith, lookup-delete uuid k a.updates w.distinct, w.keyed k r);
  }

  request_delete_update-IsWellFormed :
      (a : Agent) (uuid : Text)
      → IsWellFormed a
      → IsWellFormed (request_delete_update h c public_key a uuid).0
  unfolding request_delete_update
  request_delete_update-IsWellFormed a uuid w =
      let a' = (delete_update a uuid).0 in
      let w' = delete_update-IsWellFormed a uuid w in
      elim (Option-cases (lookup uuid a.updates)) [
        | inl absent ↦ rw (found, absent) w'
        | inr (r, present) ↦
            rw (found, present)
              (SameTable-IsWellFormed
                (SameTable-trans (stop-SameTable a' r) (delete_files-SameTable h (stop a' r) r)) w')
      ]
    where
      found : delete_update a uuid ≡ ((delete_update a uuid).0, lookup uuid a.updates)
      found = unfold delete_update in refl

  request_delete_update-kept :
      (a : Agent) (uuid : Text)
      → IsWellFormed a
      → KeptBy (λ k. uuid == k) a (request_delete_update h c public_key a uuid).0
  request_delete_update-kept a uuid s = (
    request_delete_update-IsWellFormed a uuid s,
    λ t k n e. ground (arith, view-request_delete_update h c public_key a uuid k s, t k n),
    λ k.
        let shown = view-request_delete_update h c public_key a uuid k s in
        elim (Bool-cases (uuid == k)) [
          | inl same ↦ rw same (shown ∙ rw same refl)
          | inr other ↦ rw other (λ n held. (n, shown ∙ rw other held, omega arith))
        ],
  )

  request_update-kept :
      (a : Agent) (m : Method) (p : Post)
      → IsWellFormed a
      → KeptBy (λ k. false) a (request_update h c public_key a m p).0
  unfolding request_update
  request_update-kept a post p s = request_post_update-kept a p s
  request_update-kept a get p s = nothing_done a s
  request_update-kept a delete p s = nothing_done a s
  request_update-kept a patch p s = nothing_done a s
  request_update-kept a other_method p s = nothing_done a s

  request_route-kept :
      (a : Agent) (v : Visit) (r : Route) (m : Method)
      → v.method ≡ m
      → IsWellFormed a
      → KeptBy (deletes_on r m) a (request_route h c public_key a v r).0
  unfolding request_update_with
  request_route-kept a v (update_with uuid) get e s = rw e (nothing_done a s)
  request_route-kept a v (update_with uuid) delete e s = rw e (request_delete_update-kept a uuid s)
  request_route-kept a v (update_with uuid) patch e s = rw e (nothing_done a s)
  request_route-kept a v (update_with uuid) post e s = rw e (nothing_done a s)
  request_route-kept a v (update_with uuid) other_method e s = rw e (nothing_done a s)
  request_route-kept a v update m e s = request_update-kept a v.method v.body s
  request_route-kept a v config m e s = nothing_done a s
  request_route-kept a v overlay_peers m e s = nothing_done a s
  request_route-kept a v overlay m e s = nothing_done a s
  request_route-kept a v dht_nodes m e s = nothing_done a s
  request_route-kept a v bad_route m e s = nothing_done a s

  -- Every request to the REST service keeps a sound agent sound: its table stays well formed, and
  -- every update in it has an accepted signature. After a DELETE of a UUID the agent holds nothing for
  -- it, and after any other request what it held for it, or a later version.
  pub request_handler-IsSound :
      (a : Agent) (v : Visit) (k : Text)
      → IsSound h c public_key a
      → let b = (request_handler h c public_key a v).0 in
        IsSound h c public_key b × KeepsAt (deletes v k) k a b
  unfolding request_handler
  request_handler-IsSound a v k s =
      let (formed, trusted, kept) =
        request_route-kept a v (route v.host v.path) v.method refl s.well_formed in
      (record { well_formed = formed; trusted = trusted s.trusted }, kept k)

  -- The same for an agent whose table is well formed, whatever its signatures.
  pub request_handler-IsWellFormed :
      (a : Agent) (v : Visit) (k : Text)
      → IsWellFormed a
      → let b = (request_handler h c public_key a v).0 in
        IsWellFormed b × KeepsAt (deletes v k) k a b
  unfolding request_handler
  request_handler-IsWellFormed a v k w =
      let (formed, trusted, kept) = request_route-kept a v (route v.host v.path) v.method refl w in
      (formed, kept k)
