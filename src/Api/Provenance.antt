-- ===== src/Api/Provenance.antt =====
-- Where the updates come from that an agent holds after a request to its REST service (api.go).
use p2p_update.Common.{◌≡◌, refl, Text, inl, inr, arith, Option-cases, Bool-cases, bytes_eq}
use p2p_update.Common.Dict.{lookup, lookup-delete}
use p2p_update.Notification.{Crypto}
use p2p_update.Agent.{Agent, Host, delete_update, delete_files, stop}
use p2p_update.Agent.Table.{SameTable-trans, stop-SameTable, delete_files-SameTable}
use p2p_update.Agent.Trust.{IsWellFormed}
use p2p_update.Agent.Provenance.{
  Traces, Traces-refl, Traces-trans, SameTable-Traces, start_new-Traces,
}
use p2p_update.Api.{
  Method, get, post, delete, patch, other_method, Route, config, overlay_peers, overlay, update,
  dht_nodes, bad_route, update_with, route, Post, request_post_update, request_delete_update,
  request_update, request_update_with,
}
use p2p_update.Api.Handler.{Visit, request_route, request_handler}

module _ (h : Host) (c : Crypto) (public_key : c.PublicKey) where
  request_post_update-Traces :
      (a : Agent) (p : Post)
      → IsWellFormed a
      → Traces h c public_key a (request_post_update h c public_key a p).0
  unfolding request_post_update
  request_post_update-Traces a p w = elim (Option-cases p.decoded) [
    | inl garbled ↦ rw garbled (Traces-refl h c public_key a)
    | inr (u, decoded) ↦ elim (Bool-cases p.source_exists) [
      | inr missing ↦ rw (decoded, missing) (Traces-refl h c public_key a)
      | inl there ↦ elim (Bool-cases p.copied) [
        | inr failed ↦ rw (decoded, there, failed) (Traces-refl h c public_key a)
        | inl copied ↦ rw (decoded, there, copied) (start_new-Traces h c public_key a u w)
      ]
    ]
  ]

  delete_update-Traces :
      (a : Agent) (uuid : Text) → IsWellFormed a → Traces h c public_key a (delete_update a uuid).0
  unfolding delete_update
  delete_update-Traces a uuid w k r e =
      inr (ground (arith, e, lookup-delete uuid k a.updates w.distinct), refl)

  request_delete_update-Traces :
      (a : Agent) (uuid : Text)
      → IsWellFormed a
      → Traces h c public_key a (request_delete_update h c public_key a uuid).0
  unfolding request_delete_update
  request_delete_update-Traces a uuid w =
      let a' = (delete_update a uuid).0 in
      let traced = delete_update-Traces a uuid w in
      elim (Option-cases (lookup uuid a.updates)) [
        | inl absent ↦ rw (found, absent) traced
        | inr (r, present) ↦
            let table =
              SameTable-trans (stop-SameTable a' r) (delete_files-SameTable h (stop a' r) r) in
            rw (found, present)
              (Traces-trans h c public_key a a' (delete_files h (stop a' r) r).0 traced
                (SameTable-Traces h c public_key table))
      ]
    where
      found : delete_update a uuid ≡ ((delete_update a uuid).0, lookup uuid a.updates)
      found = unfold delete_update in refl

  request_update-Traces :
      (a : Agent) (m : Method) (p : Post)
      → IsWellFormed a
      → Traces h c public_key a (request_update h c public_key a m p).0
  unfolding request_update
  request_update-Traces a post p w = request_post_update-Traces a p w
  request_update-Traces a get p w = Traces-refl h c public_key a
  request_update-Traces a delete p w = Traces-refl h c public_key a
  request_update-Traces a patch p w = Traces-refl h c public_key a
  request_update-Traces a other_method p w = Traces-refl h c public_key a

  request_route-Traces :
      (a : Agent) (v : Visit) (r : Route) (m : Method)
      → v.method ≡ m
      → IsWellFormed a
      → Traces h c public_key a (request_route h c public_key a v r).0
  unfolding request_update_with
  request_route-Traces a v (update_with uuid) get e w = rw e (Traces-refl h c public_key a)
  request_route-Traces a v (update_with uuid) delete e w =
      rw e (request_delete_update-Traces a uuid w)
  request_route-Traces a v (update_with uuid) patch e w = rw e (Traces-refl h c public_key a)
  request_route-Traces a v (update_with uuid) post e w = rw e (Traces-refl h c public_key a)
  request_route-Traces a v (update_with uuid) other_method e w = rw e (Traces-refl h c public_key a)
  request_route-Traces a v update m e w = request_update-Traces a v.method v.body w
  request_route-Traces a v config m e w = Traces-refl h c public_key a
  request_route-Traces a v overlay_peers m e w = Traces-refl h c public_key a
  request_route-Traces a v overlay m e w = Traces-refl h c public_key a
  request_route-Traces a v dht_nodes m e w = Traces-refl h c public_key a
  request_route-Traces a v bad_route m e w = Traces-refl h c public_key a

  -- Every update that the agent holds after a request has an accepted signature, or is an object that
  -- it held before.
  pub request_handler-Traces :
      (a : Agent) (v : Visit)
      → IsWellFormed a
      → Traces h c public_key a (request_handler h c public_key a v).0
  unfolding request_handler
  request_handler-Traces a v w = request_route-Traces a v (route v.host v.path) v.method refl w
