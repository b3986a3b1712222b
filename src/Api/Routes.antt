-- ===== src/Api/Routes.antt =====
-- The routing of requests (requestHandler in api.go).
use p2p_update.Common.{
  ◌≡◌, ◌↔◌, refl, sym, ◌∙◌, ap, Bool, true, not, ◌&&◌, [], ◌∷◌, ◌++◌, Text, codes, if◌then◌else◌,
  ◌==◌, bytes_eq, bytes_equal_iff, arith, drop, length,
}
use p2p_update.Api.{
  is_uuid, starts_with, is_update_url, Route, route, config, overlay_peers, overlay, update,
  dht_nodes, bad_route, update_with,
}

starts_with-drop : (p t : Text) → starts_with p t ≡ true → t ≡ p ++ drop (length p) t
starts_with-drop [] t h = refl
starts_with-drop (c ∷ p) [] h = cc
starts_with-drop (c ∷ p) (d ∷ t) h = ground (arith, starts_with-drop p t)

-- The ladder of the switch, over its tests.
ladder : (v1 a b c u d e : Bool) → Text → Route
ladder v1 a b c u d e uuid =
    if not v1
    then bad_route
    else if a
    then config
    else if b
    then overlay_peers
    else if c
    then overlay
    else if u
    then update_with uuid
    else if d
    then update
    else if e
    then dht_nodes
    else bad_route

ladder-update_with :
    (v1 a b c u d e : Bool) (t uuid : Text)
    → ladder v1 a b c u d e t ≡ update_with uuid
    → (v1 ≡ true) × (u ≡ true) × (t ≡ uuid)
unfolding ladder
ladder-update_with v1 a b c u d e t uuid h = ground arith

and_parts : (a b : Bool) → (a && b) ≡ true → (a ≡ true) × (b ≡ true)
and_parts a b h = ground arith

-- A request is routed to an update exactly when the host is `v1` and the path is `/update/` and
-- then a UUID; the update is the one of that UUID.
pub route-update_with_iff :
    (host path uuid : Text)
    → (route host path ≡ update_with uuid)
      ↔ ((host ≡ codes "v1") × (path ≡ codes "/update/" ++ uuid) × (is_uuid uuid ≡ true))
unfolding route is_update_url ladder
route-update_with_iff host path uuid = (
  λ h.
      let (v1, url, same) =
        ladder-update_with (host == codes "v1") (path == codes "/config")
          (path == codes "/overlay/peers") (path == codes "/overlay") (is_update_url path)
          (path == codes "/update") (path == codes "/torrent/dht/nodes") (drop 8 path) uuid h in
      let (prefix, valid) =
        and_parts (starts_with (codes "/update/") path) (is_uuid (drop 8 path)) url in
      (
        (bytes_equal_iff host (codes "v1")).0 v1,
        starts_with-drop (codes "/update/") path prefix
            ∙ ap (λ (t : Text). codes "/update/" ++ t) same,
        ap is_uuid (sym same) ∙ valid,
      ),
  λ h. rw (h.0, h.1) (rw h.2 refl),
)
