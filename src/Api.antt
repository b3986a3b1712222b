-- ===== src/Api.antt =====
-- api.go: the REST service of the agent on its unix socket: routing, and the requests on updates.
-- What a request meets outside (the decoded body, the source file, the copy) is part of it.
use p2p_update.Common.{
  ℕ, suc, zero, ◌+◌, ◌≡◌, Bool, true, false, not, ◌&&◌, ◌||◌, Option, none, some, List, [], ◌∷◌,
  ◌++◌, Text, codes, if◌then◌else◌, leb, eqb, drop, ◌==◌, bytes_eq,
}
use p2p_update.Notification.{Notification, Crypto}
use p2p_update.Update.{Update}
use p2p_update.Agent.{
  Agent, Host, StartError, update_verification_failed, update_is_older, update_is_already_exist,
  torrent_metainfo_failed, adding_torrent_failed, allocate, start, delete_update, get_update,
  get_update_uuids, stop, delete_files, DeleteError,
}
use p2p_update.Agent.Monitoring.{Written, written, write_failed, write_panics}
pub mod Routes
pub mod Requests
pub mod Handler
pub mod Views
pub mod Crashes
pub mod Rebroadcasting
pub mod Keeping
pub mod Provenance
mod Tests

-- The classes of the regular expression rUpdateURL.
abbrev pub is_hex : ℕ → Bool
is_hex c = (leb 48 c && leb c 57) || ((leb 65 c && leb c 70) || (leb 97 c && leb c 102))

-- Reads `n` hexadecimal digits, and gives the rest.
unfoldable pub take_hex : ℕ → Text → Option Text
take_hex zero t = some t
take_hex (suc n) [] = none
take_hex (suc n) (c ∷ t) = let rest = take_hex n t in if is_hex c then rest else none

-- Reads one literal byte.
abbrev pub take_byte : ℕ → Text → Option Text
take_byte b [] = none
take_byte b (c ∷ t) = if eqb c b then some t else none

infixl 5 ◌then_on◌
abbrev pub ◌then_on◌ : Option Text → (Text → Option Text) → Option Text
none then_on f = none
(some t) then_on f = f t

abbrev pub dash : ℕ
dash = 45

abbrev at_end : Option Text → Bool
at_end none = false
at_end (some []) = true
at_end (some (c ∷ t)) = false

unfoldable pub is_uuid : Text → Bool
is_uuid t = at_end (
    take_hex 8 t
    then_on take_byte dash
    then_on take_hex 4
    then_on take_byte dash
    then_on take_hex 4
    then_on take_byte dash
    then_on take_hex 4
    then_on take_byte dash
    then_on take_hex 12)

abbrev pub starts_with : Text → Text → Bool
starts_with [] t = true
starts_with (p ∷ ps) [] = false
starts_with (p ∷ ps) (c ∷ t) = eqb p c && starts_with ps t

-- rUpdateURL.Match, and ctx.Path()[8:]
unfoldable pub is_update_url : Text → Bool
is_update_url path = starts_with (codes "/update/") path && is_uuid (drop 8 path)

pub data Method : Type 0 where
  get post delete patch other_method : Method

pub data Route : Type 0 where
  config overlay_peers overlay update dht_nodes bad_route : Route
  update_with : Text → Route

-- requestHandler: the host and then the path, in the order of the switch.
unfoldable pub route : Text → Text → Route
route host path =
    if not (host == codes "v1")
    then bad_route
    else if path == codes "/config"
    then config
    else if path == codes "/overlay/peers"
    then overlay_peers
    else if path == codes "/overlay"
    then overlay
    else if is_update_url path
    then update_with (drop 8 path)
    else if path == codes "/update"
    then update
    else if path == codes "/torrent/dht/nodes"
    then dht_nodes
    else bad_route

-- The parts of a POST: the decoded update, whether its source exists, and whether it is copied.
pub record Post : Type 0 where
  pub decoded : Option Update
  pub source_exists : Bool
  pub copied : Bool

-- What is written to the client besides the status.
pub data Body : Type 0 where
  no_body : Body
  uuids_body : List Text → Body
  update_body : Update → Body
  other_body : Body

-- A reply, or the end of the process by a panic.
pub data Answer : Type 0 where
  reply : ℕ → Body → Answer
  crashed : Answer

module _ (h : Host) (c : Crypto) (public_key : c.PublicKey) where
  abbrev pub start_status : Option StartError → ℕ
  start_status none = 200
  start_status (some update_is_already_exist) = 208
  start_status (some update_verification_failed) = 401
  start_status (some update_is_older) = 406
  start_status (some torrent_metainfo_failed) = 500
  start_status (some adding_torrent_failed) = 500

  -- The copy is made before the update is verified.
  unfoldable pub request_post_update : Agent → Post → Agent × Answer
  request_post_update a p = elim p.decoded [
    | none ↦ (a, reply 400 no_body)
    | some u ↦
        if not p.source_exists
        then (a, reply 404 no_body)
        else if not p.copied
        then (a, reply 403 no_body)
        else (let (a', r) = allocate a u in
            let (a'', e) = start h c public_key a' r in (a'', reply (start_status e) no_body))
  ]

  abbrev delete_status : Option DeleteError → ℕ
  delete_status none = 200
  delete_status (some e) = 500

  abbrev delete_found : Agent × Option ℕ → Agent × Answer
  delete_found (a, none) = (a, reply 200 no_body)
  delete_found (a, some r) =
      let (a', e) = delete_files h (stop a r) r in (a', reply (delete_status e) no_body)

  unfoldable pub request_delete_update : Agent → Text → Agent × Answer
  request_delete_update a uuid = delete_found (delete_update a uuid)

  unfoldable pub request_get_update : Agent → Text → Answer
  request_get_update a uuid = elim (get_update a uuid) [
    | none ↦ reply 404 no_body
    | some r ↦ reply 200 (update_body (a.heap r))
  ]

  -- A broadcast, given what Notification.Write to the overlay does.
  unfoldable pub request_broadcast_update : Agent → Text → (Notification → Written) → Answer
  request_broadcast_update a uuid w = elim (get_update a uuid) [
    | none ↦ reply 404 no_body
    | some r ↦ elim (w (a.heap r).notification) [
      | written ↦ reply 200 no_body
      | write_failed ↦ reply 500 no_body
      | write_panics ↦ crashed
    ]
  ]

  -- requestUpdate and requestUpdateWithParam.
  unfoldable pub request_update : Agent → Method → Post → Agent × Answer
  request_update a post p = request_post_update a p
  request_update a get p = (a, reply 200 (uuids_body (get_update_uuids a)))
  request_update a _ p = (a, reply 400 no_body)

  unfoldable pub request_update_with :
      Agent → Method → Text → (Notification → Written) → Agent × Answer
  request_update_with a get uuid w = (a, request_get_update a uuid)
  request_update_with a delete uuid w = request_delete_update a uuid
  request_update_with a patch uuid w = (a, request_broadcast_update a uuid w)
  request_update_with a _ uuid w = (a, reply 400 no_body)
