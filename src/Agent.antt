-- ===== src/Agent.antt =====
-- agent.go and the life cycle of an update in update.go: the table of updates, Start, Stop, Delete,
-- Save and one round of monitor. Updates are objects on a heap, and the table maps a UUID to the
-- address of one, since a replaced or deleted update is still used by those that hold a pointer.
use p2p_update.Common.{
  ℕ, suc, ◌+◌, ◌<◌, ◌≡◌, Bool, true, false, not, ◌&&◌, ◌||◌, Option, none, some, List, [], ◌∷◌,
  ◌++◌, Text, codes, decimal, if◌then◌else◌, ltb, eqb, ◌==◌, bytes_eq,
}
use p2p_update.Common.Dict.{Dict, lookup, insert, delete}
use p2p_update.Notification.{Notification, Info, Crypto, verify}
use p2p_update.Update.{Update, System}
pub mod Table
pub mod Trust
pub mod Starting
pub mod Retrying
pub mod Monitoring
pub mod Sources
pub mod Gossip
pub mod Sharing
pub mod Provenance
pub mod Converging
pub mod Naming
pub mod Ordering
pub mod Locking
pub mod Files
pub mod Listing
pub mod Restarting
mod Tests

-- metainfo.MetaInfo, as `torrentMetainfo` fills it.
pub record MetaInfo : Type 0 where
  pub announce : Text
  pub nodes : List Text
  pub creation_date : ℕ
  pub created_by : Text
  pub encoding : Text
  pub info_bytes : List ℕ

-- The torrent library and the file system: what their calls return.
pub record Host : Type 0 where
  pub sys : System
  pub encode_info : Info → Option (List ℕ)
  -- AddTorrent: the torrent that it returns, and whether it returns no error
  pub add_torrent : MetaInfo → Option ℕ
  pub adds : MetaInfo → Bool
  pub removable : Text → Bool
  pub writable : Text → Bool

pub data Content : Type 0 where
  metadata_content : Update → Content
  other_content : Content

pub record Agent : Type 0 where
  pub proxy : Bool
  pub data_dir : Text
  pub metadata_dir : Text
  pub heap : ℕ → Update
  pub next : ℕ
  pub updates : Dict Text ℕ
  pub files : Dict Text Content
  -- the torrents that were dropped, and the updates that a monitor was started for
  pub dropped : List ℕ
  pub monitored : List ℕ

abbrev pub write_heap : (ℕ → Update) → ℕ → Update → ℕ → Update
write_heap h r u q = if eqb q r then u else h q

abbrev pub set_update : Agent → ℕ → Update → Agent
set_update a r u = record a { heap = write_heap a.heap r u }

-- &u of a new object
unfoldable pub allocate : Agent → Update → Agent × ℕ
allocate a u = (record a { heap = write_heap a.heap a.next u; next = suc a.next }, a.next)

pub data StartError : Type 0 where
  update_verification_failed update_is_older update_is_already_exist : StartError
  torrent_metainfo_failed adding_torrent_failed : StartError

-- What `addUpdate` returns: the update that was replaced, if there was one, or an error.
pub data Added : Type 0 where
  added : Option ℕ → Added
  refused : StartError → Added

-- The test of `addUpdate` on the version of an update that is there.
unfoldable pub refusal : ℕ → ℕ → Option StartError
refusal old new =
    if ltb new old
    then some update_is_older
    else if eqb old new
    then some update_is_already_exist
    else none

abbrev version_at : Agent → ℕ → ℕ
version_at a r = (a.heap r).notification.version

abbrev uuid_at : Agent → ℕ → Text
uuid_at a r = (a.heap r).notification.uuid

abbrev store : Agent → ℕ → Option ℕ → Option StartError → Agent × Added
store a r old (some e) = (a, refused e)
store a r old none = (record a { updates = insert (uuid_at a r) r a.updates }, added old)

abbrev add_over : Agent → ℕ → Option ℕ → Agent × Added
add_over a r none = store a r none none
add_over a r (some o) = store a r (some o) (refusal (version_at a o) (version_at a r))

-- addUpdate: the address of the update that was replaced, if there was one.
unfoldable pub add_update : Agent → ℕ → Agent × Added
unfolding refusal
add_update a r = add_over a r (lookup (uuid_at a r) a.updates)

unfoldable pub delete_update : Agent → Text → Agent × Option ℕ
delete_update a uuid = (record a { updates = delete uuid a.updates }, lookup uuid a.updates)

unfoldable pub get_update : Agent → Text → Option ℕ
get_update a uuid = lookup uuid a.updates

abbrev pub keys : Dict Text ℕ → List Text
keys [] = []
keys ((k, v) ∷ m) = k ∷ keys m

unfoldable pub get_update_uuids : Agent → List Text
get_update_uuids a = keys a.updates

abbrev drop_torrent : Agent → ℕ → Option ℕ → Agent
drop_torrent a r none = set_update a r (record (a.heap r) { stopped = true })
drop_torrent a r (some t) =
    record (set_update a r (record (a.heap r) { stopped = true; torrent = none })) {
      dropped = t ∷ a.dropped;
    }

abbrev starts_with : Text → Text → Bool
starts_with [] t = true
starts_with (p ∷ ps) [] = false
starts_with (p ∷ ps) (c ∷ t) = eqb p c && starts_with ps t

-- The path is `name`, or a path below the directory `name`.
abbrev is_below : Text → Text → Bool
is_below name path = (path == name) || starts_with (name ++ codes "/") path

abbrev remove_below : Text → Dict Text Content → Dict Text Content
remove_below name [] = []
remove_below name ((path, content) ∷ files) =
    if is_below name path
    then remove_below name files
    else (path, content) ∷ remove_below name files

-- Stop
unfoldable pub stop : Agent → ℕ → Agent
stop a r = drop_torrent a r (a.heap r).torrent

pub data DeleteError : Type 0 where
  not_stopped metadata_not_removed : DeleteError

module _ (h : Host) where
  -- filepath.Join(u.agent.metadataDir, fmt.Sprintf("%s-v%d", UUID, Version))
  unfoldable pub metadata_filename : Agent → Notification → Text
  metadata_filename a n = h.sys.join a.metadata_dir (n.uuid ++ codes "-v" ++ decimal n.version)

  unfoldable pub save : Agent → ℕ → Agent × Bool
  save a r =
      let name = metadata_filename a (a.heap r).notification in
      if h.writable name
      then (record a { files = insert name (metadata_content (a.heap r)) a.files }, true)
      else (a, false)

  -- os.RemoveAll: the file or directory, and all that is below it.
  abbrev pub remove_all : Agent → Text → Agent
  remove_all a name = if h.removable name then record a { files = remove_below name a.files } else a

  -- Delete: failing to remove the data file is only logged.
  unfoldable pub delete_files : Agent → ℕ → Agent × Option DeleteError
  delete_files a r =
      let n = (a.heap r).notification in
      let name = metadata_filename a n in
      let a' = remove_all a (h.sys.join a.data_dir n.info.name) in
      if not (a.heap r).stopped
      then (a, some not_stopped)
      else (remove_all a' name, if h.removable name then none else some metadata_not_removed)

  unfoldable pub torrent_metainfo : Notification → Option MetaInfo
  torrent_metainfo n = elim (h.encode_info n.info) [
    | none ↦ none
    | some bytes ↦ some (record {
      announce = n.announce;
      nodes = n.nodes;
      creation_date = n.creation_date;
      created_by = n.created_by;
      encoding = n.encoding;
      info_bytes = bytes;
    })
  ]

  -- Start, from the activation of the torrent on.
  abbrev attach_torrent : Agent → ℕ → Option ℕ → Bool → Agent × Option StartError
  attach_torrent a r t false =
      (set_update a r (record (a.heap r) { torrent = t }), some adding_torrent_failed)
  attach_torrent a r t true = (
    record (set_update a r (record (a.heap r) { torrent = t; stopped = false })) {
      monitored = r ∷ a.monitored;
    },
    none,
  )

  abbrev activate_with : Agent → ℕ → Option MetaInfo → Agent × Option StartError
  activate_with a r none = (a, some torrent_metainfo_failed)
  activate_with a r (some mi) = attach_torrent a r (h.add_torrent mi) (h.adds mi)

  unfoldable pub activate : Agent → ℕ → Agent × Option StartError
  activate a r = activate_with a r (torrent_metainfo (a.heap r).notification)

  -- Start, for the update that was replaced; what `Delete` returns is only logged.
  unfoldable pub retire : Agent → Option ℕ → Agent
  retire a none = a
  retire a (some o) = (delete_files (stop a o) o).0

  abbrev start_added : ℕ → Agent × Added → Agent × Option StartError
  start_added r (a, added old) = activate (retire a old) r
  start_added r (a, refused e) = (a, some e)

  module _ (c : Crypto) (public_key : c.PublicKey) where
    -- Verify: the notification of the object is as before (Notification.Signing).
    abbrev pub accepts : Notification → Bool
    accepts n = elim (verify c public_key n).1 [ none ↦ true | some _ ↦ false ]

    unfoldable pub start : Agent → ℕ → Agent × Option StartError
    start a r =
        if not (accepts (a.heap r).notification)
        then (a, some update_verification_failed)
        else start_added r (add_update a r)
