-- ===== src/Agent/Files.antt =====
-- The metadata files of an agent: LoadUpdateFromFile (update.go), and loadUpdates (agent.go) with its
-- reads of the files, which come between the starts of the updates. `save` is in Agent.antt.
use p2p_update.Common.{
  Bool, true, false, Option, none, some, List, [], ◌∷◌, Text, if◌then◌else◌, bytes_eq,
}
use p2p_update.Common.Dict.{lookup}
use p2p_update.Notification.{Crypto}
use p2p_update.Notification.Files.{empty_notification}
use p2p_update.Update.{Update}
use p2p_update.Agent.{Agent, Host, Content}
use p2p_update.Agent.Sources.{load_update}

-- Update{Stopped: true, Sent: false, agent: a}
abbrev pub blank_update : Update
blank_update = record {
  notification = empty_notification;
  deployed = 0;
  source = [];
  stopped = true;
  sent = false;
  deploy_fails = 0;
  missing = 0;
  torrent = none;
}

-- `decode` is the JSON decoder into a struct: whether it succeeds, and the struct after it.
module _ (decode : Content → Update → Bool × Update) where
  abbrev decoded : Bool × Update → Option Update
  decoded (fine, u) = if fine then some u else none

  -- LoadUpdateFromFile, whose callers use the update only without an error.
  unfoldable pub load_update_from_file : Agent → Text → Option Update
  load_update_from_file a filename = elim (lookup filename a.files) [
    | none ↦ none
    | some content ↦ decoded (decode content blank_update)
  ]

  module _ (h : Host) (c : Crypto) (public_key : c.PublicKey) where
    -- The loop of loadUpdates over the names that `ReadDir` lists.
    unfoldable pub load_dir : Agent → List Text → Agent
    load_dir a [] = a
    load_dir a (f ∷ fs) =
        load_dir
          (load_update h c public_key a (load_update_from_file a (h.sys.join a.metadata_dir f))) fs
