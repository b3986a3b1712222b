-- ===== src/Command.antt =====
-- main.go: the `submit` command, which makes a notification of a file, signs it, and posts it to the
-- agent of the host and then to the server, and the `agent` command.
use p2p_update.Common.{
  ℕ, Bool, false, not, Option, none, some, [], ◌∷◌, Text, if◌then◌else◌, eqb, ltb,
}
use p2p_update.Notification.{Notification, Info, Crypto}
use p2p_update.Notification.Creating.{new_notification}
use p2p_update.Update.{Update}
pub mod Stages
pub mod Submitting
mod Tests

-- The flags of the command. A version of 0 stands for the current time.
pub record SubmitFlags : Type 0 where
  pub file : Text
  pub version : ℕ
  pub uuid : Text
  pub private_key : Text
  pub output : Text
  pub tracker : Text
  pub piece_length : ℕ
  pub server : Text
  pub torrent_file : Bool

-- The status that a request got is `none` where the request could not be made.
pub data SubmitError : Type 0 where
  no_file empty_uuid no_private_key not_created not_written : SubmitError
  agent_failed server_failed : Option ℕ → SubmitError

-- What the command calls: the file system, the codecs and the clock, and the two services, which
-- change a world `W` and answer with a status.
pub record Surroundings (c : Crypto) (W : Type 0) : Type 0 where
  pub absolute : Text → Text
  pub exists : Text → Bool
  pub load_private_key : Text → Option c.PrivateKey
  pub build_from : Text → Info → Option Info
  pub now : ℕ
  pub write_output : Text → Bool → Update → Bool
  pub post_agent : W → Update → W × Option ℕ
  pub post_server : W → Notification → W × Option ℕ

-- submitToServer and submitToAgent, after the request: any status but 200 is an error.
unfoldable pub submit_error : (Option ℕ → SubmitError) → Option ℕ → Option SubmitError
submit_error failed none = some (failed none)
submit_error failed (some code) = if eqb code 200 then none else some (failed (some code))

-- Update{Source: filename, Notification: *mi}
abbrev pub submission : Text → Notification → Update
submission file n = record {
  notification = n;
  deployed = 0;
  source = file;
  stopped = false;
  sent = false;
  deploy_fails = 0;
  missing = 0;
  torrent = none;
}

module _ (c : Crypto) {W : Type 0} (e : Surroundings c W) where
  abbrev pub version_of : SubmitFlags → ℕ
  version_of f = if ltb 0 f.version then f.version else e.now

  abbrev pub server_step : SubmitFlags → Update → W → W × Option SubmitError
  server_step f u w = elim f.server [
    | [] ↦ (w, none)
    | _ ∷ _ ↦
        let (w', status) = e.post_server w u.notification in (w', submit_error server_failed status)
  ]

  abbrev pub agent_step : SubmitFlags → Update → W → W × Option SubmitError
  agent_step f u w =
      let (w', status) = e.post_agent w u in
      elim (submit_error agent_failed status) [
        | some error ↦ (w', some error)
        | none ↦ server_step f u w'
      ]

  -- With an output file, the update is written there and not submitted.
  abbrev pub deliver : SubmitFlags → Update → W → W × Option SubmitError
  deliver f u w = elim f.output [
    | _ ∷ _ ↦ (w, if e.write_output f.output f.torrent_file u then none else some not_written)
    | [] ↦ agent_step f u w
  ]

  abbrev pub sign_and_deliver : SubmitFlags → W → Option c.PrivateKey → W × Option SubmitError
  sign_and_deliver f w none = (w, some no_private_key)
  sign_and_deliver f w (some key) =
      let file = e.absolute f.file in
      elim (new_notification c e.build_from file f.uuid (version_of f) f.tracker f.piece_length
        e.now key) [ none ↦ (w, some not_created) | some n ↦ deliver f (submission file n) w ]

  abbrev pub named : SubmitFlags → Text → W → W × Option SubmitError
  named f [] w = (w, some empty_uuid)
  named f (_ ∷ _) w = sign_and_deliver f w (e.load_private_key f.private_key)

  unfoldable pub submit_cmd : SubmitFlags → W → W × Option SubmitError
  submit_cmd f w =
      if not (e.exists (e.absolute f.file)) then (w, some no_file) else named f f.uuid w
