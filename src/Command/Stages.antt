-- ===== src/Command/Stages.antt =====
-- The stages that a `submit` (main.go) has passed when it ends without an error.
use p2p_update.Common.{
  ◌≡◌, Option, none, some, [], ◌∷◌, Text, arith, Option-cases, Bool-cases, List-cases, inl, inr,
}
use p2p_update.Notification.{Notification, Crypto}
use p2p_update.Notification.Creating.{new_notification}
use p2p_update.Update.{Update}
use p2p_update.Command.{
  SubmitFlags, Surroundings, agent_failed, submit_error, server_step, submission, version_of,
  agent_step, deliver, sign_and_deliver, named, submit_cmd,
}

module _ (c : Crypto) {W : Type 0} (e : Surroundings c W) (f : SubmitFlags) (w w' : W) where
  sign_and_deliver-eq-none :
      (k : Option c.PrivateKey)
      → sign_and_deliver c e f w k ≡ (w', none)
      → (key : c.PrivateKey) × (n : Notification) × (new_notification c e.build_from
            (e.absolute f.file)
            f.uuid
            (version_of c e f)
            f.tracker
            f.piece_length
            e.now
            key
          ≡ some n)
        × (deliver c e f (submission (e.absolute f.file) n) w ≡ (w', none))
  sign_and_deliver-eq-none none h = absurd (cc)
  sign_and_deliver-eq-none (some key) h =
      let new =
        new_notification c e.build_from (e.absolute f.file) f.uuid (version_of c e f) f.tracker
          f.piece_length e.now key in
      elim (Option-cases new) [
        | inl failed ↦ absurd (cc (rw (failed, sign_and_deliver) at h))
        | inr (n, made) ↦ (key, n, made, rw (made, sign_and_deliver) at h)
      ]

  named-eq-none :
      named c e f f.uuid w ≡ (w', none)
      → sign_and_deliver c e f w (e.load_private_key f.private_key) ≡ (w', none)
  named-eq-none h = ground arith

  -- A `submit` without an output file that ends without an error has made a notification and has
  -- gone through the requests.
  pub submit_cmd-eq-none :
      f.output ≡ []
      → submit_cmd c e f w ≡ (w', none)
      → (key : c.PrivateKey) × (n : Notification) × (new_notification c e.build_from
            (e.absolute f.file)
            f.uuid
            (version_of c e f)
            f.tracker
            f.piece_length
            e.now
            key
          ≡ some n)
        × (agent_step c e f (submission (e.absolute f.file) n) w ≡ (w', none))
  unfolding submit_cmd
  submit_cmd-eq-none no_output h =
      let reached : named c e f f.uuid w ≡ (w', none) = ground arith in
      let (key, n, made, delivered) =
        sign_and_deliver-eq-none (e.load_private_key f.private_key) (named-eq-none reached) in
      (key, n, made, rw (no_output, deliver) at delivered)

-- What both requests keep, the command keeps.
module _ (c : Crypto) {W : Type 0} (e : Surroundings c W) (P : W → Type 0) where
  module _ (keep_agent : (w : W) (u : Update) → P w → P (e.post_agent w u).0)
      (keep_server : (w : W) (n : Notification) → P w → P (e.post_server w n).0) where
    server_step-keeps : (f : SubmitFlags) (u : Update) (w : W) → P w → P (server_step c e f u w).0
    server_step-keeps f u w p = elim (List-cases f.server) [
      | inl none_given ↦ rw (none_given) p
      | inr (x, xs, given) ↦ rw (given) (keep_server w u.notification p)
    ]

    agent_step-keeps : (f : SubmitFlags) (u : Update) (w : W) → P w → P (agent_step c e f u w).0
    agent_step-keeps f u w p =
        let q = e.post_agent w u in
        elim (Option-cases (submit_error agent_failed q.1)) [
          | inl accepted ↦ rw (accepted, agent_step) (server_step-keeps f u q.0 (keep_agent w u p))
          | inr (error, failed) ↦ rw (failed, agent_step) (keep_agent w u p)
        ]

    deliver-keeps : (f : SubmitFlags) (u : Update) (w : W) → P w → P (deliver c e f u w).0
    deliver-keeps f u w p = elim (List-cases f.output) [
      | inl none_given ↦ rw (none_given) (agent_step-keeps f u w p)
      | inr (x, xs, given) ↦ rw (given) p
    ]

    sign_and_deliver-keeps :
        (f : SubmitFlags) (w : W) (k : Option c.PrivateKey) → P w → P (sign_and_deliver c e f w k).0
    sign_and_deliver-keeps f w none p = p
    sign_and_deliver-keeps f w (some key) p =
        let new =
          new_notification c e.build_from (e.absolute f.file) f.uuid (version_of c e f) f.tracker
            f.piece_length e.now key in
        elim (Option-cases new) [
          | inl failed ↦ rw (failed, sign_and_deliver) p
          | inr (n, made) ↦
              rw (made, sign_and_deliver) (deliver-keeps f (submission (e.absolute f.file) n) w p)
        ]

    named-keeps : (f : SubmitFlags) (uuid : Text) (w : W) → P w → P (named c e f uuid w).0
    named-keeps f [] w p = p
    named-keeps f (x ∷ xs) w p = sign_and_deliver-keeps f w (e.load_private_key f.private_key) p

    pub submit_cmd-keeps : (f : SubmitFlags) (w : W) → P w → P (submit_cmd c e f w).0
    unfolding submit_cmd
    submit_cmd-keeps f w p = elim (Bool-cases (e.exists (e.absolute f.file))) [
      | inl there ↦ rw (there) (named-keeps f f.uuid w p)
      | inr missing ↦ rw (missing) p
    ]
