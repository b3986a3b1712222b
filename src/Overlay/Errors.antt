-- ===== src/Overlay/Errors.antt =====
-- The error counter of the overlay (bindError, messageError and closed in overlaysock.go).
use p2p_update.Common.{ℕ, zero, suc, List, ◌≡◌, ◌<◌, true, none, [], ◌∷◌}
use p2p_update.Stun.{Stun}
use p2p_update.Peer.{Msgpack}
use p2p_update.Overlay.{Answers}

module _ (s : Stun) (mp : Msgpack) where
  -- No message arrives before the channel's time `t` is over.
  abbrev pub Expires : Answers s → ℕ → Type 0
  Expires w t = (w.deadline_set ≡ true) × (w.received ≡ none) × (t < w.now)

  -- The answers of `k` receives that fail, each with one for the callback that counts the failure.
  abbrev pub message_errors : ℕ → Answers s → List (Answers s)
  message_errors zero w = []
  message_errors (suc k) w = w ∷ w ∷ message_errors k w
