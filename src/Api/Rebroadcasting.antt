-- ===== src/Api/Rebroadcasting.antt =====
-- What rebroadcastUpdate (api.go) broadcasts.
use p2p_update.Common.{
  ℕ, suc, zero, ◌≡◌, ◌≤◌, List, [], ◌∷◌, Text, eqb, arith, length, All, Bool-cases, Option-cases,
  inl, inr,
}
use p2p_update.Notification.{Notification}
use p2p_update.Agent.{Agent, get_update}
use p2p_update.Agent.Trust.{IsWellFormed}
use p2p_update.Agent.Monitoring.{Written, written, write_failed, write_panics}
use p2p_update.Api.Handler.{Rebroadcast, write_one, rebroadcast_rounds, rebroadcast_update}

module _ (uuid : Text) (version : ℕ) where
  abbrev pub IsBroadcast : Notification → Type 0
  IsBroadcast n = (n.uuid ≡ uuid) × (n.version ≡ version)

  abbrev IsSent : ℕ → Rebroadcast → Type 0
  IsSent i r = (length r.sent ≤ i) × All IsBroadcast r.sent

  write_one-IsSent :
      (i : ℕ) (n : Notification) (w : Written) (later : Rebroadcast)
      → IsBroadcast n
      → IsSent i later
      → IsSent (suc i) (write_one n w later)
  write_one-IsSent i n written later b (le, all) = (omega (arith, le), (b, all))
  write_one-IsSent i n write_failed later b (le, all) = (omega (arith, le), all)
  write_one-IsSent i n write_panics later b h = (omega arith, tt)

  rebroadcast_rounds-IsSent :
      (i : ℕ) (moments : List (Agent × Written))
      → All (λ (m : Agent × Written). IsWellFormed m.0) moments
      → IsSent i (rebroadcast_rounds i uuid version moments)
  unfolding rebroadcast_rounds
  rebroadcast_rounds-IsSent zero moments h = (omega arith, tt)
  rebroadcast_rounds-IsSent (suc i) [] h = (omega arith, tt)
  rebroadcast_rounds-IsSent (suc i) ((a, w) ∷ moments) h = elim (Option-cases (get_update a uuid)) [
    | inl gone ↦ rw (gone, rebroadcast_rounds) (omega arith, tt)
    | inr (r, held) ↦
        let n = (a.heap r).notification in
        elim (Bool-cases (eqb n.version version)) [
          | inr replaced ↦ rw (held, replaced, rebroadcast_rounds) (omega arith, tt)
          | inl same ↦
              rw (held, same, rebroadcast_rounds)
                (write_one-IsSent i n w (rebroadcast_rounds i uuid version moments)
                  (unfold get_update in h.0.keyed uuid r held, ground (arith, same))
                  (rebroadcast_rounds-IsSent i moments h.1))
        ]
  ]

  -- However the table of updates changes between the rounds, as long as it is well formed at each,
  -- at most five notifications are broadcast again, and each has the UUID and the version that were
  -- submitted: an update that was replaced or deleted is not.
  pub rebroadcast_update-sent :
      (moments : List (Agent × Written))
      → All (λ (m : Agent × Written). IsWellFormed m.0) moments
      → (length (rebroadcast_update uuid version moments).sent ≤ 5)
        × All IsBroadcast (rebroadcast_update uuid version moments).sent
  unfolding rebroadcast_update
  rebroadcast_update-sent moments h = rebroadcast_rounds-IsSent 5 moments h
