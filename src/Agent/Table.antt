-- ===== src/Agent/Table.antt =====
-- What the operations on updates (agent.go, update.go) leave alone: the table of updates and the
-- notifications of its objects.
use p2p_update.Common.{
  ℕ, ◌≡◌, refl, ◌∙◌, ap, Option, none, some, Text, arith, Option-cases, Bool-cases, inl, inr,
  bytes_eq,
}
use p2p_update.Common.Dict.{lookup}
use p2p_update.Notification.{Notification}
use p2p_update.Agent.{Agent, Host, stop, delete_files, save, activate, retire, torrent_metainfo}

-- What a lookup by UUID shows: the notification of the update that the agent holds for it.
abbrev pub notification_at : Agent → Option ℕ → Option Notification
notification_at a none = none
notification_at a (some r) = some (a.heap r).notification

abbrev pub view : Agent → Text → Option Notification
view a k = notification_at a (lookup k a.updates)

pub record SameTable (a b : Agent) : Type 0 where
  pub updates : b.updates ≡ a.updates
  pub next : b.next ≡ a.next
  pub notifications : (q : ℕ) → (b.heap q).notification ≡ (a.heap q).notification

pub SameTable-trans : {a b c : Agent} → SameTable a b → SameTable b c → SameTable a c
SameTable-trans s t = record {
  updates = t.updates ∙ s.updates;
  next = t.next ∙ s.next;
  notifications = λ q. t.notifications q ∙ s.notifications q;
}

pub SameTable-view : {a b : Agent} → SameTable a b → (k : Text) → view b k ≡ view a k
SameTable-view {a} {b} s k = elim (Option-cases (lookup k a.updates)) [
  | inl absent ↦ rw s.updates (rw absent refl)
  | inr (r, present) ↦ rw s.updates (rw present (ap some (s.notifications r)))
]

pub stop-SameTable : (a : Agent) (r : ℕ) → SameTable a (stop a r)
unfolding stop
stop-SameTable a r = elim (Option-cases (a.heap r).torrent) [
  | inl absent ↦
      rw absent (record { updates = refl; next = refl; notifications = λ q. ground (arith) })
  | inr (t, present) ↦
      rw present (record { updates = refl; next = refl; notifications = λ q. ground (arith) })
]

module _ (h : Host) where
  pub delete_files-SameTable : (a : Agent) (r : ℕ) → SameTable a (delete_files h a r).0
  unfolding delete_files
  delete_files-SameTable a r = ground arith

  pub save-SameTable : (a : Agent) (r : ℕ) → SameTable a (save h a r).0
  unfolding save
  save-SameTable a r = ground arith

  pub retire-SameTable : (a : Agent) (old : Option ℕ) → SameTable a (retire h a old)
  unfolding retire
  retire-SameTable a none = record { updates = refl; next = refl; notifications = λ q. refl }
  retire-SameTable a (some o) =
      SameTable-trans (stop-SameTable a o) (delete_files-SameTable (stop a o) o)

  pub activate-SameTable : (a : Agent) (r : ℕ) → SameTable a (activate h a r).0
  unfolding activate
  activate-SameTable a r = elim (Option-cases (torrent_metainfo h (a.heap r).notification)) [
    | inl absent ↦ rw absent (record { updates = refl; next = refl; notifications = λ q. refl })
    | inr (mi, present) ↦ rw present (elim (Bool-cases (h.adds mi)) [
      | inr failed ↦
          rw failed (record { updates = refl; next = refl; notifications = λ q. ground arith })
      | inl worked ↦
          rw worked (record { updates = refl; next = refl; notifications = λ q. ground arith })
    ])
  ]
