-- ===== src/Agent/Listing.antt =====
-- Lists of notifications, no two of one UUID, and the metadata files that a directory lists (agent.go).
use p2p_update.Common.{
  ◌≡◌, ◌≢◌, refl, Option, none, some, List, [], ◌∷◌, Text, if◌then◌else◌, arith, All, Bool-cases,
  inl, inr, ◌==◌, bytes_eq, bytes_equal_iff, beq_refl,
}
use p2p_update.Notification.{Notification}
use p2p_update.Agent.Ordering.{AreDistinct}
use p2p_update.Agent.Naming.{file_name}

-- The notification of a UUID in a list.
abbrev pub find : Text → List Notification → Option Notification
find k [] = none
find k (n ∷ ns) = if n.uuid == k then some n else find k ns

abbrev pub file_names : List Notification → List Text
file_names [] = []
file_names (n ∷ ns) = file_name n ∷ file_names ns

find-none :
    (k : Text) (n : Notification) (ns : List Notification)
    → n.uuid ≡ k
    → All (λ m. n.uuid ≢ m.uuid) ns
    → find k ns ≡ none
find-none k n [] e d = refl
find-none k n (m ∷ ns) e d = ground (arith, find-none k n ns e d.1, d.0, bytes_equal_iff m.uuid k)

pub find-cons :
    (n : Notification) (ns : List Notification) (k : Text) (v w : Option Notification)
    → v ≡ (if n.uuid == k then some n else w)
    → All (λ m. n.uuid ≢ m.uuid) ns
    → elim (find k ns) [ none ↦ v | some m ↦ some m ]
      ≡ elim (find k (n ∷ ns)) [ none ↦ w | some m ↦ some m ]
find-cons n ns k v w e d = elim (Bool-cases (n.uuid == k)) [
  | inl same ↦
      let none_left = find-none k n ns ((bytes_equal_iff n.uuid k).0 same) d in
      ground (arith, e, same, none_left)
  | inr other ↦ ground (arith, e, other)
]

pub All-find :
    (P : Notification → Type 0) (ns : List Notification)
    → AreDistinct ns
    → ((k : Text) (n : Notification) → find k ns ≡ some n → P n)
    → All P ns
All-find P [] d h = tt
All-find P (n ∷ ns) d h = (
  h n.uuid n (rw (beq_refl n.uuid) refl),
  All-find P ns d.1 (λ k m e. elim (Bool-cases (n.uuid == k)) [
    | inl same ↦
        let gone = find-none k n ns ((bytes_equal_iff n.uuid k).0 same) d.0 in
        absurd (ground (arith, gone, e))
    | inr other ↦ h k m (rw other e)
  ]),
)

pub All-every :
    (P : Notification → Type 0) (ns : List Notification) → ((n : Notification) → P n) → All P ns
All-every P [] h = tt
All-every P (n ∷ ns) h = (h n, All-every P ns h)
