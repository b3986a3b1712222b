-- ===== src/Agent/Ordering.antt =====
-- The order in which readTCP (agent.go) visits the notifications of the server, which is that of a
-- Go map and arbitrary.
use p2p_update.Common.{
  ◌≡◌, ◌≢◌, sym, ap, ◌∙◌, Bool, false, ◌&&◌, Option, some, List, [], ◌∷◌, Text, if◌then◌else◌,
  arith, All, Bool-cases, inl, inr, ◌==◌, bytes_eq, bytes_equal_iff,
}
use mathlib.Core.List.{Permᴰ}
use p2p_update.Common.Pairwise.{Pairwise, fold, fold-Perm}
use p2p_update.Notification.{Notification, Crypto}
use p2p_update.Update.{new_update}
use p2p_update.Agent.{Agent, Host, accepts}
use p2p_update.Agent.Table.{view}
use p2p_update.Agent.Starting.{takes}
use p2p_update.Agent.Trust.{IsSound, view-start_new, receive-eq, receive-IsSound}
use p2p_update.Agent.Sources.{receive, receive_all}
use p2p_update.Agent.Converging.{IsPointer, receive_all-returns}

abbrev pub pointers : List Notification → List (Option Notification)
pointers [] = []
pointers (n ∷ ns) = some n ∷ pointers ns

pointers-IsPointer : (ns : List Notification) → All IsPointer (pointers ns)
pointers-IsPointer [] = tt
pointers-IsPointer (n ∷ ns) = ((λ e. absurd (cc)), pointers-IsPointer ns)

-- No two notifications are of one UUID.
abbrev pub AreDistinct : List Notification → Type 0
AreDistinct = Pairwise (λ n m. n.uuid ≢ m.uuid)

module _ (accept : Notification → Bool) (k : Text) where
  -- What a notification does to the register of the UUID `k`.
  abbrev step : Option Notification → Notification → Option Notification
  step v n = if takes accept v n && (n.uuid == k) then some n else v

  abbrev steps : Option Notification → List Notification → Option Notification
  steps = fold step

  step-swap :
      (v : Option Notification) (n m : Notification)
      → n.uuid ≢ m.uuid
      → step (step v n) m ≡ step (step v m) n
  step-swap v n m differ = elim (Bool-cases (n.uuid == k)) [
    | inr other ↦ missed n m v other
    | inl here' ↦
        let other : (m.uuid == k) ≡ false =
          ground (arith, differ, bytes_equal_iff n.uuid k, bytes_equal_iff m.uuid k) in
        sym (missed m n v other)
  ]
    where
      out : (v : Option Notification) (n : Notification) → (n.uuid == k) ≡ false → step v n ≡ v
      out v n e = ground (arith, e)

      missed :
          (n m : Notification) (v : Option Notification)
          → (n.uuid == k) ≡ false
          → step (step v n) m ≡ step (step v m) n
      missed n m v e = ap (λ w. step w m) (out v n e) ∙ sym (out (step v m) n e)

  steps-Perm :
      {ns ms : List Notification} (v : Option Notification)
      → Permᴰ ns ms
      → AreDistinct ns
      → steps v ns ≡ steps v ms
  steps-Perm = fold-Perm (λ n m. n.uuid ≢ m.uuid) (λ n m d e. d (sym e)) step step-swap

module _ (h : Host) (c : Crypto) (public_key : c.PublicKey) where
  view-receive :
      (a : Agent) (n : Notification) (k : Text)
      → IsSound h c public_key a
      → view (receive h c public_key a n).0 k ≡ step (accepts h c public_key) k (view a k) n
  unfolding new_update
  view-receive a n k s =
      ap (λ (x : Agent). view x k) (receive-eq h c public_key a n)
      ∙ (view-start_new h c public_key a (new_update n) k s.well_formed ∙ own)
    where
      own :
          (if takes (accepts h c public_key) (view a n.uuid) n && (n.uuid == k)
            then some n
            else view a k)
          ≡ step (accepts h c public_key) k (view a k) n
      own = elim (Bool-cases (n.uuid == k)) [
        | inl same ↦
            ap
              (λ (j : Text).
                if takes (accepts h c public_key) (view a j) n && (n.uuid == k)
                then some n
                else view a k)
              ((bytes_equal_iff n.uuid k).0 same)
        | inr other ↦ ground (arith, other)
      ]

  view-receive_all :
      (a b : Agent) (ns : List Notification) (k : Text)
      → IsSound h c public_key a
      → receive_all h c public_key a (pointers ns) ≡ some b
      → view b k ≡ steps (accepts h c public_key) k (view a k) ns
  unfolding receive_all
  view-receive_all a b [] k s e =
      let same : b ≡ a = ground arith in ap (λ (x : Agent). view x k) same
  view-receive_all a b (n ∷ ns) k s e =
      let a' = (receive h c public_key a n).0 in
      view-receive_all a' b ns k (receive-IsSound h c public_key a n s) e
      ∙ ap (λ v. steps (accepts h c public_key) k v ns) (view-receive a n k s)

  -- The loop of `readTCP` ends for every order of the notifications, and what a sound agent holds
  -- after it does not depend on that order, where no two of them are of one UUID.
  pub receive_all-Perm :
      (a : Agent) (ns ms : List Notification)
      → IsSound h c public_key a
      → AreDistinct ns
      → Permᴰ ns ms
      → (b b' : Agent) × (receive_all h c public_key a (pointers ns) ≡ some b)
        × (receive_all h c public_key a (pointers ms) ≡ some b')
        × ((k : Text) → view b k ≡ view b' k)
  receive_all-Perm a ns ms s d p =
      let (b, e) = receive_all-returns h c public_key a (pointers ns) (pointers-IsPointer ns) in
      let (b', e') = receive_all-returns h c public_key a (pointers ms) (pointers-IsPointer ms) in
      (
        b,
        b',
        e,
        e',
        λ k.
            view-receive_all a b ns k s e
            ∙ (steps-Perm (accepts h c public_key) k (view a k) p d
                ∙ sym (view-receive_all a b' ms k s e')),
      )
