-- ===== src/Agent/Sharing.antt =====
-- The map of signatures that updates from the overlay share (readOverlay in agent.go): the package's
-- variable bufNotification is copied with a reference to its map, and decoded into again.
use p2p_update.Common.{
  ℕ, ◌≡◌, refl, ap, ◌∙◌, Bool, true, false, Option, none, some, List, [], ◌∷◌, arith, bytes_eq,
  Text, ◌==◌, beq_refl,
}
use p2p_update.Common.Dict.{Dict, lookup, insert, lookup-insert}
use p2p_update.Notification.{Notification, Signature, Crypto}
use p2p_update.Update.{Update, new_update}
use p2p_update.Agent.{Agent, Host, accepts, allocate}
use p2p_update.Agent.Table.{view}
use p2p_update.Agent.Starting.{takes, start-SameTable}
use p2p_update.Agent.Trust.{
  IsWellFormed, view-start_new, view-allocate, heap-allocate, receive-eq, receive-IsWellFormed,
  write_shared-IsWellFormed,
}
use p2p_update.Agent.Sources.{Runtime, write_shared, share, receive, read_overlay}

module _ (h : Host) (c : Crypto) (public_key : c.PublicKey) where
  receive-taken :
      (a : Agent) (n : Notification)
      → IsWellFormed a
      → accepts h c public_key n ≡ true
      → view a n.uuid ≡ none
      → view (receive h c public_key a n).0 n.uuid ≡ some n
  unfolding new_update
  receive-taken a n w fine absent =
      ap (λ (x : Agent). view x n.uuid) (receive-eq h c public_key a n)
      ∙ (view-start_new h c public_key a (new_update n) n.uuid w
          ∙ rw (absent, fine, beq_refl n.uuid) refl)

  -- The update is the object that `receive` has allocated.
  receive-allocates :
      (a : Agent) (n : Notification)
      → IsWellFormed a
      → accepts h c public_key n ≡ true
      → view a n.uuid ≡ none
      → lookup n.uuid (receive h c public_key a n).0.updates ≡ some a.next
  unfolding new_update receive
  receive-allocates a n w fine absent =
      let a' = (allocate a (new_update n)).0 in
      let r = (allocate a (new_update n)).1 in
      let made : (a'.heap r).notification ≡ n =
        ap (λ (u : Update). u.notification) (heap-allocate a (new_update n)) in
      let gone : view a' n.uuid ≡ none = view-allocate a (new_update n) w n.uuid ∙ absent in
      let taken : takes (accepts h c public_key) (view a' (a'.heap r).notification.uuid)
            (a'.heap r).notification
          ≡ true =
        ap (λ (m : Notification). takes (accepts h c public_key) (view a' m.uuid) m) made
        ∙ rw (gone, fine) refl in
      ap (lookup n.uuid) (start-SameTable h c public_key a' r taken).updates
      ∙ (ap (λ (m : Notification). lookup n.uuid (insert m.uuid r a'.updates)) made
          ∙ (lookup-insert n.uuid n.uuid r a'.updates
              ∙ rw (beq_refl n.uuid) (unfold allocate in refl)))

  -- What is written into a shared map is seen in the update that shares it.
  view-with_signatures :
      (a : Agent) (r : ℕ) (k : List ℕ) (n : Notification) (m : Dict (List ℕ) Signature)
      → lookup k a.updates ≡ some r
      → view a k ≡ some n
      → view (write_shared (some m) (r ∷ []) a) k ≡ some (record n { signatures = some m })
  view-with_signatures a r k n m there shown = ground (arith, there, shown)

  receive-other :
      (a : Agent) (n : Notification) (k : List ℕ)
      → IsWellFormed a
      → (n.uuid == k) ≡ false
      → view (receive h c public_key a n).0 k ≡ view a k
  unfolding new_update
  receive-other a n k w other =
      ap (λ (x : Agent). view x k) (receive-eq h c public_key a n)
      ∙ (view-start_new h c public_key a (new_update n) k w ∙ rw other (ground arith))

  -- A message that decodes to a notification with signatures.
  abbrev overlay_step : Option (Dict Text Signature) → Runtime → Notification → Runtime
  overlay_step m rt n =
      let a = write_shared m rt.sharing rt.agent in
      record rt {
        buf_notification = n;
        sharing = share m a.next rt.sharing;
        agent = (receive h c public_key a n).0;
      }

  read_overlay-step :
      (decode : List ℕ → Notification → Bool × Notification) (rt : Runtime) (bytes : List ℕ)
      {fine : Bool} {n : Notification} {m : Dict Text Signature}
      → decode bytes rt.buf_notification ≡ (fine, n)
      → n.signatures ≡ some m
      → read_overlay h c public_key decode rt (some bytes) ≡ overlay_step (some m) rt n
  unfolding read_overlay
  read_overlay-step decode rt bytes {n = n} d s =
      ap (λ (x : Bool × Notification). overlay_step x.1.signatures rt x.1) d
      ∙ ap (λ x. overlay_step x rt n) s

  -- The signatures of updates that came over the overlay do not last. An agent that shares no map of
  -- signatures yet takes a message over the overlay: it holds no update of that UUID, and the
  -- notification is accepted. A second message comes that decodes to a notification of another UUID
  -- with signatures. Then the agent holds the first notification with the signatures of the second.
  pub read_overlay-overwrites :
      (decode : List ℕ → Notification → Bool × Notification) (rt : Runtime) (first second : List ℕ)
      {ok₁ ok₂ : Bool} {n₁ n₂ : Notification} {m₁ m₂ : Dict Text Signature}
      → IsWellFormed rt.agent
      → rt.sharing ≡ []
      → decode first rt.buf_notification ≡ (ok₁, n₁)
      → n₁.signatures ≡ some m₁
      → accepts h c public_key n₁ ≡ true
      → view rt.agent n₁.uuid ≡ none
      → decode second n₁ ≡ (ok₂, n₂)
      → n₂.signatures ≡ some m₂
      → (n₂.uuid == n₁.uuid) ≡ false
      → let rt₁ = read_overlay h c public_key decode rt (some first) in
        let rt₂ = read_overlay h c public_key decode rt₁ (some second) in
        (view rt₁.agent n₁.uuid ≡ some n₁)
        × (view rt₂.agent n₁.uuid ≡ some (record n₁ { signatures = some m₂ }))
  read_overlay-overwrites decode rt first second {n₁ = n₁} {n₂ = n₂} {m₁ = m₁} {m₂ = m₂} w
        none_shared d₁ s₁ fine absent d₂ s₂ other =
      let a₁ = (receive h c public_key rt.agent n₁).0 in
      let w₁ = receive-IsWellFormed h c public_key rt.agent n₁ w in
      let held = receive-taken rt.agent n₁ w fine absent in
      let rt₁ = record rt { buf_notification = n₁; sharing = rt.agent.next ∷ []; agent = a₁ } in
      let step₁ : read_overlay h c public_key decode rt (some first) ≡ rt₁ =
        read_overlay-step decode rt first d₁ s₁
        ∙ ap (λ rs. overlay_step (some m₁) (record rt { sharing = rs }) n₁) none_shared in
      let a₂ = write_shared (some m₂) (rt.agent.next ∷ []) a₁ in
      let w₂ = write_shared-IsWellFormed h c public_key (some m₂) (rt.agent.next ∷ []) a₁ w₁ in
      let there = receive-allocates rt.agent n₁ w fine absent in
      (
        ap (λ (x : Runtime). view x.agent n₁.uuid) step₁ ∙ held,
        ap
              (λ (x : Runtime).
                view (read_overlay h c public_key decode x (some second)).agent n₁.uuid)
              step₁
            ∙ (ap (λ (x : Runtime). view x.agent n₁.uuid)
                  (read_overlay-step decode rt₁ second d₂ s₂)
                ∙ (receive-other a₂ n₂ n₁.uuid w₂ other
                    ∙ view-with_signatures a₁ rt.agent.next n₁.uuid n₁ m₂ there held)),
      )
