-- ===== src/Overlay/Channel.antt =====
-- The channel of peer data (peerDataIndication and ReadMsg in overlaysock.go) over any run of the
-- connection, in which other callbacks and calls change the rest of it.
use p2p_update.Common.{
  ℕ, ◌+◌, ◌≤◌, ◌<◌, ◌↔◌, ◌≡◌, refl, sym, ap, ◌∙◌, Bool, true, false, Option, none, some, List, [],
  ◌∷◌, ◌++◌, if◌then◌else◌, ltb, length, length-append, arith, Bool-cases, Option-cases, inl, inr,
  not, ◌||◌, eqb, ◌⊎◌,
}
use mathlib.Core.List.{append_assoc, append-nil}
use p2p_update.Stun.{Stun, attr_data}
use p2p_update.Overlay.{OverlayConn, peer_data_capacity, peer_data_indication}
use p2p_update.Overlay.Io.{
  Received, read, ReadReply, got, not_ready, data_received, timed_out, blocked, receive, ready,
  read_msg,
}

module _ (s : Stun) where
  -- The senders and receivers of the channel are `peerDataIndication`, `ReadMsg` and `Read`; any
  -- other call or callback changes the rest of the connection.
  pub data Reach (o : OverlayConn) : OverlayConn → Type 0 where
    here : Reach o o
    indicated :
        {p : OverlayConn} → Reach o p → (req : s.Message) → Reach o (peer_data_indication s p req).0
    message_read : {p : OverlayConn} → Reach o p → (late : Bool) → Reach o (read_msg p late).0
    data_read :
        {p : OverlayConn} → Reach o p → (size : ℕ) (late : Bool) → Reach o (read p size late).0
    changed :
        {p : OverlayConn} → Reach o p → (q : OverlayConn) → q.peer_data ≡ p.peer_data → Reach o q

  abbrev list_of : Option (List ℕ) → List (List ℕ)
  list_of none = []
  list_of (some bytes) = bytes ∷ []

  abbrev message_of : ReadReply → List (List ℕ)
  message_of (got m) = m ∷ []
  message_of _ = []

  -- The data of the indications that succeeded, in their order.
  abbrev pub accepted : {o p : OverlayConn} → Reach o p → List (List ℕ)
  accepted here = []
  accepted (indicated {p = p} r req) =
      if (peer_data_indication s p req).1
      then accepted r ++ list_of (s.get attr_data req)
      else accepted r
  accepted (message_read r late) = accepted r
  accepted (data_read r size late) = accepted r
  accepted (changed r q same) = accepted r

  -- The message that `Read` takes from the channel, of which the buffer may get only the first part.
  abbrev taken : Received → List (List ℕ)
  taken (data_received m ms) = m ∷ []
  taken _ = []

  abbrev pub taken_by : OverlayConn → ℕ → Bool → List (List ℕ)
  taken_by p size late =
      if eqb size 0 || not (ready p) then [] else taken (receive p.read_deadline late p.peer_data)

  -- The messages that were taken from the channel, in their order.
  abbrev pub handed : {o p : OverlayConn} → Reach o p → List (List ℕ)
  handed here = []
  handed (indicated r req) = handed r
  handed (message_read {p = p} r late) = handed r ++ message_of (read_msg p late).1
  handed (data_read {p = p} r size late) = handed r ++ taken_by p size late
  handed (changed r q same) = handed r

  -- The channel holds `data` after what was handed out.
  abbrev pub IsFifo : List (List ℕ) → List (List ℕ) → List (List ℕ) → Type 0
  IsFifo ins outs channel = (ins ≡ outs ++ channel) × (length channel ≤ peer_data_capacity)

  indicated-IsFifo :
      (p : OverlayConn) (req : s.Message) (ins outs : List (List ℕ))
      → IsFifo ins outs p.peer_data
      → IsFifo
          (if (peer_data_indication s p req).1 then ins ++ list_of (s.get attr_data req) else ins)
          outs
          (peer_data_indication s p req).0.peer_data
  unfolding peer_data_indication
  indicated-IsFifo p req ins outs h = elim (Option-cases (s.get attr_data req)) [
    | inl absent ↦ rw (absent, peer_data_indication) h
    | inr (bytes, there) ↦ elim (Bool-cases (ltb (length p.peer_data) peer_data_capacity)) [
      | inr full ↦ rw (there, full, peer_data_indication) h
      | inl room ↦
          rw (there, room, peer_data_indication)
            (
              ap (λ l. l ++ bytes ∷ []) h.0 ∙ append_assoc outs p.peer_data (bytes ∷ []),
              ground (arith, length-append p.peer_data (bytes ∷ [])),
            )
    ]
  ]

  -- A receive takes the first message, or nothing.
  receive-cases :
      (deadline : Option ℕ) (late : Bool) (channel : List (List ℕ))
      → ((receive deadline late channel ≡ timed_out) ⊎ (receive deadline late channel ≡ blocked))
        ⊎ ((m : List ℕ) × (ms : List (List ℕ)) × (channel ≡ m ∷ ms)
            × (receive deadline late channel ≡ data_received m ms))
  receive-cases none late [] = inl (inr refl)
  receive-cases none late (m ∷ ms) = inr (m, ms, refl, refl)
  receive-cases (some t) late [] = inl (inl refl)
  receive-cases (some t) true (m ∷ ms) = inl (inl refl)
  receive-cases (some t) false (m ∷ ms) = inr (m, ms, refl, refl)

  received-IsFifo :
      (p : OverlayConn) (late : Bool) (ins outs : List (List ℕ))
      → IsFifo ins outs p.peer_data
      → IsFifo ins (outs ++ message_of (read_msg p late).1) (read_msg p late).0.peer_data
  unfolding read_msg
  received-IsFifo p late ins outs h = elim (Bool-cases (ready p)) [
    | inr waiting ↦
        let none_read : read_msg p late ≡ (p, not_ready) = rw waiting refl in rw none_read (kept h)
    | inl listening ↦ elim (receive-cases p.read_deadline late p.peer_data) [
      | inl kept_all ↦
          let none_read : (message_of (read_msg p late).1 ≡ [])
              × ((read_msg p late).0.peer_data ≡ p.peer_data) =
            ground (arith, listening, kept_all) in
          rw (none_read.0, none_read.1) (kept h)
      | inr (m, ms, e, taken) ↦
          let read : read_msg p late ≡ (record p { peer_data = ms }, got m) =
            rw (listening, taken, read_msg) refl in
          rw read (
            h.0 ∙ (ap (λ l. outs ++ l) e ∙ sym (append_assoc outs (m ∷ []) ms)),
            omega (arith, h.1, ap length e),
          )
    ]
  ]
    where
      kept : IsFifo ins outs p.peer_data → IsFifo ins (outs ++ []) p.peer_data
      kept h = (h.0 ∙ ap (λ l. l ++ p.peer_data) (sym (append-nil outs)), h.1)

  taken-IsFifo :
      (p : OverlayConn) (size : ℕ) (late : Bool) (ins outs : List (List ℕ))
      → IsFifo ins outs p.peer_data
      → IsFifo ins (outs ++ taken_by p size late) (read p size late).0.peer_data
  unfolding read
  taken-IsFifo p size late ins outs h = elim (Bool-cases (eqb size 0)) [
    | inl nothing ↦ rw (nothing, read) kept
    | inr some_size ↦ elim (Bool-cases (ready p)) [
      | inr waiting ↦ rw (some_size, waiting, read) kept
      | inl listening ↦ elim (receive-cases p.read_deadline late p.peer_data) [
        | inl (inl timed) ↦ rw (some_size, listening, timed, read) kept
        | inl (inr stuck) ↦ rw (some_size, listening, stuck, read) kept
        | inr (m, ms, e, got_it) ↦
            rw (some_size, listening, got_it, read)
              (
                h.0 ∙ (ap (λ l. outs ++ l) e ∙ sym (append_assoc outs (m ∷ []) ms)),
                omega (arith, h.1, ap length e),
              )
      ]
    ]
  ]
    where
      kept : IsFifo ins (outs ++ []) p.peer_data
      kept = (h.0 ∙ ap (λ l. l ++ p.peer_data) (sym (append-nil outs)), h.1)

  Reach-IsFifo :
      {o p : OverlayConn} (r : Reach o p)
      → o.peer_data ≡ []
      → IsFifo (accepted r) (handed r) p.peer_data
  Reach-IsFifo here e = rw e (refl, omega arith)
  Reach-IsFifo (indicated {p = p} r req) e =
      indicated-IsFifo p req (accepted r) (handed r) (Reach-IsFifo r e)
  Reach-IsFifo (message_read {p = p} r late) e =
      received-IsFifo p late (accepted r) (handed r) (Reach-IsFifo r e)
  Reach-IsFifo (data_read {p = p} r size late) e =
      taken-IsFifo p size late (accepted r) (handed r) (Reach-IsFifo r e)
  Reach-IsFifo (changed r q same) e = rw same (Reach-IsFifo r e)

  -- The channel is a queue of at most sixteen messages. In every run from an empty channel, what
  -- `ReadMsg` and `Read` have taken is, in its order, the first part of what arrived and was accepted, and the channel holds the
  -- rest, at most sixteen; and a data indication that arrives then is accepted exactly if fewer than
  -- sixteen of the accepted messages have not been taken.
  pub Reach-queue :
      {o p : OverlayConn} (r : Reach o p) (req : s.Message) {bytes : List ℕ}
      → o.peer_data ≡ []
      → s.get attr_data req ≡ some bytes
      → IsFifo (accepted r) (handed r) p.peer_data
        × (((peer_data_indication s p req).1 ≡ true)
            ↔ (length (accepted r) < length (handed r) + peer_data_capacity))
  unfolding peer_data_indication
  Reach-queue {o} {p} r req e there =
      let fifo = Reach-IsFifo r e in
      let count = ap length fifo.0 in
      let added = length-append (handed r) p.peer_data in
      (
        fifo,
        ((λ t. ground (arith, there, count, added)), (λ t. ground (arith, there, count, added))),
      )
