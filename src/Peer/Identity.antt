-- ===== src/Peer/Identity.antt =====
-- Peer identifiers (common.go): reading them from a message, and their hexadecimal form.
use p2p_update.Common.{
  ℕ, ◌/◌, ◌%◌, ◌<◌, ◌≡◌, ◌≢◌, refl, none, some, List, [], ◌∷◌, arith, ap₂, length, All, ok, panic,
  Option-cases, inl, inr,
}
use p2p_update.Stun.{Stun, AttributeLaws, attr_username}
use p2p_update.Peer.{
  PeerId, zero_peer_id, hex_digit, peer_id_string, overwrite, peer_id_add_to, peer_id_get_from,
}

-- Writing as many bytes as there are replaces all of them.
pub overwrite_whole : (pid buf : List ℕ) → length buf ≡ length pid → overwrite pid buf ≡ some buf
unfolding overwrite
overwrite_whole [] [] h = refl
overwrite_whole (p ∷ ps) [] h = absurd (omega arith)
overwrite_whole [] (b ∷ bs) h = absurd (omega arith)
overwrite_whole (p ∷ ps) (b ∷ bs) h = ground (arith, overwrite_whole ps bs)

-- More bytes than the identifier holds are an index out of range.
pub overwrite_longer : (pid buf : List ℕ) → length pid < length buf → overwrite pid buf ≡ none
unfolding overwrite
overwrite_longer [] [] h = absurd (omega arith)
overwrite_longer (p ∷ ps) [] h = absurd (omega arith)
overwrite_longer [] (b ∷ bs) h = refl
overwrite_longer (p ∷ ps) (b ∷ bs) h = ground (arith, overwrite_longer ps bs)

module _ (s : Stun) where
  -- Reading a peer identifier from a message never panics, whatever the message holds: the length
  -- of the attribute is checked before its bytes are copied.
  pub peer_id_get_from-ne-panic : (pid : PeerId) (m : s.Message) → peer_id_get_from s pid m ≢ panic
  unfolding peer_id_get_from
  peer_id_get_from-ne-panic pid m = elim (Option-cases (s.get attr_username m)) [
    | inl missing ↦ ground arith
    | inr (buf, found) ↦ ground (arith, overwrite_whole pid buf)
  ]

  -- An identifier that was read is the message's user name, of the length asked for.
  pub peer_id_get_from-eq-ok :
      (pid read : PeerId) (m : s.Message)
      → peer_id_get_from s pid m ≡ ok read
      → (s.get attr_username m ≡ some read) × (length read ≡ length pid)
  unfolding peer_id_get_from
  peer_id_get_from-eq-ok pid read m h = elim (Option-cases (s.get attr_username m)) [
    | inl missing ↦ absurd (ground arith)
    | inr (buf, found) ↦ ground (arith, overwrite_whole pid buf)
  ]

  -- A six-byte identifier written on a message that has no user name yet is read back unchanged.
  pub peer_id_get_from-add_to :
      (laws : AttributeLaws s) (pid : PeerId) (m m' : s.Message)
      → length pid ≡ 6
      → s.get attr_username m ≡ none
      → peer_id_add_to s pid m ≡ some m'
      → peer_id_get_from s zero_peer_id m' ≡ ok pid
  unfolding peer_id_get_from peer_id_add_to
  peer_id_get_from-add_to laws pid m m' size fresh written =
      ground (arith, laws.get-add_self attr_username pid m, overwrite_whole zero_peer_id pid)

hex_digit_inj : (a b : ℕ) → a < 16 → b < 16 → hex_digit a ≡ hex_digit b → a ≡ b
hex_digit_inj a b ha hb h = ground arith

-- Two identifiers of bytes with the same hexadecimal text are the same identifier, so the keys of
-- the printed session table do not collide.
pub peer_id_string_inj :
    (p q : PeerId)
    → All (λ b. b < 256) p
    → All (λ b. b < 256) q
    → peer_id_string p ≡ peer_id_string q
    → p ≡ q
unfolding peer_id_string
peer_id_string_inj [] [] hp hq h = refl
peer_id_string_inj [] (c ∷ q) hp hq h = cc
peer_id_string_inj (b ∷ p) [] hp hq h = cc
peer_id_string_inj (b ∷ p) (c ∷ q) hp hq h =
    let high = hex_digit_inj (b / 16) (c / 16) (omega arith) (omega arith) (cc h) in
    let low = hex_digit_inj (b % 16) (c % 16) (omega arith) (omega arith) (cc h) in
    let same : b ≡ c = omega arith in ap₂ ◌∷◌ same (peer_id_string_inj p q hp.1 hq.1 (cc h))
