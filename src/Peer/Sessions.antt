-- ===== src/Peer/Sessions.antt =====
-- Sessions and session tables (common.go), and what a validated message satisfies.
use p2p_update.Common.{
  ℕ, ◌≡◌, ◌≢◌, ◌↔◌, refl, true, ◌&&◌, none, some, List, [], ◌∷◌, arith, length, eqb, ◌==◌, bytes_eq,
  Text, bytes_equal_iff, Option-cases, inl, inr,
}
use p2p_update.Stun.{Stun, AttributeLaws, UdpAddr, attr_data}
use p2p_update.Peer.{
  Session, SessionTable, equal_from, session_equal, Msgpack, session_table_add_to,
  get_session_table_from, validate_message,
}

-- At every position at which both lists have an address, the two addresses differ.
abbrev pub DifferEverywhere : Session → Session → Type 0
DifferEverywhere [] ss = Unit
DifferEverywhere (x ∷ s) [] = Unit
DifferEverywhere (x ∷ s) (y ∷ ss) = (x ≢ y) × DifferEverywhere s ss

addr_eq_iff : (x y : UdpAddr) → (((y.ip == x.ip) && eqb y.port x.port) ≡ true) ↔ (x ≡ y)
addr_eq_iff x y = ground (arith, bytes_equal_iff y.ip x.ip)

equal_from_iff : (s ss : Session) → (equal_from s ss ≡ true) ↔ DifferEverywhere s ss
unfolding equal_from
equal_from_iff [] ss = (λ h. tt, λ h. refl)
equal_from_iff (x ∷ s) [] = (λ h. tt, λ h. refl)
equal_from_iff (x ∷ s) (y ∷ ss) = ground (arith, addr_eq_iff x y, equal_from_iff s ss)

-- `Session.Equal` says true exactly for two sessions of the same length that differ at every
-- position.
pub session_equal_iff :
    (s ss : Session)
    → (session_equal s ss ≡ true) ↔ ((length s ≡ length ss) × DifferEverywhere s ss)
unfolding session_equal
session_equal_iff s ss = ground (arith, equal_from_iff s ss)

module _ (s : Stun) where
  -- A session table written on a message that has no data attribute yet is read back, if the
  -- codec decodes what it has encoded.
  pub get_session_table_from-add_to :
      (laws : AttributeLaws s) (mp : Msgpack) (st : SessionTable) (m m' : s.Message)
      → ((bytes : List ℕ) → mp.marshal st ≡ some bytes → mp.unmarshal bytes ≡ some st)
      → s.get attr_data m ≡ none
      → session_table_add_to s mp st m ≡ some m'
      → get_session_table_from s mp m' ≡ some st
  unfolding get_session_table_from session_table_add_to
  get_session_table_from-add_to laws mp st m m' codec fresh written =
      elim (Option-cases (mp.marshal st)) [
        | inl failed ↦ absurd (ground arith)
        | inr (bytes, encoded) ↦ ground (arith, codec bytes, laws.get-add_self attr_data bytes m)
      ]

  -- A message passes validation without a type exactly when it names a user, its fingerprint
  -- holds, and its integrity holds under the password.
  pub validate_message-none_iff :
      (m : s.Message) (password : Text)
      → (validate_message s m none password ≡ none) ↔ (
          (s.has_username m ≡ true)
          × (s.fingerprint_holds m ≡ true)
          × (s.integrity_holds password m ≡ true))
  unfolding validate_message
  validate_message-none_iff m password = ground arith
