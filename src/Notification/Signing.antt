-- ===== src/Notification/Signing.antt =====
-- Signing and verifying (notification.go).
use p2p_update.Common.{ℕ, ◌≡◌, ◌↔◌, true, none, some, List, arith, Option-cases, inl, inr, bytes_eq}
use p2p_update.Notification.{
  Signature, Notification, signature_name, Crypto, lookup_signature, unsigned, sign, verify,
}

-- The key pair fits: what the private key signs, the public key accepts.
abbrev pub KeysFit : (c : Crypto) → c.PrivateKey → c.PublicKey → Type 0
KeysFit c key pub_key =
    (digest sig : List ℕ)
    → c.sign_pkcs1v15 key digest ≡ some sig
    → c.verify_pkcs1v15 pub_key digest sig ≡ true

module _ (c : Crypto) where
  -- A notification that was signed without an error is accepted by `Verify` under a public key
  -- that fits the private key.
  pub verify-sign :
      (key : c.PrivateKey) (pub_key : c.PublicKey) (n n' : Notification)
      → KeysFit c key pub_key
      → sign c key n ≡ (n', none)
      → (verify c pub_key n').1 ≡ none
  unfolding sign verify
  verify-sign key pub_key n n' fit signed = elim (Option-cases (c.marshal (unsigned n))) [
    | inl failed ↦ absurd (ground arith)
    | inr (bytes, encoded) ↦ elim (Option-cases (c.sign_pkcs1v15 key (c.sha256 bytes))) [
      | inl failed ↦ absurd (ground arith)
      | inr (sig, made) ↦ ground (arith, fit (c.sha256 bytes) sig)
    ]
  ]

  -- `Verify` returns the notification as it was: the signatures are put back on every path.
  pub verify_restores : (pub_key : c.PublicKey) (n : Notification) → (verify c pub_key n).0 ≡ n
  unfolding verify
  verify_restores pub_key n = ground arith

  -- `Verify` accepts exactly when the map has the program's own signature, the notification
  -- without signatures can be encoded, and RSA accepts that signature for the digest of the code.
  pub verify-none_iff :
      (pub_key : c.PublicKey) (n : Notification)
      → ((verify c pub_key n).1 ≡ none) ↔ (
          (s : Signature) × (bytes : List ℕ) × (lookup_signature signature_name n.signatures
            ≡ some s)
          × (c.marshal (unsigned n) ≡ some bytes)
          × (c.verify_pkcs1v15 pub_key (c.sha256 bytes) s.signature ≡ true))
  unfolding verify
  verify-none_iff pub_key n = ground arith
