-- ===== src/Keys.antt =====
-- LoadPrivateKey and LoadPublicKey (common.go). PEM and X.509 are parameters.
use p2p_update.Common.{
  ℕ, not, Option, none, some, List, Text, codes, if◌then◌else◌, ◌==◌, bytes_eq, Outcome, ◌>>=◌,
  require,
}
use p2p_update.Notification.{Crypto}
pub mod Loading
mod Tests

-- The first block of a PEM file, its type and its bytes; PKCS #1 and PKIX. The key in a PKIX block is
-- an RSA key or another one, `none`.
pub record Pem (c : Crypto) : Type 0 where
  pub decode : List ℕ → Option (Text × List ℕ)
  pub parse_pkcs1 : List ℕ → Option c.PrivateKey
  pub parse_pkix : List ℕ → Option (Option c.PublicKey)

pub data KeyError : Type 0 where
  failed_reading failed_decoding failed_parsing not_rsa : KeyError

-- The bytes of the block, whose type is compared.
abbrev pub block_of : Text → Option (Text × List ℕ) → Option (List ℕ)
block_of type none = none
block_of type (some (t, bytes)) = if not (t == type) then none else some bytes

module _ (c : Crypto) (pem : Pem c) (read_file : Text → Option (List ℕ)) where
  unfoldable pub load_private_key : Text → Outcome KeyError c.PrivateKey
  load_private_key filename = do
    b ← require failed_reading (read_file filename)
    block ← require failed_decoding (block_of (codes "RSA PRIVATE KEY") (pem.decode b))
    require failed_parsing (pem.parse_pkcs1 block)

  unfoldable pub load_public_key : Text → Outcome KeyError c.PublicKey
  load_public_key filename = do
    b ← require failed_reading (read_file filename)
    block ← require failed_decoding (block_of (codes "PUBLIC KEY") (pem.decode b))
    key ← require failed_parsing (pem.parse_pkix block)
    require not_rsa key
