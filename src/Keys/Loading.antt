-- ===== src/Keys/Loading.antt =====
-- Which files LoadPublicKey (common.go) reads a key from.
use p2p_update.Common.{
  ℕ, ◌≡◌, ◌↔◌, refl, ap, ◌∙◌, Option, none, some, List, Text, codes, ◌==◌, bytes_eq,
  bytes_equal_iff, ok, require, bind-eq-ok, require-eq-ok, arith, Bool-cases, inl, inr,
}
use p2p_update.Notification.{Crypto}
use p2p_update.Keys.{
  Pem, failed_reading, failed_decoding, failed_parsing, not_rsa, block_of, load_public_key,
}

block_of-eq-some :
    (type : Text) (o : Option (Text × List ℕ)) {bytes : List ℕ}
    → block_of type o ≡ some bytes
    → o ≡ some (type, bytes)
block_of-eq-some type none e = absurd (cc)
block_of-eq-some type (some (t, b)) {bytes} e = elim (Bool-cases (t == type)) [
  | inl same ↦
      let it : t ≡ type = (bytes_equal_iff t type).0 same in
      let bytes_same : some b ≡ some bytes = rw (same, block_of) at e in ground (arith, it)
  | inr other ↦ absurd (ground (arith, other))
]

-- LoadPublicKey returns a key exactly if the file is read, its first PEM block has the type PUBLIC
-- KEY, and the block holds that key, an RSA key.
pub load_public_key-eq-ok_iff :
    (c : Crypto) (pem : Pem c) (read_file : Text → Option (List ℕ)) (filename : Text)
    (key : c.PublicKey)
    → (load_public_key c pem read_file filename ≡ ok key) ↔ (
        (b : List ℕ) × (block : List ℕ) × (read_file filename ≡ some b)
        × (pem.decode b ≡ some (codes "PUBLIC KEY", block))
        × (pem.parse_pkix block ≡ some (some key)))
unfolding load_public_key
load_public_key-eq-ok_iff c pem read_file filename key = (to, from)
  where
    to :
        load_public_key c pem read_file filename ≡ ok key
        → (b : List ℕ) × (block : List ℕ) × (read_file filename ≡ some b)
          × (pem.decode b ≡ some (codes "PUBLIC KEY", block))
          × (pem.parse_pkix block ≡ some (some key))
    to e =
        let (b, e0, e1) = bind-eq-ok (require failed_reading (read_file filename)) _ e in
        let (block, e2, e3) =
          bind-eq-ok (require failed_decoding (block_of (codes "PUBLIC KEY") (pem.decode b))) _
            e1 in
        let (k, e4, e5) = bind-eq-ok (require failed_parsing (pem.parse_pkix block)) _ e3 in
        (
          b,
          block,
          require-eq-ok failed_reading _ e0,
          block_of-eq-some (codes "PUBLIC KEY") _ (require-eq-ok failed_decoding _ e2),
          require-eq-ok failed_parsing _ e4 ∙ ap some (require-eq-ok not_rsa k e5),
        )

    from :
        (b : List ℕ) × (block : List ℕ) × (read_file filename ≡ some b)
          × (pem.decode b ≡ some (codes "PUBLIC KEY", block))
          × (pem.parse_pkix block ≡ some (some key))
        → load_public_key c pem read_file filename ≡ ok key
    from (b, block, e0, e1, e2) = rw (e0, e1, e2) refl
