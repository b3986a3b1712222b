-- ===== src/Notification.antt =====
-- notification.go: update notifications, their signature and their verification.
-- The fields of the torrent library's `metainfo.Info` are its name, its piece length and the rest,
-- which the source only passes on.
use p2p_update.Common.{
  ℕ, Text, ◌≡◌, Bool, Option, none, some, List, [], ◌∷◌, if◌then◌else◌, bytes_eq, codes,
}
use p2p_update.Common.Dict.{Dict, lookup, insert}
pub mod Signing
pub mod Creating
pub mod Files
mod Tests

pub record Info : Type 0 where
  pub name : Text
  pub piece_length : ℕ
  pub content : List ℕ

pub record Signature : Type 0 where
  pub certificate : List ℕ
  pub info : Text
  pub signature : List ℕ

-- A nil map of signatures is `none`.
pub record Notification : Type 0 where
  pub info : Info
  pub announce : Text
  pub nodes : List Text
  pub creation_date : ℕ
  pub created_by : Text
  pub encoding : Text
  pub signatures : Option (Dict Text Signature)
  pub uuid : Text
  pub version : ℕ

abbrev pub signature_name : Text
signature_name = codes "org.fruit-testbed"

abbrev pub software_name : Text
software_name = codes "fruit/p2p-update"

-- encoding/json, crypto/sha256 and crypto/rsa, as far as the source calls them.
pub record Crypto : Type 1 where
  pub PrivateKey : Type 0
  pub PublicKey : Type 0
  pub marshal : Notification → Option (List ℕ)
  pub sha256 : List ℕ → List ℕ
  pub sign_pkcs1v15 : PrivateKey → List ℕ → Option (List ℕ)
  pub verify_pkcs1v15 : PublicKey → List ℕ → List ℕ → Bool

pub data SignError : Type 0 where
  marshal_failed sign_failed : SignError

pub data VerifyError : Type 0 where
  signature_not_available not_marshalled wrong_signature : VerifyError

-- s, ok := m[k], where a nil map has no keys.
abbrev pub lookup_signature : Text → Option (Dict Text Signature) → Option Signature
lookup_signature k none = none
lookup_signature k (some m) = lookup k m

abbrev pub unsigned : Notification → Notification
unsigned n = record n { signatures = none }

module _ (c : Crypto) where
  open c use {PrivateKey, PublicKey}

  abbrev attach : Notification → Option (List ℕ) → Notification × Option SignError
  attach n none = (n, some sign_failed)
  attach n (some sig) = (
    record n {
      signatures =
          some (insert signature_name (record { certificate = []; info = []; signature = sig }) []);
    },
    none,
  )

  abbrev sign_bytes : PrivateKey → Notification → Option (List ℕ) → Notification × Option SignError
  sign_bytes key n none = (n, some marshal_failed)
  sign_bytes key n (some bytes) = attach n (c.sign_pkcs1v15 key (c.sha256 bytes))

  -- Sign: the old signatures are dropped first, also where it fails.
  unfoldable pub sign : PrivateKey → Notification → Notification × Option SignError
  sign key n = sign_bytes key (unsigned n) (c.marshal (unsigned n))

  abbrev check_bytes : PublicKey → Signature → Option (List ℕ) → Option VerifyError
  check_bytes pub_key s none = some not_marshalled
  check_bytes pub_key s (some bytes) =
      if c.verify_pkcs1v15 pub_key (c.sha256 bytes) s.signature then none else some wrong_signature

  -- The assignments of `Verify`: the signatures are set to nil for `json.Marshal` and put back.
  abbrev verify_with :
      PublicKey → Notification → Option Signature → Notification × Option VerifyError
  verify_with pub_key n none = (n, some signature_not_available)
  verify_with pub_key n (some s) =
      let sigs = n.signatures in
      let bare = record n { signatures = none } in
      let error = check_bytes pub_key s (c.marshal bare) in
      (record bare { signatures = sigs }, error)

  unfoldable pub verify : PublicKey → Notification → Notification × Option VerifyError
  verify pub_key n = verify_with pub_key n (lookup_signature signature_name n.signatures)
