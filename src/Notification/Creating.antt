-- ===== src/Notification/Creating.antt =====
-- `NewNotification` (notification.go): the notification of an update that is submitted.
use p2p_update.Common.{
  ℕ, Text, codes, decimal, ◌≡◌, ap, Option, none, some, [], ◌++◌, arith, Option-cases, inl, inr,
}
use p2p_update.Notification.{
  Info, Notification, software_name, Crypto, SignError, sign, verify, unsigned,
}
use p2p_update.Notification.Signing.{KeysFit, verify-sign}

-- BuildFromFilePath of the torrent library fills in an Info from a file.
module _ (c : Crypto) (build_from : Text → Info → Option Info) where
  abbrev named : Text → ℕ → Info → Info
  named uuid ver info = record info {
    name = uuid ++ codes "-v" ++ decimal ver ++ codes "-" ++ info.name;
  }

  abbrev signed : Notification × Option SignError → Option Notification
  signed (n, none) = some n
  signed (n, some e) = none

  abbrev submitted : Text → ℕ → Text → ℕ → Info → Notification
  submitted uuid ver tracker now info = record {
    info = named uuid ver info;
    announce = tracker;
    nodes = [];
    creation_date = now;
    created_by = software_name;
    encoding = codes "UTF-8";
    signatures = none;
    uuid = uuid;
    version = ver;
  }

  -- `none` where the file cannot be read or the notification cannot be signed.
  unfoldable pub new_notification :
      Text → Text → ℕ → Text → ℕ → ℕ → c.PrivateKey → Option Notification
  new_notification filename uuid ver tracker piece_length now key =
      elim (build_from filename (record { name = []; piece_length = piece_length; content = [] })) [
        | none ↦ none
        | some info ↦ signed (sign c key (submitted uuid ver tracker now info))
      ]

  signed_parts :
      (x : Notification × Option SignError) {n : Notification} → signed x ≡ some n → x ≡ (n, none)
  signed_parts (m, none) e = ground arith
  signed_parts (m, some f) e = cc

  sign_keeps :
      (key : c.PrivateKey) (n n' : Notification)
      → sign c key n ≡ (n', none)
      → unsigned n' ≡ unsigned n
  unfolding sign
  sign_keeps key n n' e = elim (Option-cases (c.marshal (unsigned n))) [
    | inl failed ↦ absurd (ground arith)
    | inr (bytes, encoded) ↦ elim (Option-cases (c.sign_pkcs1v15 key (c.sha256 bytes))) [
      | inl failed ↦ absurd (ground arith)
      | inr (sig, made) ↦ ground arith
    ]
  ]

  new_notification_signed :
      (filename uuid : Text) (ver : ℕ) (tracker : Text) (piece_length now : ℕ) (key : c.PrivateKey)
      {n : Notification}
      → new_notification filename uuid ver tracker piece_length now key ≡ some n
      → (info : Info) × (sign c key (submitted uuid ver tracker now info) ≡ (n, none))
  unfolding new_notification
  new_notification_signed filename uuid ver tracker piece_length now key {n} e =
      let bare : Info = record { name = []; piece_length = piece_length; content = [] } in
      elim (Option-cases (build_from filename bare)) [
        | inl unreadable ↦ absurd (ground arith)
        | inr (info, built) ↦ (
          info,
          signed_parts (sign c key (submitted uuid ver tracker now info))
              (rw (built, new_notification) at e),
        )
      ]

  pub new_notification_fields :
      (filename uuid : Text) (ver : ℕ) (tracker : Text) (piece_length now : ℕ) (key : c.PrivateKey)
      (n : Notification)
      → new_notification filename uuid ver tracker piece_length now key ≡ some n
      → (n.uuid ≡ uuid) × (n.version ≡ ver) × (n.announce ≡ tracker)
  new_notification_fields filename uuid ver tracker piece_length now key n e =
      let (info, made) = new_notification_signed filename uuid ver tracker piece_length now key e in
      let kept = sign_keeps key (submitted uuid ver tracker now info) n made in
      (
        ap (λ (x : Notification). x.uuid) kept,
        ap (λ (x : Notification). x.version) kept,
        ap (λ (x : Notification). x.announce) kept,
      )

  -- What `NewNotification` makes has the UUID, the version and the tracker that were asked for, and
  -- is accepted by `Verify` under a public key that fits the private key.
  pub verify-new_notification :
      (filename uuid : Text) (ver : ℕ) (tracker : Text) (piece_length now : ℕ) (key : c.PrivateKey)
      (pub_key : c.PublicKey) (n : Notification)
      → KeysFit c key pub_key
      → new_notification filename uuid ver tracker piece_length now key ≡ some n
      → (n.uuid ≡ uuid)
        × (n.version ≡ ver)
        × (n.announce ≡ tracker)
        × ((verify c pub_key n).1 ≡ none)
  verify-new_notification filename uuid ver tracker piece_length now key pub_key n fit e =
      let (info, made) = new_notification_signed filename uuid ver tracker piece_length now key e in
      let (same_uuid, same_version, same_tracker) =
        new_notification_fields filename uuid ver tracker piece_length now key n e in
      (
        same_uuid,
        same_version,
        same_tracker,
        verify-sign c key pub_key (submitted uuid ver tracker now info) n fit made,
      )
