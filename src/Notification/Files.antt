-- ===== src/Notification/Files.antt =====
-- Notifications in files (notification.go): ReadNotification, LoadNotificationFromFile and Write. The
-- bencode library and the file system are parameters.
use p2p_update.Common.{
  ℕ, ◌≡◌, Bool, true, Option, none, some, List, [], Text, if◌then◌else◌, arith, Outcome, ok, err,
  ◌>>=◌, ◌∙◌, ap, require, bind-eq-ok, require-eq-ok,
}
use p2p_update.Notification.{Notification}

-- The zero value of a notification.
abbrev pub empty_notification : Notification
empty_notification = record {
  info = record { name = []; piece_length = 0; content = [] };
  announce = [];
  nodes = [];
  creation_date = 0;
  created_by = [];
  encoding = [];
  signatures = none;
  uuid = [];
  version = 0;
}

pub data FileError : Type 0 where
  not_opened not_decoded not_encoded not_written : FileError

-- `decode` is the decoder into a struct: whether it succeeds, and the struct after it.
module _ (decode : List ℕ → Notification → Bool × Notification) where
  -- ReadNotification returns the notification beside an error too.
  unfoldable pub read_notification : List ℕ → Notification × Option FileError
  read_notification bytes =
      let (fine, n) = decode bytes empty_notification in
      (n, if fine then none else some not_decoded)

  -- LoadNotificationFromFile, given what the file holds, if it can be opened; with nil instead of a
  -- notification where it cannot.
  unfoldable pub load_notification_from_file :
      (Text → Option (List ℕ)) → Text → Option Notification × Option FileError
  load_notification_from_file open_file filename = elim (open_file filename) [
    | none ↦ (none, some not_opened)
    | some bytes ↦ let (n, error) = read_notification bytes in (some n, error)
  ]

-- Write, to a writer that takes the bytes or fails.
unfoldable pub write_notification :
    (Notification → Option (List ℕ)) → (List ℕ → Bool) → Notification → Outcome FileError (List ℕ)
write_notification encode takes n = do
  bytes ← require not_encoded (encode n)
  if takes bytes then ok bytes else err not_written

-- A notification that was written to a file without an error is loaded from it unchanged, where the
-- decoder reads what the encoder wrote.
pub load_notification_from_file-write_notification :
    (encode : Notification → Option (List ℕ)) (decode : List ℕ → Notification → Bool × Notification)
    (takes : List ℕ → Bool) (open_file : Text → Option (List ℕ)) (filename : Text)
    (n : Notification) (bytes : List ℕ)
    → ((m : Notification) (b : List ℕ)
        → encode m ≡ some b
        → decode b empty_notification ≡ (true, m))
    → write_notification encode takes n ≡ ok bytes
    → open_file filename ≡ some bytes
    → load_notification_from_file decode open_file filename ≡ (some n, none)
unfolding load_notification_from_file read_notification write_notification
load_notification_from_file-write_notification encode decode takes open_file filename n bytes law
      written there =
    let (b, encoded, taken) =
      bind-eq-ok (require not_encoded (encode n)) (λ b. if takes b then ok b else err not_written)
        written in
    let same : b ≡ bytes = ground arith in
    let stored : encode n ≡ some bytes =
      require-eq-ok not_encoded (encode n) encoded ∙ ap some same in
    ground (arith, there, law n bytes stored)
