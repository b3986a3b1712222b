-- ===== src/Fixtures/Stored.antt =====
-- A server that holds a notification.
use p2p_update.Common.{
  ◌≡◌, refl, true, some, [], ◌∷◌, Text, arith, bytes_eq, bytes_equal_iff, subst,
}
use p2p_update.Common.Dict.{lookup}
use p2p_update.Notification.{Notification, verify}
use p2p_update.Update.{uuid_shell}
use p2p_update.Server.{Server}
use p2p_update.Server.Updates.{accepted}
use p2p_update.Server.History.{IsStored}
use p2p_update.Fixtures.{toy_crypto, empty_server, shell_notification}

abbrev pub stored_server : Server
stored_server = record empty_server { updates = (uuid_shell, shell_notification 3) ∷ [] }

lookup_one : (j k : Text) (m n : Notification) → lookup k ((j, m) ∷ []) ≡ some n → m ≡ n
lookup_one j k m n e = ground arith

pub stored_server-IsStored : IsStored toy_crypto 7 stored_server
unfolding verify
stored_server-IsStored = record {
  distinct = (refl, tt);
  keyed = λ k n e. ground (arith, bytes_equal_iff uuid_shell k);
  signed = λ k n e.
      let same = lookup_one uuid_shell k (shell_notification 3) n e in
      subst (λ (m : Notification). accepted toy_crypto 7 m ≡ true) same refl;
}
