-- ===== src/Notification/Tests.antt =====
-- Tests of Notification.antt.
use p2p_update.Common.{Text, codes, Option, [], ◌≡◌, refl, none, some, ◌∷◌, bytes_equal_iff, arith}
use p2p_update.Notification.{Info, Notification, wrong_signature, sign, verify}
use p2p_update.Notification.Creating.{new_notification, verify-new_notification}
use p2p_update.Notification.Signing.{KeysFit}
use p2p_update.Update.{uuid_shell}
use p2p_update.Fixtures.{toy_crypto, unsigned_notification, shell_notification}

toy-KeysFit : KeysFit toy_crypto 7 7
toy-KeysFit digest sig e = ground (arith, bytes_equal_iff sig (7 ∷ digest))

verify_wrong_key : (verify toy_crypto 8 (shell_notification 3)).1 ≡ some wrong_signature
unfolding verify
verify_wrong_key = refl

abbrev built : Text → Info → Option Info
built filename info = some (record info { name = filename })

abbrev made : Option Notification
made = new_notification toy_crypto built (codes "a.sh") uuid_shell 3 [] 32768 1525000000 7

abbrev or_else : Option Notification → Notification
or_else none = unsigned_notification [] 0
or_else (some n) = n

verify-new_notification_example :
    ((or_else made).uuid ≡ uuid_shell)
    × ((or_else made).version ≡ 3)
    × ((or_else made).announce ≡ [])
    × ((verify toy_crypto 7 (or_else made)).1 ≡ none)
unfolding new_notification sign
verify-new_notification_example =
    verify-new_notification toy_crypto built (codes "a.sh") uuid_shell 3 [] 32768 1525000000 7 7
      (or_else made) toy-KeysFit refl
