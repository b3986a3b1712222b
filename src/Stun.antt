-- ===== src/Stun.antt =====
-- The STUN library github.com/gortc/stun, which is not part of the repository, as a parameter: the
-- types and calls that common.go, overlaysock.go and server.go use, and the laws that its
-- documentation states for `Add`, `Get` and `Build`.
use p2p_update.Common.{ℕ, Text, ◌≡◌, ◌≢◌, Bool, true, false, Option, none, some, List, eqb}

-- stun.Method: the methods that the source names, and any other.
pub data Method : Type 0 where
  method_binding method_data method_channel_bind : Method
  method_other : ℕ → Method

pub data Class : Type 0 where
  class_request class_indication class_success_response class_error_response : Class

pub record MessageType : Type 0 where
  pub method : Method
  pub class : Class

abbrev pub same_method : Method → Method → Bool
same_method method_binding method_binding = true
same_method method_data method_data = true
same_method method_channel_bind method_channel_bind = true
same_method (method_other m) (method_other n) = eqb m n
same_method _ _ = false

abbrev pub same_class : Class → Class → Bool
same_class class_request class_request = true
same_class class_indication class_indication = true
same_class class_success_response class_success_response = true
same_class class_error_response class_error_response = true
same_class _ _ = false

-- stun.AttrUsername, AttrEvenPort, AttrData: the attributes that the source reads and writes.
pub data Attribute : Type 0 where
  attr_username attr_even_port attr_data : Attribute

-- net.UDPAddr.
pub record UdpAddr : Type 0 where
  pub ip : List ℕ
  pub port : ℕ

pub record Stun : Type 1 where
  pub Message : Type 0
  pub message_type : Message → MessageType
  pub transaction_id : Message → ℕ
  -- new(stun.Message), Add and Get
  pub new_message : Message
  pub add : Attribute → List ℕ → Message → Message
  pub get : Attribute → Message → Option (List ℕ)
  -- stun.IsMessage, Message.Write, Message.Raw
  pub is_message : List ℕ → Bool
  pub decode : List ℕ → Option Message
  pub raw : Message → List ℕ
  -- the checks of stun.Username, stun.Fingerprint and stun.MessageIntegrity
  pub has_username : Message → Bool
  pub fingerprint_holds : Message → Bool
  pub integrity_holds : Text → Message → Bool
  -- stun.XORMappedAddress
  pub get_xor_address : Message → Option UdpAddr
  pub set_xor_address : UdpAddr → Message → Option Message
  -- the setters stun.TransactionID, NewTransactionIDSetter, MessageType, integrity, fingerprint
  pub set_fresh_transaction_id : Message → Option Message
  pub set_transaction_id : ℕ → Message → Option Message
  pub set_type : MessageType → Message → Option Message
  pub set_integrity : Text → Message → Option Message
  pub set_fingerprint : Message → Option Message
  -- stun.Build
  pub build : List (Message → Option Message) → Option Message
  -- what a Build that failed leaves in the message
  pub partly_built : List (Message → Option Message) → Message

-- `Add` appends an attribute and `Get` returns the first one of its type.
pub record AttributeLaws (s : Stun) : Type 0 where
  pub get-add_self :
      (a : Attribute) (v : List ℕ) (m : s.Message)
      → s.get a m ≡ none
      → s.get a (s.add a v m) ≡ some v
  pub get-add_ne :
      (a b : Attribute) (v : List ℕ) (m : s.Message) → a ≢ b → s.get a (s.add b v m) ≡ s.get a m
