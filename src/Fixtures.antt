-- ===== src/Fixtures.antt =====
-- Concrete libraries, keys, peers and updates for the tests.
use p2p_update.Common.{
  ℕ, ◌≡◌, ◌≢◌, Bool, true, false, Option, none, some, List, [], ◌∷◌, ◌++◌, Text, codes, arith,
  if◌then◌else◌, eqb, ltb, ◌==◌, bytes_eq,
}
use p2p_update.Stun.{
  Stun, UdpAddr, Attribute, attr_username, attr_even_port, attr_data, MessageType, method_other,
  class_request, AttributeLaws,
}
use p2p_update.Peer.{PeerId, Session, SessionTable, Msgpack}
use p2p_update.Notification.{Notification, Crypto, signature_name}
use p2p_update.Update.{System, Update, uuid_shell}
use p2p_update.Agent.{Host, Agent}
pub mod Submission
pub mod Stored
use p2p_update.Server.{Server}
use p2p_update.Server.Sessions.{IsServing}
use p2p_update.Stun.{method_binding}
use p2p_update.Agent.Trust.{IsWellFormed, IsSound}

-- Messages whose attributes are a list, without cryptography: integrity is a password in clear.
pub record Packet : Type 0 where
  pub kind : MessageType
  pub tid : ℕ
  pub attributes : List (Attribute × List ℕ)
  pub xor_address : Option UdpAddr
  pub password : Text

abbrev same_attribute : Attribute → Attribute → Bool
same_attribute attr_username attr_username = true
same_attribute attr_even_port attr_even_port = true
same_attribute attr_data attr_data = true
same_attribute _ _ = false

abbrev find : Attribute → List (Attribute × List ℕ) → Option (List ℕ)
find a [] = none
find a ((b, v) ∷ rest) = if same_attribute b a then some v else find a rest

abbrev pub empty_packet : Packet
empty_packet = record {
  kind = record { method = method_other 0; class = class_request };
  tid = 0;
  attributes = [];
  xor_address = none;
  password = [];
}

abbrev set_all : List (Packet → Option Packet) → Packet → Option Packet
set_all [] p = some p
set_all (f ∷ fs) p = elim (f p) [ none ↦ none | some p' ↦ set_all fs p' ]

abbrev pub plain_stun : Stun
plain_stun = record {
  Message = Packet;
  message_type = λ p. p.kind;
  transaction_id = λ p. p.tid;
  new_message = empty_packet;
  add = λ a v p. record p { attributes = p.attributes ++ (a, v) ∷ [] };
  get = λ a p. find a p.attributes;
  is_message = λ b. true;
  decode = λ b. none;
  raw = λ p. [];
  has_username = λ p. elim (find attr_username p.attributes) [ none ↦ false | some v ↦ true ];
  fingerprint_holds = λ p. true;
  integrity_holds = λ password p. p.password == password;
  get_xor_address = λ p. p.xor_address;
  set_xor_address = λ a p. some (record p { xor_address = some a });
  set_fresh_transaction_id = λ p. some (record p { tid = 1 });
  set_transaction_id = λ t p. some (record p { tid = t });
  set_type = λ k p. some (record p { kind = k });
  set_integrity = λ password p. some (record p { password = password });
  set_fingerprint = λ p. some p;
  build = λ fs. set_all fs empty_packet;
  partly_built = λ fs. empty_packet;
}

find-append_self :
    (a : Attribute) (v : List ℕ) (l : List (Attribute × List ℕ))
    → find a l ≡ none
    → find a (l ++ (a, v) ∷ []) ≡ some v
find-append_self a v [] h = ground arith
find-append_self a v ((b, w) ∷ l) h = ground (arith, find-append_self a v l)

find-append_ne :
    (a b : Attribute) (v : List ℕ) (l : List (Attribute × List ℕ))
    → a ≢ b
    → find a (l ++ (b, v) ∷ []) ≡ find a l
find-append_ne a b v [] h = ground arith
find-append_ne a b v ((k, w) ∷ l) h = ground (arith, find-append_ne a b v l h)

pub plain_laws : AttributeLaws plain_stun
plain_laws = record {
  get-add_self = λ a v m. find-append_self a v m.attributes;
  get-add_ne = λ a b v m. find-append_ne a b v m.attributes;
}

abbrev pub no_codec : Msgpack
no_codec = record { marshal = λ st. some (0 ∷ []); unmarshal = λ b. some [] }

abbrev pub address : ℕ → ℕ → UdpAddr
address host port = record { ip = 10 ∷ 0 ∷ 0 ∷ host ∷ []; port = port }

abbrev pub peer_a : PeerId
peer_a = 1 ∷ 2 ∷ 3 ∷ 4 ∷ 5 ∷ 6 ∷ []

abbrev pub peer_b : PeerId
peer_b = 1 ∷ 2 ∷ 3 ∷ 4 ∷ 5 ∷ 7 ∷ []

abbrev pub session_at : ℕ → Session
session_at host = address host 1 ∷ address host 2 ∷ address host 3 ∷ address host 4 ∷ []

abbrev pub two_peers : SessionTable
two_peers = (peer_a, session_at 1) ∷ (peer_b, session_at 2) ∷ []

-- Keys are numbers, and a signature is the key in front of the digest.
abbrev pub toy_crypto : Crypto
toy_crypto = record {
  PrivateKey = ℕ;
  PublicKey = ℕ;
  marshal = λ n. some (n.version ∷ n.uuid);
  sha256 = λ b. b;
  sign_pkcs1v15 = λ k d. some (k ∷ d);
  verify_pkcs1v15 = λ k d s. s == (k ∷ d);
}

abbrev pub unsigned_notification : Text → ℕ → Notification
unsigned_notification uuid version = record {
  info = record { name = codes "update.sh"; piece_length = 32768; content = [] };
  announce = [];
  nodes = [];
  creation_date = 0;
  created_by = [];
  encoding = [];
  signatures = none;
  uuid = uuid;
  version = version;
}

-- The notification of the shell update, signed with the key 7.
abbrev pub shell_notification : ℕ → Notification
shell_notification version = record (unsigned_notification uuid_shell version) {
  signatures = some (
      (signature_name, record { certificate = []; info = []; signature = 7 ∷ version ∷ uuid_shell })
      ∷ []);
}

abbrev pub toy_system : System
toy_system = record {
  join = λ a b. a ++ 47 ∷ b;
  lower_ext = λ t. [];
  temp_dir = codes "/tmp";
  stat = λ t. some false;
  start_shell = λ t. true;
  wait_shell = λ t d. true;
  open_zip = λ t. none;
  year = λ t. if ltb t 100 then 1 else 2018;
}

abbrev pub toy_host : Host
toy_host = record {
  sys = toy_system;
  encode_info = λ i. some i.content;
  add_torrent = λ m. some 1;
  adds = λ m. true;
  removable = λ t. true;
  writable = λ t. true;
}

abbrev pub shell_update : ℕ → Update
shell_update version = record {
  notification = shell_notification version;
  deployed = 0;
  source = [];
  stopped = false;
  sent = false;
  deploy_fails = 0;
  missing = 0;
  torrent = some 1;
}

abbrev pub empty_agent : Agent
empty_agent = record {
  proxy = false;
  data_dir = codes "update";
  metadata_dir = codes "notification";
  heap = λ r. shell_update 3;
  next = 0;
  updates = [];
  files = [];
  dropped = [];
  monitored = [];
}

-- Version 3 of the shell update is held at address 0, and version 4 is an object at address 1.
abbrev pub busy_agent : Agent
busy_agent = record empty_agent {
  heap = λ r. if eqb r 0 then shell_update 3 else shell_update 4;
  next = 2;
  updates = (uuid_shell, 0) ∷ [];
}

abbrev pub empty_server : Server
empty_server = record {
  id = 5 ∷ [];
  stun_password = [];
  peers = [];
  updates = [];
  last_modified = 4;
  last_saved = 1;
}

abbrev pub everywhere : UdpAddr → Bool
everywhere a = true

pub empty_server-IsServing : IsServing empty_server
empty_server-IsServing = record { distinct = tt; four = λ pid session e. cc }

-- A binding request with an identifier and an address, whose torrent ports are too short.
abbrev pub short_request : Packet
short_request = record empty_packet {
  kind = record { method = method_binding; class = class_request };
  attributes = (attr_username, peer_a) ∷ (attr_even_port, 1 ∷ 2 ∷ []) ∷ [];
  xor_address = some (address 9 2);
}

pub empty_agent-IsWellFormed : IsWellFormed empty_agent
empty_agent-IsWellFormed = record { distinct = tt; allocated = λ k r e. cc; keyed = λ k r e. cc }

pub empty_agent-IsSound : IsSound toy_host toy_crypto 7 empty_agent
empty_agent-IsSound = record { well_formed = empty_agent-IsWellFormed; trusted = λ k n e. cc }
