-- ===== src/Agent/Sources.antt =====
-- agent.go: where updates come from: the server (readTCP), the overlay (readOverlay), the files of
-- an earlier run (loadUpdates), and the loop that chooses between the first two (startGossip).
use p2p_update.Common.{
  ℕ, ◌+◌, Bool, true, false, not, ◌||◌, Option, none, some, List, [], ◌∷◌, Text, if◌then◌else◌, ltb,
  eqb, bytes_eq,
}
use p2p_update.Common.Dict.{Dict, merge}
use p2p_update.Notification.{Notification, Signature, Crypto}
use p2p_update.Update.{Update, new_update}
use p2p_update.Agent.{Agent, Host, StartError, allocate, start, accepts}

-- The agent with the package's variables bufNotification and bufNotifications, and the counter of
-- `startGossip`. A null entry of the server's map is a nil pointer.
pub record Runtime : Type 0 where
  pub agent : Agent
  pub buf_notification : Notification
  -- the updates that were made from `buf_notification`, and share its map of signatures
  pub sharing : List ℕ
  pub buf_notifications : Dict Text (Option Notification)
  pub counter : ℕ
  pub read_tcp_interval : ℕ

-- What fasthttp.Get returned, and what json.Unmarshal made of the body.
pub record HttpReply : Type 0 where
  pub code : ℕ
  pub failed : Bool
  pub decoded : Bool
  pub entries : Dict Text (Option Notification)

abbrev pub values : Dict Text (Option Notification) → List (Option Notification)
values [] = []
values ((k, v) ∷ m) = v ∷ values m

abbrev pub has : ℕ → List ℕ → Bool
has q [] = false
has q (r ∷ rs) = eqb q r || has q rs

abbrev pub with_signatures : Dict Text Signature → Update → Update
with_signatures m u = record u { notification = record u.notification { signatures = some m } }

-- Once the buffer has a map of signatures, the decoder writes into it, and the updates that were made
-- from the buffer before see what it writes.
abbrev pub write_shared : Option (Dict Text Signature) → List ℕ → Agent → Agent
write_shared none rs a = a
write_shared (some m) rs a = record a {
  heap = λ q. if has q rs then with_signatures m (a.heap q) else a.heap q;
}

-- A copy of the buffer shares its map, if there is one.
abbrev pub share : Option (Dict Text Signature) → ℕ → List ℕ → List ℕ
share none r rs = rs
share (some m) r rs = r ∷ rs

module _ (h : Host) (c : Crypto) (public_key : c.PublicKey) where
  -- NewUpdate(n, a).Start(a)
  unfoldable pub receive : Agent → Notification → Agent × Option StartError
  receive a n = let (a', r) = allocate a (new_update n) in start h c public_key a' r

  -- The loop of `readTCP`, which only logs an error of `Start`; `none` is a nil dereference.
  unfoldable pub receive_all : Agent → List (Option Notification) → Option Agent
  receive_all a [] = some a
  receive_all a (none ∷ ns) = none
  receive_all a (some n ∷ ns) = receive_all (receive a n).0 ns

  abbrev with_agent : Runtime → Option Agent → Option Runtime
  with_agent rt none = none
  with_agent rt (some a) = some (record rt { agent = a })

  -- `Unmarshal` adds to the map that is there, and its entries are all received again.
  unfoldable pub read_tcp : Runtime → HttpReply → Option Runtime
  read_tcp rt reply =
      let buf = merge rt.buf_notifications reply.entries in
      if not (eqb reply.code 200) || reply.failed
      then some rt
      else if not reply.decoded
      then some (record rt { buf_notifications = buf })
      else with_agent (record rt { buf_notifications = buf }) (receive_all rt.agent (values buf))

  -- `decode` is bencode.DecodeBytes into a struct: whether it succeeded, and the struct after it.
  -- An error is logged, and a shallow copy of the struct is received all the same.
  unfoldable pub read_overlay :
      (List ℕ → Notification → Bool × Notification) → Runtime → Option (List ℕ) → Runtime
  read_overlay decode rt none = rt
  read_overlay decode rt (some bytes) =
      let n = (decode bytes rt.buf_notification).1 in
      let a = write_shared n.signatures rt.sharing rt.agent in
      record rt {
        buf_notification = n;
        sharing = share n.signatures a.next rt.sharing;
        agent = (receive a n).0;
      }

  -- One file of the metadata directory: `none` where it cannot be loaded.
  unfoldable pub load_update : Agent → Option Update → Agent
  load_update a none = a
  load_update a (some u) =
      if accepts h c public_key u.notification
      then (let (a', r) = allocate a u in (start h c public_key a' r).0)
      else a

  unfoldable pub load_updates : Agent → List (Option Update) → Agent
  load_updates a [] = a
  load_updates a (f ∷ fs) = load_updates (load_update a f) fs

  -- One round of `startGossip`, given whether there is an overlay that is ready, and what the
  -- calls of the round return.
  unfoldable pub gossip_round :
      (List ℕ → Notification → Bool × Notification)
      → Runtime
      → Bool
      → HttpReply
      → Option (List ℕ)
      → Option Runtime
  gossip_round decode rt false reply message =
      if ltb rt.read_tcp_interval (rt.counter + 1)
      then read_tcp (record rt { counter = 0 }) reply
      else some (record rt { counter = rt.counter + 1 })
  gossip_round decode rt true reply message =
      some (read_overlay decode (record rt { counter = 0 }) message)
