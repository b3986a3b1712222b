-- ===== src/Api/Views.antt =====
-- What the views of the REST service (api.go) write: doJSONWrite, requestConfig, requestUpdate's list
-- and requestTorrentDhtNodes. The encoder, ctx.Error and the texts of addresses are the libraries'.
use p2p_update.Common.{
  ℕ, suc, inl, inr, ◌⊎◌, ◌≡◌, refl, ap, ◌∙◌, Option, none, some, List, [], ◌∷◌, ◌++◌, Text, codes,
  map, String, ◌↔◌, Bool-cases, ok, err, panic, arith,
}
use mathlib.Core.List.{append_assoc}
use p2p_update.Api.{
  Method, get, post, delete, patch, other_method, reply, crashed, Body, other_body,
}
use p2p_update.Peer.Json.{
  quoted, comma_after, joined, write_quoted, write_quoted-joined, session_table_json,
}
use p2p_update.Peer.{peer_id_string}
use p2p_update.Stun.{UdpAddr}
use p2p_update.Automata.{state_string}
use p2p_update.Overlay.{OverlayConn}
use p2p_update.Overlay.Socket.{OverlayUdpConn, UdpSocket, internal_addr, external_addr}
use p2p_update.Api.Handler.{request_view, request_overlay, has_overlay, has_connection}

pub record Response : Type 0 where
  pub content_type : Option Text
  pub status : ℕ
  pub body : Text

abbrev pub application_json : Text
application_json = codes "application/json"

-- doJSONWrite: `encode` gives the text of an object or an error, which `error` (ctx.Error) puts into
-- the response with a status.
module _ {A : Type 0} (encode : A → Text ⊎ Text) (error : Text → ℕ → Response → Response) where
  unfoldable pub do_json_write : ℕ → A → Response → Response
  do_json_write code obj r = elim (encode obj) [
    | inl text ↦ record {
      content_type = some application_json;
      status = code;
      body = r.body ++ text;
    }
    | inr message ↦
        error message 500 (record r { content_type = some application_json; status = code })
  ]

  -- requestConfig, and the GET of requestUpdate, of the configuration and of the list of UUIDs.
  unfoldable pub request_json : Method → A → Response → Response
  request_json get obj r = do_json_write 200 obj r
  request_json _ obj r = record r { status = 400 }

module _ {Node : Type 0} (text : Node → Text) where
  -- The two loops of requestTorrentDhtNodes, with one counter for both: the nodes of a server, and
  -- those of the servers.
  abbrev pub write_nodes : ℕ → List Node → ℕ × Text
  write_nodes i [] = (i, [])
  write_nodes i (n ∷ ns) =
      let (j, rest) = write_nodes (suc i) ns in (j, comma_after i ++ (quoted (text n) ++ rest))

  abbrev pub write_servers : ℕ → List (List Node) → Text
  write_servers i [] = []
  write_servers i (ns ∷ servers) = let (j, t) = write_nodes i ns in t ++ write_servers j servers

  unfoldable pub request_torrent_dht_nodes : Method → List (List Node) → Response → Response
  request_torrent_dht_nodes get servers r = record {
    content_type = some application_json;
    status = 200;
    body = r.body ++ (codes "[" ++ (write_servers 0 servers ++ codes "]"));
  }
  request_torrent_dht_nodes _ servers r = record r { status = 400 }

  abbrev all_nodes : List (List Node) → List Node
  all_nodes [] = []
  all_nodes (ns ∷ servers) = ns ++ all_nodes servers

  write_servers-all_nodes :
      (servers : List (List Node)) (i : ℕ)
      → write_servers i servers ≡ write_quoted text i (all_nodes servers)
  write_servers-all_nodes [] i = refl
  write_servers-all_nodes ([] ∷ servers) i = write_servers-all_nodes servers i
  write_servers-all_nodes ((n ∷ ns) ∷ servers) i =
      append_assoc (comma_after i) (quoted (text n) ++ (write_nodes (suc i) ns).1)
        (write_servers (write_nodes (suc i) ns).0 servers)
      ∙ ap (λ t. comma_after i ++ t)
          (append_assoc (quoted (text n)) (write_nodes (suc i) ns).1
              (write_servers (write_nodes (suc i) ns).0 servers)
            ∙ ap (λ t. quoted (text n) ++ t) (write_servers-all_nodes (ns ∷ servers) (suc i)))

  write_quoted-nodes :
      (ns : List Node) → write_quoted text 0 ns ≡ joined (map (λ n. quoted (text n)) ns)
  write_quoted-nodes [] = refl
  write_quoted-nodes (n ∷ ns) = write_quoted-joined text n ns 0

  -- A GET writes one list of the nodes of all servers, with a comma exactly between two of them, also
  -- where servers without nodes stand between others; its status is the one of the handler's model.
  pub request_torrent_dht_nodes-joined :
      (servers : List (List Node)) (r : Response)
      → let answer = request_torrent_dht_nodes get servers r in
        (answer.body
          ≡ r.body
            ++ (codes "["
                ++ (joined (map (λ n. quoted (text n)) (all_nodes servers)) ++ codes "]")))
        × (request_view get ≡ reply answer.status other_body)
  unfolding request_torrent_dht_nodes
  request_torrent_dht_nodes-joined servers r = (
    ap (λ t. r.body ++ (codes "[" ++ (t ++ codes "]")))
        (write_servers-all_nodes servers 0 ∙ write_quoted-nodes (all_nodes servers)),
    refl,
  )

-- requestOverlayPeers, with no response where it panics.
unfoldable pub request_overlay_peers :
    (UdpAddr → Text) → Method → Option OverlayConn → Response → Option Response
request_overlay_peers text get none r = none
request_overlay_peers text get (some o) r =
    some (record r { content_type = some application_json; body = session_table_json text o.peers })
request_overlay_peers text _ connection r = some (record r { status = 400 })

-- The object that requestOverlay writes.
pub record OverlayView : Type 0 where
  pub id : Text
  pub state : String
  pub internal_address : UdpAddr
  pub external_address : Option UdpAddr

unfoldable pub overlay_view : OverlayUdpConn → OverlayConn → Option OverlayView
overlay_view oc o = elim (internal_addr oc o) [
  | ok addr ↦ some (record {
    id = peer_id_string o.id;
    state = state_string o.automata.current;
    internal_address = addr;
    external_address = external_addr o;
  })
  | err e ↦ none
  | panic ↦ none
]

module _ (encode : OverlayView → Text ⊎ Text) (error : Text → ℕ → Response → Response) where
  abbrev write_view : Option OverlayView → Response → Option Response
  write_view none r = none
  write_view (some view) r = some (do_json_write encode error 200 view r)

  -- requestOverlay, with no response where it panics.
  unfoldable pub request_overlay_state :
      Method → OverlayUdpConn → Option OverlayConn → Response → Option Response
  request_overlay_state get oc none r = none
  request_overlay_state get oc (some o) r =
      write_view (overlay_view oc o) (record r { content_type = some application_json })
  request_overlay_state _ oc connection r = some (record r { status = 400 })

  reply_iff : {r : Response} {status : ℕ} {b : Body} → (some r ≡ none) ↔ (reply status b ≡ crashed)
  reply_iff = (λ e. ground arith, λ e. ground arith)

  -- On a socket that was made, the views of the overlay panic exactly where the handler's model does.
  pub request_overlay_state-crashed_iff :
      (text : UdpAddr → Text) (m : Method) (oc : OverlayUdpConn) (connection : Option OverlayConn)
      (r : Response) {socket : UdpSocket}
      → oc.conn ≡ some socket
      → ((request_overlay_state m oc connection r ≡ none)
          ↔ (request_overlay m (has_connection connection) ≡ crashed))
        × ((request_overlay_peers text m connection r ≡ none)
            ↔ (request_overlay m (has_overlay connection) ≡ crashed))
  unfolding request_overlay_state request_overlay_peers overlay_view internal_addr
  request_overlay_state-crashed_iff text get oc none r made =
      ((λ e. refl, λ e. refl), (λ e. refl, λ e. refl))
  request_overlay_state-crashed_iff text get oc (some o) r made = elim (Bool-cases o.conn) [
    | inl opened ↦ rw (opened, made) (reply_iff, reply_iff)
    | inr shut ↦ rw shut ((λ e. refl, λ e. refl), reply_iff)
  ]
  request_overlay_state-crashed_iff text post oc connection r made = (reply_iff, reply_iff)
  request_overlay_state-crashed_iff text delete oc connection r made = (reply_iff, reply_iff)
  request_overlay_state-crashed_iff text patch oc connection r made = (reply_iff, reply_iff)
  request_overlay_state-crashed_iff text other_method oc connection r made = (reply_iff, reply_iff)
