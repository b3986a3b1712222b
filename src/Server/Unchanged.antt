-- ===== src/Server/Unchanged.antt =====
-- What HTTP requests and snapshots (server.go) leave as it is.
use p2p_update.Common.{ℕ, ◌≡◌, refl, sym, subst, ap, ◌∙◌, Option, none, some, Text, arith, bytes_eq}
use p2p_update.Common.Dict.{Dict, lookup, HasDistinctKeys}
use p2p_update.Peer.{SessionTable}
use p2p_update.Notification.{Notification, Crypto}
use p2p_update.Server.{Server}
use p2p_update.Server.Sessions.{IsServing}
use p2p_update.Server.Updates.{
  Request, get_request, post_request, other_request, serve_http_request, Write, save_updates,
}

pub serve_http_request-peers :
    (c : Crypto) (public_key : c.PublicKey) (s : Server) (r : Request) (now : ℕ)
    → (serve_http_request c public_key s r now).0.peers ≡ s.peers
unfolding serve_http_request
serve_http_request-peers c public_key s get_request now = refl
serve_http_request-peers c public_key s (post_request none) now = refl
serve_http_request-peers c public_key s (post_request (some n)) now = ground arith
serve_http_request-peers c public_key s other_request now = refl

pub save_updates-same :
    (s : Server) (file : Option (Dict Text Notification)) (result : Write)
    → ((save_updates s file result).0.peers ≡ s.peers)
      × ((save_updates s file result).0.updates ≡ s.updates)
unfolding save_updates
save_updates-same s file result = ground arith

pub IsServing-same : {s s' : Server} → s'.peers ≡ s.peers → IsServing s → IsServing s'
IsServing-same {s} {s'} e i = record {
  distinct = subst HasDistinctKeys (sym e) i.distinct;
  four =
      λ pid session f. i.four pid session (ap (λ (ps : SessionTable). lookup pid ps) (sym e) ∙ f);
}
