-- ===== src/Server/History.antt =====
-- The notifications of the running server (server.go) over time.
use p2p_update.Common.{
  ℕ, ◌≤◌, ◌≡◌, refl, sym, ap, ◌∙◌, Bool, true, none, some, Text, arith, bytes_eq, bytes_equal_iff,
  subst,
}
use p2p_update.Common.Dict.{Dict, lookup, lookup-insert, HasDistinctKeys, HasDistinctKeys-insert}
use p2p_update.Stun.{Stun, UdpAddr}
use p2p_update.Peer.{Msgpack}
use p2p_update.Notification.{Notification, Crypto}
use p2p_update.Server.{Server}
use p2p_update.Server.Updates.{
  Request, get_request, post_request, other_request, serve_post_request, accepted,
  serve_http_request, save_updates,
}
use p2p_update.Server.Versions.{serve_http_request-grows}
use p2p_update.Server.Crashes.{register-updates}
use p2p_update.Server.Unchanged.{save_updates-same}
use p2p_update.Server.Serving.{
  Serving, Step, receive, take_job, change_table, refuse, finish, http, snapshot, crash_registering,
  crash_answering, crash_advertising, crash_broadcasting, collide, Reach, here, next,
}

-- For each UUID that `s` holds, `s'` holds the same version or a later one.
abbrev pub Grows : Server → Server → Type 0
Grows s s' =
    (k : Text) (n : Notification)
    → lookup k s.updates ≡ some n
    → (n' : Notification) × (lookup k s'.updates ≡ some n') × (n.version ≤ n'.version)

pub Grows-same : (s s' : Server) → s'.updates ≡ s.updates → Grows s s'
Grows-same s s' same k n e =
    (n, ap (λ (m : Dict Text Notification). lookup k m) same ∙ e, omega arith)

pub Grows-trans : (a b c : Server) → Grows a b → Grows b c → Grows a c
Grows-trans a b c f g k n e =
    let (m, e', le) = f k n e in let (m', e'', le') = g k m e' in (m', e'', omega arith)

module _ (c : Crypto) (public_key : c.PublicKey) where
  -- The database: one notification for each UUID, its own, which the public key accepts.
  pub record IsStored (s : Server) : Type 0 where
    pub distinct : HasDistinctKeys s.updates
    pub keyed : (k : Text) (n : Notification) → lookup k s.updates ≡ some n → n.uuid ≡ k
    pub signed :
        (k : Text) (n : Notification) → lookup k s.updates ≡ some n → accepted c public_key n ≡ true

  pub IsStored-same : (s s' : Server) → s'.updates ≡ s.updates → IsStored s → IsStored s'
  IsStored-same s s' same h =
      let back = λ (k : Text). ap (λ (m : Dict Text Notification). lookup k m) (sym same) in
      record {
        distinct = subst HasDistinctKeys (sym same) h.distinct;
        keyed = λ k n e. h.keyed k n (back k ∙ e);
        signed = λ k n e. h.signed k n (back k ∙ e);
      }

  pub serve_post_request-IsStored :
      (s : Server) (n : Notification) (now : ℕ)
      → IsStored s
      → IsStored (serve_post_request c public_key s (some n) now).0
  unfolding serve_post_request
  serve_post_request-IsStored s n now h = record {
    distinct = ground (arith, h.distinct, HasDistinctKeys-insert n.uuid n s.updates);
    keyed = λ k m e.
        ground (arith, lookup-insert n.uuid k n s.updates, h.keyed k m, bytes_equal_iff n.uuid k);
    signed = λ k m e. ground (arith, lookup-insert n.uuid k n s.updates, h.signed k m);
  }

  serve_http_request-IsStored :
      (s : Server) (r : Request) (now : ℕ)
      → IsStored s
      → IsStored (serve_http_request c public_key s r now).0
  unfolding serve_http_request
  serve_http_request-IsStored s get_request now h = h
  serve_http_request-IsStored s (post_request none) now h = unfold serve_post_request in h
  serve_http_request-IsStored s (post_request (some n)) now h =
      serve_post_request-IsStored s n now h
  serve_http_request-IsStored s other_request now h = h

  module _ (st : Stun) (mp : Msgpack) (delivers : UdpAddr → Bool) where
    abbrev Kept : Server → Server → Type 0
    Kept s s' = Grows s s' × (IsStored s → IsStored s')

    Kept-same : (s s' : Server) → s'.updates ≡ s.updates → Kept s s'
    Kept-same s s' same = (Grows-same s s' same, IsStored-same s s' same)

    Step-Kept : {t u : Serving st} → Step st mp delivers c public_key t u → Kept t.server u.server
    Step-Kept (receive t bytes addr req f e n) = Kept-same t.server t.server refl
    Step-Kept (take_job t addr req rest f e n) = Kept-same t.server t.server refl
    Step-Kept (change_table t before after addr req s pid updated f e r) =
        Kept-same t.server s (register-updates st mp delivers t.server s addr req r)
    Step-Kept (refuse t before after addr req error f e r) = Kept-same t.server t.server refl
    Step-Kept (finish t before after pid req updated f e n) = Kept-same t.server t.server refl
    Step-Kept (http t r now f) = (
      serve_http_request-grows c public_key t.server now r,
      serve_http_request-IsStored t.server r now,
    )
    Step-Kept (snapshot t file result f) =
        Kept-same t.server (save_updates t.server file result).0
          (save_updates-same t.server file result).1
    Step-Kept (crash_registering t before after addr req e r) = Kept-same t.server t.server refl
    Step-Kept (crash_answering t before after pid req updated e r) =
        Kept-same t.server t.server refl
    Step-Kept (crash_advertising t r) = Kept-same t.server t.server refl
    Step-Kept (crash_broadcasting t bytes r) = Kept-same t.server t.server refl
    Step-Kept (collide t before after left right addr req asked s pid other f e o r) =
        Kept-same t.server t.server refl

    Reach-Kept : {t u : Serving st} → Reach st mp delivers c public_key t u → Kept t.server u.server
    Reach-Kept {t} here = Kept-same t.server t.server refl
    Reach-Kept {t} {u} (next {t = v} r step) =
        let (grown, stored) = Reach-Kept r in
        let (grown', stored') = Step-Kept step in
        (Grows-trans t.server v.server u.server grown grown', λ h. stored' (stored h))

    -- Between any two states of the running server, the earlier of which leads to the later by its
    -- goroutines and its clients in any order, no notification is lost or replaced by an older
    -- version: for each UUID of the earlier, the later holds the same version or a later one.
    pub Reach-Grows :
        {t u : Serving st} → Reach st mp delivers c public_key t u → Grows t.server u.server
    Reach-Grows r = (Reach-Kept r).0

    -- If the database holds one notification for each UUID, its own, which the server's public key
    -- accepts, then this is so in every state that the running server reaches, whatever is posted.
    pub Reach-IsStored :
        {t u : Serving st}
        → Reach st mp delivers c public_key t u
        → IsStored t.server
        → IsStored u.server
    Reach-IsStored r h = (Reach-Kept r).1 h
