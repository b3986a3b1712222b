-- ===== src/Server/Versions.antt =====
-- The database of notifications of the server (server.go): newest versions, signatures, snapshots.
use p2p_update.Common.{
  ℕ, ◌≡◌, ◌≤◌, ◌<◌, refl, ◌∙◌, Bool, true, false, ◌&&◌, Option, none, some, Text, if◌then◌else◌,
  ltb, eqb, ◌==◌, bytes_eq, bytes_equal_iff, arith, Bool-cases, inl, inr,
}
use p2p_update.Common.Dict.{Dict, lookup, lookup-insert}
use p2p_update.Notification.{Notification, Crypto}
use p2p_update.Server.{Server}
use p2p_update.Server.Updates.{
  Request, get_request, post_request, other_request, accepted, serve_post_request,
  serve_http_request, Write, saved, save_updates, load_updates,
}

-- The status that a notification deserves, from what the server holds for its UUID.
abbrev pub status_for : Bool → Option Notification → Notification → ℕ
status_for false held n = 400
status_for true none n = 200
status_for true (some old) n =
    if ltb n.version old.version then 409 else if eqb old.version n.version then 201 else 200

newer :
    (b : Bool) (held : Option Notification) (n old : Notification)
    → held ≡ some old
    → eqb (status_for b held n) 200 ≡ true
    → old.version ≤ n.version
newer b held n old e h = ground arith

module _ (c : Crypto) (public_key : c.PublicKey) (s : Server) (now : ℕ) where
  -- A POST of a notification has the status 400 if its signature is not accepted, 409 if a newer
  -- version is there, 201 if the same version is there, and 200 otherwise. It is stored under its
  -- UUID, and handed on to be broadcast, exactly if the status is 200; what is held for any other
  -- UUID, or with any other status, is as before.
  pub serve_post_request_cases :
      (n : Notification) (k : Text)
      → let (s', r) = serve_post_request c public_key s (some n) now in
        let status = status_for (accepted c public_key n) (lookup n.uuid s.updates) n in
        (r.status ≡ status)
        × (r.broadcast ≡ (if eqb status 200 then some n else none))
        × (lookup k s'.updates
            ≡ (if eqb status 200 && (n.uuid == k) then some n else lookup k s.updates))
  unfolding serve_post_request
  serve_post_request_cases n k = ground (arith, lookup-insert n.uuid k n s.updates)

  -- No request lowers a version: for each UUID that the server holds, it holds the same version or
  -- a later one after the request.
  pub serve_http_request-grows :
      (r : Request) (k : Text) (old : Notification)
      → lookup k s.updates ≡ some old
      → (new : Notification) × (lookup k (serve_http_request c public_key s r now).0.updates
          ≡ some new)
        × (old.version ≤ new.version)
  unfolding serve_http_request
  serve_http_request-grows get_request k old e = (old, e, omega arith)
  serve_http_request-grows (post_request none) k old e = (old, e, omega arith)
  serve_http_request-grows (post_request (some m)) k old e =
      let held = lookup m.uuid s.updates in
      let (status, handed, shown) = serve_post_request_cases m k in
      elim (Bool-cases (eqb (status_for (accepted c public_key m) held m) 200 && (m.uuid == k))) [
        | inl taken ↦
            let same : m.uuid ≡ k = ground (arith, bytes_equal_iff m.uuid k) in
            let there : held ≡ some old = rw same e in
            (
              m,
              shown ∙ rw taken refl,
              newer (accepted c public_key m) held m old there (ground arith),
            )
        | inr kept ↦ (old, shown ∙ rw kept e, omega arith)
      ]
  serve_http_request-grows other_request k old e = (old, e, omega arith)

  -- If every notification of the server is accepted by its public key, so is every one after a
  -- request.
  pub serve_http_request-accepted :
      (r : Request)
      → ((k : Text) (n : Notification)
          → lookup k s.updates ≡ some n
          → accepted c public_key n ≡ true)
      → (k : Text) (n : Notification)
      → lookup k (serve_http_request c public_key s r now).0.updates ≡ some n
      → accepted c public_key n ≡ true
  unfolding serve_http_request
  serve_http_request-accepted get_request h k n e = h k n e
  serve_http_request-accepted (post_request none) h k n e = h k n e
  serve_http_request-accepted (post_request (some m)) h k n e =
      ground (arith, lookup-insert m.uuid k m s.updates, h k n)
  serve_http_request-accepted other_request h k n e = h k n e

-- A snapshot that is due and does not fail is complete: a server that is started from the file
-- holds the same notifications, and until the next change no snapshot is written.
pub load_updates-save_updates :
    (s fresh : Server) (file : Option (Dict Text Notification)) (later : Write)
    → s.last_saved < s.last_modified
    → let (s', file') = save_updates s file saved in
      ((load_updates fresh file').updates ≡ s.updates) × (save_updates s' file' later ≡ (s', file'))
unfolding save_updates load_updates
load_updates-save_updates s fresh file later h = ground arith
