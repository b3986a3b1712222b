-- ===== src/Program/Restoring.antt =====
-- The `server` command (serverCmd in main.go) from its start over a snapshot to any later state.
use p2p_update.Common.{
  ◌≡◌, refl, sym, ap, ◌∙◌, subst, Bool, Option, none, some, [], ◌∷◌, Text, if◌then◌else◌, arith,
  Outcome, ok, err, panic, require, bind-eq-ok, bytes_eq,
}
use p2p_update.Common.Dict.{Dict, lookup}
use p2p_update.Stun.{Stun, UdpAddr}
use p2p_update.Peer.{PeerId, Session, SessionTable, Msgpack}
use p2p_update.Notification.{Notification, Crypto}
use p2p_update.Server.{Server}
use p2p_update.Server.Sessions.{IsServing}
use p2p_update.Server.History.{
  IsStored, IsStored-same, Grows, Grows-same, Grows-trans, Reach-Grows, Reach-IsStored,
}
use p2p_update.Server.Running.{Reach-IsServing}
use p2p_update.Server.Serving.{Serving, serving, Reach}
use p2p_update.Server.Updates.{load_updates}
use p2p_update.Server.Startup.{
  ServerConfig, NewServerError, unresolved_address, no_public_key, DatabaseFile, holds, new_server,
  server_config, read_database,
}
use p2p_update.Program.{Context, read_server_flags, serves, served, server_cmd}

served-eq-serves :
    {K : Type 0} (st : Stun) (r : Outcome NewServerError (Server × K)) {t : Serving st} {key : K}
    → served st r ≡ serves t key
    → (s : Server) × (r ≡ ok (s, key)) × (serving st s ≡ t)
served-eq-serves st (ok (s, key')) e = (s, ground arith, ground arith)
served-eq-serves st (err x) e = absurd (cc)
served-eq-serves st panic e = absurd (cc)

read_eq :
    (blank s : Server) {db : Dict Text Notification}
    → read_database blank (holds db) ≡ ok s
    → blank.peers ≡ []
    → (s.updates ≡ db) × (s.peers ≡ [])
unfolding load_updates
read_eq blank s e none_yet = ground arith

new_server-eq-ok :
    {K : Type 0} (cfg : ServerConfig) (resolves : Bool) (id : Outcome NewServerError PeerId)
    (keys : Text → Option K) (open_database : Text → DatabaseFile) (s : Server) (key : K)
    {db : Dict Text Notification}
    → new_server cfg resolves id keys open_database ≡ ok (s, key)
    → open_database cfg.database ≡ holds db
    → (s.updates ≡ db) × (s.peers ≡ [])
unfolding new_server
new_server-eq-ok cfg resolves id keys open_database s key e file =
    let (_, found, e1) =
      bind-eq-ok (require unresolved_address (if resolves then some tt else none)) _ e in
    let (pid, known, e2) = bind-eq-ok id _ e1 in
    let (key', loaded, e3) = bind-eq-ok (require no_public_key (keys cfg.public_key)) _ e2 in
    let (s', made, e4) = bind-eq-ok (read_database _ (open_database cfg.database)) _ e3 in
    read_eq _ s (ap (read_database _) (sym file) ∙ (made ∙ ground (arith, e4))) refl

alone-IsServing : (s : Server) → s.peers ≡ [] → IsServing s
alone-IsServing s alone = record {
  distinct = rw alone tt;
  four = λ pid session e. absurd (none_there s.peers pid alone e);
}
  where
    none_there :
        (m : SessionTable) (pid : PeerId) {x : Session} → m ≡ [] → lookup pid m ≡ some x → ⊥
    none_there [] pid e l = cc
    none_there (y ∷ m) pid e l = cc

-- The command is started over the file that a server with a well-formed database has written. If it
-- starts, then in every state that the running server reaches, its peers have one session of four
-- addresses each, its database is well formed, and it holds, for each UUID that was written, that
-- version or a later one.
pub server_cmd-Reach :
    (st : Stun) (mp : Msgpack) (delivers : UdpAddr → Bool) (c : Crypto) (ctx : Context)
    (resolves : Bool) (id : Outcome NewServerError PeerId) (keys : Text → Option c.PublicKey)
    (open_database : Text → DatabaseFile) (before : Server) (key : c.PublicKey) (t u : Serving st)
    → IsStored c key before
    → open_database (server_config (read_server_flags ctx)).database ≡ holds before.updates
    → server_cmd st ctx resolves id keys open_database ≡ serves t key
    → Reach st mp delivers c key t u
    → IsServing u.server × IsStored c key u.server × Grows before u.server
unfolding server_cmd
server_cmd-Reach st mp delivers c ctx resolves id keys open_database before key t u stored file
      started run =
    let (s, made, same) =
      served-eq-serves st
        (new_server (server_config (read_server_flags ctx)) resolves id keys open_database)
        started in
    let (held, alone) =
      new_server-eq-ok (server_config (read_server_flags ctx)) resolves id keys open_database s key
        made file in
    let run' = subst (λ (x : Serving st). Reach st mp delivers c key x u) (sym same) run in
    (
      (Reach-IsServing st mp delivers c key s u (alone-IsServing s alone) run').0,
      Reach-IsStored c key st mp delivers run' (IsStored-same c key before s held stored),
      Grows-trans before s u.server (Grows-same before s held)
          (Reach-Grows c key st mp delivers run'),
    )
