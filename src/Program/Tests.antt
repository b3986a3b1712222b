-- ===== src/Program/Tests.antt =====
-- A server that is started without flags over the file of another.
use p2p_update.Common.{ℕ, ◌≡◌, refl, true, false, some, [], ◌∷◌, ok, bytes_eq}
use p2p_update.Server.{Server}
use p2p_update.Server.Sessions.{IsServing}
use p2p_update.Server.History.{IsStored, Grows}
use p2p_update.Server.Serving.{Serving, serving, here, next, snapshot}
use p2p_update.Server.Updates.{load_updates, save_updates, saved}
use p2p_update.Server.Startup.{holds, new_server, server_config}
use p2p_update.Program.{Context, read_server_flags, server_cmd, serves}
use p2p_update.Program.Restoring.{server_cmd-Reach}
use p2p_update.Fixtures.{plain_stun, no_codec, everywhere, toy_crypto}
use p2p_update.Fixtures.Stored.{stored_server, stored_server-IsStored}

-- Flags that are given as the empty text and as 0.
abbrev no_values : Context
no_values = record {
  text = λ name. [];
  number = λ name. 0;
  bool = λ name. false;
  is_given = λ name. true;
}

abbrev restored : Server
restored = record stored_server {
  id = 9 ∷ [];
  stun_password = (server_config (read_server_flags no_values)).stun_password;
  last_modified = 0;
  last_saved = 0;
}

started :
    server_cmd {K = ℕ} plain_stun no_values true
      (ok (9 ∷ []))
      (λ name. some 7)
      (λ path. holds stored_server.updates)
    ≡ serves (serving plain_stun restored) 7
unfolding server_cmd new_server server_config load_updates
started = refl

abbrev later : Serving plain_stun
later = record (serving plain_stun restored) {
  server = (save_updates restored (some stored_server.updates) saved).0;
}

server_cmd-Reach_example :
    IsServing later.server × IsStored toy_crypto 7 later.server × Grows stored_server later.server
server_cmd-Reach_example =
    server_cmd-Reach plain_stun no_codec everywhere toy_crypto no_values true (ok (9 ∷ []))
      (λ name. some 7) (λ path. holds stored_server.updates) stored_server 7
      (serving plain_stun restored) later stored_server-IsStored refl started
      (next here (snapshot (serving plain_stun restored) (some stored_server.updates) saved refl))
