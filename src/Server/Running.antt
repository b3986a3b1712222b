-- ===== src/Server/Running.antt =====
-- What holds of the running server (server.go) in every state that its goroutines reach.
use p2p_update.Common.{
  ◌≤◌, ◌≡◌, ◌≢◌, refl, subst, ap, Bool, true, false, List, [], ◌∷◌, ◌++◌, length, length-append,
  All, All-append, All-middle, panic, arith, bytes_eq,
}
use p2p_update.Stun.{Stun, UdpAddr}
use p2p_update.Peer.{Msgpack, torrent_ports_get_from}
use p2p_update.Notification.{Crypto}
use p2p_update.Server.{Server, NetAddr, advertise_session_table}
use p2p_update.Server.Sessions.{IsServing}
use p2p_update.Server.Unchanged.{serve_http_request-peers, save_updates-same, IsServing-same}
use p2p_update.Server.Panics.{answer_peer-ne-panic}
use p2p_update.Server.Updates.{serve_http_request, save_updates}
use p2p_update.Server.Crashes.{
  register-IsServing, register-panic, advertise_loop-ne-panic, send_update_notification-ne-none,
}
use p2p_update.Server.Serving.{
  job_capacity, worker_count, Phase, started, answering, Serving, serving, Step, receive, take_job,
  change_table, refuse, finish, http, snapshot, crash_registering, crash_answering,
  crash_advertising, crash_broadcasting, collide, Reach, here, next,
}

module _ (st : Stun) (mp : Msgpack) (delivers : UdpAddr → Bool) where
  -- No message makes reading its torrent ports panic.
  abbrev pub IsClean : st.Message → Type 0
  IsClean req = torrent_ports_get_from st req ≢ panic

  abbrev pub IsCleanPhase : Phase st → Type 0
  IsCleanPhase (started addr req) = IsClean req
  IsCleanPhase (answering pid req updated) = Unit

  -- The invariant of the running server: what is not clean has been read.
  record IsRunning (t : Serving st) : Type 0 where
    pub sessions : IsServing t.server
    pub queued : length t.jobs ≤ job_capacity
    pub busy : length t.workers ≤ worker_count
    pub clean_jobs : All IsClean t.log → All (λ (j : NetAddr × st.Message). IsClean j.1) t.jobs
    pub clean_workers : All IsClean t.log → All IsCleanPhase t.workers
    pub alive : All IsClean t.log → t.raced ≡ false → t.crashed ≡ false

  module _ (c : Crypto) (public_key : c.PublicKey) where
    -- What the steps leave to be shown where they panic.
    crash-IsRunning :
        (t : Serving st)
        → IsRunning t
        → (All IsClean t.log → ⊥)
        → IsRunning (record t { crashed = true })
    crash-IsRunning t h n = record {
      sessions = h.sessions;
      queued = h.queued;
      busy = h.busy;
      clean_jobs = h.clean_jobs;
      clean_workers = h.clean_workers;
      alive = λ l u. absurd (n l);
    }

    change-IsRunning :
        (t : Serving st) (s : Server)
        → IsRunning t
        → IsServing s
        → IsRunning (record t { server = s })
    change-IsRunning t s h i = record {
      sessions = i;
      queued = h.queued;
      busy = h.busy;
      clean_jobs = h.clean_jobs;
      clean_workers = h.clean_workers;
      alive = h.alive;
    }

    length-replace :
        {A : Type 0} (xs : List A) (y z : A) (ys : List A)
        → length (xs ++ z ∷ ys) ≡ length (xs ++ y ∷ ys)
    length-replace xs y z ys = omega (arith, length-append xs (z ∷ ys), length-append xs (y ∷ ys))

    -- A worker's phase is replaced by one with no request to be read.
    replace-IsRunning :
        (t : Serving st) (before after : List (Phase st)) (p q : Phase st)
        → IsRunning t
        → t.workers ≡ before ++ p ∷ after
        → IsCleanPhase q
        → IsRunning (record t { workers = before ++ q ∷ after })
    replace-IsRunning t before after p q h e k = record {
      sessions = h.sessions;
      queued = h.queued;
      busy = omega (arith, h.busy, ap length e, length-replace before p q after);
      clean_jobs = h.clean_jobs;
      clean_workers = λ l.
          let (b, m, a) =
            All-middle IsCleanPhase before p after
              (subst (All IsCleanPhase) e (h.clean_workers l)) in
          All-append IsCleanPhase before (q ∷ after) b (k, a);
      alive = h.alive;
    }

    remove-IsRunning :
        (t : Serving st) (before after : List (Phase st)) (p : Phase st)
        → IsRunning t
        → t.workers ≡ before ++ p ∷ after
        → IsRunning (record t { workers = before ++ after })
    remove-IsRunning t before after p h e = record {
      sessions = h.sessions;
      queued = h.queued;
      busy = omega (
        arith,
        h.busy,
        ap length e,
        length-append before (p ∷ after),
        length-append before after,
      );
      clean_jobs = h.clean_jobs;
      clean_workers = λ l.
          let (b, m, a) =
            All-middle IsCleanPhase before p after
              (subst (All IsCleanPhase) e (h.clean_workers l)) in
          All-append IsCleanPhase before after b a;
      alive = h.alive;
    }

    Step-IsRunning :
        {t u : Serving st} → Step st mp delivers c public_key t u → IsRunning t → IsRunning u
    Step-IsRunning (receive t bytes addr req f e n) h = record {
      sessions = h.sessions;
      queued = omega (arith, n, length-append t.jobs ((addr, req) ∷ []));
      busy = h.busy;
      clean_jobs = λ l.
          All-append (λ (j : NetAddr × st.Message). IsClean j.1) t.jobs ((addr, req) ∷ [])
            (h.clean_jobs l.1) (l.0, tt);
      clean_workers = λ l. h.clean_workers l.1;
      alive = λ l. h.alive l.1;
    }
    Step-IsRunning (take_job t addr req rest f e n) h = record {
      sessions = h.sessions;
      queued = omega (arith, h.queued, ap length e);
      busy = omega (arith, n);
      clean_jobs =
          λ l. (subst (All (λ (j : NetAddr × st.Message). IsClean j.1)) e (h.clean_jobs l)).1;
      clean_workers = λ l. (
        (subst (All (λ (j : NetAddr × st.Message). IsClean j.1)) e (h.clean_jobs l)).0,
        h.clean_workers l,
      );
      alive = h.alive;
    }
    Step-IsRunning (change_table t before after addr req s pid updated f e r) h =
        change-IsRunning (record t { workers = before ++ answering pid req updated ∷ after }) s
          (replace-IsRunning t before after (started addr req) (answering pid req updated) h e tt)
          (register-IsServing st mp delivers t.server s addr req h.sessions r)
    Step-IsRunning (refuse t before after addr req error f e r) h =
        remove-IsRunning t before after (started addr req) h e
    Step-IsRunning (finish t before after pid req updated f e n) h =
        remove-IsRunning t before after (answering pid req updated) h e
    Step-IsRunning (http t r now f) h =
        change-IsRunning t (serve_http_request c public_key t.server r now).0 h
          (IsServing-same (serve_http_request-peers c public_key t.server r now) h.sessions)
    Step-IsRunning (snapshot t file result f) h =
        change-IsRunning t (save_updates t.server file result).0 h
          (IsServing-same (save_updates-same t.server file result).0 h.sessions)
    Step-IsRunning (crash_registering t before after addr req e r) h = crash-IsRunning t h (λ l.
        let (b, clean, a) =
          All-middle IsCleanPhase before (started addr req) after
            (subst (All IsCleanPhase) e (h.clean_workers l)) in
        clean (register-panic st mp delivers t.server addr req r))
    Step-IsRunning (crash_answering t before after pid req updated e r) h =
        crash-IsRunning t h
          (λ l. answer_peer-ne-panic st mp delivers t.server h.sessions pid req updated r)
    Step-IsRunning (crash_advertising t r) h = crash-IsRunning t h (λ l.
        unfold advertise_session_table in
        advertise_loop-ne-panic st mp delivers t.server t.server.peers h.sessions r)
    Step-IsRunning (crash_broadcasting t bytes r) h =
        crash-IsRunning t h
          (λ l. send_update_notification-ne-none st mp delivers t.server bytes h.sessions r)
    Step-IsRunning (collide t before after left right addr req asked s pid other f e o r) h =
        record {
          sessions = h.sessions;
          queued = h.queued;
          busy = h.busy;
          clean_jobs = h.clean_jobs;
          clean_workers = h.clean_workers;
          alive = λ l u. absurd (cc);
        }

    serving-IsRunning : (s : Server) → IsServing s → IsRunning (serving st s)
    serving-IsRunning s i = record {
      sessions = i;
      queued = omega arith;
      busy = omega arith;
      clean_jobs = λ l. tt;
      clean_workers = λ l. tt;
      alive = λ l u. refl;
    }

    Reach-IsRunning :
        (s : Server) {t : Serving st}
        → IsServing s
        → Reach st mp delivers c public_key (serving st s) t
        → IsRunning t
    Reach-IsRunning s i here = serving-IsRunning s i
    Reach-IsRunning s i (next r step) = Step-IsRunning step (Reach-IsRunning s i r)

    -- In every state that the reader, the workers, the HTTP requests, the broadcasts and the timers
    -- reach in any order from a server whose peers have one session of four addresses each, this is
    -- still so, at most a hundred requests are queued and at most three are worked on.
    pub Reach-IsServing :
        (s : Server) (t : Serving st)
        → IsServing s
        → Reach st mp delivers c public_key (serving st s) t
        → IsServing t.server × (length t.jobs ≤ 100) × (length t.workers ≤ 3)
    Reach-IsServing s t i r = let h = Reach-IsRunning s i r in (h.sessions, h.queued, h.busy)

    -- From a server whose peers have one session of four addresses each, only two things end the
    -- process, in any order of the goroutines and the clients: a request was read for which reading
    -- the torrent ports panics, or a worker has iterated over the table of sessions, without the
    -- lock, while another changed it.
    pub Reach-alive :
        (s : Server) (t : Serving st)
        → IsServing s
        → Reach st mp delivers c public_key (serving st s) t
        → All IsClean t.log
        → t.raced ≡ false
        → t.crashed ≡ false
    Reach-alive s t i r clean apart = (Reach-IsRunning s i r).alive clean apart
