-- ===== src/Agent/Restarting/Tests.antt =====
-- An agent that saves its update and is started again.
use p2p_update.Common.{
  ℕ, ◌≡◌, refl, Bool, true, false, none, some, [], ◌∷◌, Text, arith, decimal, Bool-cases, inl, inr,
  subst, sym, ap, ◌∙◌, ◌==◌, if◌then◌else◌, bytes_eq, bytes_equal_iff,
}
use p2p_update.Notification.{Notification, verify}
use p2p_update.Update.{Update, uuid_shell}
use p2p_update.Agent.{
  Agent, Content, metadata_content, other_content, accepts, save, metadata_filename,
}
use p2p_update.Agent.Table.{view, save-SameTable}
use p2p_update.Agent.Trust.{IsSound, SameTable-IsSound}
use p2p_update.Agent.Listing.{file_names}
use p2p_update.Agent.Files.{load_dir}
use p2p_update.Agent.Restarting.{load_dir-restores}
use p2p_update.Fixtures.{
  toy_crypto, toy_host, busy_agent, empty_agent, shell_notification, shell_update,
}

abbrev decode : Content → Update → Bool × Update
decode (metadata_content u) d = (true, record u { torrent = d.torrent })
decode other_content d = (false, d)

abbrev saved_agent : Agent
saved_agent = (save toy_host busy_agent 0).0

-- The process that is started over the files.
abbrev restarted : Agent
restarted = record empty_agent { files = saved_agent.files }

-- A table of one update.
view-one :
    (a : Agent) (j k : Text) (r : ℕ) (n : Notification)
    → a.updates ≡ (j, r) ∷ []
    → (a.heap r).notification ≡ n
    → view a k ≡ (if j == k then some n else none)
view-one a j k r n table held =
    rw table
      (elim (Bool-cases (j == k)) [ inl same ↦ rw same (ap some held) | inr other ↦ rw other refl ])

one-inj : (b : Bool) (m n : Notification) → (if b then some m else none) ≡ some n → m ≡ n
one-inj b m n e = ground arith

view-busy : (k : Text) (n : Notification) → view busy_agent k ≡ some n → shell_notification 3 ≡ n
view-busy k n e =
    one-inj (uuid_shell == k) (shell_notification 3) n
      (sym (view-one busy_agent uuid_shell k 0 (shell_notification 3) refl refl) ∙ e)

busy_agent-IsSound : IsSound toy_host toy_crypto 7 busy_agent
unfolding verify
busy_agent-IsSound = record {
  well_formed = record {
    distinct = (refl, tt);
    allocated = λ k r e. ground arith;
    keyed = λ k r e. ground (arith, bytes_equal_iff uuid_shell k);
  };
  trusted = λ k n e.
      subst (λ (m : Notification). accepts toy_host toy_crypto 7 m ≡ true) (view-busy k n e) refl;
}

saved_agent-IsSound : IsSound toy_host toy_crypto 7 saved_agent
saved_agent-IsSound =
    SameTable-IsSound toy_host toy_crypto 7 (save-SameTable toy_host busy_agent 0)
      busy_agent-IsSound

load_dir-restores_example :
    view
      (load_dir decode toy_host toy_crypto 7 restarted (file_names (shell_notification 3 ∷ [])))
      uuid_shell
    ≡ view saved_agent uuid_shell
unfolding save metadata_filename decimal
load_dir-restores_example =
    load_dir-restores decode toy_host toy_crypto 7 saved_agent restarted (shell_notification 3 ∷ [])
      uuid_shell (λ u d. refl) saved_agent-IsSound (tt, tt)
      (λ j. view-one saved_agent uuid_shell j 0 (shell_notification 3) refl refl)
      ((shell_update 3, refl, refl), tt) refl refl refl
