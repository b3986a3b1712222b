-- ===== src/Agent/Restarting.antt =====
-- An agent that is started again from its metadata files (loadUpdates in agent.go, LoadUpdateFromFile
-- and Save in update.go).
use p2p_update.Common.{
  ℕ, ◌≡◌, ◌≢◌, refl, sym, ap, subst, ◌∙◌, Bool, true, false, not, ◌&&◌, Option, none, some, List,
  [], ◌∷◌, Text, if◌then◌else◌, arith, All, Bool-cases, Option-cases, inl, inr, ◌==◌, bytes_eq,
  bytes_equal_iff, beq_refl,
}
use p2p_update.Common.Dict.{Dict, lookup}
use p2p_update.Notification.{Notification, Crypto}
use p2p_update.Update.{Update}
use p2p_update.Agent.{
  Agent, Host, Content, metadata_content, metadata_filename, accepts, allocate, start, add_update,
  activate, torrent_metainfo, retire,
}
use p2p_update.Agent.Table.{view}
use p2p_update.Agent.Trust.{IsSound, heap-allocate, start_new, start_new-IsSound, view-start_new}
use p2p_update.Agent.Ordering.{AreDistinct}
use p2p_update.Agent.Naming.{file_name}
use p2p_update.Agent.Sources.{load_update}
use p2p_update.Agent.Listing.{find, file_names, find-cons, All-find, All-every}
use p2p_update.Agent.Files.{load_update_from_file, load_dir, blank_update}
mod Tests

-- The file at the path has an update with that notification, as `Save` writes it.
abbrev pub IsSavedAt : Dict Text Content → Text → Notification → Type 0
IsSavedAt files path n =
    (u : Update) × (u.notification ≡ n) × (lookup path files ≡ some (metadata_content u))

module _ (decode : Content → Update → Bool × Update) (h : Host) (c : Crypto)
    (public_key : c.PublicKey) where
  activate-files :
      (a : Agent) (r : ℕ)
      → ((activate h a r).0.files ≡ a.files) × ((activate h a r).0.metadata_dir ≡ a.metadata_dir)
  unfolding activate torrent_metainfo
  activate-files a r = ground arith

  -- Starting an update of a UUID that is not held touches no file.
  start-files :
      (a : Agent) (r : ℕ)
      → lookup (a.heap r).notification.uuid a.updates ≡ none
      → let a' = (start h c public_key a r).0 in
        (a'.files ≡ a.files) × (a'.metadata_dir ≡ a.metadata_dir)
  unfolding start add_update retire
  start-files a r absent = elim (Bool-cases (accepts h c public_key (a.heap r).notification)) [
    | inl fine ↦ rw (fine, absent) (activate-files _ r)
    | inr wrong ↦ rw wrong (refl, refl)
  ]

  start_new-files :
      (a : Agent) (u : Update)
      → lookup u.notification.uuid a.updates ≡ none
      → ((start_new h c public_key a u).files ≡ a.files)
        × ((start_new h c public_key a u).metadata_dir ≡ a.metadata_dir)
  start_new-files a u absent =
      let a' = (allocate a u).0 in
      let r = (allocate a u).1 in
      let there : lookup (a'.heap r).notification.uuid a'.updates ≡ none =
        rw (heap-allocate a u) (unfold allocate in absent) in
      unfold allocate in start-files a' r there

  view-none : (a : Agent) (k : Text) → view a k ≡ none → lookup k a.updates ≡ none
  view-none a k e = ground arith

  -- JSON carries every field of an update but its torrent.
  abbrev pub IsFaithful : Type 0
  IsFaithful =
      (u d : Update) → decode (metadata_content u) d ≡ (true, record u { torrent = d.torrent })

  load_update_from_file-saved :
      (a : Agent) (u : Update) (path : Text)
      → IsFaithful
      → lookup path a.files ≡ some (metadata_content u)
      → load_update_from_file decode a path ≡ some (record u { torrent = none })
  unfolding load_update_from_file
  load_update_from_file-saved a u path law there = ground (arith, there, law u blank_update)

  -- Loading the file of a notification that is accepted starts an update of it.
  load_update-saved :
      (a : Agent) (n : Notification) (path : Text)
      → IsFaithful
      → accepts h c public_key n ≡ true
      → IsSavedAt a.files path n
      → (u : Update) × (u.notification ≡ n)
        × (load_update h c public_key a (load_update_from_file decode a path)
            ≡ start_new h c public_key a u)
  load_update-saved a n path law fine (u, same, there) =
      let u' = record u { torrent = none } in
      (
        u',
        same,
        ap (load_update h c public_key a) (load_update_from_file-saved a u path law there)
            ∙ load_update-accepted a u' (rw same fine),
      )
    where
      load_update-accepted :
          (a : Agent) (u : Update)
          → accepts h c public_key u.notification ≡ true
          → load_update h c public_key a (some u) ≡ start_new h c public_key a u
      load_update-accepted a u fine = unfold load_update in rw fine refl

  -- Then the agent shows the notification, where it had none of its UUID.
  start_new-shows :
      (a : Agent) (u : Update) (n : Notification) (k : Text)
      → IsSound h c public_key a
      → u.notification ≡ n
      → accepts h c public_key n ≡ true
      → view a n.uuid ≡ none
      → view (start_new h c public_key a u) k ≡ (if n.uuid == k then some n else view a k)
  start_new-shows a u n k s same fine absent =
      view-start_new h c public_key a u k s.well_formed ∙ rw (same, fine, absent) refl

  load_dir-view :
      (a : Agent) (ns : List Notification) (k : Text)
      → IsFaithful
      → IsSound h c public_key a
      → AreDistinct ns
      → All (λ n. accepts h c public_key n ≡ true) ns
      → All (λ n. view a n.uuid ≡ none) ns
      → All (λ n. IsSavedAt a.files (h.sys.join a.metadata_dir (file_name n)) n) ns
      → view (load_dir decode h c public_key a (file_names ns)) k
        ≡ elim (find k ns) [ none ↦ view a k | some n ↦ some n ]
  unfolding load_dir
  load_dir-view a [] k law s d fine absent saved = refl
  load_dir-view a (n ∷ ns) k law s d fine absent saved =
      let (u, same, loaded) =
        load_update-saved a n (h.sys.join a.metadata_dir (file_name n)) law fine.0 saved.0 in
      let b = start_new h c public_key a u in
      let shows = λ (j : Text). start_new-shows a u n j s same fine.0 absent.0 in
      let (files, dir) = start_new-files a u (rw same (view-none a n.uuid absent.0)) in
      ap (λ (x : Agent). view (load_dir decode h c public_key x (file_names ns)) k) loaded
      ∙ (load_dir-view b ns k law (start_new-IsSound h c public_key a u s) d.1 fine.1
            (still_absent b a n ns shows d.0 absent.1) (rw (files, dir) saved.1)
          ∙ find-cons n ns k (view b k) (view a k) (shows k) d.0)
    where
      still_absent :
          (b a : Agent) (n : Notification) (ns : List Notification)
          → ((j : Text) → view b j ≡ (if n.uuid == j then some n else view a j))
          → All (λ m. n.uuid ≢ m.uuid) ns
          → All (λ m. view a m.uuid ≡ none) ns
          → All (λ m. view b m.uuid ≡ none) ns
      still_absent b a n [] shows d absent = tt
      still_absent b a n (m ∷ ns) shows d absent = (
        shows m.uuid ∙ ground (arith, d.0, absent.0, bytes_equal_iff n.uuid m.uuid),
        still_absent b a n ns shows d.1 absent.1,
      )

  -- A restart restores the table. A sound agent `a` shows, for each UUID, what a list of notifications,
  -- no two of one UUID, has for it; the metadata file of each was saved; and an agent that holds no
  -- update is started over the same files, the names of which it lists in the order of that list. If
  -- the JSON decoder restores what the encoder wrote, it shows for every UUID what `a` showed.
  pub load_dir-restores :
      (a b : Agent) (ns : List Notification) (k : Text)
      → IsFaithful
      → IsSound h c public_key a
      → AreDistinct ns
      → ((j : Text) → view a j ≡ find j ns)
      → All (λ n. IsSavedAt a.files (metadata_filename h a n) n) ns
      → b.updates ≡ []
      → b.files ≡ a.files
      → b.metadata_dir ≡ a.metadata_dir
      → view (load_dir decode h c public_key b (file_names ns)) k ≡ view a k
  unfolding metadata_filename
  load_dir-restores a b ns k law s d shown saved empty files dir =
      let nothing = λ (j : Text). view-empty b j empty in
      load_dir-view b ns k law (empty-IsSound b empty) d
        (All-find (λ n. accepts h c public_key n ≡ true) ns d
          (λ j n e. s.trusted j n (shown j ∙ e)))
        (All-every (λ n. view b n.uuid ≡ none) ns (λ n. nothing n.uuid)) (rw (files, dir) saved)
      ∙ ground (arith, shown k, nothing k)
    where
      no_entry : (m : Dict Text ℕ) (k : Text) (r : ℕ) → m ≡ [] → lookup k m ≡ some r → ⊥
      no_entry [] k r e l = cc
      no_entry (x ∷ m) k r e l = cc

      view-empty : (b : Agent) (j : Text) → b.updates ≡ [] → view b j ≡ none
      view-empty b j e = rw e refl

      empty-IsSound : (b : Agent) → b.updates ≡ [] → IsSound h c public_key b
      empty-IsSound b e = record {
        well_formed = record {
          distinct = rw e tt;
          allocated = λ k r l. absurd (no_entry b.updates k r e l);
          keyed = λ k r l. absurd (no_entry b.updates k r e l);
        };
        trusted = λ k n l. absurd (ground (arith, view-empty b k e, l));
      }
