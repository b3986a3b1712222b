-- ===== src/Agent/Trust.antt =====
-- What holds of an agent (agent.go, update.go) whatever it receives: its table is well formed and its
-- versions only grow; and where no signature is overwritten, every update that it holds carries an
-- accepted one.
use p2p_update.Common.{
  ℕ, ◌<◌, ◌≤◌, ◌≡◌, refl, sym, subst, ◌∙◌, ap, Bool, true, ◌&&◌, Option, none, some, List, [], ◌∷◌,
  Text, if◌then◌else◌, arith, Option-cases, Bool-cases, inl, inr, bytes_eq, ◌==◌, bytes_equal_iff,
}
use p2p_update.Common.Dict.{Dict, lookup, lookup-insert, HasDistinctKeys, HasDistinctKeys-insert}
use p2p_update.Notification.{Notification, Signature, Crypto}
use p2p_update.Update.{Update, new_update}
use p2p_update.Agent.{Agent, Host, allocate, accepts, start}
use p2p_update.Agent.Table.{view, SameTable, SameTable-view}
use p2p_update.Agent.Starting.{takes, view-start, start-SameTable, start-unchanged}
use p2p_update.Agent.Sources.{has, write_shared, receive, receive_all, load_update, load_updates}

-- The table's keys are the UUIDs of the updates, whose objects are allocated.
pub record IsWellFormed (a : Agent) : Type 0 where
  pub distinct : HasDistinctKeys a.updates
  pub allocated : (k : Text) (r : ℕ) → lookup k a.updates ≡ some r → r < a.next
  pub keyed : (k : Text) (r : ℕ) → lookup k a.updates ≡ some r → (a.heap r).notification.uuid ≡ k

-- Taking a new object leaves what the table shows.
pub view-allocate :
    (a : Agent) (u : Update) → IsWellFormed a → (k : Text) → view (allocate a u).0 k ≡ view a k
unfolding allocate
view-allocate a u w k = elim (Option-cases (lookup k a.updates)) [
  | inl absent ↦ ground arith
  | inr (r, present) ↦ ground (arith, w.allocated k r)
]

allocate-lt : (a : Agent) (u : Update) → (allocate a u).1 < (allocate a u).0.next
unfolding allocate
allocate-lt a u = omega arith

pub heap-allocate : (a : Agent) (u : Update) → (allocate a u).0.heap (allocate a u).1 ≡ u
unfolding allocate
heap-allocate a u = ground arith

allocate-IsWellFormed : (a : Agent) (u : Update) → IsWellFormed a → IsWellFormed (allocate a u).0
unfolding allocate
allocate-IsWellFormed a u w = record {
  distinct = w.distinct;
  allocated = λ k r e. ground (arith, w.allocated k r);
  keyed = λ k r e. ground (arith, w.allocated k r, w.keyed k r);
}

pub SameTable-IsWellFormed : {a b : Agent} → SameTable a b → IsWellFormed a → IsWellFormed b
SameTable-IsWellFormed {a} {b} s w = record {
  distinct = subst HasDistinctKeys (sym s.updates) w.distinct;
  allocated = λ k r e. ground (arith, s.next, w.allocated k r, ap (lookup k) s.updates);
  keyed = λ k r e. ground (arith, s.notifications r, w.keyed k r, ap (lookup k) s.updates);
}

module _ (h : Host) (c : Crypto) (public_key : c.PublicKey) where
  abbrev accept : Notification → Bool
  accept = accepts h c public_key

  -- `Start` of an allocated object keeps the table well formed.
  pub start-IsWellFormed :
      (a : Agent) (r : ℕ) → r < a.next → IsWellFormed a → IsWellFormed (start h c public_key a r).0
  start-IsWellFormed a r fresh w =
      let n = (a.heap r).notification in
      elim (Bool-cases (takes accept (view a n.uuid) n)) [
        | inl taken ↦ SameTable-IsWellFormed (start-SameTable h c public_key a r taken) (record {
          distinct = HasDistinctKeys-insert n.uuid r a.updates w.distinct;
          allocated = λ k q e. ground (arith, lookup-insert n.uuid k r a.updates, w.allocated k q);
          keyed = λ k q e.
              ground
                (arith, lookup-insert n.uuid k r a.updates, w.keyed k q, bytes_equal_iff n.uuid k);
        })
        | inr refused ↦ rw (start-unchanged h c public_key a r refused) w
      ]

  -- `Start` of a new object, which is how every caller starts an update.
  abbrev pub start_new : Agent → Update → Agent
  start_new a u = (start h c public_key (allocate a u).0 (allocate a u).1).0

  pub start_new-IsWellFormed :
      (a : Agent) (u : Update) → IsWellFormed a → IsWellFormed (start_new a u)
  start_new-IsWellFormed a u w =
      start-IsWellFormed (allocate a u).0 (allocate a u).1 (allocate-lt a u)
        (allocate-IsWellFormed a u w)

  pub view-start_new :
      (a : Agent) (u : Update) (k : Text)
      → IsWellFormed a
      → let n = u.notification in
        view (start_new a u) k
        ≡ (if takes accept (view a n.uuid) n && (n.uuid == k) then some n else view a k)
  view-start_new a u k w =
      let a' = (allocate a u).0 in
      let n = u.notification in
      let shown = λ (m : Notification).
        if takes accept (view a' m.uuid) m && (m.uuid == k) then some m else view a' k in
      view-start h c public_key a' (allocate a u).1 k
      ∙ (ap (λ (v : Update). shown v.notification) (heap-allocate a u)
          ∙ ground (arith, view-allocate a u w k, view-allocate a u w n.uuid))

  -- Every update that the agent holds has a signature that its public key accepts.
  abbrev pub IsTrusted : Agent → Type 0
  IsTrusted a = (k : Text) (n : Notification) → view a k ≡ some n → accept n ≡ true

  -- `b` holds, for each UUID of `a`, the same version or a later one.
  abbrev pub Grows : Agent → Agent → Type 0
  Grows a b =
      (k : Text) (n : Notification)
      → view a k ≡ some n
      → (n' : Notification) × (view b k ≡ some n') × (n.version ≤ n'.version)

  pub start_new-IsTrusted :
      (a : Agent) (u : Update) → IsWellFormed a → IsTrusted a → IsTrusted (start_new a u)
  start_new-IsTrusted a u w t k n e = ground (arith, view-start_new a u k w, t k n)

  pub start_new-Grows : (a : Agent) (u : Update) → IsWellFormed a → Grows a (start_new a u)
  start_new-Grows a u w k n e =
      let m = u.notification in
      elim (Bool-cases (takes accept (view a m.uuid) m && (m.uuid == k))) [
        | inl taken ↦ (
          m,
          ground (arith, view-start_new a u k w),
          ground (arith, view-start_new a u k w, bytes_equal_iff m.uuid k),
        )
        | inr kept ↦ (n, view-start_new a u k w ∙ rw kept e, omega arith)
      ]

  -- The invariant of an agent between two operations.
  pub record IsSound (a : Agent) : Type 0 where
    pub well_formed : IsWellFormed a
    pub trusted : IsTrusted a

  pub start_new-IsSound : (a : Agent) (u : Update) → IsSound a → IsSound (start_new a u)
  start_new-IsSound a u s = record {
    well_formed = start_new-IsWellFormed a u s.well_formed;
    trusted = start_new-IsTrusted a u s.well_formed s.trusted;
  }

  pub Grows-refl : (a : Agent) → Grows a a
  Grows-refl a k n e = (n, e, omega arith)

  pub Grows-trans : (a b c' : Agent) → Grows a b → Grows b c' → Grows a c'
  Grows-trans a b c' f g k n e =
      let (m, e', le) = f k n e in let (m', e'', le') = g k m e' in (m', e'', omega arith)

  pub receive-eq :
      (a : Agent) (n : Notification) → (receive h c public_key a n).0 ≡ start_new a (new_update n)
  unfolding receive
  receive-eq a n = refl

  pub receive-IsSound :
      (a : Agent) (n : Notification) → IsSound a → IsSound (receive h c public_key a n).0
  receive-IsSound a n s = rw receive-eq (start_new-IsSound a (new_update n) s)

  pub receive-IsWellFormed :
      (a : Agent) (n : Notification) → IsWellFormed a → IsWellFormed (receive h c public_key a n).0
  receive-IsWellFormed a n w = rw receive-eq (start_new-IsWellFormed a (new_update n) w)

  pub receive-Grows :
      (a : Agent) (n : Notification) → IsWellFormed a → Grows a (receive h c public_key a n).0
  receive-Grows a n w = rw receive-eq (start_new-Grows a (new_update n) w)

  -- What the loop of `readTCP` leaves when no entry of the map is null: the table is well formed, and
  -- no update has been lost or replaced by an older version.
  pub receive_all-IsWellFormed :
      (a b : Agent) (ns : List (Option Notification))
      → IsWellFormed a
      → receive_all h c public_key a ns ≡ some b
      → IsWellFormed b × Grows a b
  unfolding receive_all
  receive_all-IsWellFormed a b [] w e =
      let same : a ≡ b = cc in (subst IsWellFormed same w, subst (Grows a) same (Grows-refl a))
  receive_all-IsWellFormed a b (none ∷ ns) w e = cc
  receive_all-IsWellFormed a b (some n ∷ ns) w e =
      let a' = (receive h c public_key a n).0 in
      let (kept, grown) = receive_all-IsWellFormed a' b ns (receive-IsWellFormed a n w) e in
      (kept, Grows-trans a a' b (receive-Grows a n w) grown)

  load_update-IsSound :
      (a : Agent) (f : Option Update)
      → IsSound a
      → IsSound (load_update h c public_key a f) × Grows a (load_update h c public_key a f)
  unfolding load_update
  load_update-IsSound a none s = (s, Grows-refl a)
  load_update-IsSound a (some u) s = elim (Bool-cases (accept u.notification)) [
    | inl accepted ↦ rw accepted (start_new-IsSound a u s, start_new-Grows a u s.well_formed)
    | inr rejected ↦ rw rejected (s, Grows-refl a)
  ]

  -- Loading the files of an earlier run, whatever they hold, keeps the agent sound, and loses no
  -- update and no version that it had.
  pub load_updates-IsSound :
      (a : Agent) (fs : List (Option Update))
      → IsSound a
      → IsSound (load_updates h c public_key a fs) × Grows a (load_updates h c public_key a fs)
  unfolding load_updates
  load_updates-IsSound a [] s = (s, Grows-refl a)
  load_updates-IsSound a (f ∷ fs) s =
      let a' = load_update h c public_key a f in
      let (sound, grown) = load_update-IsSound a f s in
      let (sound', grown') = load_updates-IsSound a' fs sound in
      (sound', Grows-trans a a' (load_updates h c public_key a' fs) grown grown')

  uuid-write_shared :
      (m : Option (Dict Text Signature)) (rs : List ℕ) (a : Agent) (q : ℕ)
      → let u = (write_shared m rs a).heap q in
        (u.notification.uuid ≡ (a.heap q).notification.uuid)
        × (u.notification.version ≡ (a.heap q).notification.version)
  uuid-write_shared none rs a q = (refl, refl)
  uuid-write_shared (some m) rs a q = elim (Bool-cases (has q rs)) [
    | inl shared ↦ rw shared (refl, refl)
    | inr own ↦ rw own (refl, refl)
  ]

  pub updates-write_shared :
      (m : Option (Dict Text Signature)) (rs : List ℕ) (a : Agent)
      → ((write_shared m rs a).updates ≡ a.updates) × ((write_shared m rs a).next ≡ a.next)
  updates-write_shared none rs a = (refl, refl)
  updates-write_shared (some m) rs a = (refl, refl)

  -- Signatures that are written over leave the table well formed, with its UUIDs and versions.
  pub write_shared-IsWellFormed :
      (m : Option (Dict Text Signature)) (rs : List ℕ) (a : Agent)
      → IsWellFormed a
      → IsWellFormed (write_shared m rs a)
  write_shared-IsWellFormed m rs a w =
      let (updates, next) = updates-write_shared m rs a in
      record {
        distinct = subst HasDistinctKeys (sym updates) w.distinct;
        allocated = λ k r e.
            subst (λ (x : ℕ). r < x) (sym next) (w.allocated k r (ap (lookup k) (sym updates) ∙ e));
        keyed =
            λ k r e. (uuid-write_shared m rs a r).0 ∙ w.keyed k r (ap (lookup k) (sym updates) ∙ e);
      }

  pub view-write_shared :
      (m : Option (Dict Text Signature)) (rs : List ℕ) (a : Agent) (k : Text)
      → view a k ≡ none
      → view (write_shared m rs a) k ≡ none
  view-write_shared m rs a k gone = elim (Option-cases (lookup k a.updates)) [
    | inl absent ↦ rw ((updates-write_shared m rs a).0, absent) refl
    | inr (r, present) ↦ absurd (ground (arith, present, gone))
  ]

  pub write_shared-Grows :
      (m : Option (Dict Text Signature)) (rs : List ℕ) (a : Agent) → Grows a (write_shared m rs a)
  write_shared-Grows m rs a k n e = elim (Option-cases (lookup k a.updates)) [
    | inl absent ↦ absurd (ground (arith, absent, e))
    | inr (r, present) ↦ (
      ((write_shared m rs a).heap r).notification,
      rw ((updates-write_shared m rs a).0, present) refl,
      ground (arith, present, e, uuid-write_shared m rs a r),
    )
  ]

  -- An operation on the objects that leaves the table keeps the agent sound.
  pub SameTable-IsSound : {a b : Agent} → SameTable a b → IsSound a → IsSound b
  SameTable-IsSound {a} {b} t s = record {
    well_formed = SameTable-IsWellFormed t s.well_formed;
    trusted = λ k n e. s.trusted k n (sym (SameTable-view t k) ∙ e);
  }
