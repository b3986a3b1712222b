-- ===== src/Server/Database.antt =====
-- The database of the server (server.go) without the order of its entries, and what a series of POSTs
-- makes of it.
use p2p_update.Common.{
  ℕ, ◌≡◌, ◌≢◌, ◌⊎◌, inl, inr, refl, sym, ap, ap₂, subst, ◌∙◌, Bool, true, ◌&&◌, Option, none, some,
  List, [], ◌∷◌, Text, if◌then◌else◌, ltb, arith, Bool-cases, ◌==◌, bytes_eq, bytes_equal_iff,
  beq_refl,
}
use mathlib.Core.List.{Permᴰ}
use mathlib.Core.Quot.{Quot, Quot-set}
use mathlib.Core.Quot
use p2p_update.Common.Dict.{Dict, lookup, insert, lookup-insert}
use p2p_update.Common.Pairwise.{Pairwise, fold, fold-Perm}
use p2p_update.Notification.{Notification, Crypto}
use p2p_update.Server.{Server}
use p2p_update.Server.Updates.{accepted, serve_post_request}

-- Two tables hold the same notification for each UUID.
abbrev pub SameEntries : Dict Text Notification → Dict Text Notification → Type 0
SameEntries m m' = (k : Text) → lookup k m ≡ lookup k m'

-- A database is a table whose order is forgotten.
abbrev pub Database : Type 0
Database = Quot SameEntries

abbrev pub database : Server → Database
database s = Quot.mk s.updates

-- Two notifications that can be posted in either order: they are of different UUIDs, of different
-- versions, or the same.
abbrev pub Agree : Notification → Notification → Type 0
Agree n m = (n.uuid ≢ m.uuid) ⊎ (n.version ≢ m.version) ⊎ (n ≡ m)

Agree-symm : (n m : Notification) → Agree n m → Agree m n
Agree-symm n m (inl d) = inl (λ e. d (sym e))
Agree-symm n m (inr (inl d)) = inr (inl (λ e. d (sym e)))
Agree-symm n m (inr (inr same)) = inr (inr (sym same))

-- The specification: a register for each UUID, which takes what is accepted and newer.
abbrev pub newer : Option Notification → Notification → Bool
newer none n = true
newer (some old) n = ltb old.version n.version

module _ (accept : Notification → Bool) where
  abbrev pub put : Dict Text Notification → Notification → Dict Text Notification
  put m n = if accept n && newer (lookup n.uuid m) n then insert n.uuid n m else m

  lookup-put :
      (m : Dict Text Notification) (n : Notification) (k : Text)
      → lookup k (put m n)
        ≡ (if accept n && newer (lookup n.uuid m) n && (n.uuid == k) then some n else lookup k m)
  lookup-put m n k = ground (arith, lookup-insert n.uuid k n m)

  -- What a notification does to the register of its UUID.
  abbrev take : Option Notification → Notification → Option Notification
  take v n = if accept n && newer v n then some n else v

  abbrev act : Text → Option Notification → Notification → Option Notification
  act k v n = if n.uuid == k then take v n else v

  lookup-put-act :
      (m : Dict Text Notification) (n : Notification) (k : Text)
      → lookup k (put m n) ≡ act k (lookup k m) n
  lookup-put-act m n k = elim (Bool-cases (n.uuid == k)) [
    | inl same ↦ rw same (
        subst (λ (j : Text). lookup j (put m n) ≡ take (lookup j m) n)
          ((bytes_equal_iff n.uuid k).0 same)
          (lookup-put m n n.uuid ∙ ground (arith, beq_refl n.uuid)))
    | inr other ↦ lookup-put m n k ∙ ground (arith, other)
  ]

  put-SameEntries :
      (n : Notification) (m m' : Dict Text Notification)
      → SameEntries m m'
      → SameEntries (put m n) (put m' n)
  put-SameEntries n m m' same k =
      lookup-put-act m n k ∙ (ap (λ v. act k v n) (same k) ∙ sym (lookup-put-act m' n k))

  take_comm :
      (v : Option Notification) (n n' : Notification)
      → (n.version ≢ n'.version) ⊎ (n ≡ n')
      → take (take v n) n' ≡ take (take v n') n
  take_comm v n n' (inr same) = ap₂ (λ x y. take (take v x) y) same (sym same)
  take_comm none n n' (inl differ) = ground (arith, differ)
  take_comm (some old) n n' (inl differ) = ground (arith, differ)

  act_comm :
      (k : Text) (v : Option Notification) (n n' : Notification)
      → Agree n n'
      → act k (act k v n) n' ≡ act k (act k v n') n
  act_comm k v n n' agree = elim (Bool-cases (n.uuid == k)) [
    | inr other ↦ rw other refl
    | inl same ↦ elim (Bool-cases (n'.uuid == k)) [
      | inr other ↦ rw (same, other) refl
      | inl same' ↦ rw (same, same') (take_comm v n n' (one_uuid agree same same'))
    ]
  ]
    where
      one_uuid :
          Agree n n'
          → (n.uuid == k) ≡ true
          → (n'.uuid == k) ≡ true
          → (n.version ≢ n'.version) ⊎ (n ≡ n')
      one_uuid (inl d) e e' =
          absurd (d ((bytes_equal_iff n.uuid k).0 e ∙ sym ((bytes_equal_iff n'.uuid k).0 e')))
      one_uuid (inr differ) e e' = differ

  put_comm :
      (n n' : Notification) (m : Dict Text Notification)
      → Agree n n'
      → SameEntries (put (put m n) n') (put (put m n') n)
  put_comm n n' m agree k = twice n n' ∙ (act_comm k (lookup k m) n n' agree ∙ sym (twice n' n))
    where
      twice : (n n' : Notification) → lookup k (put (put m n) n') ≡ act k (act k (lookup k m) n) n'
      twice n n' = lookup-put-act (put m n) n' k ∙ ap (λ v. act k v n') (lookup-put-act m n k)

  -- The operation on databases.
  pub post : Database → Notification → Database
  post d n =
      Quot.lift Quot-set (λ m. Quot.mk (put m n))
        (λ m m' same. Quot.sound (put-SameEntries n m m' same)) d

  post_comm :
      (d : Database) (n n' : Notification) → Agree n n' → post (post d n) n' ≡ post (post d n') n
  unfolding post
  post_comm d n n' agree =
      Quot.ind (λ d. Quot-set (post (post d n) n') (post (post d n') n))
        (λ m. Quot.sound (put_comm n n' m agree)) d

-- The posts that reach the server, each at its time.
abbrev pub Post : Type 0
Post = Notification × ℕ

module _ (c : Crypto) (public_key : c.PublicKey) where
  abbrev pub serve_post : Server → Post → Server
  serve_post s (n, now) = (serve_post_request c public_key s (some n) now).0

  abbrev pub post_to : Database → Post → Database
  post_to d (n, now) = post (accepted c public_key) d n

  serve_post-put :
      (s : Server) (n : Notification) (now : ℕ)
      → (serve_post s (n, now)).updates ≡ put (accepted c public_key) s.updates n
  unfolding serve_post_request
  serve_post-put s n now = ground arith

  serve_post-post_to : (s : Server) (p : Post) → database (serve_post s p) ≡ post_to (database s) p
  unfolding post
  serve_post-post_to s (n, now) =
      ap (λ (m : Dict Text Notification). let d : Database = Quot.mk m in d)
        (serve_post-put s n now)

  serve_posts-post_to :
      (s : Server) (ps : List Post) → database (fold serve_post s ps) ≡ fold post_to (database s) ps
  serve_posts-post_to s [] = refl
  serve_posts-post_to s (p ∷ ps) =
      serve_posts-post_to (serve_post s p) ps
      ∙ ap (λ (d : Database). fold post_to d ps) (serve_post-post_to s p)

  -- The database does not depend on the order in which notifications are posted, nor on the times. A
  -- series of POSTs takes the database, as a table whose order is forgotten, through the registers of
  -- the specification; and any other order of the same POSTs ends with the same database, if any two of
  -- them that have one UUID and one version are the same notification.
  pub serve_posts-Perm :
      (s : Server) (ps qs : List Post)
      → Permᴰ ps qs
      → Pairwise (λ p q. Agree p.0 q.0) ps
      → (database (fold serve_post s ps) ≡ fold post_to (database s) ps)
        × (database (fold serve_post s qs) ≡ database (fold serve_post s ps))
  serve_posts-Perm s ps qs perm agree = (
    serve_posts-post_to s ps,
    serve_posts-post_to s qs
        ∙ (sym (
              fold-Perm (λ (p q : Post). Agree p.0 q.0) (λ p q. Agree-symm p.0 q.0) post_to
                (λ d p q. post_comm (accepted c public_key) d p.0 q.0) (database s) perm agree)
            ∙ sym (serve_posts-post_to s ps)),
  )
