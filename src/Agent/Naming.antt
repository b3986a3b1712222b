-- ===== src/Agent/Naming.antt =====
-- The names of the metadata files (MetadataFilename in update.go).
use p2p_update.Common.{
  ℕ, ◌^◌, ◌≡◌, ◌≢◌, ◌<◌, refl, sym, ap, ap₂, ◌∙◌, [], ◌∷◌, ◌++◌, Text, codes, arith, decimal, All,
  All-append,
}
use mathlib.Core.List.{append_assoc}
use p2p_update.Common.Numerals.{
  number_from, number_from-decimal_from, IsDigit, decimal_from-IsDigit,
}
use p2p_update.Notification.{Notification}
use p2p_update.Agent.{Agent, Host, metadata_filename}

abbrev tail : Text → Text
tail [] = []
tail (c ∷ t) = t

abbrev head : ℕ → Text → ℕ
head c [] = c
head c (d ∷ t) = d

cons-inj : (c d : ℕ) (t u : Text) → c ∷ t ≡ d ∷ u → (c ≡ d) × (t ≡ u)
cons-inj c d t u e = (ap (head 0) e, ap tail e)

-- The dash and the v are parameters.
module _ (p q : ℕ) (differ : q ≢ p) where
  abbrev IsOther : ℕ → Type 0
  IsOther c = c ≢ p

  no_dash : (t ys r : Text) → All IsOther t → t ≡ ys ++ p ∷ r → ⊥
  no_dash [] [] r h e = absurd (cc)
  no_dash [] (y ∷ ys) r h e = absurd (cc)
  no_dash (c ∷ t) [] r h e = h.0 (cons-inj c p t r e).0
  no_dash (c ∷ t) (y ∷ ys) r h e = no_dash t ys r h.1 (cons-inj c y t (ys ++ p ∷ r) e).1

  -- A text that ends in a dash, a v and digits can be split there in one way.
  suffix-inj :
      (xs ys d e : Text)
      → All IsOther d
      → All IsOther e
      → xs ++ p ∷ q ∷ d ≡ ys ++ p ∷ q ∷ e
      → (xs ≡ ys) × (d ≡ e)
  suffix-inj [] [] d e hd he same = (refl, ap (λ t. tail (tail t)) same)
  suffix-inj [] (y ∷ ys) d e hd he same =
      absurd (no_dash (q ∷ d) ys (q ∷ e) (differ, hd) (ap tail same))
  suffix-inj (x ∷ xs) [] d e hd he same =
      absurd (no_dash (q ∷ e) xs (q ∷ d) (differ, he) (ap tail (sym same)))
  suffix-inj (x ∷ xs) (y ∷ ys) d e hd he same =
      let (first, rest) = cons-inj x y (xs ++ p ∷ q ∷ d) (ys ++ p ∷ q ∷ e) same in
      let (front, back) = suffix-inj xs ys d e hd he rest in (ap₂ ◌∷◌ first front, back)

digits-other : (t : Text) → All IsDigit t → All (λ c. c ≢ 45) t
digits-other [] h = tt
digits-other (c ∷ t) h = ((λ e. ground (arith, h.0)), digits-other t h.1)

abbrev pub file_name : Notification → Text
file_name n = n.uuid ++ codes "-v" ++ decimal n.version

abbrev pub IsNoSlash : ℕ → Type 0
IsNoSlash c = c ≢ 47

file_name-inj :
    (n m : Notification)
    → n.version < 2 ^ 64
    → m.version < 2 ^ 64
    → file_name n ≡ file_name m
    → (n.uuid ≡ m.uuid) × (n.version ≡ m.version)
unfolding decimal
file_name-inj n m small small' same =
    let (uuid, digits) =
      suffix-inj 45 118 (λ e. absurd (cc)) n.uuid m.uuid (decimal n.version) (decimal m.version)
        (digits-other (decimal n.version) (decimal_from-IsDigit 20 n.version))
        (digits-other (decimal m.version) (decimal_from-IsDigit 20 m.version))
        (sym (append_assoc n.uuid (codes "-v") (decimal n.version))
          ∙ (same ∙ append_assoc m.uuid (codes "-v") (decimal m.version))) in
    let read = number_from-decimal_from 20 n.version (omega (arith, small)) in
    let read' = number_from-decimal_from 20 m.version (omega (arith, small')) in
    (uuid, sym read ∙ (ap (number_from 0) digits ∙ read'))

digits-IsNoSlash : (t : Text) → All IsDigit t → All IsNoSlash t
digits-IsNoSlash [] h = tt
digits-IsNoSlash (c ∷ t) h = ((λ e. ground (arith, h.0)), digits-IsNoSlash t h.1)

file_name-IsNoSlash : (n : Notification) → All IsNoSlash n.uuid → All IsNoSlash (file_name n)
unfolding decimal
file_name-IsNoSlash n h =
    All-append IsNoSlash (n.uuid ++ codes "-v") (decimal n.version)
      (All-append IsNoSlash n.uuid (codes "-v") h ((λ e. absurd (cc)), ((λ e. absurd (cc)), tt)))
      (digits-IsNoSlash (decimal n.version) (decimal_from-IsDigit 20 n.version))

-- Two notifications whose UUIDs have no slash, with versions below 2^64, have the same metadata file
-- only if they have the same UUID and version, where joining a directory to names without a slash
-- gives different paths for different names.
pub metadata_filename-inj :
    (h : Host) (a : Agent) (n m : Notification)
    → ((dir name other : Text)
        → All IsNoSlash name
        → All IsNoSlash other
        → h.sys.join dir name ≡ h.sys.join dir other
        → name ≡ other)
    → All IsNoSlash n.uuid
    → All IsNoSlash m.uuid
    → n.version < 2 ^ 64
    → m.version < 2 ^ 64
    → metadata_filename h a n ≡ metadata_filename h a m
    → (n.uuid ≡ m.uuid) × (n.version ≡ m.version)
unfolding metadata_filename decimal
metadata_filename-inj h a n m join-inj clean clean' small small' same =
    file_name-inj n m small small' (
      join-inj a.metadata_dir (file_name n) (file_name m) (file_name-IsNoSlash n clean)
        (file_name-IsNoSlash m clean') same)
