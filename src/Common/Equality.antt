-- ===== src/Common/Equality.antt =====
-- Equality tests as an interface: Go's `==` and `bytes.Compare(a, b) == 0`.
use Prim.Native.Nat.{ℕ}
use mathlib.Core.Path.{◌≡◌, refl}
use mathlib.Core.Logic.{◌↔◌, ◌≢◌}
use mathlib.Core.Bool.{Bool, true, false, ◌&&◌}
use mathlib.Core.List.{List, [], ◌∷◌}
use native.Mathlib.Omega.{arith}
use p2p_update.Common.Tests.{eqb, eqb_iff}

-- A type of keys: its values can be compared, and the comparison decides when two are the same.
pub record Eq {κ} (K : Type κ) : Type κ where
  pub equals : K → K → Bool
  pub equals_iff : (x y : K) → (equals x y ≡ true) ↔ (x ≡ y)

abbrev pub bytes_equal : List ℕ → List ℕ → Bool
bytes_equal [] [] = true
bytes_equal (x ∷ xs) (y ∷ ys) = eqb x y && bytes_equal xs ys
bytes_equal _ _ = false

pub bytes_equal_iff : (xs ys : List ℕ) → (bytes_equal xs ys ≡ true) ↔ (xs ≡ ys)
bytes_equal_iff [] [] = (λ h. refl, λ h. refl)
bytes_equal_iff [] (y ∷ ys) = (λ h. cc, λ h. cc)
bytes_equal_iff (x ∷ xs) [] = (λ h. cc, λ h. cc)
bytes_equal_iff (x ∷ xs) (y ∷ ys) = ground (arith, eqb_iff x y, bytes_equal_iff xs ys)

-- Byte strings are keys (UUIDs, names, peer identifiers), and so are numbers.
instance abbrev pub bytes_eq : Eq (List ℕ)
bytes_eq = record { equals = bytes_equal; equals_iff = bytes_equal_iff }

instance abbrev pub nat_eq : Eq ℕ
nat_eq = record { equals = eqb; equals_iff = eqb_iff }

module _ {κ} {K : Type κ} ⦃keys : Eq K⦄ where
  infix 50 ◌==◌
  abbrev pub ◌==◌ : K → K → Bool
  x == y = keys.equals x y

  pub beq_refl : (x : K) → (x == x) ≡ true
  beq_refl x = (keys.equals_iff x x).1 refl

  pub beq_ne : (x y : K) → x ≢ y → (x == y) ≡ false
  beq_ne x y n = ground (arith, keys.equals_iff x y)
