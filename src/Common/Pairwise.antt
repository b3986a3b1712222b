-- ===== src/Common/Pairwise.antt =====
-- Lists whose elements are pairwise related, and folds that do not depend on the order of such a list.
use mathlib.Core.Path.{◌≡◌, refl, ap, ap₂, ◌∙◌, subst}
use mathlib.Core.List.{List, [], ◌∷◌, Permᴰ}
use p2p_update.Common.Lists.{All}

module _ {A : Type 0} where
  abbrev pub Pairwise : (A → A → Type 0) → List A → Type 0
  Pairwise R [] = Unit
  Pairwise R (x ∷ xs) = All (R x) xs × Pairwise R xs

  pub All-Perm : (P : A → Type 0) {xs ys : List A} → Permᴰ xs ys → All P xs → All P ys
  All-Perm P Permᴰ.nil h = tt
  All-Perm P (Permᴰ.cons e p) h = (subst P e h.0, All-Perm P p h.1)
  All-Perm P (Permᴰ.swap e f) h = (subst P f h.1.0, (subst P e h.0, h.1.1))
  All-Perm P (Permᴰ.trans p q) h = All-Perm P q (All-Perm P p h)

  -- A loop that visits a list in its order.
  abbrev pub fold : {B : Type 0} → (B → A → B) → B → List A → B
  fold f v [] = v
  fold f v (x ∷ xs) = fold f (f v x) xs

  module _ (R : A → A → Type 0) (symm : (x y : A) → R x y → R y x) where
    pub Pairwise-Perm : {xs ys : List A} → Permᴰ xs ys → Pairwise R xs → Pairwise R ys
    Pairwise-Perm Permᴰ.nil h = tt
    Pairwise-Perm (Permᴰ.cons {b = y} {l₁ = l} e p) h =
        (All-Perm (R y) p (subst (λ (x : A). All (R x) l) e h.0), Pairwise-Perm p h.1)
    Pairwise-Perm (Permᴰ.swap {a = x} {b = y} {l = l} e f) h =
        let swapped : Pairwise R (y ∷ x ∷ l) = ((symm x y h.0.0, h.1.0), (h.0.1, h.1.1)) in
        subst (Pairwise R) (ap₂ (λ a b. a ∷ b ∷ l) f e) swapped
    Pairwise-Perm (Permᴰ.trans p q) h = Pairwise-Perm q (Pairwise-Perm p h)

    module _ {B : Type 0} (f : B → A → B)
        (commutes : (v : B) (x y : A) → R x y → f (f v x) y ≡ f (f v y) x) where
      pub fold-Perm :
          {xs ys : List A} (v : B) → Permᴰ xs ys → Pairwise R xs → fold f v xs ≡ fold f v ys
      fold-Perm v Permᴰ.nil d = refl
      fold-Perm v (Permᴰ.cons {a = x} {l₂ = l} e p) d =
          fold-Perm (f v x) p d.1 ∙ ap (λ (y : A). fold f (f v y) l) e
      fold-Perm v (Permᴰ.swap {a = x} {b = y} {l = l} e g) d =
          ap (λ w. fold f w l) (commutes v x y d.0.0)
          ∙ ap₂ (λ (a b : A). fold f (f (f v a) b) l) g e
      fold-Perm v (Permᴰ.trans {l₂ = l} p q) d = fold-Perm v p d ∙ fold-Perm v q (Pairwise-Perm p d)
