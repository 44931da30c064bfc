-- ===== src/Base/Order.antt =====
-- What a selection and an order leave of a search.
use arbiter_distributed_sche.Base.Tests.{is_some, leb, Bool-cases}
use arbiter_distributed_sche.Base.Rows.{All, IsIn, find, select, insert_by, order_by}
use mathlib.Core.Logic.{inl, inr}
use Prim.Native.Nat.{ℕ}
use mathlib.Core.Path.{◌≡◌, refl, sym, ap, ◌∙◌}
use mathlib.Core.Bool.{Bool, true}
use mathlib.Core.Option.{some}
use mathlib.Core.List.{List, [], ◌∷◌, map}
use native.Mathlib.Omega.{arith}

module _ {A : Type 0} (p : A → Bool) where
  abbrev pub exists : List A → Bool
  exists xs = is_some (find p xs)

  pub exists-insert_by :
      (key : A → ℕ) (x : A) (xs : List A) → exists (insert_by key x xs) ≡ exists (x ∷ xs)
  exists-insert_by key x [] = refl
  exists-insert_by key x (y ∷ ys) = ground (arith, exists-insert_by key x ys)

  pub exists-order_by : (key : A → ℕ) (xs : List A) → exists (order_by key xs) ≡ exists xs
  exists-order_by key [] = refl
  exists-order_by key (x ∷ xs) =
      exists-insert_by key x (order_by key xs) ∙ ground (arith, exists-order_by key xs)

  pub exists-select :
      (q : A → Bool) (xs : List A) {x : A}
      → find p xs ≡ some x
      → q x ≡ true
      → exists (select q xs) ≡ true
  exists-select q [] e h = cc
  exists-select q (y ∷ ys) {x} e h = ground (arith, exists-select q ys {x = x})

module _ {A : Type 0} (P : A → Type 0) where
  pub All-select : (q : A → Bool) (xs : List A) → All P xs → All P (select q xs)
  All-select q [] h = tt
  All-select q (x ∷ xs) h = elim (Bool-cases (q x)) [
    | inl hit ↦ rw hit (h.0, All-select q xs h.1)
    | inr miss ↦ rw miss (All-select q xs h.1)
  ]

  All-insert_by : (key : A → ℕ) (x : A) (xs : List A) → P x → All P xs → All P (insert_by key x xs)
  All-insert_by key x [] p h = (p, tt)
  All-insert_by key x (y ∷ ys) p h = elim (Bool-cases (leb (key x) (key y))) [
    | inl before ↦ rw before (p, h)
    | inr after ↦ rw after (h.0, All-insert_by key x ys p h.1)
  ]

  pub All-order_by : (key : A → ℕ) (xs : List A) → All P xs → All P (order_by key xs)
  All-order_by key [] h = tt
  All-order_by key (x ∷ xs) h = All-insert_by key x (order_by key xs) h.0 (All-order_by key xs h.1)

module _ {A : Type 0} where
  pub IsIn-select :
      (p : A → Bool) (xs : List A) (x : A) → p x ≡ true → IsIn x xs → IsIn x (select p xs)
  IsIn-select p [] x h i = absurd i
  IsIn-select p (y ∷ ys) x h (inl e) = rw (sym (ap p e) ∙ h) (inl e)
  IsIn-select p (y ∷ ys) x h (inr i) = elim (Bool-cases (p y)) [
    | inl hit ↦ rw hit (inr (IsIn-select p ys x h i))
    | inr miss ↦ rw miss (IsIn-select p ys x h i)
  ]

  pub IsIn-map : {B : Type 0} (f : A → B) (xs : List A) (x : A) → IsIn x xs → IsIn (f x) (map f xs)
  IsIn-map f [] x i = absurd i
  IsIn-map f (y ∷ ys) x (inl e) = inl (ap f e)
  IsIn-map f (y ∷ ys) x (inr i) = inr (IsIn-map f ys x i)

  pub All-both : (P Q : A → Type 0) (xs : List A) → All P xs → All Q xs → All (λ x. P x × Q x) xs
  All-both P Q [] p q = tt
  All-both P Q (x ∷ xs) p q = ((p.0, q.0), All-both P Q xs p.1 q.1)
