-- ===== src/Base/Rows.antt =====
-- Tables as lists of rows: what a WHERE clause selects, updates and counts.
use Prim.Native.Nat.{ℕ, zero, suc}
use mathlib.Core.Path.{◌≡◌, refl, subst, sym}
use mathlib.Core.Logic.{◌⊎◌, inl, inr}
use mathlib.Core.Bool.{Bool, true, false}
use mathlib.Core.Option.{Option, none, some}
use mathlib.Core.List.{List, [], ◌∷◌, ◌++◌}
use native.Mathlib.Omega.{arith}
use arbiter_distributed_sche.Base.Tests.{if◌then◌else◌, leb}

module _ {ℓ} {A : Type ℓ} where
  abbrev pub length : List A → ℕ
  length [] = 0
  length (x ∷ xs) = suc (length xs)

  -- The first row that passes the test.
  abbrev pub find : (A → Bool) → List A → Option A
  find p [] = none
  find p (x ∷ xs) = if p x then some x else find p xs

  -- `SELECT … WHERE p`
  abbrev pub select : (A → Bool) → List A → List A
  select p [] = []
  select p (x ∷ xs) = let rest = select p xs in if p x then x ∷ rest else rest

  -- `UPDATE … SET f WHERE p`
  abbrev pub update : (A → Bool) → (A → A) → List A → List A
  update p f [] = []
  update p f (x ∷ xs) = (if p x then f x else x) ∷ update p f xs

  -- The number of rows that pass the test.
  abbrev pub count : (A → Bool) → List A → ℕ
  count p [] = 0
  count p (x ∷ xs) = if p x then suc (count p xs) else count p xs

  abbrev pub take : ℕ → List A → List A
  take zero xs = []
  take (suc n) [] = []
  take (suc n) (x ∷ xs) = x ∷ take n xs

  -- `ORDER BY key ASC`, stable.
  abbrev pub insert_by : (A → ℕ) → A → List A → List A
  insert_by key x [] = x ∷ []
  insert_by key x (y ∷ ys) =
      let later = y ∷ insert_by key x ys in if leb (key x) (key y) then x ∷ y ∷ ys else later

  abbrev pub order_by : (A → ℕ) → List A → List A
  order_by key [] = []
  order_by key (x ∷ xs) = insert_by key x (order_by key xs)

  -- Every row passes.
  abbrev pub All {κ} : (A → Type κ) → List A → Type κ
  All P [] = Unit
  All P (x ∷ xs) = P x × All P xs

module _ {ℓ} {A : Type ℓ} where
  pub find-cases :
      (p : A → Bool) (y : A) (ys : List A) {x : A}
      → find p (y ∷ ys) ≡ some x
      → ((p y ≡ true) × (y ≡ x)) ⊎ (find p ys ≡ some x)
  find-cases p y ys e = ground arith

  pub All-map {κ μ} :
      {P : A → Type κ} {Q : A → Type μ} (xs : List A) → ((x : A) → P x → Q x) → All P xs → All Q xs
  All-map [] f h = tt
  All-map (x ∷ xs) f h = (f x h.0, All-map xs f h.1)

  pub All-append {κ} : (P : A → Type κ) (xs ys : List A) → All P xs → All P ys → All P (xs ++ ys)
  All-append P [] ys hx hy = hy
  All-append P (x ∷ xs) ys hx hy = (hx.0, All-append P xs ys hx.1 hy)

  pub All-update {κ} :
      (P : A → Type κ) (p : A → Bool) (f : A → A) (xs : List A)
      → ((x : A) → p x ≡ true → P x → P (f x))
      → All P xs
      → All P (update p f xs)
  All-update P p f [] k h = tt
  All-update P p f (x ∷ xs) k h = (head (p x) refl, All-update P p f xs k h.1)
    where
      head : (b : Bool) → p x ≡ b → P (if b then f x else x)
      head true e = k x e h.0
      head false e = h.0

  -- What every row satisfies once the rows that pass are written.
  pub update-All {κ} :
      (P : A → Type κ) (p : A → Bool) (f : A → A) (xs : List A)
      → ((x : A) → P (if p x then f x else x))
      → All P (update p f xs)
  update-All P p f [] h = tt
  update-All P p f (x ∷ xs) h = (h x, update-All P p f xs h)

  pub All-find {κ} :
      (P : A → Type κ) (p : A → Bool) (xs : List A) {x : A} → All P xs → find p xs ≡ some x → P x
  All-find P p [] h e = cc
  All-find P p (y ∷ ys) h e = elim (find-cases p y ys e) [
    | inl (t, q) ↦ subst P q h.0
    | inr r ↦ All-find P p ys h.1 r
  ]

  pub find-holds : (p : A → Bool) (xs : List A) {x : A} → find p xs ≡ some x → p x ≡ true
  find-holds p [] e = cc
  find-holds p (y ∷ ys) e = elim (find-cases p y ys e) [
    | inl (t, q) ↦ subst (λ z. p z ≡ true) q t
    | inr r ↦ find-holds p ys r
  ]

  pub select-All : (p : A → Bool) (xs : List A) → All (λ x. p x ≡ true) (select p xs)
  select-All p [] = tt
  select-All p (x ∷ xs) = ground (arith, select-All p xs)

  pub update_id : (p : A → Bool) (xs : List A) → update p (λ x. x) xs ≡ xs
  update_id p [] = refl
  update_id p (x ∷ xs) = ground (arith, update_id p xs)

module _ {A : Type 0} where
  -- The row stands in the table.
  abbrev pub IsIn : A → List A → Type 0
  IsIn x [] = ⊥
  IsIn x (y ∷ ys) = (x ≡ y) ⊎ IsIn x ys

  pub All-IsIn {κ} : (P : A → Type κ) (xs : List A) (x : A) → All P xs → IsIn x xs → P x
  All-IsIn P [] x h i = absurd i
  All-IsIn P (y ∷ ys) x h (inl e) = subst P (sym e) h.0
  All-IsIn P (y ∷ ys) x h (inr i) = All-IsIn P ys x h.1 i

  pub IsIn-All {κ} : (P : A → Type κ) (xs : List A) → ((x : A) → IsIn x xs → P x) → All P xs
  IsIn-All P [] h = tt
  IsIn-All P (x ∷ xs) h = (h x (inl refl), IsIn-All P xs (λ y i. h y (inr i)))

  pub find-IsIn : (p : A → Bool) (xs : List A) {x : A} → find p xs ≡ some x → IsIn x xs
  find-IsIn p [] e = cc
  find-IsIn p (y ∷ ys) e = elim (find-cases p y ys e) [
    | inl (t, q) ↦ inl (sym q)
    | inr r ↦ inr (find-IsIn p ys r)
  ]
