-- ===== src/Base/Ascending.antt =====
-- Lists whose keys ascend strictly, as a sequence hands them out.
use arbiter_distributed_sche.Base.Tests.{Bool-cases, ltb}
use arbiter_distributed_sche.Base.Rows.{All, All-append, select, take, insert_by, order_by, length}
use arbiter_distributed_sche.Base.Order.{All-select}
use Prim.Native.Nat.{ℕ, zero, suc, ◌+◌, ◌<◌, ◌≤◌}
use mathlib.Core.Path.{◌≡◌, refl, ap, sym, ◌∙◌}
use mathlib.Core.Logic.{inl, inr}
use mathlib.Core.Bool.{Bool}
use mathlib.Core.List.{List, [], ◌∷◌, ◌++◌}
use native.Mathlib.Omega.{arith}

suc_add : (m n : ℕ) → suc (m + n) ≡ suc m + n
suc_add m n = omega arith

module _ {A : Type 0} where
  abbrev pub drop : ℕ → List A → List A
  drop zero xs = xs
  drop (suc n) [] = []
  drop (suc n) (x ∷ xs) = drop n xs

  pub length-take : (n : ℕ) (xs : List A) → length (take n xs) ≤ n
  length-take zero xs = omega arith
  length-take (suc n) [] = omega arith
  length-take (suc n) (x ∷ xs) = omega (arith, length-take n xs)

  pub All-take : (P : A → Type 0) (n : ℕ) (xs : List A) → All P xs → All P (take n xs)
  All-take P zero xs h = tt
  All-take P (suc n) [] h = tt
  All-take P (suc n) (x ∷ xs) h = (h.0, All-take P n xs h.1)

  take-nil : (n : ℕ) → take {A = A} n [] ≡ []
  take-nil zero = refl
  take-nil (suc n) = refl

  pub take-append-drop : (m n : ℕ) (xs : List A) → take m xs ++ take n (drop m xs) ≡ take (m + n) xs
  take-append-drop zero n xs = ap (λ k. take k xs) (omega arith)
  take-append-drop (suc m) n [] = take-nil n ∙ sym (take-nil (suc m + n))
  take-append-drop (suc m) n (x ∷ xs) =
      ap (λ l. x ∷ l) (take-append-drop m n xs) ∙ ap (λ k. take k (x ∷ xs)) (suc_add m n)

  pub drop-append-take : (n : ℕ) (xs : List A) → take n xs ++ drop n xs ≡ xs
  drop-append-take zero xs = refl
  drop-append-take (suc n) [] = refl
  drop-append-take (suc n) (x ∷ xs) = ap (λ l. x ∷ l) (drop-append-take n xs)

module _ {A : Type 0} (key : A → ℕ) where
  abbrev pub IsAscending : List A → Type 0
  IsAscending [] = Unit
  IsAscending (x ∷ xs) = All (λ y. key x < key y) xs × IsAscending xs

  pub select-IsAscending : (p : A → Bool) (xs : List A) → IsAscending xs → IsAscending (select p xs)
  select-IsAscending p [] h = tt
  select-IsAscending p (x ∷ xs) h = elim (Bool-cases (p x)) [
    | inl hit ↦ rw hit (All-select (λ y. key x < key y) p xs h.0, select-IsAscending p xs h.1)
    | inr miss ↦ rw miss (select-IsAscending p xs h.1)
  ]

  pub take-IsAscending : (n : ℕ) (xs : List A) → IsAscending xs → IsAscending (take n xs)
  take-IsAscending zero xs h = tt
  take-IsAscending (suc n) [] h = tt
  take-IsAscending (suc n) (x ∷ xs) h =
      (All-take (λ y. key x < key y) n xs h.0, take-IsAscending n xs h.1)

  pub append-IsAscending :
      (xs ys : List A)
      → IsAscending xs
      → IsAscending ys
      → All (λ x. All (λ y. key x < key y) ys) xs
      → IsAscending (xs ++ ys)
  append-IsAscending [] ys hx hy h = hy
  append-IsAscending (x ∷ xs) ys hx hy h =
      (All-append (λ y. key x < key y) xs ys hx.0 h.0, append-IsAscending xs ys hx.1 hy h.1)

  -- An ascending list is in order already.
  insert_by-first :
      (x : A) (xs : List A) → All (λ y. key x < key y) xs → insert_by key x xs ≡ x ∷ xs
  insert_by-first x [] h = refl
  insert_by-first x (y ∷ ys) h = ground arith

  pub order_by_of_ascending : (xs : List A) → IsAscending xs → order_by key xs ≡ xs
  order_by_of_ascending [] h = refl
  order_by_of_ascending (x ∷ xs) h =
      ap (insert_by key x) (order_by_of_ascending xs h.1) ∙ insert_by-first x xs h.0

  -- The rows beyond a key, in an ascending list that starts beyond another.
  pub select_of_bound :
      (k : ℕ) (xs : List A) → All (λ y. k < key y) xs → select (λ y. ltb k (key y)) xs ≡ xs
  select_of_bound k [] h = refl
  select_of_bound k (x ∷ xs) h = ground (arith, select_of_bound k xs)

  -- The last key of the list, or `k` where there is none.
  abbrev pub last_key : ℕ → List A → ℕ
  last_key k [] = k
  last_key k (x ∷ xs) = last_key (key x) xs

  pub last_key-bound :
      (k : ℕ) (xs : List A) → IsAscending xs → All (λ y. k < key y) xs → k ≤ last_key k xs
  last_key-bound k [] h b = omega arith
  last_key-bound k (x ∷ xs) h b = omega (arith, last_key-bound (key x) xs h.1 h.0, b.0)

  -- The rows beyond the last of the first `n` are the rows that those leave.
  pub select-last_key :
      (n k : ℕ) (xs : List A)
      → IsAscending xs
      → All (λ y. k < key y) xs
      → select (λ y. ltb (last_key k (take n xs)) (key y)) xs ≡ drop n xs
  select-last_key zero k xs h b = select_of_bound k xs b
  select-last_key (suc n) k [] h b = refl
  select-last_key (suc n) k (x ∷ xs) h b = ground (
    arith,
    select-last_key n (key x) xs h.1 h.0,
    last_key-bound (key x) (take n xs) (take-IsAscending n xs h.1)
        (All-take (λ y. key x < key y) n xs h.0),
  )

  -- Rows beyond a key are found among the rows beyond a smaller one.
  pub select-select :
      (k l : ℕ) (xs : List A)
      → k ≤ l
      → select (λ y. ltb l (key y)) (select (λ y. ltb k (key y)) xs)
        ≡ select (λ y. ltb l (key y)) xs
  select-select k l [] h = refl
  select-select k l (x ∷ xs) h = ground (arith, select-select k l xs h)
