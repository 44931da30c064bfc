-- ===== src/Base/Batch.antt =====
-- UPDATEs that touch several rows of a table under a primary key.
use arbiter_distributed_sche.Base.Tests.{if◌then◌else◌, Bool-cases}
use arbiter_distributed_sche.Base.Rows.{find, update, select, All, All-map}
use arbiter_distributed_sche.Base.Keys.{keyed, IsUnique, update_of_none, find_of_absent}
use Prim.Native.String.{String}
use mathlib.Core.Path.{◌≡◌, refl, ap, ◌∙◌}
use mathlib.Core.Logic.{inl, inr}
use mathlib.Core.Bool.{Bool, false}
use mathlib.Core.Option.{none, some}
use mathlib.Core.List.{List, [], ◌∷◌, ◌++◌, map}
use native.Mathlib.Omega.{arith}
use text.Mathlib.Text.{◌==◌ as str_eq}
use text.Mathlib.TextEquality.{eq_iff}
use text.Mathlib.TextPositions.{eq_refl}

module _ {A : Type 0} (key : A → String) where
  -- A row under its key, after an UPDATE of the rows that pass `p`.
  pub find-update :
      (k : String) (p : A → Bool) (f : A → A) (xs : List A) {x : A}
      → ((y : A) → key (f y) ≡ key y)
      → find (keyed key k) xs ≡ some x
      → find (keyed key k) (update p f xs) ≡ some (if p x then f x else x)
  find-update k p f [] same e = cc
  find-update k p f (y ∷ ys) {x} same e = ground (arith, same y, find-update k p f ys {x = x} same)

  -- One UPDATE by key after another.
  unfoldable pub update_each : List String → (A → A) → List A → List A
  update_each [] f xs = xs
  update_each (k ∷ ks) f xs = update_each ks f (update (keyed key k) f xs)

  abbrev keys_of : List A → List String
  keys_of xs = map key xs

  update_each-nil : (ks : List String) (f : A → A) → update_each ks f [] ≡ []
  unfolding update_each
  update_each-nil [] f = refl
  update_each-nil (k ∷ ks) f = update_each-nil ks f

  -- A row whose key is not listed stays.
  update_each-cons :
      (ks : List String) (f : A → A) (x : A) (xs : List A)
      → All (λ k. str_eq (key x) k ≡ false) ks
      → update_each ks f (x ∷ xs) ≡ x ∷ update_each ks f xs
  unfolding update_each
  update_each-cons [] f x xs h = refl
  update_each-cons (k ∷ ks) f x xs h =
      rw h.0 (update_each-cons ks f x (update (keyed key k) f xs) h.1)

  keys-absent :
      (k : String) (p : A → Bool) (xs : List A)
      → find (keyed key k) xs ≡ none
      → All (λ j. str_eq k j ≡ false) (keys_of (select p xs))
  keys-absent k p [] e = tt
  keys-absent k p (x ∷ xs) e =
      ground (arith, eq_iff k (key x), eq_iff (key x) k, keys-absent k p xs)

  -- The listed row that stands first is written.
  update_each-head :
      (ks : List String) (f : A → A) (x : A) (xs : List A)
      → find (keyed key (key x)) xs ≡ none
      → update_each (key x ∷ ks) f (x ∷ xs) ≡ update_each ks f (f x ∷ xs)
  unfolding update_each
  update_each-head ks f x xs e = rw (eq_refl (key x), update_of_none key (key x) f xs e)

  -- Row by row over the keys of the rows that pass is one UPDATE of the rows that pass.
  pub update_each-select :
      (p : A → Bool) (f : A → A) (xs : List A)
      → ((y : A) → key (f y) ≡ key y)
      → IsUnique key xs
      → update_each (keys_of (select p xs)) f xs ≡ update p f xs
  unfolding update_each
  update_each-select p f [] same u = refl
  update_each-select p f (x ∷ xs) same u = elim (Bool-cases (p x)) [
    | inl hit ↦ rw hit (
        update_each-head (keys_of (select p xs)) f x xs u.0
        ∙ (update_each-cons (keys_of (select p xs)) f (f x) xs
              (rw (same x) (keys-absent (key x) p xs u.0))
            ∙ ap (λ ys. f x ∷ ys) (update_each-select p f xs same u.1)))
    | inr miss ↦ rw miss (
        update_each-cons (keys_of (select p xs)) f x xs (keys-absent (key x) p xs u.0)
        ∙ ap (λ ys. x ∷ ys) (update_each-select p f xs same u.1))
  ]

  find_of_others :
      (k : String) (ys : List A)
      → All (λ y. str_eq k (key y) ≡ false) ys
      → find (keyed key k) ys ≡ none
  find_of_others k [] h = refl
  find_of_others k (y ∷ ys) h =
      ground (arith, eq_iff k (key y), eq_iff (key y) k, find_of_others k ys)

  -- Rows under new keys keep a table's keys unique.
  pub append_rows-IsUnique :
      (xs ys : List A)
      → IsUnique key xs
      → IsUnique key ys
      → All (λ y. find (keyed key (key y)) xs ≡ none) ys
      → IsUnique key (xs ++ ys)
  append_rows-IsUnique [] ys ux uy h = uy
  append_rows-IsUnique (x ∷ xs) ys ux uy h = (
    find_of_absent key (key x) xs ys ux.0
        ∙ find_of_others (key x) ys (All-map ys (λ y e. ground arith) h),
    append_rows-IsUnique xs ys ux.1 uy (All-map ys (λ y e. ground arith) h),
  )
