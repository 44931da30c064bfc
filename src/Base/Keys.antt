-- ===== src/Base/Keys.antt =====
-- Tables under a primary key.
use arbiter_distributed_sche.Base.Tests.{if◌then◌else◌, str_eq→eq, Bool-cases}
use arbiter_distributed_sche.Base.Rows.{find, update, count, All, find-cases}
use Prim.Native.String.{String}
use mathlib.Core.Path.{◌≡◌, refl, sym, subst, ap, ◌∙◌}
use mathlib.Core.Logic.{inl, inr, ◌≢◌}
use mathlib.Core.Bool.{Bool, true, false, ◌&&◌}
use mathlib.Core.Option.{none, some}
use mathlib.Core.List.{List, [], ◌∷◌, ◌++◌}
use native.Mathlib.Omega.{arith}
use text.Mathlib.Text.{◌==◌ as str_eq}
use text.Mathlib.TextEquality.{eq_iff}

module _ {A : Type 0} (key : A → String) where
  abbrev pub keyed : String → A → Bool
  keyed k x = str_eq (key x) k

  -- No two rows have the same key.
  abbrev pub IsUnique : List A → Type 0
  IsUnique [] = Unit
  IsUnique (x ∷ xs) = (find (keyed (key x)) xs ≡ none) × IsUnique xs

  pub find-update_self :
      (k : String) (f : A → A) (xs : List A) {x : A}
      → key (f x) ≡ key x
      → find (keyed k) xs ≡ some x
      → find (keyed k) (update (keyed k) f xs) ≡ some (f x)
  find-update_self k f [] same e = cc
  find-update_self k f (y ∷ ys) same e =
      ground (arith, find-cases (keyed k) y ys e, find-update_self k f ys same)

  pub find-update_ne :
      (j k : String) (f : A → A) (xs : List A)
      → ((x : A) → key (f x) ≡ key x)
      → j ≢ k
      → find (keyed j) (update (keyed k) f xs) ≡ find (keyed j) xs
  find-update_ne j k f [] same ne = refl
  find-update_ne j k f (y ∷ ys) same ne =
      ground (arith, same y, eq_iff (key y) k, eq_iff (key y) j, find-update_ne j k f ys same ne)

  pub find-update-none :
      (j : String) (p : A → Bool) (f : A → A) (xs : List A)
      → ((x : A) → key (f x) ≡ key x)
      → find (keyed j) xs ≡ none
      → find (keyed j) (update p f xs) ≡ none
  find-update-none j p f [] same e = refl
  find-update-none j p f (y ∷ ys) same e = ground (arith, same y, find-update-none j p f ys same)

  -- Without a row of the key an UPDATE changes nothing.
  pub update_of_none :
      (k : String) (f : A → A) (xs : List A) → find (keyed k) xs ≡ none → update (keyed k) f xs ≡ xs
  update_of_none k f [] e = refl
  update_of_none k f (y ∷ ys) e = ground (arith, update_of_none k f ys)

  pub update-IsUnique :
      (p : A → Bool) (f : A → A) (xs : List A)
      → ((x : A) → key (f x) ≡ key x)
      → IsUnique xs
      → IsUnique (update p f xs)
  update-IsUnique p f [] same u = tt
  update-IsUnique p f (x ∷ xs) same u = (
    subst (λ k. find (keyed k) (update p f xs) ≡ none) (sym (key-if (p x)))
        (find-update-none (key x) p f xs same u.0),
    update-IsUnique p f xs same u.1,
  )
    where
      key-if : (b : Bool) → key (if b then f x else x) ≡ key x
      key-if true = same x
      key-if false = refl

  -- An UPDATE by key touches one row only.
  pub All-update_row {κ} :
      (P : A → Type κ) (k : String) (f : A → A) (xs : List A) {x : A}
      → IsUnique xs
      → find (keyed k) xs ≡ some x
      → P (f x)
      → All P xs
      → All P (update (keyed k) f xs)
  All-update_row P k f [] u e h all = tt
  All-update_row P k f (y ∷ ys) {x} u e h all = elim (Bool-cases (str_eq (key y) k)) [
    | inl t ↦
        let q : y ≡ x = ground arith in
        let absent : find (keyed k) ys ≡ none =
          subst (λ j. find (keyed j) ys ≡ none) (str_eq→eq _ _ t) u.0 in
        rw (t, update_of_none k f ys absent, q) (h, all.1)
    | inr t ↦ rw t (all.0, All-update_row P k f ys u.1 (ground arith) h all.1)
  ]

  pub find_of_absent :
      (k : String) (xs ys : List A)
      → find (keyed k) xs ≡ none
      → find (keyed k) (xs ++ ys) ≡ find (keyed k) ys
  find_of_absent k [] ys e = refl
  find_of_absent k (x ∷ xs) ys e = ground (arith, find_of_absent k xs ys)

  pub find-append_some :
      (k : String) (xs ys : List A) {x : A}
      → find (keyed k) xs ≡ some x
      → find (keyed k) (xs ++ ys) ≡ some x
  find-append_some k [] ys e = cc
  find-append_some k (y ∷ xs) ys {x} e = ground (arith, find-append_some k xs ys {x = x})

  pub append-IsUnique :
      (xs : List A) (y : A) → IsUnique xs → find (keyed (key y)) xs ≡ none → IsUnique (xs ++ y ∷ [])
  append-IsUnique [] y u e = (refl, tt)
  append-IsUnique (x ∷ xs) y u e = (
    find_of_absent (key x) xs (y ∷ []) u.0
        ∙ ground (arith, eq_iff (key x) (key y), eq_iff (key y) (key x)),
    append-IsUnique xs y u.1 (ground arith),
  )

  update_if_of_none :
      (k : String) (q : A → Bool) (f : A → A) (xs : List A)
      → find (keyed k) xs ≡ none
      → update (λ y. keyed k y && q y) f xs ≡ xs
  update_if_of_none k q f [] e = refl
  update_if_of_none k q f (y ∷ ys) e = ground (arith, update_if_of_none k q f ys)

  count_if_of_none :
      (k : String) (q : A → Bool) (xs : List A)
      → find (keyed k) xs ≡ none
      → count (λ y. keyed k y && q y) xs ≡ 0
  count_if_of_none k q [] e = refl
  count_if_of_none k q (y ∷ ys) e = ground (arith, count_if_of_none k q ys)

  -- An UPDATE of the row of a key that also passes `q`, where it does.
  pub update_row_if :
      (k : String) (q : A → Bool) (f : A → A) (xs : List A) {x : A}
      → IsUnique xs
      → find (keyed k) xs ≡ some x
      → q x ≡ true
      → update (λ y. keyed k y && q y) f xs ≡ update (keyed k) f xs
  update_row_if k q f [] u e h = cc
  update_row_if k q f (y ∷ ys) {x} u e h = elim (Bool-cases (str_eq (key y) k)) [
    | inl t ↦
        let same : y ≡ x = ground arith in
        let absent : find (keyed k) ys ≡ none =
          subst (λ j. find (keyed j) ys ≡ none) (str_eq→eq _ _ t) u.0 in
        rw (t, update_of_none k f ys absent, update_if_of_none k q f ys absent, same, h) refl
    | inr t ↦ rw t (ap (λ zs. y ∷ zs) (update_row_if k q f ys u.1 (ground arith) h))
  ]

  pub count_row_if :
      (k : String) (q : A → Bool) (xs : List A) {x : A}
      → IsUnique xs
      → find (keyed k) xs ≡ some x
      → q x ≡ true
      → count (λ y. keyed k y && q y) xs ≡ 1
  count_row_if k q [] u e h = cc
  count_row_if k q (y ∷ ys) {x} u e h = elim (Bool-cases (str_eq (key y) k)) [
    | inl t ↦
        let same : y ≡ x = ground arith in
        let absent : find (keyed k) ys ≡ none =
          subst (λ j. find (keyed j) ys ≡ none) (str_eq→eq _ _ t) u.0 in
        rw (t, count_if_of_none k q ys absent, same, h) refl
    | inr t ↦ rw t (count_row_if k q ys u.1 (ground arith) h)
  ]
