-- ===== src/Base/Owner.antt =====
-- The one row that a primary key names.
use arbiter_distributed_sche.Base.Tests.{Bool-cases, if◌then◌else◌, some-injective, str_eq→eq}
use arbiter_distributed_sche.Base.Rows.{All, find, All-map}
use arbiter_distributed_sche.Base.Keys.{IsUnique, keyed}
use Prim.Native.String.{String}
use mathlib.Core.Path.{◌≡◌, sym, ap, ◌∙◌}
use mathlib.Core.Logic.{◌≢◌, inl, inr}
use mathlib.Core.Bool.{false}
use mathlib.Core.Option.{none, some}
use mathlib.Core.List.{List, [], ◌∷◌}
use native.Mathlib.Omega.{arith}
use text.Mathlib.Text.{◌==◌ as str_eq}
use text.Mathlib.TextEquality.{eq_iff}

unequal : (s t : String) → str_eq s t ≡ false → s ≢ t
unequal s t h q = ground (arith, eq_iff s t, h, q)

module _ {A : Type 0} (key : A → String) where
  absent_apart : (k : String) (xs : List A) → find (keyed key k) xs ≡ none → All (λ y. key y ≢ k) xs
  absent_apart k [] e = tt
  absent_apart k (y ∷ ys) e = ground (arith, eq_iff (key y) k, absent_apart k ys)

  -- Every row of the key is the row that a search finds.
  pub owner_is_found :
      (k : String) (xs : List A) {x : A}
      → IsUnique key xs
      → find (keyed key k) xs ≡ some x
      → All (λ y. key y ≡ k → y ≡ x) xs
  owner_is_found k [] u e = tt
  owner_is_found k (y ∷ ys) {x} u e = elim (Bool-cases (str_eq (key y) k)) [
    | inl same ↦
        let is_y : y ≡ x =
          some-injective (sym (ap (λ b. if b then some y else find (keyed key k) ys) same) ∙ e) in
        (
          λ q. is_y,
          All-map ys (λ z apart q. absurd (apart (q ∙ sym (str_eq→eq (key y) k same))))
              (absent_apart (key y) ys u.0),
        )
    | inr differs ↦ (
      λ q. absurd (unequal (key y) k differs q),
      owner_is_found k ys u.1
          (sym (ap (λ b. if b then some y else find (keyed key k) ys) differs) ∙ e),
    )
  ]
