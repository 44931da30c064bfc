-- ===== src/Base/Index.antt =====
-- Positions in a list of texts.
use arbiter_distributed_sche.Base.Tests.{if◌then◌else◌, some-injective}
use arbiter_distributed_sche.Base.Rows.{All, length}
use Prim.Native.Nat.{ℕ, zero, suc, ◌<◌}
use Prim.Native.String.{String}
use mathlib.Core.Path.{◌≡◌, refl, subst}
use mathlib.Core.Logic.{◌≢◌}
use mathlib.Core.Bool.{Bool, true, false}
use mathlib.Core.Option.{Option, none, some}
use mathlib.Core.List.{List, [], ◌∷◌}
use native.Mathlib.Omega.{arith}
use text.Mathlib.Text.{◌==◌ as str_eq}
use text.Mathlib.TextPositions.{eq_refl}
use text.Mathlib.TextEquality.{eq_iff}

abbrev pub get_elem? : List String → ℕ → Option String
get_elem? [] n = none
get_elem? (x ∷ xs) zero = some x
get_elem? (x ∷ xs) (suc n) = get_elem? xs n

abbrev pub later_index : Option ℕ → Option ℕ
later_index none = none
later_index (some n) = some (suc n)

-- The first position of the text.
abbrev pub index_of : String → List String → Option ℕ
index_of s [] = none
index_of s (x ∷ xs) =
    let later = later_index (index_of s xs) in if str_eq x s then some 0 else later

-- No text stands twice.
abbrev pub AreDistinct : List String → Type 0
AreDistinct [] = Unit
AreDistinct (x ∷ xs) = All (λ y. y ≢ x) xs × AreDistinct xs

pub get_elem?-total :
    (xs : List String) (n : ℕ) → n < length xs → (x : String) × (get_elem? xs n ≡ some x)
get_elem?-total [] n h = absurd (omega (arith, h))
get_elem?-total (x ∷ xs) zero h = (x, refl)
get_elem?-total (x ∷ xs) (suc n) h = get_elem?-total xs n (omega (arith, h))

All-get_elem? :
    (P : String → Type 0) (xs : List String) (n : ℕ) {x : String}
    → All P xs
    → get_elem? xs n ≡ some x
    → P x
All-get_elem? P [] n h e = cc
All-get_elem? P (y ∷ ys) zero h e = subst P (some-injective e) h.0
All-get_elem? P (y ∷ ys) (suc n) h e = All-get_elem? P ys n h.1 e

pub index_of-get_elem? :
    (xs : List String) (n : ℕ) {x : String}
    → AreDistinct xs
    → get_elem? xs n ≡ some x
    → index_of x xs ≡ some n
index_of-get_elem? [] n d e = cc
index_of-get_elem? (y ∷ ys) zero {x} d e = rw (some-injective e) (rw (eq_refl x) refl)
index_of-get_elem? (y ∷ ys) (suc n) {x} d e =
    let apart = All-get_elem? (λ z. z ≢ y) ys n d.0 e in
    rw (index_of-get_elem? ys n d.1 e) (ground (arith, eq_iff y x, apart))

pub index_of-bound :
    (s : String) (xs : List String) (n : ℕ) → index_of s xs ≡ some n → n < length xs
index_of-bound s [] n e = cc
index_of-bound s (x ∷ xs) n e = go (str_eq x s) (index_of s xs) e (index_of-bound s xs)
  where
    go :
        (b : Bool) (o : Option ℕ)
        → (if b then some 0 else later_index o) ≡ some n
        → ((m : ℕ) → o ≡ some m → m < length xs)
        → n < suc (length xs)
    go true o q h = omega (arith, some-injective q)
    go false none q h = cc
    go false (some m) q h = omega (arith, h m refl, some-injective q)
