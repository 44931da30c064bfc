-- ===== src/Base/Split.antt =====
-- Go's `strings.Split` and `strings.Cut`, by a separator of one character, and what they undo.
use arbiter_distributed_sche.Base.Tests.{if◌then◌else◌, ◌==◌}
use arbiter_distributed_sche.Base.Rows.{All}
use Prim.Native.Nat.{ℕ}
use Prim.Native.Char.{Char, code}
use Prim.Native.String.{String, [], ◌∷◌, ◌++◌}
use mathlib.Core.Logic.{◌≢◌}
use mathlib.Core.Path.{◌≡◌, refl, ap, ◌∙◌}
use mathlib.Core.Bool.{Bool, true, false, ◌&&◌, not}
use mathlib.Core.Option.{Option, none, some}
use mathlib.Core.List.{List, [], ◌∷◌}
use native.Mathlib.Omega.{arith}
use text.Mathlib.TextLemmas.{nil-append, cons-append, cons≢nil, append-ne-nil_of_right_ne-nil}

-- The first piece begins with the character.
abbrev add_first : Char → List String → List String
add_first c [] = (c ∷ []) ∷ []
add_first c (s ∷ ss) = (c ∷ s) ∷ ss

-- `strings.Split`, by the code of the separator.
abbrev pub split_at_each : ℕ → String → List String
split_at_each k [] = [] ∷ []
split_at_each k (c ∷ s) =
    let rest = split_at_each k s in if code c == k then [] ∷ rest else add_first c rest

abbrev behind : Char → Option (String × String) → Option (String × String)
behind c none = none
behind c (some (a, b)) = some (c ∷ a, b)

-- `strings.Cut`: nothing where the separator does not occur.
abbrev pub cut : ℕ → String → Option (String × String)
cut k [] = none
cut k (c ∷ s) = let rest = cut k s in if code c == k then some ([], s) else behind c rest

-- The separator does not occur.
abbrev pub avoids : ℕ → String → Bool
avoids k [] = true
avoids k (c ∷ s) = let rest = avoids k s in not (code c == k) && rest

-- The texts, with the separator between them.
abbrev pub join : Char → List String → String
join c [] = []
join c (s ∷ []) = s
join c (s ∷ t ∷ ss) = s ++ (c ∷ join c (t ∷ ss))

same_num : (n : ℕ) → (n == n) ≡ true
same_num n = ground arith

avoids_head :
    (k : ℕ) (c : Char) (s : String)
    → avoids k (c ∷ s) ≡ true
    → ((code c == k) ≡ false) × (avoids k s ≡ true)
avoids_head k c s h = ground arith

split_at_each-one : (k : ℕ) (s : String) → avoids k s ≡ true → split_at_each k s ≡ s ∷ []
split_at_each-one k [] h = refl
split_at_each-one k (c ∷ s) h =
    let (differs, later) = avoids_head k c s h in
    rw differs (ap (add_first c) (split_at_each-one k s later))

split_at_each-append :
    (c : Char) (s t : String)
    → avoids (code c) s ≡ true
    → split_at_each (code c) (s ++ (c ∷ t)) ≡ s ∷ split_at_each (code c) t
split_at_each-append c [] t h =
    ap (split_at_each (code c)) (nil-append (c ∷ t))
    ∙ ap (λ b. if b then [] ∷ split_at_each (code c) t else add_first c (split_at_each (code c) t))
        (same_num (code c))
split_at_each-append c (b ∷ s) t h =
    let (differs, later) = avoids_head (code c) b s h in
    let rest = split_at_each (code c) (s ++ (c ∷ t)) in
    ap (split_at_each (code c)) (cons-append b s (c ∷ t))
    ∙ ap (λ x. if x then [] ∷ rest else add_first b rest) differs
    ∙ ap (add_first b) (split_at_each-append c s t later)

-- A split undoes a join of one text or more, in which the separator does not occur.
pub split_at_each-join :
    (c : Char) (s : String) (ss : List String)
    → All (λ t. avoids (code c) t ≡ true) (s ∷ ss)
    → split_at_each (code c) (join c (s ∷ ss)) ≡ s ∷ ss
split_at_each-join c s [] h = split_at_each-one (code c) s h.0
split_at_each-join c s (t ∷ ss) h =
    split_at_each-append c s (join c (t ∷ ss)) h.0 ∙ ap (λ x. s ∷ x) (split_at_each-join c t ss h.1)

-- The two texts, with the separator between them.
abbrev pub pair_with : Char → String → String → String
pair_with c s t = s ++ (c ∷ t)

pub pair_with-filled : (c : Char) (s t : String) → pair_with c s t ≢ []
pair_with-filled c s t = append-ne-nil_of_right_ne-nil s cons≢nil

pub cut-pair_with :
    (c : Char) (s t : String)
    → avoids (code c) s ≡ true
    → cut (code c) (pair_with c s t) ≡ some (s, t)
cut-pair_with c [] t h =
    ap (cut (code c)) (nil-append (c ∷ t))
    ∙ ap (λ b. if b then some ([], t) else behind c (cut (code c) t)) (same_num (code c))
cut-pair_with c (b ∷ s) t h =
    let (differs, later) = avoids_head (code c) b s h in
    let rest = cut (code c) (s ++ (c ∷ t)) in
    ap (cut (code c)) (cons-append b s (c ∷ t))
    ∙ ap (λ x. if x then some ([], s ++ (c ∷ t)) else behind b rest) differs
    ∙ ap (behind b) (cut-pair_with c s t later)
