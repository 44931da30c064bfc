-- ===== src/Base/Text.antt =====
-- The operations of Go's `strings` that the program calls.
use arbiter_distributed_sche.Base.Tests.{if◌then◌else◌, is_some, leb, ◌==◌}
use Prim.Native.Nat.{ℕ}
use Prim.Native.Char.{Char, code}
use Prim.Native.String.{String, [], ◌∷◌, ◌++◌, len, slice}
use mathlib.Core.Path.{◌≡◌}
use mathlib.Core.Bool.{Bool, true, false, ◌&&◌, ◌||◌}
use text.Mathlib.Text.{starts_with, find?}
use text.Mathlib.TextPositions.{len-append, slice-append_right, starts_with-append}

abbrev pub str_append : String → String → String
str_append s t = s ++ t

-- `unicode.IsSpace`
abbrev pub is_space_code : ℕ → Bool
is_space_code n =
    (leb 9 n && leb n 13)
    || n == 32
    || n == 133
    || n == 160
    || n == 5_760
    || (leb 8_192 n && leb n 8_202)
    || n == 8_232
    || n == 8_233
    || n == 8_239
    || n == 8_287
    || n == 12_288

abbrev pub is_space : Char → Bool
is_space c = is_space_code (code c)

abbrev is_blank : String → Bool
is_blank [] = true
is_blank (c ∷ s) = false

abbrev pub trim_left : String → String
trim_left [] = []
trim_left (c ∷ s) = let rest = trim_left s in if is_space c then rest else c ∷ s

abbrev pub trim_right : String → String
trim_right [] = []
trim_right (c ∷ s) = let rest = trim_right s in if is_space c && is_blank rest then [] else c ∷ rest

-- `strings.TrimSpace`
abbrev pub trim_space : String → String
trim_space s = trim_right (trim_left s)

-- `strings.TrimPrefix`
abbrev pub trim_prefix : String → String → String
trim_prefix s p = if starts_with s p then slice s (len p) (len s) else s

-- `strings.Contains`
abbrev pub contains : String → String → Bool
contains s t = is_some (find? s t)

pub trim_prefix-append : (p s : String) → trim_prefix (p ++ s) p ≡ s
trim_prefix-append p s = rw (starts_with-append p s) (rw (len-append p s) (slice-append_right p s))
