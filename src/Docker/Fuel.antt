-- ===== src/Docker/Fuel.antt =====
-- internal/dockerutil/dockerutil.go: the loop of `decodeDockerLogs` ends within the length of its
-- input.
use arbiter_distributed_sche.Base.{
  List, Option, [], ap, arith, if◌then◌else◌, length, ltb, none, refl, some, some-injective, suc,
  sym, take, zero, ℕ, ◌<◌, ◌∷◌, ◌≡◌, ◌≤◌,
}
use arbiter_distributed_sche.Base.Ascending.{drop}
use arbiter_distributed_sche.Docker.Logs.{
  header_of, payload_and, read_frame, read_frames, short_tail,
}

header_of-shrinks :
    (raw : List ℕ) (p : ℕ × List ℕ) → header_of raw ≡ some p → length p.1 < length raw
unfolding header_of
header_of-shrinks [] p e = cc
header_of-shrinks (a ∷ []) p e = cc
header_of-shrinks (a ∷ b ∷ []) p e = cc
header_of-shrinks (a ∷ b ∷ c ∷ []) p e = cc
header_of-shrinks (a ∷ b ∷ c ∷ d ∷ []) p e = cc
header_of-shrinks (a ∷ b ∷ c ∷ d ∷ i ∷ []) p e = cc
header_of-shrinks (a ∷ b ∷ c ∷ d ∷ i ∷ j ∷ []) p e = cc
header_of-shrinks (a ∷ b ∷ c ∷ d ∷ i ∷ j ∷ k ∷ []) p e = cc
header_of-shrinks (a ∷ b ∷ c ∷ d ∷ i ∷ j ∷ k ∷ l ∷ rest) p e =
    let same = ap (λ q. length q.1) (some-injective e) in omega (arith, same)

length-drop : (n : ℕ) (xs : List ℕ) → length (drop n xs) ≤ length xs
length-drop zero xs = omega arith
length-drop (suc n) [] = omega arith
length-drop (suc n) (x ∷ xs) = omega (arith, length-drop n xs)

-- Fuel beyond the number of the bytes reads nothing more, so the loop of `decodeDockerLogs` is
-- read to its end.
pub read_frames_enough :
    (m n : ℕ) (raw : List ℕ)
    → length raw ≤ m
    → length raw ≤ n
    → read_frames m raw ≡ read_frames n raw
unfolding read_frames read_frame
read_frames_enough zero n raw hm hn = sym (short_tail n raw (omega (arith, hm)))
read_frames_enough (suc m) zero raw hm hn = short_tail (suc m) raw (omega (arith, hn))
read_frames_enough (suc m) (suc n) raw hm hn =
    go (header_of raw) (header_of-shrinks raw) (λ tail shorter.
      read_frames_enough m n tail (omega (arith, hm, shorter)) (omega (arith, hn, shorter)))
  where
    go :
        (o : Option (ℕ × List ℕ))
        → ((p : ℕ × List ℕ) → o ≡ some p → length p.1 < length raw)
        → ((tail : List ℕ) → length tail < length raw → read_frames m tail ≡ read_frames n tail)
        → read_frame (read_frames m) o ≡ read_frame (read_frames n) o
    go none s k = refl
    go (some (size, rest)) s k =
        ap (λ x. if ltb (length rest) size then none else payload_and (take size rest) x)
          (k (drop size rest) (omega (arith, s (size, rest) refl, length-drop size rest)))
