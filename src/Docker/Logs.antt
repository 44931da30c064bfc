-- ===== src/Docker/Logs.antt =====
-- internal/dockerutil/dockerutil.go: `decodeDockerLogs`. Bytes are numbers below 256.
use mathlib.Core.List.{append_assoc}
use arbiter_distributed_sche.Base.{
  All, List, Option, [], ap, arith, false, if◌then◌else◌, length, ltb, none, refl, some, suc, take,
  zero, ℕ, ◌%◌, ◌*◌, ◌++◌, ◌+◌, ◌/◌, ◌<◌, ◌^◌, ◌∙◌, ◌∷◌, ◌≡◌, ◌≢◌, ◌≤◌,
}
use arbiter_distributed_sche.Base.Ascending.{drop}

-- The size in a frame's header, big-endian.
unfoldable pub frame_size : ℕ → ℕ → ℕ → ℕ → ℕ
frame_size a b c d = a * 2 ^ 24 + b * 2 ^ 16 + c * 2 ^ 8 + d

-- A header of eight bytes, if there are as many: the size, and what follows.
unfoldable pub header_of : List ℕ → Option (ℕ × List ℕ)
unfolding frame_size
header_of (s ∷ x ∷ y ∷ z ∷ a ∷ b ∷ c ∷ d ∷ rest) = some (frame_size a b c d, rest)
header_of _ = none

abbrev pub payload_and : List ℕ → Option (List ℕ) → Option (List ℕ)
payload_and payload none = none
payload_and payload (some others) = some (payload ++ others)

-- One turn of the loop: a frame that runs past the end has no reading.
unfoldable pub read_frame : (List ℕ → Option (List ℕ)) → Option (ℕ × List ℕ) → Option (List ℕ)
read_frame others none = some []
read_frame others (some (size, rest)) =
    if ltb (length rest) size then none else payload_and (take size rest) (others (drop size rest))

-- The loop, on fuel. Each turn takes eight bytes or more.
unfoldable pub read_frames : ℕ → List ℕ → Option (List ℕ)
unfolding read_frame header_of
read_frames zero raw = some []
read_frames (suc fuel) raw = read_frame (read_frames fuel) (header_of raw)

-- `return string(raw)` where there is no reading, or an empty one.
unfoldable pub decoded : List ℕ → Option (List ℕ) → List ℕ
decoded raw none = raw
decoded raw (some []) = raw
decoded raw (some (b ∷ bs)) = b ∷ bs

-- `decodeDockerLogs`
unfoldable pub decode_docker_logs : List ℕ → List ℕ
unfolding decoded read_frames
decode_docker_logs raw = decoded raw (read_frames (length raw) raw)

-- Docker's frames: the stream, three zeros, the size in four bytes, and the payload.
abbrev pub Frame : Type 0
Frame = ℕ × List ℕ

unfoldable pub encode_frame : Frame → List ℕ
encode_frame (stream, payload) =
    let n = length payload in
    stream ∷ 0 ∷ 0 ∷ 0 ∷ n / 2 ^ 24 % 256 ∷ n / 2 ^ 16 % 256 ∷ n / 2 ^ 8 % 256 ∷ n % 256 ∷ payload

unfoldable pub encode : List Frame → List ℕ
unfolding encode_frame
encode [] = []
encode (f ∷ fs) = encode_frame f ++ encode fs

unfoldable pub payloads : List Frame → List ℕ
payloads [] = []
payloads (f ∷ fs) = f.1 ++ payloads fs

size_of_bytes :
    (n : ℕ)
    → n < 2 ^ 32
    → frame_size (n / 2 ^ 24 % 256) (n / 2 ^ 16 % 256) (n / 2 ^ 8 % 256) (n % 256) ≡ n
unfolding frame_size
size_of_bytes n h = omega (arith, h)

take-append : (xs ys : List ℕ) → take (length xs) (xs ++ ys) ≡ xs
take-append [] ys = refl
take-append (x ∷ xs) ys = ap (λ l. x ∷ l) (take-append xs ys)

drop-append : (xs ys : List ℕ) → drop (length xs) (xs ++ ys) ≡ ys
drop-append [] ys = refl
drop-append (x ∷ xs) ys = drop-append xs ys

length-append : (xs ys : List ℕ) → length xs + length ys ≡ length (xs ++ ys)
length-append [] ys = omega arith
length-append (x ∷ xs) ys = omega (arith, length-append xs ys)

fits-append : (xs ys : List ℕ) → ltb (length (xs ++ ys)) (length xs) ≡ false
fits-append xs ys = ground (arith, length-append xs ys)

header-frame :
    (f : Frame) (rest : List ℕ)
    → length f.1 < 2 ^ 32
    → header_of (encode_frame f ++ rest) ≡ some (length f.1, f.1 ++ rest)
unfolding header_of encode_frame
header-frame f rest h = ap (λ n. some (n, f.1 ++ rest)) (size_of_bytes (length f.1) h)

read_frame-frame :
    (others : List ℕ → Option (List ℕ)) (f : Frame) (rest : List ℕ)
    → length f.1 < 2 ^ 32
    → read_frame others (header_of (encode_frame f ++ rest)) ≡ payload_and f.1 (others rest)
unfolding read_frame
read_frame-frame others f rest h =
    let n = length f.1 in
    let tail = f.1 ++ rest in
    ap (read_frame others) (header-frame f rest h)
    ∙ ap (λ t. if t then none else payload_and (take n tail) (others (drop n tail)))
        (fits-append f.1 rest)
    ∙ ap (λ xs. payload_and xs (others (drop n tail))) (take-append f.1 rest)
    ∙ ap (λ xs. payload_and f.1 (others xs)) (drop-append f.1 rest)

-- A rest that is too short for a header.
header_of_short : (rest : List ℕ) → length rest < 8 → header_of rest ≡ none
unfolding header_of
header_of_short [] h = refl
header_of_short (a ∷ []) h = refl
header_of_short (a ∷ b ∷ []) h = refl
header_of_short (a ∷ b ∷ c ∷ []) h = refl
header_of_short (a ∷ b ∷ c ∷ d ∷ []) h = refl
header_of_short (a ∷ b ∷ c ∷ d ∷ e ∷ []) h = refl
header_of_short (a ∷ b ∷ c ∷ d ∷ e ∷ f ∷ []) h = refl
header_of_short (a ∷ b ∷ c ∷ d ∷ e ∷ f ∷ g ∷ []) h = refl
header_of_short (a ∷ b ∷ c ∷ d ∷ e ∷ f ∷ g ∷ i ∷ js) h = absurd (omega (arith, h))

pub short_tail : (n : ℕ) (rest : List ℕ) → length rest < 8 → read_frames n rest ≡ some []
unfolding read_frames read_frame
short_tail zero rest h = refl
short_tail (suc n) rest h = ap (read_frame (read_frames n)) (header_of_short rest h)

-- Every payload has a size that a header can say.
abbrev pub AreSized : List Frame → Type 0
AreSized fs = All (λ f. length f.1 < 2 ^ 32) fs

read_frames-encode :
    (n : ℕ) (fs : List Frame) (rest : List ℕ)
    → length rest < 8
    → AreSized fs
    → length fs ≤ n
    → read_frames n (encode fs ++ rest) ≡ some (payloads fs)
unfolding read_frames encode payloads
read_frames-encode n [] rest h z b = short_tail n rest h
read_frames-encode zero (f ∷ fs) rest h z b = absurd (omega (arith, b))
read_frames-encode (suc n) (f ∷ fs) rest h z b =
    ap (λ xs. read_frame (read_frames n) (header_of xs))
      (append_assoc (encode_frame f) (encode fs) rest)
    ∙ read_frame-frame (read_frames n) f (encode fs ++ rest) z.0
    ∙ ap (payload_and f.1) (read_frames-encode n fs rest h z.1 (omega (arith, b)))

frames-bound : (fs : List Frame) (rest : List ℕ) → length fs ≤ length (encode fs ++ rest)
unfolding encode encode_frame
frames-bound [] rest = omega arith
frames-bound (f ∷ fs) rest = omega (
  arith,
  frames-bound fs rest,
  length-append (f.1 ++ encode fs) rest,
  length-append f.1 (encode fs),
  length-append (encode fs) rest,
)

decoded-some : (raw out : List ℕ) → out ≢ [] → decoded raw (some out) ≡ out
unfolding decoded
decoded-some raw [] h = absurd (h refl)
decoded-some raw (b ∷ bs) h = refl

-- The payloads of Docker's frames come back from their encoding, one after the other, also with a
-- header behind them that is cut off, if no payload is longer than a header can say and some payload
-- is not empty.
pub decode-encode :
    (fs : List Frame) (rest : List ℕ)
    → length rest < 8
    → AreSized fs
    → payloads fs ≢ []
    → decode_docker_logs (encode fs ++ rest) ≡ payloads fs
unfolding decode_docker_logs
decode-encode fs rest h z ne =
    ap (decoded (encode fs ++ rest))
      (read_frames-encode (length (encode fs ++ rest)) fs rest h z (frames-bound fs rest))
    ∙ decoded-some (encode fs ++ rest) (payloads fs) ne
