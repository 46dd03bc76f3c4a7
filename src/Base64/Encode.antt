-- ===== src/Base64/Encode.antt =====
-- `b64url_encode` against the standard: what it writes, when it refuses, and that its texts tell the
-- encoded bytes apart.
use mathlib.Core.List.{map}
use ledger_arweave.Base.{
  ℕ, suc, zero, ◌+◌, ◌-◌, ◌<◌, ◌≤◌, ◌≡◌, refl, ap, ap₂, ◌∙◌, List, [], ◌∷◌, ◌++◌, some, Option,
  Bytes, IsByte, All, arith, ltb-false, lt→ltb, length, replicate, Bool, true, false, ◌==◌, ==_iff,
  if◌then◌else◌, none, take, take-append,
}
use ledger_arweave.Base64.{finish, rounds, char, charset, encode, min_space}
use ledger_arweave.Base64.Loop.{encoder, IsWritten, loop-IsWritten}
use ledger_arweave.Base64.Sextets.{sextets, bytes_of, bytes_of-sextets, sextets-lt, length-sextets}

length-map : {A B : Type 0} (f : A → B) (xs : List A) → length (map f xs) ≡ length xs
length-map f [] = refl
length-map f (x ∷ xs) = ap suc (length-map f xs)

-- The text of the standard, over the URL alphabet.
abbrev pub text_of : Bytes → Bytes
text_of input = map char (sextets input)

pub length-text_of :
    (input : Bytes) → length (text_of input) ≡ length input + min_space (length input)
length-text_of input = length-map char (sextets input) ∙ length-sextets input

-- `b64url_encode` writes the base64url text of its input, without padding, at the front of the
-- buffer, zeros behind it, and returns the length of the text, whenever the text fits the buffer.
pub encode-text_of :
    (out : Bytes) (outlen : ℕ) (input : Bytes)
    → All IsByte input
    → outlen < 65536
    → length (text_of input) ≤ outlen
    → encode (some out) outlen (some input) ≡ (
      length (text_of input),
      some (text_of input ++ replicate (outlen - length (text_of input)) 0),
    )
unfolding encode
encode-text_of out outlen input bytes small fits =
    rw
      (ltb-false outlen (length input + min_space (length input))
        (omega (arith, length-text_of input)))
      (ap₂ (λ (n : ℕ) (o : Bytes). (n, some o)) w.index
        (w.cells ∙ ap (λ (n : ℕ). text_of input ++ replicate n 0) (omega (arith, w.sums))))
  where
    w :
        IsWritten
          (finish (rounds (encoder 0 0 0 (replicate outlen 0)) input))
          (text_of input)
          outlen
    w =
        loop-IsWritten outlen small input 0 (replicate outlen 0) [] bytes
          (omega (arith, length-map char (sextets input)))
          (record { room = outlen; index = refl; cells = refl; sums = omega arith })

-- Where the text does not fit, the guard refuses: 0 is returned and the buffer holds zeros.
pub encode_refuses :
    (out : Bytes) (outlen : ℕ) (input : Bytes)
    → outlen < length (text_of input)
    → encode (some out) outlen (some input) ≡ (0, some (replicate outlen 0))
unfolding encode
encode_refuses out outlen input h =
    rw (
      lt→ltb outlen (length input + min_space (length input)) (omega (arith, length-text_of input)))

-- The place of a character in the table.
abbrev value_from : ℕ → Bytes → ℕ → ℕ
value_from i [] c = 0
value_from i (x ∷ xs) c = if x == c then i else value_from (i + 1) xs c

abbrev pub value_of : ℕ → ℕ
value_of c = value_from 0 charset c

-- Whether a test holds of every number below `k`.
holds_below : (ℕ → Bool) → ℕ → Bool
holds_below test zero = true
holds_below test (suc k) = if test k then holds_below test k else false

holds_below_sound : (test : ℕ → Bool) (k i : ℕ) → i < k → holds_below test k ≡ true → test i ≡ true
unfolding holds_below
holds_below_sound test zero i lt h = absurd (omega arith)
holds_below_sound test (suc k) i lt h = ground (arith, holds_below_sound test k i)

table_inverse : holds_below (λ x. value_of (char x) == x) 64 ≡ true
unfolding holds_below
table_inverse = refl

value_of-char : (x : ℕ) → x < 64 → value_of (char x) ≡ x
value_of-char x h =
    (==_iff _ x).0 (holds_below_sound (λ x. value_of (char x) == x) 64 x h table_inverse)

map-value_of-char : (xs : List ℕ) → All (λ x. x < 64) xs → map value_of (map char xs) ≡ xs
map-value_of-char [] h = refl
map-value_of-char (x ∷ xs) h = ap₂ ◌∷◌ (value_of-char x h.0) (map-value_of-char xs h.1)

-- The bytes that a text stands for.
pub decode : Bytes → Bytes
decode text = bytes_of (map value_of text)

pub decode-text_of : (input : Bytes) → All IsByte input → decode (text_of input) ≡ input
unfolding decode
decode-text_of input h =
    ap bytes_of (map-value_of-char (sextets input) (sextets-lt input h)) ∙ bytes_of-sextets input h

-- What `b64url_encode` wrote.
abbrev pub written : ℕ × Option Bytes → Bytes
written (n, none) = []
written (n, some out) = take n out

-- Decoding what `b64url_encode` wrote gives the input back, whenever the text fits the buffer; so
-- two inputs shown by one text are the same.
pub decode-encode :
    (out : Bytes) (outlen : ℕ) (input : Bytes)
    → All IsByte input
    → outlen < 65536
    → length (text_of input) ≤ outlen
    → decode (written (encode (some out) outlen (some input))) ≡ input
decode-encode out outlen input bytes small fits =
    ap (λ (r : ℕ × Option Bytes). decode (written r))
      (encode-text_of out outlen input bytes small fits)
    ∙ ap decode (take-append (text_of input) _ _ refl)
    ∙ decode-text_of input bytes
