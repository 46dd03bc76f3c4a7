-- ===== src/Base64/Tests.antt =====
-- Runs of the encoder on the vectors of tests/b64url.cpp, and its theorems at a concrete input.
use ledger_arweave.Base.{
  ◌≡◌, refl, [], ◌∷◌, ◌++◌, some, Bytes, arith, replicate, length, are_below_sound,
}
use ledger_arweave.Status.{codes}
use ledger_arweave.Base64.{encode, finish, rounds, round}
use ledger_arweave.Base64.Sextets.{sextets}
use ledger_arweave.Base64.Encode.{text_of, encode-text_of, decode, decode-encode, written}

abbrev input : Bytes
input = 1 ∷ 3 ∷ 5 ∷ 7 ∷ []

-- A buffer of eight cells, with what an earlier use left.
abbrev used : Bytes
used = replicate 8 88

vector : encode (some used) 8 (some input) ≡ (6, some (codes "AQMFBw" ++ 0 ∷ 0 ∷ []))
unfolding encode finish rounds round
vector = refl

-- An empty string gives no text, and the number returned is that of a failure.
empty : encode (some used) 8 (some []) ≡ (0, some (replicate 8 0))
unfolding encode finish rounds
empty = refl

text : text_of input ≡ codes "AQMFBw"
unfolding sextets
text = refl

encode-text_of_example :
    encode (some used) 8 (some input) ≡ (length (text_of input), some (text_of input ++ 0 ∷ 0 ∷ []))
unfolding sextets
encode-text_of_example =
    encode-text_of used 8 input (are_below_sound 256 input refl) (omega arith) (omega arith)

decode-encode_example : decode (written (encode (some used) 8 (some input))) ≡ input
unfolding sextets
decode-encode_example =
    decode-encode used 8 input (are_below_sound 256 input refl) (omega arith) (omega arith)
