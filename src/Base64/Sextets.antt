-- ===== src/Base64/Sextets.antt =====
-- Base64url as RFC 4648 states it: three bytes are four numbers of six bits, and a last group of one
-- or two bytes is filled up with zero bits. No padding. And the way back.
use ledger_arweave.Base.{
  ℕ, ◌+◌, ◌*◌, ◌/◌, ◌%◌, ◌<◌, ◌≡◌, refl, ap, ap₂, List, [], ◌∷◌, Bytes, IsByte, All, arith, length,
}
use ledger_arweave.Base64.{min_space}

unfoldable pub sextets : Bytes → List ℕ
sextets [] = []
sextets (a ∷ []) = a / 4 ∷ a % 4 * 16 ∷ []
sextets (a ∷ b ∷ []) = a / 4 ∷ (a % 4 * 16 + b / 16) ∷ b % 16 * 4 ∷ []
sextets (a ∷ b ∷ c ∷ r) = a / 4 ∷ (a % 4 * 16 + b / 16) ∷ (b % 16 * 4 + c / 64) ∷ c % 64 ∷ sextets r

-- The bytes of a list of sextets; a sextet alone at the end stands for none.
unfoldable pub bytes_of : List ℕ → Bytes
bytes_of [] = []
bytes_of (x ∷ []) = []
bytes_of (x ∷ y ∷ []) = (x * 4 + y / 16) ∷ []
bytes_of (x ∷ y ∷ z ∷ []) = (x * 4 + y / 16) ∷ (y % 16 * 16 + z / 4) ∷ []
bytes_of (x ∷ y ∷ z ∷ w ∷ r) =
    (x * 4 + y / 16) ∷ (y % 16 * 16 + z / 4) ∷ (z % 4 * 64 + w) ∷ bytes_of r

pub bytes_of-sextets : (bs : Bytes) → All IsByte bs → bytes_of (sextets bs) ≡ bs
unfolding sextets bytes_of
bytes_of-sextets [] h = refl
bytes_of-sextets (a ∷ []) h = ap (λ (x : ℕ). x ∷ []) (omega arith)
bytes_of-sextets (a ∷ b ∷ []) h = ap₂ (λ (x y : ℕ). x ∷ y ∷ []) (omega arith) (omega arith)
bytes_of-sextets (a ∷ b ∷ c ∷ r) h =
    ap₂ ◌∷◌ (omega arith)
      (ap₂ ◌∷◌ (omega arith) (ap₂ ◌∷◌ (omega arith) (bytes_of-sextets r h.1.1.1)))

-- Six bits each.
pub sextets-lt : (bs : Bytes) → All IsByte bs → All (λ x. x < 64) (sextets bs)
unfolding sextets
sextets-lt [] h = tt
sextets-lt (a ∷ []) h = omega arith
sextets-lt (a ∷ b ∷ []) h = omega arith
sextets-lt (a ∷ b ∷ c ∷ r) h =
    (omega arith, (omega arith, (omega arith, (omega arith, sextets-lt r h.1.1.1))))

-- The guard of `b64url_encode` asks for exactly the space that the text takes.
pub length-sextets : (bs : Bytes) → length (sextets bs) ≡ length bs + min_space (length bs)
unfolding sextets
length-sextets [] = refl
length-sextets (a ∷ []) = refl
length-sextets (a ∷ b ∷ []) = refl
length-sextets (a ∷ b ∷ c ∷ r) = ground (arith, length-sextets r)
