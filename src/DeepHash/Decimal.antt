-- ===== src/DeepHash/Decimal.antt =====
-- The conversion "%d" of `snprintf`, for the numbers of a `uint16_t`.
use ledger_arweave.Base.{
  ℕ, zero, suc, ◌+◌, ◌-◌, ◌*◌, ◌/◌, ◌%◌, ◌<◌, ◌^◌, ◌≡◌, ap, sym, ◌∙◌, [], ◌∷◌, ◌++◌, Bytes, arith,
  ltb, if◌then◌else◌, ltb→lt, Bool-cases, refl, inl, inr,
}

-- The last `fuel` digits of a number, without leading zeros.
unfoldable pub digits : ℕ → ℕ → Bytes
digits zero n = []
digits (suc fuel) n =
    let rest = digits fuel (n / 10) in
    if ltb n 10 then (48 + n) ∷ [] else rest ++ ((48 + n % 10) ∷ [])

-- A `uint16_t` has at most five digits.
abbrev pub decimal : ℕ → Bytes
decimal n = digits 5 n

-- The number that a text of digits stands for, after the number `v` of the digits before it.
value_after : ℕ → Bytes → ℕ
value_after v [] = v
value_after v (d ∷ ds) = value_after (v * 10 + (d - 48)) ds

value_after-snoc :
    (v : ℕ) (ds : Bytes) (d : ℕ) → value_after v (ds ++ (d ∷ [])) ≡ value_after v ds * 10 + (d - 48)
unfolding value_after
value_after-snoc v [] d = refl
value_after-snoc v (x ∷ ds) d = value_after-snoc (v * 10 + (x - 48)) ds d

value_after-digits : (fuel n : ℕ) → 0 < fuel → n < 10 ^ fuel → value_after 0 (digits fuel n) ≡ n
unfolding value_after digits
value_after-digits zero n p h = absurd (omega arith)
value_after-digits (suc zero) n p h = ground arith
value_after-digits (suc (suc fuel)) n p h = elim (Bool-cases (ltb n 10)) [
  | inl e ↦ rw e (omega (arith, ltb→lt n 10 e))
  | inr e ↦ rw e (
      value_after-snoc 0 (digits (suc fuel) (n / 10)) (48 + n % 10)
      ∙ omega (arith, value_after-digits (suc fuel) (n / 10) (omega arith) (omega arith)))
]

-- A number of 16 bits is read back from its text, so the text tells it apart.
pub decimal_inj : (m n : ℕ) → m < 65536 → n < 65536 → decimal m ≡ decimal n → m ≡ n
decimal_inj m n p q e =
    sym (value_after-digits 5 m (omega arith) (omega arith))
    ∙ ap (value_after 0) e
    ∙ value_after-digits 5 n (omega arith) (omega arith)
