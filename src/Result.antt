-- ===== src/Result.antt =====
-- The codes of zxlib that the key store reports, and the way its functions end.

pub data ZxError : Type 0 where
  zxerr_unknown zxerr_out_of_bounds zxerr_invalid_crypto_settings zxerr_buffer_too_small : ZxError
  zxerr_no_data : ZxError

-- `zxerr_ok` with what the call gives, or another code with the state that it leaves.
pub data Result {ℓ κ} (A : Type ℓ) (S : Type κ) : Type (ℓ ⊔ κ) where
  ok : A → Result A S
  fail : ZxError → S → Result A S

module _ {ℓ κ μ} {A : Type ℓ} {B : Type κ} {S : Type μ} where
  -- `CHECK_ZXERR`
  infixl 5 ◌>>=◌
  abbrev pub ◌>>=◌ : Result A S → (A → Result B S) → Result B S
  ok a >>= f = f a
  fail e s >>= f = fail e s

-- The state at the return, on either path.
abbrev pub final {ℓ} : {S : Type ℓ} → Result S S → S
final (ok s) = s
final (fail e s) = s
