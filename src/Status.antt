-- ===== src/Status.antt =====
-- The status codes of app/src/parser_common.h with their descriptions, and the way a parsing
-- function ends: `CHECK_PARSER_ERR` returns the code of a call that fails, and whatever the call
-- wrote through its pointers stays written. So `fail` carries the state too.
use Prim.Native.Char.{code}
use Prim.Native.String.{String}
use ledger_arweave.Base.{Bytes, [], ◌∷◌, ◌≡◌, refl, ap, ◌∙◌, ◌⊎◌, inl, inr}

pub data ParserError : Type 0 where
  parser_ok parser_no_data parser_init_context_empty parser_display_idx_out_of_range : ParserError
  parser_display_page_out_of_range parser_unexpected_error : ParserError
  parser_unexpected_tx_version parser_unexpected_type parser_unexpected_buffer_end : ParserError
  parser_unexpected_value parser_unexpected_number_items : ParserError
  parser_unexpected_characters parser_unexpected_field parser_value_out_of_range : ParserError
  parser_invalid_address parser_context_mismatch parser_context_unexpected_size : ParserError
  parser_context_invalid_chars parser_context_unknown_prefix : ParserError
  parser_required_nonce parser_required_method : ParserError

-- The bytes of an ASCII text.
abbrev pub codes : String → Bytes
codes String.[] = []
codes (String.◌∷◌ c s) = code c ∷ codes s

unfoldable pub get_error_description : ParserError → Bytes
get_error_description parser_ok = codes "No error"
get_error_description parser_no_data = codes "No more data"
get_error_description parser_init_context_empty = codes "Initialized empty context"
get_error_description parser_display_idx_out_of_range = codes "display_idx_out_of_range"
get_error_description parser_display_page_out_of_range = codes "display_page_out_of_range"
get_error_description parser_unexpected_error = codes "Unexepected internal error"
get_error_description parser_unexpected_tx_version = codes "tx version is not supported"
get_error_description parser_unexpected_type = codes "Unexpected data type"
get_error_description parser_unexpected_buffer_end = codes "Unexpected buffer end"
get_error_description parser_unexpected_value = codes "Unexpected value"
get_error_description parser_unexpected_number_items = codes "Unexpected number of items"
get_error_description parser_unexpected_characters = codes "Unexpected characters"
get_error_description parser_unexpected_field = codes "Unexpected field"
get_error_description parser_value_out_of_range = codes "Value out of range"
get_error_description parser_invalid_address = codes "Invalid address format"
get_error_description parser_context_mismatch = codes "context prefix is invalid"
get_error_description parser_context_unexpected_size = codes "context unexpected size"
get_error_description parser_context_invalid_chars = codes "context invalid chars"
get_error_description parser_required_nonce = codes "Required field nonce"
get_error_description parser_required_method = codes "Required field method"
get_error_description parser_context_unknown_prefix = codes "Unrecognized error code"

pub data Step {ℓ} (S : Type ℓ) : Type ℓ where
  ok : S → Step S
  fail : ParserError → S → Step S

module _ {ℓ} {S : Type ℓ} where
  infixl 5 ◌>>=◌
  abbrev pub ◌>>=◌ : Step S → (S → Step S) → Step S
  ok s >>= f = f s
  fail e s >>= f = fail e s

  -- The state at the return, on either path.
  abbrev pub final : Step S → S
  final (ok s) = s
  final (fail e s) = s

-- A call that works on a part of the caller's state.
abbrev pub within {ℓ κ} : {A : Type ℓ} {S : Type κ} → (A → S) → Step A → Step S
within put (ok a) = ok (put a)
within put (fail e a) = fail e (put a)

module _ {ℓ} {S : Type ℓ} where
  pub >>=-ok :
      (m : Step S) (f : S → Step S) {s : S} {r : Step S} → m ≡ ok s → f s ≡ r → (m >>= f) ≡ r
  >>=-ok (ok s') f h k = ap f (cc) ∙ k
  >>=-ok (fail e s') f h k = absurd (cc)

  pub >>=-eq-ok :
      (m : Step S) (f : S → Step S) {t : S} → (m >>= f) ≡ ok t → (s : S) × (m ≡ ok s) × (f s ≡ ok t)
  >>=-eq-ok (ok s) f h = (s, refl, h)
  >>=-eq-ok (fail e s) f h = cc

pub within-eq-ok {ℓ κ} :
    {A : Type ℓ} {S : Type κ} (put : A → S) (m : Step A) {s : S}
    → within put m ≡ ok s
    → (a : A) × (m ≡ ok a) × (put a ≡ s)
within-eq-ok put (ok a) h = (a, refl, cc)
within-eq-ok put (fail e a) h = cc

pub Step-cases {ℓ} :
    {S : Type ℓ} (r : Step S)
    → ((s : S) × (r ≡ ok s)) ⊎ ((e : ParserError) × (s : S) × (r ≡ fail e s))
Step-cases (ok s) = inl (s, refl)
Step-cases (fail e s) = inr (e, s, refl)
