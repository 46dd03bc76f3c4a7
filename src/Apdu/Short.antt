-- ===== src/Apdu/Short.antt =====
-- The lengths of what the handlers answer.
use ledger_arweave.Base.{
  ℕ, ◌≤◌, ◌≡◌, refl, sym, ap, ◌⊎◌, inl, inr, ltb, ◌==◌, on_test, on_not, Option, none, some,
  Option-cases, Bytes, take, replicate, length, arith,
}
use ledger_arweave.Base64
use ledger_arweave.Status
use ledger_arweave.Status.{Step, Step-cases, ParserError, get_error_description}
use ledger_arweave.Result.{Result}
use ledger_arweave.Parser.{Context, Tx}
use ledger_arweave.Store.{in_use, Sdk, Store, is_initialized, get_pubkey}
use ledger_arweave.Crypto.{Address, fill_address}
use ledger_arweave.Display.{Ui}
use ledger_arweave.Buffering.{Buffering}
use ledger_arweave.Session.{Session, zero_tx, tx_parse, report_parsing, report_validation}

-- The text fits in front of a status word.
abbrev pub Short : Option Bytes → Type 0
Short none = Unit
Short (some message) = length message ≤ 256

description-Short : (e : ParserError) → length (get_error_description e) ≤ 256
unfolding get_error_description
description-Short Status.parser_ok = omega arith
description-Short Status.parser_no_data = omega arith
description-Short Status.parser_init_context_empty = omega arith
description-Short Status.parser_display_idx_out_of_range = omega arith
description-Short Status.parser_display_page_out_of_range = omega arith
description-Short Status.parser_unexpected_error = omega arith
description-Short Status.parser_unexpected_tx_version = omega arith
description-Short Status.parser_unexpected_type = omega arith
description-Short Status.parser_unexpected_buffer_end = omega arith
description-Short Status.parser_unexpected_value = omega arith
description-Short Status.parser_unexpected_number_items = omega arith
description-Short Status.parser_unexpected_characters = omega arith
description-Short Status.parser_unexpected_field = omega arith
description-Short Status.parser_value_out_of_range = omega arith
description-Short Status.parser_invalid_address = omega arith
description-Short Status.parser_context_mismatch = omega arith
description-Short Status.parser_context_unexpected_size = omega arith
description-Short Status.parser_context_invalid_chars = omega arith
description-Short Status.parser_required_nonce = omega arith
description-Short Status.parser_required_method = omega arith
description-Short Status.parser_context_unknown_prefix = omega arith

answer-cases :
    (o : ℕ × Option Bytes)
    → ((n : ℕ) × (o ≡ (n, none))) ⊎ ((n : ℕ) × (text : Bytes) × (o ≡ (n, some text)))
answer-cases (n, none) = inl (n, refl)
answer-cases (n, some text) = inr (n, text, refl)

pub fill_address-len :
    (sdk : Sdk) (s : Store) (n : ℕ) (a b : Address)
    → fill_address sdk s n a ≡ Result.ok b
    → b.addr_len ≡ 43
unfolding fill_address
fill_address-len sdk s n a b =
    on_not Goal _ _ (is_initialized s) (λ _ e. absurd (cc))
      λ _.
        on_test Goal _ _ (ltb n 47) (λ _ e. absurd (cc))
          λ _. elim (Option-cases (get_pubkey s)) [
            | inl k ↦ rw k λ e. absurd (cc)
            | inr k ↦ rw k.1 (elim (Option-cases (sdk.sha256 (take (in_use s).rsa_size k.0))) [
              | inl h ↦ rw h λ e. absurd (cc)
              | inr h ↦
                  rw h.1
                    (elim (answer-cases (Base64.encode (some (replicate 43 0)) 43 (some h.0))) [
                      | inl o ↦ rw o.1 λ e. absurd (cc)
                      | inr o ↦ rw o.2 (
                          on_test Goal _ _ (o.0 == 0) (λ _ e. absurd (cc))
                            λ _ e. sym (ap len (ok_inj e)))
                    ])
            ])
          ]
  where
    Goal : Result Address Address → Type 0
    Goal r = r ≡ Result.ok b → b.addr_len ≡ 43

    len : Address → ℕ
    len a = a.addr_len

    ok_inj : {x y : Address} → ◌≡◌ {A = Result Address Address} (Result.ok x) (Result.ok y) → x ≡ y
    ok_inj e = cc

module _ (zx : Buffering) where
  open zx use {Buffer}

  validation-Short : (v : Step ℕ) → Short (report_validation v)
  unfolding report_validation
  validation-Short (Status.ok n) = tt
  validation-Short (Status.fail e n) = description-Short e

  parsing-Short :
      (ui : Ui) (store : Store) (s : Session Buffer) (v : Step (Context × Tx))
      → Short (report_parsing zx ui store s v).0
  unfolding report_parsing
  parsing-Short ui store s (Status.ok q) = validation-Short _
  parsing-Short ui store s (Status.fail e q) = description-Short e

  pub tx_parse-Short :
      (ui : Ui) (store : Store) (s : Session Buffer) → Short (tx_parse zx ui store s).0
  unfolding tx_parse
  tx_parse-Short ui store s = parsing-Short ui store (record s { tx_obj = zero_tx }) _
