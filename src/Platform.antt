-- ===== src/Platform.antt =====
-- What surrounds the app: the constants of zxlib's apdu_codes.h and app_main.h, and the functions of
-- the SDK and of zxlib that the handlers call. None of that code is part of the repository, so all
-- of it is a parameter.
use ledger_arweave.Base.{ℕ, Bool, Option, Bytes}
use ledger_arweave.DeepHash.{Hash}
use ledger_arweave.Store.{Sdk}
use ledger_arweave.Display.{Ui}
use ledger_arweave.Session.{Target}

-- The places of a command's fields in `G_io_apdu_buffer`.
pub record Offsets : Type 0 where
  pub cla : ℕ
  pub ins : ℕ
  pub payload_type : ℕ
  pub p1 : ℕ
  pub p2 : ℕ
  pub data_len : ℕ
  pub body : ℕ

pub record Codes : Type 0 where
  pub apdu_ok : ℕ
  pub wrong_length : ℕ
  pub invalid_p1p2 : ℕ
  pub tx_not_initialized : ℕ
  pub output_buffer_too_small : ℕ
  pub command_not_allowed : ℕ
  pub execution_error : ℕ
  pub conditions_not_satisfied : ℕ
  pub data_invalid : ℕ
  pub cla_not_supported : ℕ
  pub ins_not_supported : ℕ
  pub sign_verify_error : ℕ

pub record Platform : Type 0 where
  pub target : Target
  pub at : Offsets
  pub code : Codes
  pub io_apdu_buffer_size : ℕ
  pub apdu_min_length : ℕ
  pub p1_init : ℕ
  pub p1_add : ℕ
  pub p1_last : ℕ
  pub ins_get_version : ℕ
  pub ins_get_addr : ℕ
  pub ins_sign : ℕ
  -- The nine bytes that `handle_getversion` writes come from constants of the build and the lock.
  pub debug : Bool
  pub major : ℕ
  pub minor : ℕ
  pub patch : ℕ
  pub ux_allowed : Bool
  pub target_id : ℕ
  -- The code that `CHECK_PIN_VALIDATED` throws, if the PIN has not been entered.
  pub pin_missing : Option ℕ
  -- `set_code(buffer, offset, code)` of zxlib.
  pub set_code : Bytes → ℕ → ℕ → Bytes
  pub sdk : Sdk
  pub sha384 : Hash
  pub rsa_sign : Bytes → Bytes → Option Bytes
  pub ui : Ui
