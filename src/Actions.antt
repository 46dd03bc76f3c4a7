-- ===== src/Actions.antt =====
-- app/src/common/actions.h and app/src/addr.c: what the app does once the user has answered a review,
-- and the items of the review of an address.
--
-- An action answers by `io_exchange`; the number beside the device is the length that it passes on.
pub mod Reply
use ledger_arweave.Base.{ℕ, ◌+◌, ◌-◌, ◌==◌, Bytes, not, if◌then◌else◌, replicate}
use ledger_arweave.Result.{Result, ok, fail, zxerr_no_data}
use ledger_arweave.Status.{codes}
use ledger_arweave.Crypto.{Signing, sign}
use ledger_arweave.Display.{Ui, Screen, written, c_string}
use ledger_arweave.Buffering.{Buffering}
use ledger_arweave.Platform.{Platform}
use ledger_arweave.Apdu.{Device}

module _ (p : Platform) (zx : Buffering) where
  open zx use {Buffer, contents}

  -- `app_sign` from the answer of `crypto_sign` on.
  unfoldable pub reply_signed : Device Buffer → Result Signing Signing → Device Buffer × ℕ
  reply_signed d (fail e s) =
      (record d { apdu = p.set_code s.buffer 0 p.code.sign_verify_error; store = s.store }, 2)
  reply_signed d (ok s) =
      if s.sig_size == 0
      then (record d { apdu = p.set_code s.buffer 0 p.code.sign_verify_error; store = s.store }, 2)
      else (
        record d { apdu = p.set_code s.buffer s.sig_size p.code.apdu_ok; store = s.store },
        s.sig_size + 2,
      )

  -- The transaction is the one of the session, in the message that its buffer holds.
  unfoldable pub app_sign : Device Buffer → Device Buffer × ℕ
  app_sign d = reply_signed d (
      sign p.sdk p.sha384 p.rsa_sign (contents d.session.buffer) d.session.parsed.1
        (p.io_apdu_buffer_size - 3) (record { buffer = d.apdu; sig_size = 0; store = d.store }))

  -- The buffer set to zero, with a code at its start.
  abbrev refused : ℕ → Device Buffer → Device Buffer × ℕ
  refused e d = (record d { apdu = p.set_code (replicate p.io_apdu_buffer_size 0) 0 e }, 2)

  unfoldable pub app_reject : Device Buffer → Device Buffer × ℕ
  app_reject d = refused p.code.command_not_allowed d

  unfoldable pub app_reply_address : Device Buffer → Device Buffer × ℕ
  app_reply_address d =
      (record d { apdu = p.set_code d.apdu d.response_len p.code.apdu_ok }, d.response_len + 2)

  unfoldable pub app_reply_error : Device Buffer → Device Buffer × ℕ
  app_reply_error d = refused p.code.data_invalid d

unfoldable pub addr_get_num_items : Result ℕ Screen
addr_get_num_items = ok 1

-- The address is the text in `G_io_apdu_buffer`.
unfoldable pub addr_get_item : Ui → Bytes → ℕ → ℕ → ℕ → ℕ → Screen → Result Screen Screen
addr_get_item ui apdu display_idx key_len val_len page_idx screen =
    if not (display_idx == 0)
    then fail zxerr_no_data screen
    else let r = ui.page val_len (c_string apdu) page_idx in
      ok (record { key = written key_len (codes "Address"); value = r.0; page_count = r.1 })
