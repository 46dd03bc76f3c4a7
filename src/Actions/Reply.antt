-- ===== src/Actions/Reply.antt =====
-- What an approval of a review leads to.
use ledger_arweave.Base.{◌-◌, ◌≤◌, ◌≡◌, refl, ap, ◌∙◌, ◌++◌, some, Bytes, drop, length, arith}
use ledger_arweave.Result.{ok}
use ledger_arweave.Parser.Layout.{view}
use ledger_arweave.DeepHash.Tree.{deep_hash, transaction_tree}
use ledger_arweave.Store.{Store, in_use, store_signature}
use ledger_arweave.Crypto.Sign.{sign-signs}
use ledger_arweave.Buffering.{Buffering}
use ledger_arweave.Platform.{Platform}
use ledger_arweave.Session.Parse.{IsReviewed}
use ledger_arweave.Apdu.{Device}
use ledger_arweave.Actions.{app_sign, reply_signed}

module _ (p : Platform) (zx : Buffering) where
  open zx use {Buffer, contents}

  reply_signed-ok :
      (d : Device Buffer) (buffer : Bytes) (store : Store)
      → reply_signed p zx d (ok (record { buffer = buffer; sig_size = 48; store = store }))
        ≡ (record d { apdu = p.set_code buffer 48 p.code.apdu_ok; store = store }, 50)
  unfolding reply_signed
  reply_signed-ok d buffer store = refl

  -- When the transaction under review is approved and the SDK reports no error, `app_sign` answers
  -- with the 48 bytes of its deep hash and the code for success, and the signature of the SHA-256 hash
  -- of that deep hash is stored. The buffer has 51 bytes or more.
  pub app_sign-IsReviewed :
      (d : Device Buffer) (digest h sig : Bytes)
      → IsReviewed p.ui d.store (contents d.session.buffer) d.session.parsed
      → 51 ≤ p.io_apdu_buffer_size
      → deep_hash p.sha384 (transaction_tree (view (contents d.session.buffer) d.session.parsed.1))
        ≡ some digest
      → length digest ≡ 48
      → p.sdk.sha256 digest ≡ some h
      → p.rsa_sign (in_use d.store).rsa_priv h ≡ some sig
      → app_sign p zx d ≡ (
        record d {
          apdu = p.set_code (digest ++ drop 48 d.apdu) 48 p.code.apdu_ok;
          store = store_signature sig d.store;
        },
        50,
      )
  unfolding app_sign
  app_sign-IsReviewed d digest h sig r room hashes long hashed signs =
      ap (reply_signed p zx d) (
        sign-signs p.sdk p.sha384 p.rsa_sign (contents d.session.buffer) d.session.parsed.1
          (p.io_apdu_buffer_size - 3) (record { buffer = d.apdu; sig_size = 0; store = d.store })
          digest h sig r.sound.bounds r.set_up (omega (arith, room)) hashes long hashed signs)
      ∙ reply_signed-ok d _ _
