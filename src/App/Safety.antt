-- ===== src/App/Safety.antt =====
-- What the signatures that a client fetches are worth.
use ledger_arweave.Base.{◌≡◌, ◌≢◌, Bool, true, false, refl, arith, List}
use ledger_arweave.Store.{Store, in_use, is_sig_set}
use ledger_arweave.Store.Keys.{IsOwn}
use ledger_arweave.Buffering.{Buffering}
use ledger_arweave.Platform.{Platform}
use ledger_arweave.Apdu.{Device}
use ledger_arweave.App.{Approval, Run}
use ledger_arweave.App.Keys.{HasModuli, Makes4096}
use ledger_arweave.App.Owner.{Run-IsOwn}
use ledger_arweave.App.Approvals.{Authentic}
use ledger_arweave.App.Steps.{Run-IsDevice}

is_sig_set-pos : (s : Store) → is_sig_set s ≡ true → s.signature_set ≢ 0
unfolding is_sig_set
is_sig_set-pos s e n = ground arith

true_of_not_false : (b : Bool) → (b ≡ false → ⊥) → b ≡ true
true_of_not_false true n = refl
true_of_not_false false n = absurd (n refl)

module _ (p : Platform) (zx : Buffering) where
  open zx use {Buffer}

  -- Whenever a signature can be fetched, whatever has happened since the first start, it is the
  -- signature of a transaction that the user has approved: it has been made from the SHA-256 hash of
  -- the deep hash of a supported transaction that was on the screen (from 32 zeros where the SDK could
  -- not compute that hash), under the private key of the slot in use, and the owner of the transaction
  -- is the public key of that slot. The device is then initialized, and the slot in use is initialized
  -- with the seed of this device's mnemonic. The flash has room for moduli of 512
  -- bytes at the first start, and the SDK makes moduli of that size.
  pub Run-Authentic :
      (s : Store) (log : List Approval) (d : Device Buffer)
      → Makes4096 p.sdk
      → HasModuli s
      → Run p zx s log d
      → is_sig_set d.store ≡ true
      → Authentic p log d.store × (d.store.device_initialized ≡ true) × IsOwn p.sdk (in_use d.store)
  Run-Authentic s log d law m r e =
      let device = Run-IsDevice p zx s log d law m r in
      let fetchable = is_sig_set-pos d.store e in
      let unlocked =
        true_of_not_false d.store.device_initialized λ f. fetchable (device.locked f).0 in
      (device.authentic fetchable, unlocked, Run-IsOwn p zx s log d r unlocked)
