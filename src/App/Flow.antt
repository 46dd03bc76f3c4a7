-- ===== src/App/Flow.antt =====
-- From the first chunk of a transaction to its signature.
use ledger_arweave.Base.{◌≡◌, ◌++◌, Bytes, take, length}
use ledger_arweave.Status
use ledger_arweave.Parser.{Tx}
use ledger_arweave.Parser.Layout.{Transaction, view}
use ledger_arweave.Parser.RoundTrip.{IsInBounds}
use ledger_arweave.Store.{Store}
use ledger_arweave.Display.{Ui}
use ledger_arweave.Display.Complete.{IsShowable}
use ledger_arweave.Buffering.{Buffering}
use ledger_arweave.Platform.{Platform}
use ledger_arweave.Apdu.{Device}
use ledger_arweave.Apdu.Upload.{Command}
use ledger_arweave.Apdu.Fetch.{after}
use ledger_arweave.Actions.{app_sign}
use ledger_arweave.App.{answered}

-- The review of the transaction can be shown, as the transaction lies in some memory.
pub record CanShow (ui : Ui) (s : Store) (t : Transaction) : Type 0 where
  pub memory : Bytes
  pub parsed : Tx
  pub bounds : IsInBounds (length memory) parsed
  pub means : view memory parsed ≡ t
  pub showable : IsShowable ui s memory parsed

module _ (p : Platform) (zx : Buffering) where
  open zx use {Buffer, contents}

  -- What the approval and two commands GET_SIG give of a transaction on the screen.
  abbrev pub Fetches : Device Buffer → Command → Command → Bytes → Type 0
  Fetches d c₀ c₁ sig =
      let first = after p zx c₀ (answered p zx (app_sign p zx d).0) in
      let second = after p zx c₁ first.device in
      take 256 first.device.apdu ++ take 256 second.device.apdu ≡ sig
