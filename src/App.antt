-- ===== src/App.antt =====
-- app/src/common/main.c: the start of the app, and what may happen to it afterwards.
--
-- `app_main` of zxlib, the loop behind the start, takes a command when no answer is owed: while a
-- review is on the screen it waits for the action that ends the review. The switching off of the
-- device is a step as well; what the flash holds survives it. So is a loss of power while
-- `crypto_store_init` runs, which leaves some of its writes to the flash undone.
pub mod Keys
pub mod Approvals
pub mod Invariant
pub mod Steps
pub mod Indexed
pub mod Typed
pub mod Safety
pub mod Owner
pub mod Keyed
pub mod Progress
pub mod Flow
pub mod Tests
use ledger_arweave.Base.{
  ℕ, ◌≤◌, ◌≡◌, ◌⊎◌, Bool, true, false, List, [], ◌∷◌, Option, none, some, Bytes, IsByte, All,
  replicate, length,
}
use ledger_arweave.Result.{final}
use ledger_arweave.Parser.{Context, Tx}
use ledger_arweave.Parser.Layout.{Transaction, view}
use ledger_arweave.Store.{Sdk, Store, power_on, in_use, init, init_test}
use ledger_arweave.Store.Flash.{cut_all}
use ledger_arweave.Buffering.{Buffering}
use ledger_arweave.Platform.{Platform}
use ledger_arweave.Session.{Session, Target, zero_tx, nano_s, nano_x, nano_s2, stax}
use ledger_arweave.Apdu.{Device, Review, review_txn, review_address, handle_apdu}
use ledger_arweave.Actions.{app_sign, app_reject, app_reply_address}

-- The globals of the parser, which the start leaves at zero.
abbrev pub zero_parsed : Context × Tx
zero_parsed = (record { buffer = []; buffer_len = 0; offset = 0 }, zero_tx)

-- A device without its keys: on a Stax they are made at once, elsewhere when the user agrees.
abbrev pub make_keys : Target → Sdk → Store → Store
make_keys nano_s sdk s = s
make_keys nano_x sdk s = s
make_keys nano_s2 sdk s = s
make_keys stax sdk s = final (init sdk s)

abbrev pub tested : Target → Sdk → Bool → Store → Store
tested target sdk true s = record s { device_initialized = true }
tested target sdk false s = make_keys target sdk (record s { device_initialized = false })

-- `main` up to `app_main`.
unfoldable pub start_app : Target → Sdk → Store → Store
start_app target sdk s = let r = init_test sdk s in tested target sdk r.0 r.1

-- A transaction that the user has approved, with the keys of the slot in use at that moment.
pub record Approval : Type 0 where
  pub transaction : Transaction
  pub rsa_pub : Bytes
  pub rsa_priv : Bytes

module _ (p : Platform) (zx : Buffering) where
  open zx use {Buffer, contents, limit}

  abbrev pub started : Bytes → Buffer → Store → Device Buffer
  started apdu b s = record {
    apdu = apdu;
    tx_initialized = false;
    session = record { buffer = b; parsed = zero_parsed; tx_obj = zero_tx };
    store = start_app p.target p.sdk (power_on s);
    response_len = 0;
    review = none;
  }

  -- What an approval of the transaction on the screen approves.
  abbrev pub approval_of : Device Buffer → Approval
  approval_of d = record {
    transaction = view (contents d.session.buffer) d.session.parsed.1;
    rsa_pub = (in_use d.store).rsa_pub;
    rsa_priv = (in_use d.store).rsa_priv;
  }

  abbrev pub answered : Device Buffer → Device Buffer
  answered d = record d { review = none }

  -- One step, with the approvals so far, the last one first. A command of `rx` bytes comes with
  -- whatever the buffer holds behind them.
  pub data Step (log log' : List Approval) (d d' : Device Buffer) : Type 0 where
    command :
        (rx : ℕ) (received : Bytes)
        → d.review ≡ none
        → All IsByte received
        → log' ≡ log
        → d'
          ≡ (handle_apdu p zx rx
              (record { device = record d { apdu = received }; tx = 0; asynch = false })).device
        → Step log log' d d'
    approve :
        d.review ≡ some review_txn
        → log' ≡ approval_of d ∷ log
        → d' ≡ answered (app_sign p zx d).0
        → Step log log' d d'
    confirm :
        d.review ≡ some review_address
        → log' ≡ log
        → d' ≡ answered (app_reply_address p zx d).0
        → Step log log' d d'
    reject :
        (v : Review)
        → d.review ≡ some v
        → log' ≡ log
        → d' ≡ answered (app_reject p zx d).0
        → Step log log' d d'
    make :
        d.store.device_initialized ≡ false
        → log' ≡ log
        → d' ≡ record d { store = final (init p.sdk d.store) }
        → Step log log' d d'
    restart :
        (apdu : Bytes) (b : Buffer)
        → limit b ≡ 0
        → log' ≡ log
        → d' ≡ started apdu b d.store
        → Step log log' d d'
    -- While the keys are made: after the user has agreed, or at a start, which may fail many times.
    lose_power :
        (cuts : List ℕ) (apdu : Bytes) (b : Buffer)
        → (d.store.device_initialized ≡ false) ⊎ (p.target ≡ stax)
        → limit b ≡ 0
        → log' ≡ log
        → d' ≡ started apdu b (cut_all p.sdk cuts d.store)
        → Step log log' d d'

  -- The states that a device comes to with the flash `s` at its first start.
  pub data Run (s : Store) : List Approval → Device Buffer → Type 0 where
    first : (apdu : Bytes) (b : Buffer) → limit b ≡ 0 → Run s [] (started apdu b s)
    next :
        {log log' : List Approval} {d d' : Device Buffer}
        → Run s log d
        → Step log log' d d'
        → Run s log' d'
