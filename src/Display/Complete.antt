-- ===== src/Display/Complete.antt =====
-- What it takes for `parser_validate` to succeed.
use ledger_arweave.Base.{ℕ, ◌<◌, ◌≡◌, true, Bytes}
use ledger_arweave.Status
use ledger_arweave.Status.{Step, ok}
use ledger_arweave.Result.{Result}
use ledger_arweave.Parser.{Tx}
use ledger_arweave.Parser.Layout.{view_element}
use ledger_arweave.Store.{Store, in_use, is_initialized}
use ledger_arweave.Display.{Ui, Screen, get_num_items, first_page}

-- The slot in use is initialized, its key is the owner's, and the first page of every item can be
-- shown.
pub record IsShowable (ui : Ui) (s : Store) (memory : Bytes) (v : Tx) : Type 0 where
  pub set_up : is_initialized s ≡ true
  pub own : view_element memory v.owner ≡ (in_use s).rsa_pub
  pub pages :
      (idx : ℕ)
      → idx < get_num_items ui v
      → (screen : Screen) × (first_page ui memory v idx ≡ ok screen)
