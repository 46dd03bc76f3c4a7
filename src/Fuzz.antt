-- ===== src/Fuzz.antt =====
-- fuzz/parser_parse.cpp: the fuzz target, which parses its input and asks for every page of every
-- item of what has been accepted.
--
-- It runs on a computer: there, `_validateTx` of app/src/parser_impl.c accepts every owner. An
-- `assert(false)` aborts the program with the error that has led to it; `parser_getNumItems` returns
-- no error.
pub mod NoAbort
pub mod Tests
use ledger_arweave.Base.{
  ℕ, zero, suc, ◌+◌, Bool, true, Option, none, some, Bytes, u8, ltb, if◌then◌else◌, length,
}
use ledger_arweave.Status.{Step, ok, fail, ParserError, parser_unexpected_error}
use ledger_arweave.Parser.{Context, Tx, parse}
use ledger_arweave.Display.{Ui, Screen, get_num_items, get_item, show_items}

-- `_validateTx` of a build that is not for a device.
unfoldable pub validate_tx : Tx → Bool
validate_tx v = true

-- `parser_validate` of such a build.
unfoldable pub host_validate : Ui → Bytes → Tx → Step ℕ
unfolding validate_tx
host_validate ui memory v =
    if validate_tx v
    then show_items ui memory v (get_num_items ui v) 0
    else fail parser_unexpected_error 0

-- How a call of the target ends: by `return 0`, or in an `assert`.
pub data Outcome : Type 0 where
  returned : Outcome
  aborted : ParserError → Outcome

-- `PARSER_KEY` and `PARSER_VALUE` have 16384 bytes.
abbrev pub text_len : ℕ
text_len = 16384

module _ (ui : Ui) (memory : Bytes) (v : Tx) where
  -- The body of a loop after a call of `parser_getItem`.
  abbrev pub after_page :
      (Screen → Option (Outcome × Screen)) → Step Screen → Option (Outcome × Screen)
  after_page rest (fail e s) = some (aborted e, s)
  after_page rest (ok s) = rest s

  -- The loop over the pages of the item `i`; `none` when the fuel is used up. The counters are of
  -- eight bits.
  unfoldable pub show_pages : ℕ → ℕ → ℕ → ℕ → Screen → Option (Outcome × Screen)
  show_pages zero i page_idx page_count s = none
  show_pages (suc fuel) i page_idx page_count s =
      let rest = λ (s : Screen). show_pages fuel i (u8 (page_idx + 1)) (u8 s.page_count) s in
      if ltb page_idx page_count
      then after_page rest (get_item ui memory text_len text_len page_idx v i s)
      else some (returned, s)

  -- The body of the loop over the items, after its pages.
  abbrev pub after_pages :
      (Screen → Option (Outcome × Screen)) → Option (Outcome × Screen) → Option (Outcome × Screen)
  after_pages rest none = none
  after_pages rest (some (aborted e, s)) = some (aborted e, s)
  after_pages rest (some (returned, s)) = rest s

  -- The loop over the items from `i` on, with `left` to go. Each item begins with one page to show;
  -- 256 rounds are enough for the pages of an item.
  unfoldable pub show_all : ℕ → ℕ → Screen → Option (Outcome × Screen)
  show_all zero i s = some (returned, s)
  show_all (suc left) i s =
      after_pages (λ (s : Screen). show_all left (i + 1) s) (show_pages 256 i 0 1 s)

-- `LLVMFuzzerTestOneInput`, with the texts that are left from the last call.
unfoldable pub test_one_input : Ui → Context × Tx → Bytes → Screen → Option (Outcome × Screen)
test_one_input ui p input s = after_parse (parse p (some input) (length input))
  where
    after_validate : Tx → Step ℕ → Option (Outcome × Screen)
    after_validate v (fail e n) = some (returned, s)
    after_validate v (ok n) = show_all ui input v (get_num_items ui v) 0 s

    after_parse : Step (Context × Tx) → Option (Outcome × Screen)
    after_parse (fail e q) = some (returned, s)
    after_parse (ok q) = after_validate q.1 (host_validate ui input q.1)
