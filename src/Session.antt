-- ===== src/Session.antt =====
-- app/src/common/tx.c: the message being received and the transaction that it holds, over the buffer
-- of zxlib.
pub mod Parse
pub mod Items
pub mod Tests
use ledger_arweave.Base.{
  ℕ, ◌*◌, Bool, ◌||◌, Option, none, some, Bytes, ltb, leb, if◌then◌else◌, length, replicate,
}
use ledger_arweave.Status
use ledger_arweave.Status.{
  Step, ParserError, get_error_description, parser_no_data, parser_display_idx_out_of_range,
  parser_display_page_out_of_range,
}
use ledger_arweave.Result.{Result, ok, fail, zxerr_no_data, zxerr_unknown}
use ledger_arweave.Parser.{Context, Tx, empty_element, empty_tag, parse}
use ledger_arweave.Store.{Store}
use ledger_arweave.Display.{Ui, Screen, get_num_items, get_item, validate}
use ledger_arweave.Buffering.{Buffering}

-- The device that the app is built for.
pub data Target : Type 0 where
  nano_s nano_x nano_s2 stax : Target

abbrev pub ram_buffer_size : Target → ℕ
ram_buffer_size nano_s = 0
ram_buffer_size nano_x = 8192
ram_buffer_size nano_s2 = 8192
ram_buffer_size stax = 8192

abbrev pub flash_buffer_size : Target → ℕ
flash_buffer_size nano_s = 8192
flash_buffer_size nano_x = 16384
flash_buffer_size nano_s2 = 16384
flash_buffer_size stax = 16384

-- `MEMZERO` of a transaction object.
abbrev pub zero_tx : Tx
zero_tx = record {
  format = empty_element;
  owner = empty_element;
  target = empty_element;
  quantity = empty_element;
  reward = empty_element;
  last_tx = empty_element;
  tags_count = 0;
  tags = replicate 16 empty_tag;
  data_size = empty_element;
  data_root = empty_element;
}

-- `parsed` is `ctx_parsed_tx` with `parser_tx_obj`, the object that the parser fills. `tx_obj` is
-- another one, which is only ever set to zero.
pub record Session (Buffer : Type 0) : Type 0 where
  pub buffer : Buffer
  pub parsed : Context × Tx
  pub tx_obj : Tx

-- The end of `tx_parse`, after the validation.
unfoldable pub report_validation : Step ℕ → Option Bytes
report_validation (Status.fail e n) = some (get_error_description e)
report_validation (Status.ok n) = none

-- The codes of the parser as codes of zxlib.
unfoldable pub convert_error : Step Screen → Result Screen Screen
convert_error (Status.ok screen) = ok screen
convert_error (Status.fail parser_no_data screen) = fail zxerr_no_data screen
convert_error (Status.fail parser_display_idx_out_of_range screen) = fail zxerr_no_data screen
convert_error (Status.fail parser_display_page_out_of_range screen) = fail zxerr_no_data screen
convert_error (Status.fail e screen) = fail zxerr_unknown screen

module _ (zx : Buffering) where
  open zx use {Buffer, start, reset, append, contents}

  unfoldable pub tx_initialize : Target → Session Buffer → Session Buffer
  tx_initialize target s = record s {
    buffer = start (ram_buffer_size target) (flash_buffer_size target) s.buffer;
  }

  unfoldable pub tx_reset : Session Buffer → Session Buffer
  tx_reset s = record s { buffer = reset s.buffer }

  unfoldable pub tx_append : Bytes → Session Buffer → ℕ × Session Buffer
  tx_append bs s = let r = append bs s.buffer in (r.0, record s { buffer = r.1 })

  unfoldable pub tx_get_buffer_length : Session Buffer → ℕ
  tx_get_buffer_length s = length (contents s.buffer)

  unfoldable pub tx_get_buffer : Session Buffer → Bytes
  tx_get_buffer s = contents s.buffer

  -- The part of `tx_parse` after the parsing.
  unfoldable pub report_parsing :
      Ui → Store → Session Buffer → Step (Context × Tx) → Option Bytes × Session Buffer
  unfolding tx_get_buffer report_validation
  report_parsing ui store s (Status.fail e p) =
      (some (get_error_description e), record s { parsed = p })
  report_parsing ui store s (Status.ok p) =
      (report_validation (validate ui store (tx_get_buffer s) p.1), record s { parsed = p })

  unfoldable pub tx_parse_reset : Session Buffer → Session Buffer
  tx_parse_reset s = record s { tx_obj = zero_tx }

  -- `tx_parse`: `none` is the NULL that it returns when all is well.
  unfoldable pub tx_parse : Ui → Store → Session Buffer → Option Bytes × Session Buffer
  unfolding report_parsing tx_get_buffer tx_get_buffer_length
  tx_parse ui store s =
      report_parsing ui store (record s { tx_obj = zero_tx })
        (parse s.parsed (some (tx_get_buffer s)) (tx_get_buffer_length s))

  unfoldable pub tx_get_num_items : Ui → Session Buffer → Result ℕ Screen
  tx_get_num_items ui s = ok (get_num_items ui s.parsed.1)

  -- `tx_getItem`. `display_idx` is the byte of an `int8_t`, which is negative from 128 on.
  unfoldable pub tx_get_item : Ui → Session Buffer → ℕ → ℕ → ℕ → ℕ → Screen → Result Screen Screen
  unfolding tx_get_buffer convert_error
  tx_get_item ui s display_idx key_len val_len page_idx screen =
      if leb 128 display_idx || ltb (get_num_items ui s.parsed.1) display_idx
      then fail zxerr_no_data screen
      else convert_error
          (get_item ui (tx_get_buffer s) key_len val_len page_idx s.parsed.1 display_idx screen)
