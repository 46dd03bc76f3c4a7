-- ===== src/Display.antt =====
-- The review of a parsed transaction: the items of app/src/parser.c (`parser_getNumItems`,
-- `parser_getItem` and the print functions), and `parser_validate`, with `_getNumItems` and the
-- device's `_validateTx` of app/src/parser_impl.c.
--
-- The functions of zxlib are the fields of `Ui`. A zeroed `char` buffer is the empty text; what is
-- read through a pointer lies in `memory`.
pub mod Items
pub mod Validate
pub mod Complete
pub mod Places
pub mod Same
pub mod Meaning
pub mod Pages
pub mod Tests
use ledger_arweave.Base.{
  ℕ, zero, suc, ◌+◌, ◌-◌, ◌*◌, Bool, true, false, not, ◌&&◌, [], ◌∷◌, ◌++◌, Option, none, some,
  Bytes, u8, u16, ltb, leb, ◌==◌, if◌then◌else◌, get_or, take, drop, slice, replicate, length,
}
use ledger_arweave.Status.{
  Step, ok, fail, ◌>>=◌, codes, parser_no_data, parser_unexpected_error,
  parser_unexpected_buffer_end, parser_unexpected_value,
}
use ledger_arweave.Result
use ledger_arweave.Result.{Result}
use ledger_arweave.Parser.{Element, Tag, Tx, max_number_tags, empty_tag}
use ledger_arweave.Base64
use ledger_arweave.DeepHash.Decimal.{decimal}
use ledger_arweave.Store.{Store, same_bytes}
use ledger_arweave.Crypto.{get_pubkey_part}

-- `page` fills a buffer of a length with a page of a text, and counts the pages; `to_fp` places the
-- point in a number and `join` puts texts around it, `none` where they refuse; `trim` drops trailing
-- zeros; `expert` is `app_mode_expert`.
pub record Ui : Type 0 where
  pub page : ℕ → Bytes → ℕ → Bytes × ℕ
  pub to_fp : Bytes → ℕ → Option Bytes
  pub join : Bytes → Bytes → Bytes → Option Bytes
  pub trim : Bytes → Bytes
  pub expert : Bool

-- The caller's buffers, as the texts in them, and the number of pages.
pub record Screen : Type 0 where
  pub key : Bytes
  pub value : Bytes
  pub page_count : ℕ

-- The text in a buffer, up to its terminator.
abbrev pub c_string : Bytes → Bytes
c_string [] = []
c_string (c ∷ cs) = if c == 0 then [] else c ∷ c_string cs

-- `snprintf` of a text into a buffer of `n` bytes.
abbrev pub written : ℕ → Bytes → Bytes
written n text = take (n - 1) text

-- The items for the data root: one, if there is any.
abbrev pub roots : Tx → ℕ
roots v = if ltb 0 v.data_root.len then 1 else 0

-- `_getNumItems`, by way of `parser_getNumItems`.
unfoldable pub get_num_items : Ui → Tx → ℕ
get_num_items ui v = if not ui.expert then 4 else u8 (4 + v.tags_count + 1 + roots v)

module _ (ui : Ui) (memory : Bytes) (key_len val_len page_idx : ℕ) where
  abbrev pub paged : Bytes → Screen → Screen
  paged text s = let r = ui.page val_len text page_idx in record s { value = r.0; page_count = r.1 }

  abbrev cleared : Screen → Screen
  cleared s = record s { value = [] }

  -- `parser_printTarget`; a return value of 0 of `b64url_encode` counts as an error.
  unfoldable pub print_target : Element → Screen → Step Screen
  print_target e s =
      encoded (Base64.encode (some (replicate 200 0)) 200 (some (slice memory e.ptr e.len)))
    where
      encoded : ℕ × Option Bytes → Step Screen
      encoded (n, none) = fail parser_unexpected_buffer_end (cleared s)
      encoded (n, some out) =
          if n == 0
          then fail parser_unexpected_buffer_end (cleared s)
          else ok (paged (c_string out) s)

  -- `parser_printLastTx` and `parser_printData` have the body of `parser_printTarget`.
  unfoldable pub print_last_tx : Element → Screen → Step Screen
  unfolding print_target
  print_last_tx e s = print_target e s

  unfoldable pub print_data : Element → Screen → Step Screen
  unfolding print_target
  print_data e s = print_target e s

  -- `parser_printQuantity`, with the trimming that its only caller asks for.
  unfoldable pub print_quantity : Element → ℕ → Bytes → Bytes → Screen → Step Screen
  print_quantity e decimals postfix prefix s =
      if ltb 200 e.len
      then fail parser_unexpected_error s
      else point (ui.to_fp (slice memory e.ptr e.len) decimals)
    where
      around : Option Bytes → Step Screen
      around none = fail parser_unexpected_buffer_end (record s { value = []; page_count = 1 })
      around (some text) = ok (paged (ui.trim text) s)

      point : Option Bytes → Step Screen
      point none = fail parser_unexpected_value (record s { value = []; page_count = 1 })
      point (some number) = around (ui.join number prefix postfix)

  unfoldable pub print_size : Element → Screen → Step Screen
  print_size e s =
      if ltb 200 e.len
      then fail parser_unexpected_error s
      else ok (paged (c_string (slice memory e.ptr e.len)) s)

  unfoldable pub print_reward : Element → Screen → Step Screen
  print_reward e s = ok (paged (slice memory e.ptr e.len) s)

  -- The key is cut at its own length.
  unfoldable pub print_tag : Tag → Screen → Step Screen
  print_tag t s =
      let max_key_len = if leb (t.key.len + 1) key_len then t.key.len + 1 else key_len in
      ok (
        paged (slice memory t.value.ptr t.value.len)
          (record s { key = written max_key_len (c_string (drop t.key.ptr memory)) }))

  -- The item of the tag `i`; the array has 16 entries.
  unfoldable pub get_tag_item : Tx → ℕ → Screen → Step Screen
  get_tag_item v i s =
      if leb max_number_tags i
      then fail parser_unexpected_value s
      else print_tag (get_or v.tags i empty_tag) s

  -- The items behind the fixed ones. `display_idx` is a `uint16_t`.
  unfoldable pub get_further_item : Tx → ℕ → Screen → Step Screen
  get_further_item v display_idx s =
      if (display_idx == 5) && ltb 0 v.data_root.len
      then print_data v.data_root (record s { key = written key_len (codes "Data root") })
      else get_tag_item v (u16 (display_idx + 65536 - (5 + roots v))) s

  -- The `switch` on the index.
  unfoldable pub get_fixed_item : Tx → ℕ → Screen → Step Screen
  get_fixed_item v zero s =
      print_target v.target (record s { key = written key_len (codes "Target") })
  get_fixed_item v (suc zero) s =
      print_quantity v.quantity 12 [] (codes "AR ")
        (record s { key = written key_len (codes "Quantity") })
  get_fixed_item v (suc (suc zero)) s =
      print_reward v.reward (record s { key = written key_len (codes "Reward") })
  get_fixed_item v (suc (suc (suc zero))) s =
      print_last_tx v.last_tx (record s { key = written key_len (codes "Last tx") })
  get_fixed_item v (suc (suc (suc (suc zero)))) s =
      print_size v.data_size (record s { key = written key_len (codes "Data size") })
  get_fixed_item v (suc (suc (suc (suc (suc i))))) s = get_further_item v (i + 5) s

  unfoldable pub get_item : Tx → ℕ → Screen → Step Screen
  unfolding get_num_items
  get_item v display_idx s =
      let key = written key_len (codes "? " ++ decimal display_idx) in
      if leb (get_num_items ui v) display_idx
      then fail parser_no_data
          (record { key = key; value = written val_len (codes "?"); page_count = 0 })
      else get_fixed_item v display_idx
          (record { key = key; value = written val_len (codes "?"); page_count = 1 })

-- A round of the loop of `_validateTx`: `MEMCMP` of a half of the owner with that of the key.
abbrev pub after_half : Bool → Bytes → Result Bytes Store → Bool
after_half rest half (Result.fail e s) = false
after_half rest half (Result.ok key) = if same_bytes half key then rest else false

-- The loop over the halves of the key, from the half `i` on, with `left` to go.
unfoldable pub same_owner : Store → Bytes → Tx → ℕ → ℕ → Bool
same_owner s memory v zero i = true
same_owner s memory v (suc left) i =
    let rest = same_owner s memory v left (i + 1) in
    after_half rest (slice memory (v.owner.ptr + i * 256) 256) (get_pubkey_part 256 i s)

-- A round of the loop of `parser_validate`: an error of the item ends it.
abbrev pub after_item : Step ℕ → ℕ → Step Screen → Step ℕ
after_item rest idx (fail e s) = fail e idx
after_item rest idx (ok s) = rest

-- The first page of an item, as `parser_validate` asks for it, in buffers of 40.
unfoldable pub first_page : Ui → Bytes → Tx → ℕ → Step Screen
first_page ui memory v idx =
    get_item ui memory 40 40 0 v idx (record { key = []; value = []; page_count = 0 })

-- The loop, from the item `idx` on, with `left` to go.
unfoldable pub show_items : Ui → Bytes → Tx → ℕ → ℕ → Step ℕ
show_items ui memory v zero idx = ok idx
show_items ui memory v (suc left) idx =
    let rest = show_items ui memory v left (idx + 1) in
    after_item rest idx (first_page ui memory v idx)

-- `parser_validate`, with the device's `_validateTx`, for which any difference is an unexpected
-- error. The number is that of the items shown.
unfoldable pub validate : Ui → Store → Bytes → Tx → Step ℕ
validate ui s memory v =
    if same_owner s memory v 2 0
    then show_items ui memory v (get_num_items ui v) 0
    else fail parser_unexpected_error 0
