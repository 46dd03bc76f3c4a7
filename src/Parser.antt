-- ===== src/Parser.antt =====
-- app/src/parser_impl.c with the types of app/src/parser_common.h and app/src/parser_txdef.h: the
-- reading of a transaction from the received bytes.
--
-- A `const uint8_t *` into the buffer is a position in it. The buffer is the list of the bytes
-- that `ctx->buffer` points to, and the empty list is the NULL pointer. `CTX_CHECK_AVAIL` adds in
-- `int`, so its sum does not wrap; `offset` and `len` are `uint16_t`.
use ledger_arweave.Base.{
  ℕ, zero, suc, ◌+◌, ◌*◌, Bool, ◌||◌, not, List, Option, none, some, Bytes, u16, ltb, ◌==◌,
  if◌then◌else◌, get_or, set,
}
use ledger_arweave.Status.{
  Step, ok, fail, ◌>>=◌, within, parser_no_data, parser_init_context_empty,
  parser_unexpected_tx_version, parser_unexpected_buffer_end, parser_value_out_of_range,
}
pub mod Layout
pub mod Cursor
pub mod Lists
pub mod Agreement
pub mod Accept
pub mod Inverse
pub mod RoundTrip
pub mod Always
pub mod Room
pub mod Range
pub mod Typed
pub mod Reach
pub mod Prefix
pub mod Tests

pub record Context : Type 0 where
  pub buffer : Bytes
  pub buffer_len : ℕ
  pub offset : ℕ

pub record Element : Type 0 where
  pub len : ℕ
  pub ptr : ℕ

pub record Tag : Type 0 where
  pub key : Element
  pub value : Element

abbrev pub max_number_tags : ℕ
max_number_tags = 16

-- `parser_tx_t`; `tags` holds the 16 entries of the C array, in use or not.
pub record Tx : Type 0 where
  pub format : Element
  pub owner : Element
  pub target : Element
  pub quantity : Element
  pub reward : Element
  pub last_tx : Element
  pub tags_count : ℕ
  pub tags : List Tag
  pub data_size : Element
  pub data_root : Element

-- A NULL pointer with the length 0, as in a global that C has set to zero.
abbrev pub empty_element : Element
empty_element = record { len = 0; ptr = 0 }

abbrev pub empty_tag : Tag
empty_tag = record { key = empty_element; value = empty_element }

-- `none` is a NULL buffer.
unfoldable pub init_context : Context → Option Bytes → ℕ → Step Context
init_context ctx none size =
    fail parser_init_context_empty (record { buffer = List.[]; buffer_len = 0; offset = 0 })
init_context ctx (some buffer) size =
    if size == 0
    then fail parser_init_context_empty (record { buffer = List.[]; buffer_len = 0; offset = 0 })
    else ok (record { buffer = buffer; buffer_len = size; offset = 0 })

unfoldable pub init : Context → Option Bytes → ℕ → Step Context
unfolding init_context
init ctx buffer size = do ctx ← init_context ctx buffer size; ok ctx

-- `CTX_CHECK_AVAIL`
abbrev pub check_avail : {A : Type 0} → ℕ → Context × A → Step (Context × A)
check_avail size s =
    if ltb s.0.buffer_len (s.0.offset + size) then fail parser_unexpected_buffer_end s else ok s

-- `CTX_CHECK_AND_ADVANCE`
abbrev pub advance : {A : Type 0} → ℕ → Context × A → Step (Context × A)
advance size s = do
  s ← check_avail size s
  ok (record s.0 { offset = u16 (s.0.offset + size) }, s.1)

unfoldable pub read_u16 : Context × ℕ → Step (Context × ℕ)
read_u16 s = do
  s ← check_avail 2 s
  let c = s.0
  let high = u16 (get_or c.buffer c.offset 0 * 256)
  advance 2 (c, u16 (high + get_or c.buffer (c.offset + 1) 0))

unfoldable pub read_element : Context × Element → Step (Context × Element)
unfolding read_u16
read_element s = do
  s ← within (λ p. (p.0, record s.1 { len = p.1 })) (read_u16 (s.0, s.1.len))
  s ← check_avail s.1.len s
  advance s.1.len (s.0, record s.1 { ptr = s.0.offset })

unfoldable pub read_tag : Context × Tag → Step (Context × Tag)
read_tag s = do
  s ← within (λ p. (p.0, record s.1 { key = p.1 })) (read_element (s.0, s.1.key))
  within (λ p. (p.0, record s.1 { value = p.1 })) (read_element (s.0, s.1.value))

-- The loop over the tags from `v->tags[i]` on, with `left` rounds to go.
unfoldable pub read_tags : ℕ → ℕ → Context × Tx → Step (Context × Tx)
read_tags zero i s = ok s
read_tags (suc left) i s = do
  s ←
      within (λ p. (p.0, record s.1 { tags = set s.1.tags i p.1 }))
        (read_tag (s.0, get_or s.1.tags i empty_tag))
  read_tags left (i + 1) s

-- A call of `parser_readElement` on a field of the transaction.
abbrev pub read_field : (Tx → Element) → (Tx → Element → Tx) → Context × Tx → Step (Context × Tx)
read_field get put s = within (λ p. (p.0, put s.1 p.1)) (read_element (s.0, get s.1))

-- Only the version 2 of the format is accepted.
unfoldable pub check_format : Context × Tx → Step (Context × Tx)
check_format s =
    if not (s.1.format.len == 1) || not (get_or s.0.buffer s.1.format.ptr 0 == b'2')
    then fail parser_unexpected_tx_version s
    else ok s

unfoldable pub check_owner : Context × Tx → Step (Context × Tx)
check_owner s = if s.1.owner.len == 512 then ok s else fail parser_unexpected_tx_version s

unfoldable pub check_tags_count : Context × Tx → Step (Context × Tx)
check_tags_count s =
    if ltb max_number_tags s.1.tags_count then fail parser_value_out_of_range s else ok s

-- The part of `_read` under the comment "tags".
unfoldable pub read_tag_list : Context × Tx → Step (Context × Tx)
unfolding read_u16 read_element read_tag read_tags check_tags_count
read_tag_list s = do
  s ← within (λ p. (p.0, record s.1 { tags_count = p.1 })) (read_u16 (s.0, s.1.tags_count))
  s ← check_tags_count s
  read_tags s.1.tags_count 0 s

-- `_read`
unfoldable pub read : Context × Tx → Step (Context × Tx)
unfolding read_tag_list check_format check_owner
read s = do
  s ← read_field (λ v. v.format) (λ v e. record v { format = e }) s
  s ← check_format s
  s ← read_field (λ v. v.owner) (λ v e. record v { owner = e }) s
  s ← check_owner s
  s ← read_field (λ v. v.target) (λ v e. record v { target = e }) s
  s ← read_field (λ v. v.quantity) (λ v e. record v { quantity = e }) s
  s ← read_field (λ v. v.reward) (λ v e. record v { reward = e }) s
  s ← read_field (λ v. v.last_tx) (λ v e. record v { last_tx = e }) s
  s ← read_tag_list s
  s ← read_field (λ v. v.data_size) (λ v e. record v { data_size = e }) s
  read_field (λ v. v.data_root) (λ v e. record v { data_root = e }) s

-- `parser_parse`. The length is a `size_t`, and `parser_init` takes a `uint16_t`. On a `fail` of
-- `parser_init` the transaction object is left alone.
unfoldable pub parse : Context × Tx → Option Bytes → ℕ → Step (Context × Tx)
parse s bytes size =
    if ltb size 1
    then fail parser_no_data s
    else do s ← within (λ c. (c, s.1)) (init s.0 bytes (u16 size)); read s
