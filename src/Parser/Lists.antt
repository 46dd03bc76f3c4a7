-- ===== src/Parser/Lists.antt =====
-- The list reader of a whole transaction, step by step as `_read` goes, for the bytes of a
-- message.
use ledger_arweave.Base.{
  ℕ, zero, suc, ◌*◌, ◌+◌, ◌||◌, not, List, [], ◌∷◌, ◌++◌, Bytes, ltb, ◌==◌, if◌then◌else◌, length,
  get_or,
}
use ledger_arweave.Status.{
  Step, ok, fail, ◌>>=◌, within, parser_unexpected_buffer_end, parser_unexpected_tx_version,
  parser_value_out_of_range,
}
use ledger_arweave.Parser.{max_number_tags}
use ledger_arweave.Parser.Cursor.{take_element}
use ledger_arweave.Parser.Layout.{Transaction}

abbrev pub take_field :
    (Transaction → Bytes)
    → (Transaction → Bytes → Transaction)
    → Transaction × Bytes
    → Step (Transaction × Bytes)
take_field get put s = within (λ p. (put s.0 p.0, p.1)) (take_element (get s.0) s.1)

unfoldable pub expect_version : Transaction × Bytes → Step (Transaction × Bytes)
expect_version s =
    if not (length s.0.format == 1) || not (get_or s.0.format 0 0 == b'2')
    then fail parser_unexpected_tx_version s
    else ok s

unfoldable pub expect_modulus : Transaction × Bytes → Step (Transaction × Bytes)
expect_modulus s = if length s.0.owner == 512 then ok s else fail parser_unexpected_tx_version s

-- One tag, put behind those read so far.
unfoldable pub take_tag : (Bytes × Bytes) × Bytes → Step ((Bytes × Bytes) × Bytes)
take_tag s = do
  s ← within (λ p. ((p.0, s.0.1), p.1)) (take_element s.0.0 s.1)
  within (λ p. ((s.0.0, p.0), p.1)) (take_element s.0.1 s.1)

unfoldable pub take_tags : ℕ → List (Bytes × Bytes) × Bytes → Step (List (Bytes × Bytes) × Bytes)
take_tags zero s = ok s
take_tags (suc left) s = do
  s ← within (λ p. (s.0 ++ p.0 ∷ [], p.1)) (take_tag (([], []), s.1))
  take_tags left s

unfoldable pub take_count : ℕ → Bytes → Step (List (Bytes × Bytes) × Bytes)
take_count n rest =
    if ltb max_number_tags n
    then fail parser_value_out_of_range ([], rest)
    else take_tags n ([], rest)

-- The number of tags, at most 16, and the tags.
unfoldable pub take_tag_list : Bytes → Step (List (Bytes × Bytes) × Bytes)
unfolding take_count
take_tag_list (h ∷ l ∷ rest) = take_count (h * 256 + l) rest
take_tag_list bs = fail parser_unexpected_buffer_end ([], bs)

unfoldable pub take_transaction : Transaction × Bytes → Step (Transaction × Bytes)
take_transaction s = do
  s ← take_field (λ t. t.format) (λ t b. record t { format = b }) s
  s ← expect_version s
  s ← take_field (λ t. t.owner) (λ t b. record t { owner = b }) s
  s ← expect_modulus s
  s ← take_field (λ t. t.target) (λ t b. record t { target = b }) s
  s ← take_field (λ t. t.quantity) (λ t b. record t { quantity = b }) s
  s ← take_field (λ t. t.reward) (λ t b. record t { reward = b }) s
  s ← take_field (λ t. t.last_tx) (λ t b. record t { last_tx = b }) s
  s ← within (λ p. (record s.0 { tags = p.0 }, p.1)) (take_tag_list s.1)
  s ← take_field (λ t. t.data_size) (λ t b. record t { data_size = b }) s
  take_field (λ t. t.data_root) (λ t b. record t { data_root = b }) s
