-- ===== src/Display/Items.antt =====
-- The items of the review, and the tags among them.
use ledger_arweave.Base.{
  ℕ, zero, suc, ◌+◌, ◌-◌, ◌≤◌, ◌<◌, ◌≡◌, refl, ap, ◌∙◌, true, false, ◌&&◌, Bytes, arith, u16, ltb,
  leb, ◌==◌, on_test, on_not, Bool-cases, inl, inr, get_or, ◌++◌,
}
use ledger_arweave.Status.{codes, fail, parser_no_data}
use ledger_arweave.Parser.{Tx, empty_tag}
use ledger_arweave.DeepHash.Decimal.{decimal}
use ledger_arweave.Display.{
  Ui, Screen, written, roots, get_num_items, print_tag, get_tag_item, get_further_item,
  get_fixed_item, get_item,
}

pub roots_le : (v : Tx) → roots v ≤ 1
roots_le v = on_test (λ r. r ≤ 1) 1 0 (ltb 0 v.data_root.len) (λ _. omega arith) λ _. omega arith

-- In expert mode the items are the five fixed ones, the data root if there is one, and the tags;
-- the sum fits the `uint8_t` that counts them.
pub get_num_items-tags :
    (ui : Ui) (v : Tx)
    → ui.expert ≡ true
    → v.tags_count ≤ 16
    → get_num_items ui v ≡ 5 + roots v + v.tags_count
unfolding get_num_items
get_num_items-tags ui v expert few = rw expert (omega (arith, roots_le v))

leb-true : (a b : ℕ) → a ≤ b → leb a b ≡ true
leb-true a b h = ground arith

leb-false : (a b : ℕ) → b < a → leb a b ≡ false
leb-false a b h = ground arith

get_fixed_item-further :
    (ui : Ui) (memory : Bytes) (key_len val_len page_idx : ℕ) (v : Tx) (idx : ℕ) (s : Screen)
    → 5 ≤ idx
    → get_fixed_item ui memory key_len val_len page_idx v idx s
      ≡ get_further_item ui memory key_len val_len page_idx v idx s
unfolding get_fixed_item
get_fixed_item-further ui memory key_len val_len page_idx v zero s h = absurd (omega arith)
get_fixed_item-further ui memory key_len val_len page_idx v (suc zero) s h = absurd (omega arith)
get_fixed_item-further ui memory key_len val_len page_idx v (suc (suc zero)) s h =
    absurd (omega arith)
get_fixed_item-further ui memory key_len val_len page_idx v (suc (suc (suc zero))) s h =
    absurd (omega arith)
get_fixed_item-further ui memory key_len val_len page_idx v (suc (suc (suc (suc zero)))) s h =
    absurd (omega arith)
get_fixed_item-further ui memory key_len val_len page_idx v (suc (suc (suc (suc (suc i))))) s h =
    ap (λ (n : ℕ). get_further_item ui memory key_len val_len page_idx v n s) (omega arith)

-- Behind the data root, or with none, no item is the data root's.
not_root : (v : Tx) (i : ℕ) → ((5 + roots v + i == 5) && ltb 0 v.data_root.len) ≡ false
not_root v i = elim (Bool-cases (ltb 0 v.data_root.len)) [
  | inl e ↦ ground (arith, e)
  | inr e ↦ ground (arith, e)
]

pub get_further_item-tag :
    (ui : Ui) (memory : Bytes) (key_len val_len page_idx : ℕ) (v : Tx) (i : ℕ) (s : Screen)
    → i < 16
    → get_further_item ui memory key_len val_len page_idx v (5 + roots v + i) s
      ≡ print_tag ui memory key_len val_len page_idx (get_or v.tags i empty_tag) s
unfolding get_further_item get_tag_item
get_further_item-tag ui memory key_len val_len page_idx v i s h =
    rw (not_root v i, entry, leb-false 16 i h) refl
  where
    entry : u16 (5 + roots v + i + 65536 - (5 + roots v)) ≡ i
    entry = omega (arith, roots_le v)

-- In expert mode every tag of the transaction is shown: the item behind the fixed ones and the data
-- root, counted from 0, prints the tag of that number. A transaction has at most 16 tags.
pub get_item-print_tag :
    (ui : Ui) (memory : Bytes) (key_len val_len page_idx : ℕ) (v : Tx) (i : ℕ) (s : Screen)
    → ui.expert ≡ true
    → v.tags_count ≤ 16
    → i < v.tags_count
    → get_item ui memory key_len val_len page_idx v (5 + roots v + i) s
      ≡ print_tag ui memory key_len val_len page_idx (get_or v.tags i empty_tag) (record {
        key = written key_len (codes "? " ++ decimal (5 + roots v + i));
        value = written val_len (codes "?");
        page_count = 1;
      })
unfolding get_item
get_item-print_tag ui memory key_len val_len page_idx v i s expert few lt =
    rw
      (leb-false (get_num_items ui v) (5 + roots v + i)
        (omega (arith, get_num_items-tags ui v expert few)))
      (get_fixed_item-further ui memory key_len val_len page_idx v (5 + roots v + i) _ (omega arith)
        ∙ get_further_item-tag ui memory key_len val_len page_idx v i _ (omega arith))

-- There are at most 22 items.
pub get_num_items-le : (ui : Ui) (v : Tx) → v.tags_count ≤ 16 → get_num_items ui v ≤ 22
unfolding get_num_items
get_num_items-le ui v few =
    on_not (λ n. n ≤ 22) _ _ ui.expert (λ _. omega arith) λ _. omega (arith, roots_le v)

pub get_item-no_data :
    (ui : Ui) (memory : Bytes) (key_len val_len page_idx : ℕ) (v : Tx) (idx : ℕ) (s : Screen)
    → get_num_items ui v ≤ idx
    → (s' : Screen) × (get_item ui memory key_len val_len page_idx v idx s ≡ fail parser_no_data s')
unfolding get_item
get_item-no_data ui memory key_len val_len page_idx v idx s h =
    rw (leb-true (get_num_items ui v) idx h) (_, refl)
