-- ===== src/Display/Places.antt =====
-- The texts of the review in the memory, and the places of the further items.
use ledger_arweave.Base.{
  ℕ, zero, suc, ◌+◌, ◌-◌, ◌≤◌, ◌<◌, ◌≡◌, refl, sym, ap, ◌∙◌, true, false, ◌==◌, Bool-cases, inl,
  inr, [], ◌∷◌, Bytes, arith, ltb, leb, get_or, take, drop, length, length-take, length-drop,
  if◌then◌else◌,
}
use ledger_arweave.Status.{codes}
use ledger_arweave.Parser.{Element, Tx, empty_tag}
use ledger_arweave.Parser.Layout.{view_element}
use ledger_arweave.Display.{
  Ui, Screen, c_string, written, roots, get_num_items, print_data, print_tag, get_further_item,
}
use ledger_arweave.Display.Items.{get_further_item-tag, roots_le}

take-c_string :
    (k j : ℕ) (xs : Bytes) → k ≤ j → take k (c_string (take j xs)) ≡ take k (c_string xs)
take-c_string zero j xs h = refl
take-c_string (suc k) zero xs h = absurd (omega arith)
take-c_string (suc k) (suc j) [] h = refl
take-c_string (suc k) (suc j) (x ∷ xs) h = elim (Bool-cases (x == 0)) [
  | inl e ↦ rw e refl
  | inr e ↦ rw e (ap (λ (b : Bytes). x ∷ b) (take-c_string k j xs (omega arith)))
]

pub length-view_element :
    (m : Bytes) (e : Element) → e.ptr + e.len ≤ length m → length (view_element m e) ≡ e.len
length-view_element m e h = omega (arith, h, length-take e.len (drop e.ptr m), length-drop e.ptr m)

-- The key of a tag, as it is printed: at most its own length.
abbrev pub room_for : ℕ → Element → ℕ
room_for key_len e = if leb (e.len + 1) key_len then e.len + 1 else key_len

room_for-le : (key_len : ℕ) (e : Element) → room_for key_len e - 1 ≤ e.len
room_for-le key_len e = elim (Bool-cases (leb (e.len + 1) key_len)) [
  | inl h ↦ rw h (omega arith)
  | inr h ↦ rw h (ground (arith, h))
]

pub key_text :
    (key_len : ℕ) (m : Bytes) (e : Element)
    → written (room_for key_len e) (c_string (drop e.ptr m))
      ≡ written (room_for key_len e) (c_string (view_element m e))
key_text key_len m e =
    sym (take-c_string (room_for key_len e - 1) e.len (drop e.ptr m) (room_for-le key_len e))

pub has_root : (v : Tx) (i : ℕ) → ltb i (roots v) ≡ true → (i ≡ 0) × (ltb 0 v.data_root.len ≡ true)
has_root v i e = elim (Bool-cases (ltb 0 v.data_root.len)) [
  | inl h ↦ (ground (arith, e, h), h)
  | inr h ↦ absurd (ground (arith, e, h))
]

pub behind : (v : Tx) (i : ℕ) → ltb i (roots v) ≡ false → roots v ≤ i
behind v i e = elim (Bool-cases (ltb 0 v.data_root.len)) [
  | inl h ↦ ground (arith, e, h)
  | inr h ↦ ground (arith, e, h)
]

-- An index that `get_item` does not refuse.
pub counted :
    (ui : Ui) (v : Tx) (idx : ℕ)
    → v.tags_count ≤ 16
    → leb (get_num_items ui v) idx ≡ false
    → idx < 5 + roots v + v.tags_count
unfolding get_num_items
counted ui v idx few = elim (Bool-cases ui.expert) [
  | inl h ↦ rw h λ e. ground (arith, e, roots_le v)
  | inr h ↦ rw h λ e. ground (arith, e)
]

module _ (ui : Ui) (m : Bytes) (key_len val_len page_idx : ℕ) (v : Tx) (i : ℕ) (s : Screen) where
  pub get_further_item-root :
      i ≡ 0
      → ltb 0 v.data_root.len ≡ true
      → get_further_item ui m key_len val_len page_idx v (5 + i) s
        ≡ print_data ui m key_len val_len page_idx v.data_root
            (record s { key = written key_len (codes "Data root") })
  unfolding get_further_item
  get_further_item-root z e = rw (z, e) refl

  pub get_further_item-at :
      roots v ≤ i
      → i < roots v + 16
      → get_further_item ui m key_len val_len page_idx v (5 + i) s
        ≡ print_tag ui m key_len val_len page_idx (get_or v.tags (i - roots v) empty_tag) s
  get_further_item-at le lt =
      ap (λ (n : ℕ). get_further_item ui m key_len val_len page_idx v n s) (omega (arith, le))
      ∙ get_further_item-tag ui m key_len val_len page_idx v (i - roots v) s (omega (arith, le, lt))
