-- ===== src/Display/Same.antt =====
-- The items of two objects whose fields have the same bytes.
use ledger_arweave.Base.{
  ℕ, zero, suc, ◌+◌, ◌-◌, ◌≤◌, ◌<◌, ◌≡◌, refl, sym, ap, ap₂, ◌∙◌, subst, not, u8, Bool-cases, inl,
  inr, [], Bytes, arith, ltb, leb, get_or, length, if◌then◌else◌,
}
use ledger_arweave.Status.{ok, codes}
use ledger_arweave.Parser.{Element, Tag, Tx, empty_tag}
use ledger_arweave.Parser.Layout.{view_element}
use ledger_arweave.Display.{
  Ui, Screen, c_string, paged, written, roots, get_num_items, print_target, print_quantity,
  print_reward, print_last_tx, print_data, print_size, print_tag, get_further_item, get_fixed_item,
  get_item,
}
use ledger_arweave.Display.Places.{
  behind, counted, get_further_item-at, get_further_item-root, has_root, key_text,
  length-view_element,
}

module _ (m m' : Bytes) where
  -- Two strings of the two memories with the same bytes.
  pub record Same (e e' : Element) : Type 0 where
    pub text : view_element m e ≡ view_element m' e'
    pub len : e.len ≡ e'.len

  abbrev pub SameTag : Tag → Tag → Type 0
  SameTag t t' = Same t.key t'.key × Same t.value t'.value

  pub bounded-Same :
      (e e' : Element)
      → e.ptr + e.len ≤ length m
      → e'.ptr + e'.len ≤ length m'
      → view_element m e ≡ view_element m' e'
      → Same e e'
  bounded-Same e e' h h' t = record {
    text = t;
    len = omega (arith, length-view_element m e h, length-view_element m' e' h', ap length t);
  }

  -- The fields that the fixed items show, and the array of the tags up to `n` of them.
  pub record SameTx (v w : Tx) : Type 0 where
    pub target : Same v.target w.target
    pub quantity : Same v.quantity w.quantity
    pub reward : Same v.reward w.reward
    pub last_tx : Same v.last_tx w.last_tx
    pub data_size : Same v.data_size w.data_size
    pub data_root : Same v.data_root w.data_root
    pub count : v.tags_count ≡ w.tags_count
    pub tags :
        (i : ℕ) → i < v.tags_count → SameTag (get_or v.tags i empty_tag) (get_or w.tags i empty_tag)

  roots-Same : (v w : Tx) → SameTx v w → roots v ≡ roots w
  roots-Same v w h = ap (λ (n : ℕ). if ltb 0 n then 1 else 0) h.data_root.len

  module _ (ui : Ui) (key_len val_len page_idx : ℕ) where
    print_target-Same :
        (e e' : Element) (s : Screen)
        → Same e e'
        → print_target ui m key_len val_len page_idx e s
          ≡ print_target ui m' key_len val_len page_idx e' s
    unfolding print_target
    print_target-Same e e' s h = rw h.text refl

    print_quantity-Same :
        (e e' : Element) (decimals : ℕ) (postfix prefix : Bytes) (s : Screen)
        → Same e e'
        → print_quantity ui m key_len val_len page_idx e decimals postfix prefix s
          ≡ print_quantity ui m' key_len val_len page_idx e' decimals postfix prefix s
    unfolding print_quantity
    print_quantity-Same e e' decimals postfix prefix s h = rw (h.text, h.len) refl

    print_size-Same :
        (e e' : Element) (s : Screen)
        → Same e e'
        → print_size ui m key_len val_len page_idx e s
          ≡ print_size ui m' key_len val_len page_idx e' s
    unfolding print_size
    print_size-Same e e' s h = rw (h.text, h.len) refl

    print_reward-Same :
        (e e' : Element) (s : Screen)
        → Same e e'
        → print_reward ui m key_len val_len page_idx e s
          ≡ print_reward ui m' key_len val_len page_idx e' s
    unfolding print_reward
    print_reward-Same e e' s h = rw h.text refl

    print_tag-Same :
        (t t' : Tag) (s : Screen)
        → SameTag t t'
        → print_tag ui m key_len val_len page_idx t s
          ≡ print_tag ui m' key_len val_len page_idx t' s
    unfolding print_tag
    print_tag-Same t t' s (k, v) =
        ap₂
          (λ (key value : Bytes).
            ok (paged ui m key_len val_len page_idx value (record s { key = key })))
          (key_text key_len m t.key
            ∙ ap₂ (λ (n : ℕ) (b : Bytes). written n (c_string b))
                (ap (λ (n : ℕ). if leb (n + 1) key_len then n + 1 else key_len) k.len) k.text
            ∙ sym (key_text key_len m' t'.key))
          v.text

    pub get_num_items-Same : (v w : Tx) → SameTx v w → get_num_items ui v ≡ get_num_items ui w
    unfolding get_num_items
    get_num_items-Same v w h =
        ap₂ (λ (n r : ℕ). if not ui.expert then 4 else u8 (4 + n + 1 + r)) h.count
          (roots-Same v w h)

    print_data-Same :
        (e e' : Element) (s : Screen)
        → Same e e'
        → print_data ui m key_len val_len page_idx e s
          ≡ print_data ui m' key_len val_len page_idx e' s
    unfolding print_data
    print_data-Same = print_target-Same

    -- A further item: that of the data root, or of a tag.
    get_further_item-Same :
        (v w : Tx) (i : ℕ) (s : Screen)
        → SameTx v w
        → i < roots v + v.tags_count
        → v.tags_count ≤ 16
        → get_further_item ui m key_len val_len page_idx v (5 + i) s
          ≡ get_further_item ui m' key_len val_len page_idx w (5 + i) s
    get_further_item-Same v w i s h lt few = elim (Bool-cases (ltb i (roots v))) [
      | inl e ↦
          let (none_before, there) = has_root v i e in
          get_further_item-root ui m key_len val_len page_idx v i s none_before there
          ∙ print_data-Same v.data_root w.data_root _ h.data_root
          ∙ sym (
              get_further_item-root ui m' key_len val_len page_idx w i s none_before
                (ap (ltb 0) (sym h.data_root.len) ∙ there))
      | inr e ↦
          get_further_item-at ui m key_len val_len page_idx v i s (behind v i e)
            (omega (arith, lt, few))
          ∙ print_tag-Same _ _ s (
              subst
                (λ (r : ℕ).
                  SameTag (get_or v.tags (i - roots v) empty_tag) (get_or w.tags (i - r) empty_tag))
                (roots-Same v w h) (h.tags (i - roots v) (omega (arith, behind v i e, lt))))
          ∙ sym (
              get_further_item-at ui m' key_len val_len page_idx w i s
                (omega (arith, roots-Same v w h, behind v i e))
                (omega (arith, lt, few, roots-Same v w h)))
    ]

    get_fixed_item-Same :
        (v w : Tx) (idx : ℕ) (s : Screen)
        → SameTx v w
        → v.tags_count ≤ 16
        → idx < 5 + roots v + v.tags_count
        → get_fixed_item ui m key_len val_len page_idx v idx s
          ≡ get_fixed_item ui m' key_len val_len page_idx w idx s
    unfolding get_fixed_item print_last_tx
    get_fixed_item-Same v w zero s h few lt =
        print_target-Same v.target w.target (record s { key = written key_len (codes "Target") })
          h.target
    get_fixed_item-Same v w (suc zero) s h few lt =
        print_quantity-Same v.quantity w.quantity 12 [] (codes "AR ") _ h.quantity
    get_fixed_item-Same v w (suc (suc zero)) s h few lt =
        print_reward-Same v.reward w.reward _ h.reward
    get_fixed_item-Same v w (suc (suc (suc zero))) s h few lt =
        print_target-Same v.last_tx w.last_tx (record s { key = written key_len (codes "Last tx") })
          h.last_tx
    get_fixed_item-Same v w (suc (suc (suc (suc zero)))) s h few lt =
        print_size-Same v.data_size w.data_size _ h.data_size
    get_fixed_item-Same v w (suc (suc (suc (suc (suc i))))) s h few lt =
        ap (λ (n : ℕ). get_further_item ui m key_len val_len page_idx v n s) (omega arith)
        ∙ get_further_item-Same v w i s h (omega (arith, lt)) few
        ∙ ap (λ (n : ℕ). get_further_item ui m' key_len val_len page_idx w n s) (omega arith)

    pub get_item-Same :
        (v w : Tx) (idx : ℕ) (s : Screen)
        → SameTx v w
        → v.tags_count ≤ 16
        → get_item ui m key_len val_len page_idx v idx s
          ≡ get_item ui m' key_len val_len page_idx w idx s
    unfolding get_item
    get_item-Same v w idx s h few = elim (Bool-cases (leb (get_num_items ui v) idx)) [
      | inl e ↦ rw (e, sym (get_num_items-Same v w h), e) refl
      | inr e ↦
          rw (e, sym (get_num_items-Same v w h), e)
            (get_fixed_item-Same v w idx _ h few (counted ui v idx few e))
    ]
