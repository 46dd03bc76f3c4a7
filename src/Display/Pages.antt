-- ===== src/Display/Pages.antt =====
-- Whether an item can be shown does not depend on the page, nor on the buffers.
use ledger_arweave.Base.{
  ℕ, zero, suc, ◌+◌, ◌-◌, ◌≡◌, refl, Bool, true, false, ◌&&◌, ◌==◌, Bool-cases, Option-cases, ◌⊎◌,
  inl, inr, [], Option, none, some, Bytes, ltb, leb, replicate, slice, u16,
}
use ledger_arweave.Status.{Step, ok, fail, codes}
use ledger_arweave.Base64
use ledger_arweave.Parser.{Element, Tx, max_number_tags}
use ledger_arweave.Display.{
  Ui, Screen, written, roots, get_num_items, print_target, print_quantity, print_reward,
  print_last_tx, print_data, print_size, print_tag, get_tag_item, get_further_item, get_fixed_item,
  get_item,
}

abbrev pub succeeds {ℓ} : {S : Type ℓ} → Step S → Bool
succeeds (ok s) = true
succeeds (fail e s) = false

pub succeeds-ok : {S : Type 0} (r : Step S) → succeeds r ≡ true → (s : S) × (r ≡ ok s)
succeeds-ok (ok s) h = (s, refl)
succeeds-ok (fail e s) h = absurd (cc)

encoded-cases :
    (r : ℕ × Option Bytes)
    → ((n : ℕ) × (r ≡ (n, none))) ⊎ ((n : ℕ) × (out : Bytes) × (r ≡ (n, some out)))
encoded-cases (n, none) = inl (n, refl)
encoded-cases (n, some out) = inr (n, out, refl)

module _ (ui : Ui) (m : Bytes) (k l p k' l' p' : ℕ) where
  print_target-succeeds :
      (e : Element) (s s' : Screen)
      → succeeds (print_target ui m k l p e s) ≡ succeeds (print_target ui m k' l' p' e s')
  unfolding print_target
  print_target-succeeds e s s' =
      elim (encoded-cases
        (Base64.encode (some (replicate 200 0)) 200 (some (slice m e.ptr e.len)))) [
          | inl (n, h) ↦ rw h refl
          | inr (n, out, h) ↦
              rw h (elim (Bool-cases (n == 0)) [ inl z ↦ rw z refl | inr z ↦ rw z refl ])
        ]

  print_quantity-succeeds :
      (e : Element) (decimals : ℕ) (postfix prefix : Bytes) (s s' : Screen)
      → succeeds (print_quantity ui m k l p e decimals postfix prefix s)
        ≡ succeeds (print_quantity ui m k' l' p' e decimals postfix prefix s')
  unfolding print_quantity
  print_quantity-succeeds e decimals postfix prefix s s' = elim (Bool-cases (ltb 200 e.len)) [
    | inl z ↦ rw z refl
    | inr z ↦ rw z (elim (Option-cases (ui.to_fp (slice m e.ptr e.len) decimals)) [
      | inl h ↦ rw h refl
      | inr (number, h) ↦ rw h (elim (Option-cases (ui.join number prefix postfix)) [
        | inl j ↦ rw j refl
        | inr (text, j) ↦ rw j refl
      ])
    ])
  ]

  print_size-succeeds :
      (e : Element) (s s' : Screen)
      → succeeds (print_size ui m k l p e s) ≡ succeeds (print_size ui m k' l' p' e s')
  unfolding print_size
  print_size-succeeds e s s' = elim (Bool-cases (ltb 200 e.len)) [
    | inl z ↦ rw z refl
    | inr z ↦ rw z refl
  ]

  get_further_item-succeeds :
      (v : Tx) (i : ℕ) (s s' : Screen)
      → succeeds (get_further_item ui m k l p v i s)
        ≡ succeeds (get_further_item ui m k' l' p' v i s')
  unfolding get_further_item get_tag_item print_tag print_data
  get_further_item-succeeds v i s s' = elim (Bool-cases ((i == 5) && ltb 0 v.data_root.len)) [
    | inl z ↦ rw z (
        print_target-succeeds v.data_root (record s { key = written k (codes "Data root") })
          (record s' { key = written k' (codes "Data root") }))
    | inr z ↦ rw z (elim (Bool-cases (leb max_number_tags (u16 (i + 65536 - (5 + roots v))))) [
      | inl y ↦ rw y refl
      | inr y ↦ rw y refl
    ])
  ]

  get_fixed_item-succeeds :
      (v : Tx) (idx : ℕ) (s s' : Screen)
      → succeeds (get_fixed_item ui m k l p v idx s)
        ≡ succeeds (get_fixed_item ui m k' l' p' v idx s')
  unfolding get_fixed_item print_last_tx print_reward
  get_fixed_item-succeeds v zero s s' =
      print_target-succeeds v.target (record s { key = written k (codes "Target") })
        (record s' { key = written k' (codes "Target") })
  get_fixed_item-succeeds v (suc zero) s s' =
      print_quantity-succeeds v.quantity 12 [] (codes "AR ") _ _
  get_fixed_item-succeeds v (suc (suc zero)) s s' = refl
  get_fixed_item-succeeds v (suc (suc (suc zero))) s s' =
      print_target-succeeds v.last_tx (record s { key = written k (codes "Last tx") })
        (record s' { key = written k' (codes "Last tx") })
  get_fixed_item-succeeds v (suc (suc (suc (suc zero)))) s s' = print_size-succeeds v.data_size _ _
  get_fixed_item-succeeds v (suc (suc (suc (suc (suc i))))) s s' =
      get_further_item-succeeds v (i + 5) s s'

  -- What can be shown on one page of one size can be shown on any other.
  pub get_item-succeeds :
      (v : Tx) (idx : ℕ) (s s' : Screen)
      → succeeds (get_item ui m k l p v idx s) ≡ succeeds (get_item ui m k' l' p' v idx s')
  unfolding get_item
  get_item-succeeds v idx s s' = elim (Bool-cases (leb (get_num_items ui v) idx)) [
    | inl z ↦ rw z refl
    | inr z ↦ rw z (get_fixed_item-succeeds v idx _ _)
  ]
