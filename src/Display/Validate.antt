-- ===== src/Display/Validate.antt =====
-- What a success of `parser_validate` says of the owner's key and of the items.
use ledger_arweave.Base.{
  [], ℕ, zero, suc, ◌+◌, ◌*◌, ◌≤◌, ◌<◌, ◌≡◌, refl, sym, ap, ap₂, ◌∙◌, Bool, true, Bytes, arith, ltb,
  on_test, Bool-cases, inl, inr, ltb→lt, le_of_ltb-false, slice, take, take_all, drop, drop-drop,
  ◌∷◌, ◌++◌, length,
}
use ledger_arweave.Status.{Step, ok, fail}
use ledger_arweave.Parser.{Tx}
use ledger_arweave.Store.{Store, in_use, same_bytes, is_initialized, pubkey_part}
use ledger_arweave.Result.{Result}
use ledger_arweave.Store.Keys.{same_bytes-eq}
use ledger_arweave.Crypto.{get_pubkey_part}
use ledger_arweave.Parser.Layout.{view_element}
use ledger_arweave.Display.{
  Ui, Screen, get_num_items, after_item, first_page, show_items, after_half, validate, same_owner,
}

after_item-ok :
    (rest : Step ℕ) (idx n : ℕ) (r : Step Screen)
    → after_item rest idx r ≡ ok n
    → ((s : Screen) × (r ≡ ok s)) × (rest ≡ ok n)
after_item-ok rest idx n (ok s) h = ((s, refl), h)
after_item-ok rest idx n (fail e s) h = absurd (cc)

pub show_items-ok :
    (ui : Ui) (memory : Bytes) (v : Tx) (left idx n k : ℕ)
    → show_items ui memory v left idx ≡ ok n
    → idx ≤ k
    → k < idx + left
    → (s : Screen) × (first_page ui memory v k ≡ ok s)
unfolding show_items
show_items-ok ui memory v zero idx n k h lo hi = absurd (omega arith)
show_items-ok ui memory v (suc left) idx n k h lo hi =
    let (item, rest) = after_item-ok _ idx n (first_page ui memory v idx) h in
    elim (Bool-cases (ltb idx k)) [
      | inl later ↦
          show_items-ok ui memory v left (idx + 1) n k rest (omega (arith, ltb→lt idx k later))
            (omega arith)
      | inr same ↦
          (item.0, ap (first_page ui memory v) (omega (arith, le_of_ltb-false idx k same)) ∙ item.1)
    ]

-- When `parser_validate` succeeds, the first page of every item of the review can be shown: no index
-- below the number of items gives an error.
pub validate-shows :
    (ui : Ui) (s : Store) (memory : Bytes) (v : Tx) (n idx : ℕ)
    → validate ui s memory v ≡ ok n
    → idx < get_num_items ui v
    → (screen : Screen) × (first_page ui memory v idx ≡ ok screen)
unfolding validate
validate-shows ui s memory v n idx h lt =
    on_test (λ r. r ≡ ok n → (screen : Screen) × (first_page ui memory v idx ≡ ok screen)) _ _
      (same_owner s memory v 2 0)
      (λ _ e. show_items-ok ui memory v (get_num_items ui v) 0 n idx e (omega arith) (omega arith))
      (λ _ e. absurd (cc)) h

after_half-true :
    (rest : Bool) (half : Bytes) (r : Result Bytes Store)
    → after_half rest half r ≡ true
    → (r ≡ Result.ok half) × (rest ≡ true)
after_half-true rest half (Result.ok key) h =
    on_test
      (λ b.
        b ≡ true → (◌≡◌ {A = Result Bytes Store} (Result.ok key) (Result.ok half)) × (rest ≡ true))
      _ _ (same_bytes half key)
      (λ e h. (ap (λ (k : Bytes). Result.ok k) (sym (same_bytes-eq half key e)), h))
      (λ _ h. absurd (cc)) h
after_half-true rest half (Result.fail e s) h = absurd (cc)

get_pubkey_part-ok :
    (i : ℕ) (s : Store) (key : Bytes)
    → get_pubkey_part 256 i s ≡ Result.ok key
    → (is_initialized s ≡ true) × (key ≡ slice (in_use s).rsa_pub (i * 256) 256)
unfolding get_pubkey_part pubkey_part
get_pubkey_part-ok i s key = elim (Bool-cases (is_initialized s)) [
  | inr e ↦ rw e λ h. absurd (cc)
  | inl e ↦ rw e (on_test Goal _ _ (ltb 1 i) (λ _ h. absurd (cc)) λ _ h. (refl, cc))
]
  where
    Goal : Result Bytes Store → Type 0
    Goal r = r ≡ Result.ok key → (true ≡ true) × (key ≡ slice (in_use s).rsa_pub (i * 256) 256)

take-nil : (n : ℕ) → take {A = ℕ} n [] ≡ []
take-nil zero = refl
take-nil (suc n) = refl

take-split : (m n : ℕ) (xs : Bytes) → take (m + n) xs ≡ take m xs ++ take n (drop m xs)
take-split zero n xs = ap (λ (k : ℕ). take k xs) (omega arith)
take-split (suc m) n [] = take-nil (suc m + n) ∙ sym (take-nil n)
take-split (suc m) n (x ∷ xs) =
    let e : suc m + n ≡ suc (m + n) = omega arith in
    ap (λ (k : ℕ). take k (x ∷ xs)) e ∙ ap (λ (ys : Bytes). x ∷ ys) (take-split m n xs)

-- When `parser_validate` succeeds, the store is initialized and the owner of the transaction is the
-- public key of the slot in use, all of its 512 bytes.
pub validate-owner :
    (ui : Ui) (s : Store) (memory : Bytes) (v : Tx) (n : ℕ)
    → validate ui s memory v ≡ ok n
    → v.owner.len ≡ 512
    → length (in_use s).rsa_pub ≡ 512
    → (is_initialized s ≡ true) × (view_element memory v.owner ≡ (in_use s).rsa_pub)
unfolding validate same_owner
validate-owner ui s memory v n h len_owner len_key = (
  front.0,
  ap (λ (m : ℕ). slice memory v.owner.ptr m) len_owner
      ∙ take-split 256 256 (drop v.owner.ptr memory)
      ∙ ap₂ ◌++◌ (ap (λ (p : ℕ). slice memory p 256) (omega arith) ∙ front.1) (
          ap (take 256) (drop-drop 256 v.owner.ptr memory)
          ∙ ap (λ (p : ℕ). slice memory p 256) (omega arith)
          ∙ back.1)
      ∙ sym (take-split 256 256 (in_use s).rsa_pub)
      ∙ take_all 512 (in_use s).rsa_pub (omega arith),
)
  where
    both : same_owner s memory v 2 0 ≡ true
    both =
        on_test (λ r. r ≡ ok n → same_owner s memory v 2 0 ≡ true) _ _ (same_owner s memory v 2 0)
          (λ e _. e) (λ _ e. absurd (cc)) h

    first :
        (get_pubkey_part 256 0 s ≡ Result.ok (slice memory (v.owner.ptr + 0 * 256) 256))
        × (same_owner s memory v 1 1 ≡ true)
    first = after_half-true _ _ _ both

    second :
        (get_pubkey_part 256 1 s ≡ Result.ok (slice memory (v.owner.ptr + 1 * 256) 256))
        × (true ≡ true)
    second = after_half-true _ _ _ first.1

    front :
        (is_initialized s ≡ true)
        × (slice memory (v.owner.ptr + 0 * 256) 256 ≡ slice (in_use s).rsa_pub 0 256)
    front = get_pubkey_part-ok 0 s _ first.0

    back :
        (is_initialized s ≡ true)
        × (slice memory (v.owner.ptr + 1 * 256) 256 ≡ slice (in_use s).rsa_pub 256 256)
    back = get_pubkey_part-ok 1 s _ second.0
