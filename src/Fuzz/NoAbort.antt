-- ===== src/Fuzz/NoAbort.antt =====
-- The fuzz target returns.
use ledger_arweave.Base.{
  ℕ, zero, suc, ◌+◌, ◌≤◌, ◌<◌, ◌≡◌, refl, ap, ◌∙◌, Option, some, Bytes, arith, u8, [], ltb, ltb→lt,
  on_test, length, inl, inr,
}
use ledger_arweave.Status.{Step-cases, ok}
use ledger_arweave.Parser.{Context, Tx, parse}
use ledger_arweave.Display.{Ui, Screen, get_num_items, get_item, first_page, show_items}
use ledger_arweave.Display.Validate.{show_items-ok}
use ledger_arweave.Display.Pages.{succeeds, succeeds-ok, get_item-succeeds}
use ledger_arweave.Fuzz.{
  Outcome, returned, text_len, validate_tx, host_validate, after_page, after_pages, show_pages,
  show_all, test_one_input,
}

-- It ends without an abort.
Returns : Option (Outcome × Screen) → Type 0
Returns r = (s : Screen) × (r ≡ some (returned, s))

module _ (ui : Ui) (memory : Bytes) (v : Tx) where
  Shows : ℕ → Type 0
  Shows i = (s : Screen) × (first_page ui memory v i ≡ ok s)

  -- A page of an item whose first page can be shown.
  page-ok :
      (i page_idx : ℕ) (s : Screen)
      → Shows i
      → (s' : Screen) × (get_item ui memory text_len text_len page_idx v i s ≡ ok s')
  unfolding Shows first_page
  page-ok i page_idx s (s₀, e) = succeeds-ok (get_item ui memory text_len text_len page_idx v i s) (
      get_item-succeeds ui memory text_len text_len page_idx 40 40 0 v i s
        (record { key = []; value = []; page_count = 0 })
      ∙ ap succeeds e)

  show_pages-Returns :
      (fuel i page_idx page_count : ℕ) (s : Screen)
      → Shows i
      → page_idx ≤ 255
      → page_count ≤ 255
      → page_idx + fuel ≡ 256
      → Returns (show_pages ui memory v fuel i page_idx page_count s)
  unfolding show_pages Returns
  show_pages-Returns zero i page_idx page_count s shows a b e = absurd (omega arith)
  show_pages-Returns (suc fuel) i page_idx page_count s shows a b e =
      on_test Returns _ _ (ltb page_idx page_count)
        (λ lt.
          let (s', g) = page-ok i page_idx s shows in
          let rest =
            show_pages-Returns fuel i (u8 (page_idx + 1)) (u8 s'.page_count) s' shows (omega arith)
              (omega arith) (omega (arith, ltb→lt page_idx page_count lt)) in
          (rest.0, ap (after_page ui memory v _) g ∙ rest.1))
        λ _. (s, refl)

  show_all-Returns :
      (left i : ℕ) (s : Screen)
      → ((k : ℕ) → k < i + left → Shows k)
      → Returns (show_all ui memory v left i s)
  unfolding show_all Returns
  show_all-Returns zero i s shows = (s, refl)
  show_all-Returns (suc left) i s shows =
      let (s', e) =
        show_pages-Returns 256 i 0 1 s (shows i (omega arith)) (omega arith) (omega arith) refl in
      let rest = show_all-Returns left (i + 1) s' (λ k lt. shows k (omega (arith, lt))) in
      (
        rest.0,
        ap (after_pages ui memory v (λ (s : Screen). show_all ui memory v left (i + 1) s)) e
            ∙ rest.1,
      )

-- Whatever its input, the fuzz target returns: its loops come to an end, and none of its asserts
-- fails. Every page of every item of a transaction that `parser_validate` has accepted can be shown,
-- also in larger buffers than those of `parser_validate`.
pub test_one_input-returned :
    (ui : Ui) (p : Context × Tx) (input : Bytes) (s : Screen)
    → (s' : Screen) × (test_one_input ui p input s ≡ some (returned, s'))
unfolding test_one_input host_validate validate_tx Returns Shows
test_one_input-returned ui p input s = elim (Step-cases (parse p (some input) (length input))) [
  | inr f ↦ rw f.2 (s, refl)
  | inl q ↦ rw q.1 (elim (Step-cases (show_items ui input q.0.1 (get_num_items ui q.0.1) 0)) [
    | inr f ↦ rw f.2 (s, refl)
    | inl n ↦ rw n.1 (
        show_all-Returns ui input q.0.1 (get_num_items ui q.0.1) 0 s λ k lt.
          show_items-ok ui input q.0.1 (get_num_items ui q.0.1) 0 n.0 k n.1 (omega arith) lt)
  ])
]
