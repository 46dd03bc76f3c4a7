-- ===== src/Session/Items.antt =====
-- The items that the review takes from `tx_getItem`.
use ledger_arweave.Base.{
  [], ℕ, ◌≤◌, ◌<◌, ◌≡◌, ◌⊎◌, inl, inr, refl, sym, ap, ◌∙◌, true, false, ◌||◌, Bool-cases, Bytes,
  arith, leb, ltb, ltb→lt, le_of_ltb-false,
}
use ledger_arweave.Status
use ledger_arweave.Status.{Step, parser_no_data}
use ledger_arweave.Result.{ok, fail, zxerr_no_data}
use ledger_arweave.Parser.{Tx}
use ledger_arweave.Parser.Room.{HasRoom}
use ledger_arweave.Store.{Store}
use ledger_arweave.Display.{Ui, Screen, first_page, get_item, get_num_items}
use ledger_arweave.Display.Pages.{succeeds, succeeds-ok, get_item-succeeds}
use ledger_arweave.Display.Items.{get_num_items-le, get_item-no_data}
use ledger_arweave.Display.Validate.{validate-shows}
use ledger_arweave.Buffering.{Buffering}
use ledger_arweave.Session.{Session, tx_get_item, tx_get_buffer, convert_error}
use ledger_arweave.Session.Parse.{IsReviewed}

abbrev pub blank : Screen
blank = record { key = []; value = []; page_count = 0 }

passes : (n idx : ℕ) → n ≤ 22 → idx ≤ n → (leb 128 idx || ltb n idx) ≡ false
passes n idx few le = ground arith

stops : (n idx : ℕ) → n < idx → (leb 128 idx || ltb n idx) ≡ true
stops n idx gt = ground arith

first_page_lem :
    (ui : Ui) (memory : Bytes) (v : Tx) (idx : ℕ)
    → first_page ui memory v idx ≡ get_item ui memory 40 40 0 v idx blank
unfolding first_page
first_page_lem ui memory v idx = refl

module _ (zx : Buffering) where
  open zx use {Buffer, contents}

  convert_error-ok : (screen : Screen) → convert_error (Status.ok screen) ≡ ok screen
  unfolding convert_error
  convert_error-ok screen = refl

  convert_error-no_data :
      (screen : Screen)
      → convert_error (Status.fail parser_no_data screen) ≡ fail zxerr_no_data screen
  unfolding convert_error
  convert_error-no_data screen = refl

  module _ (ui : Ui) (s : Session Buffer) (idx key_len val_len page_idx : ℕ) (screen : Screen) where
    tx_get_item-le :
        get_num_items ui s.parsed.1 ≤ 22
        → idx ≤ get_num_items ui s.parsed.1
        → tx_get_item zx ui s idx key_len val_len page_idx screen
          ≡ convert_error
              (get_item ui (contents s.buffer) key_len val_len page_idx s.parsed.1 idx screen)
    unfolding tx_get_item tx_get_buffer
    tx_get_item-le few le = rw (passes (get_num_items ui s.parsed.1) idx few le) refl

    tx_get_item-gt :
        get_num_items ui s.parsed.1 < idx
        → tx_get_item zx ui s idx key_len val_len page_idx screen ≡ fail zxerr_no_data screen
    unfolding tx_get_item
    tx_get_item-gt gt = rw (stops (get_num_items ui s.parsed.1) idx gt) refl

  -- For a transaction under review and any page and lengths of the two buffers, `tx_getItem` gives
  -- the screen that `parser_getItem` fills from the received message for each item below the number of
  -- items, and `zxerr_no_data` for every other index of an `int8_t`, the number itself included,
  -- which its own guard lets through.
  pub tx_get_item-IsReviewed :
      (ui : Ui) (store : Store) (s : Session Buffer) (idx key_len val_len page_idx : ℕ)
      (screen : Screen)
      → IsReviewed ui store (contents s.buffer) s.parsed
      → HasRoom s.parsed
      → ((idx < get_num_items ui s.parsed.1)
          × ((s' : Screen) × (get_item ui
                  (contents s.buffer)
                  key_len
                  val_len
                  page_idx
                  s.parsed.1
                  idx
                  screen
                ≡ Status.ok s')
              × (tx_get_item zx ui s idx key_len val_len page_idx screen ≡ ok s')))
        ⊎ ((get_num_items ui s.parsed.1 ≤ idx)
            × ((s' : Screen) × (tx_get_item zx ui s idx key_len val_len page_idx screen
                  ≡ fail zxerr_no_data s')))
  tx_get_item-IsReviewed ui store s idx key_len val_len page_idx screen r room =
      elim (Bool-cases (ltb idx n)) [
        | inl lt ↦
            let (s', e) = filled (ltb→lt idx n lt) in
            inl (
              ltb→lt idx n lt,
              (
                s',
                e,
                tx_get_item-le ui s idx key_len val_len page_idx screen few
                      (omega (arith, ltb→lt idx n lt))
                    ∙ ap convert_error e
                    ∙ convert_error-ok s',
              ),
            )
        | inr ge ↦
            inr (
              le_of_ltb-false idx n ge,
              refused (le_of_ltb-false idx n ge) (Bool-cases (ltb n idx)),
            )
      ]
    where
      memory : Bytes
      memory = contents s.buffer

      n : ℕ
      n = get_num_items ui s.parsed.1

      few : n ≤ 22
      few = get_num_items-le ui s.parsed.1 (omega (arith, r.sound.bounds.count_in, room))

      filled :
          idx < n
          → (s' : Screen) × (get_item ui memory key_len val_len page_idx s.parsed.1 idx screen
              ≡ Status.ok s')
      filled lt =
          let (page, e) = validate-shows ui store memory s.parsed.1 r.items idx r.valid lt in
          succeeds-ok (get_item ui memory key_len val_len page_idx s.parsed.1 idx screen) (
            get_item-succeeds ui memory key_len val_len page_idx 40 40 0 s.parsed.1 idx screen blank
            ∙ ap succeeds (sym (first_page_lem ui memory s.parsed.1 idx) ∙ e))

      refused :
          n ≤ idx
          → ((ltb n idx ≡ true) ⊎ (ltb n idx ≡ false))
          → (s' : Screen) × (tx_get_item zx ui s idx key_len val_len page_idx screen
              ≡ fail zxerr_no_data s')
      refused ge (inl gt) =
          (screen, tx_get_item-gt ui s idx key_len val_len page_idx screen (ltb→lt n idx gt))
      refused ge (inr le) =
          let (s', e) =
            get_item-no_data ui memory key_len val_len page_idx s.parsed.1 idx screen ge in
          (
            s',
            tx_get_item-le ui s idx key_len val_len page_idx screen few (le_of_ltb-false n idx le)
                ∙ ap convert_error e
                ∙ convert_error-no_data s',
          )
