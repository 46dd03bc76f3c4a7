-- ===== src/Session/Tests.antt =====
-- The theorems on the session at a concrete message, with a toy in the place of zxlib's buffer.
use ledger_arweave.Base.{
  zero, suc, ℕ, ◌+◌, ◌≤◌, ◌<◌, ◌≡◌, ◌⊎◌, refl, sym, subst, [], ◌∷◌, ◌++◌, append-nil, none, Bytes,
  IsByte, All, All-append, All-take, arith, ltb, if◌then◌else◌, on_test, length, length-append,
  length-take, take, take_all, are_below_sound, le_of_ltb-false, ltb-false,
}
use ledger_arweave.Result.{ok, fail, zxerr_no_data}
use ledger_arweave.Base64
use ledger_arweave.Store.{is_initialized, pubkey_part, get_pubkey}
use ledger_arweave.Crypto.{get_pubkey_part}
use ledger_arweave.Parser.{
  parse, init, init_context, read, read_element, read_u16, read_tag, read_tags, read_tag_list,
  check_format, check_owner, check_tags_count,
}
use ledger_arweave.Parser.Layout.{encode, encode_element, encode_u16, encode_tags}
use ledger_arweave.Parser.Tests.{idle, message, message-are_bytes, message-small}
use ledger_arweave.Display.{
  Screen, get_num_items, get_item, print_tag, validate, same_owner, show_items, first_page,
  get_fixed_item, get_further_item, get_tag_item, print_target, print_quantity, print_reward,
  print_last_tx, print_data, print_size,
}
use ledger_arweave.Display.Tests.{ui, own}
use ledger_arweave.Buffering.{Buffering}
use ledger_arweave.Session.{
  Session, tx_parse, tx_get_item, tx_get_buffer, tx_get_buffer_length, report_parsing,
  report_validation,
}
use ledger_arweave.Session.Parse.{IsMessage, IsReviewed, tx_parse-IsReviewed, tx_parse-HasRoom}
use ledger_arweave.Parser.Room.{HasRoom}
use ledger_arweave.Status
use ledger_arweave.Session.Items.{blank, tx_get_item-IsReviewed}

-- A message and the most that fits.
abbrev pub Held : Type 0
Held = Bytes × ℕ

abbrev pub held : Held → Bytes
held b = take b.1 b.0

abbrev pub hold : Bytes → Held → ℕ × Held
hold bs b =
    if ltb b.1 (length (held b) + length bs) then (0, b) else (length bs, (held b ++ bs, b.1))

pub held_le : (b : Held) → length (held b) ≤ b.1
held_le b = omega (arith, length-take b.1 b.0)

pub hold-whole :
    (bs : Bytes) (b : Held) → (hold bs b).0 ≡ length bs → held (hold bs b).1 ≡ held b ++ bs
hold-whole bs b =
    on_test (λ (r : ℕ × Held). r.0 ≡ length bs → held r.1 ≡ held b ++ bs) _ _
      (ltb b.1 (length (held b) + length bs)) (λ _ e. short bs e)
      λ h _.
        take_all b.1 (held b ++ bs)
          (omega (arith, length-append (held b) bs, le_of_ltb-false _ _ h))
  where
    short : (bs : Bytes) → 0 ≡ length bs → held b ≡ held b ++ bs
    short [] e = sym (append-nil (held b))
    short (x ∷ bs) e = absurd (omega arith)

pub hold-fits :
    (bs : Bytes) (b : Held) → length (held b) + length bs ≤ b.1 → (hold bs b).0 ≡ length bs
hold-fits bs b h = rw (ltb-false b.1 (length (held b) + length bs) h) refl

pub hold-bytes :
    (bs : Bytes) (b : Held) → All IsByte (held b) → All IsByte bs → All IsByte (held (hold bs b).1)
hold-bytes bs b h k =
    on_test (λ (r : ℕ × Held). All IsByte (held r.1)) _ _ (ltb b.1 (length (held b) + length bs))
      (λ _. h) λ _. All-take IsByte b.1 (held b ++ bs) (All-append IsByte (held b) bs h k)

pub hold-limit : (bs : Bytes) (b : Held) → (hold bs b).1.1 ≡ b.1
hold-limit bs b =
    on_test (λ (r : ℕ × Held). r.1.1 ≡ b.1) _ _ (ltb b.1 (length (held b) + length bs)) (λ _. refl)
      λ _. refl

pub take-empty : (n : ℕ) → take {A = ℕ} n [] ≡ []
take-empty zero = refl
take-empty (suc n) = refl

abbrev pub toy : Buffering
toy = record {
  Buffer = Held;
  start = λ ram flash b. ([], ram + flash);
  reset = λ b. ([], b.1);
  append = hold;
  contents = held;
  limit = λ b. b.1;
  reset-empty = λ b. take-empty b.1;
  append_whole = hold-whole;
  append_fits = hold-fits;
  append_bytes = hold-bytes;
  contents_le = held_le;
  limit-start = λ ram flash b. omega arith;
  limit-reset = λ b. refl;
  limit-append = hold-limit;
}

-- The transfer, received whole.
abbrev pub received : Session Held
received = record { buffer = (message, 8192); parsed = idle; tx_obj = idle.1 }

received-IsMessage : IsMessage (toy.contents received.buffer) received.parsed
unfolding encode encode_element encode_u16 encode_tags
received-IsMessage = record {
  bytes = are_below_sound 256 message message-are_bytes;
  small = message-small;
  room = refl;
}

accepted : (tx_parse toy ui own received).0 ≡ none
unfolding tx_parse tx_get_buffer tx_get_buffer_length report_parsing report_validation parse init
    init_context read read_u16 read_element read_tag read_tags read_tag_list check_format
    check_owner check_tags_count encode encode_element encode_u16 encode_tags validate same_owner
    get_pubkey_part is_initialized pubkey_part get_pubkey show_items first_page get_item
    get_num_items get_fixed_item get_further_item get_tag_item print_target print_quantity
    print_reward print_last_tx print_data print_size print_tag Base64.encode Base64.round
    Base64.rounds Base64.finish
accepted = refl

tx_parse-IsReviewed_example :
    IsReviewed ui own (toy.contents received.buffer) (tx_parse toy ui own received).1.parsed
tx_parse-IsReviewed_example =
    tx_parse-IsReviewed toy ui own received received-IsMessage refl accepted

-- The session with the transfer under review.
abbrev shown : Session Held
shown = (tx_parse toy ui own received).1

shown-HasRoom : HasRoom shown.parsed × (shown.buffer ≡ received.buffer)
shown-HasRoom = tx_parse-HasRoom toy ui own received refl

shown-IsReviewed : IsReviewed ui own (toy.contents shown.buffer) shown.parsed
shown-IsReviewed =
    subst (λ (b : Held). IsReviewed ui own (toy.contents b) shown.parsed) (sym shown-HasRoom.1)
      (tx_parse-IsReviewed toy ui own received received-IsMessage refl accepted)

tx_get_item-IsReviewed_example :
    ((7 < get_num_items ui shown.parsed.1)
      × ((s' : Screen) × (get_item ui (toy.contents shown.buffer) 20 30 1 shown.parsed.1 7 blank
            ≡ Status.ok s')
          × (tx_get_item toy ui shown 7 20 30 1 blank ≡ ok s')))
    ⊎ ((get_num_items ui shown.parsed.1 ≤ 7)
        × ((s' : Screen) × (tx_get_item toy ui shown 7 20 30 1 blank ≡ fail zxerr_no_data s')))
tx_get_item-IsReviewed_example =
    tx_get_item-IsReviewed toy ui own shown 7 20 30 1 blank shown-IsReviewed shown-HasRoom.0
