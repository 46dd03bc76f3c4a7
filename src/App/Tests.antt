-- ===== src/App/Tests.antt =====
-- A run from the first start to a signature, and the theorems on runs at its end.
pub mod Power
pub mod Whole
use ledger_arweave.Base.{
  All, take, ◌<◌, All-take, All-drop, ◌++◌, drop, ◌+◌, arith, ℕ, ◌+◌, ◌≡◌, subst, refl, true, false,
  [], ◌∷◌, Option, none, some, Bytes, IsByte, All-append, are_below_sound, replicate, length,
}
use ledger_arweave.Store.{
  in_use, Store, is_sig_set, init_test, init, slot_is_initialized, store_signature, get_privkey,
  same_masterseed, initialize_slot, derive_master_seed, init_primes, init_keys, primes_of,
  derive_prime, prime_blocks, uninitialized_slot, is_initialized, pubkey_part, get_pubkey,
}
use ledger_arweave.Store.Tests.{fresh, blank}
use ledger_arweave.Parser.Tests.{
  message, message-are_bytes, message-small, length-message, transfer, transfer-IsSupported,
}
use ledger_arweave.Session.Tests.{Held, toy}
use ledger_arweave.Parser
use ledger_arweave.Base64
use ledger_arweave.Crypto.{get_pubkey_part, sign, sign_digest}
use ledger_arweave.DeepHash.{
  get_digest, hash_transaction, crypto_sha384, deliver, hash_tag, hash_blob, hash_accumulate,
  hash_chunk, get_tag_digest, digest_tags, combine, apply_digest_tags,
}
use ledger_arweave.Parser.{
  parse, init_context, read, read_element, read_u16, read_tag, read_tags, read_tag_list,
  check_format, check_owner, check_tags_count,
}
use ledger_arweave.Parser.Layout.{encode, encode_element, encode_u16, encode_tags}
use ledger_arweave.Display.{
  get_num_items, get_item, print_tag, validate, same_owner, show_items, first_page, get_fixed_item,
  get_further_item, get_tag_item, print_target, print_quantity, print_reward, print_last_tx,
  print_data, print_size,
}
use ledger_arweave.Session.{
  tx_initialize, tx_reset, tx_append, tx_parse, tx_get_buffer, tx_get_buffer_length, report_parsing,
  report_validation,
}
use ledger_arweave.Apdu.{
  Device, review_txn, handle_apdu, dispatch, answer, status_word, handle_sign, process_chunk,
  add_chunk, after_chunk, reply_parsed,
}
use ledger_arweave.Apdu.Upload.{send, send_all}
use ledger_arweave.Apdu.Tests.{platform, platform-IsReady, signing, signing-IsSign, joined}
use ledger_arweave.Actions.{app_sign, reply_signed}
use ledger_arweave.App.{
  Run, start_app, started, answered, approval_of, first, next, command, approve,
}
use ledger_arweave.App.Keys.{Makes4096}
use ledger_arweave.App.Approvals.{Authentic}
use ledger_arweave.App.Invariant.{IsDevice}
use ledger_arweave.App.Steps.{Run-IsDevice}
use ledger_arweave.App.Owner.{Run-IsOwn}
use ledger_arweave.Store.Keys.{IsOwn}
use ledger_arweave.Parser.Layout.{view}
use ledger_arweave.Session.Parse.{IsReviewed}
use ledger_arweave.DeepHash.Tree.{deep_hash, absorb_all, transaction_tree}
use ledger_arweave.Actions.Reply.{app_sign-IsReviewed}
use ledger_arweave.Apdu.Delivery.{Delivered}
use ledger_arweave.App.Progress.{OfBytes, Run-Delivered}
use ledger_arweave.App.Safety.{Run-Authentic}
use ledger_arweave.App.Typed.{InTypes, Run-InTypes}

abbrev pub flash : Store
flash = record fresh {
  first = record blank { rsa_pub = replicate 512 0 };
  second = record blank { rsa_pub = replicate 512 0 };
}

abbrev begin_command : Bytes
begin_command = 0x44 ∷ 2 ∷ 0 ∷ 0 ∷ 0 ∷ []

abbrev last_command : Bytes
last_command = 0x44 ∷ 2 ∷ 2 ∷ 0 ∷ 0 ∷ message

abbrev after_command : ℕ → Bytes → Device Held → Device Held
after_command rx received d =
    (handle_apdu platform toy rx
      (record { device = record d { apdu = received }; tx = 0; asynch = false })).device

unfoldable pub at_start : Device Held
at_start = started platform toy [] ([], 0) flash

unfoldable pub begun : Device Held
unfolding at_start
begun = after_command 5 begin_command at_start

unfoldable pub on_screen : Device Held
unfolding begun
on_screen = after_command (5 + length message) last_command begun

unfoldable pub signed : Device Held
unfolding on_screen
signed = answered platform toy (app_sign platform toy on_screen).0

at_start-Run : Run platform toy flash [] at_start
unfolding at_start
at_start-Run = first [] ([], 0) refl

begun-Run : Run platform toy flash [] begun
unfolding begun at_start
begun-Run =
    next at_start-Run
      (command 5 begin_command refl (are_below_sound 256 begin_command refl) refl refl)

quiet : begun.review ≡ none
unfolding begun at_start start_app init_test init slot_is_initialized same_masterseed
    initialize_slot derive_master_seed init_primes init_keys primes_of derive_prime prime_blocks
    uninitialized_slot handle_apdu dispatch answer status_word handle_sign process_chunk add_chunk
    after_chunk reply_parsed tx_initialize tx_reset tx_append
quiet = refl

on_screen-Run : Run platform toy flash [] on_screen
unfolding on_screen
on_screen-Run = next begun-Run (
    command (5 + length message) last_command quiet
      (All-append IsByte (0x44 ∷ 2 ∷ 2 ∷ 0 ∷ 0 ∷ []) message
        (are_below_sound 256 (0x44 ∷ 2 ∷ 2 ∷ 0 ∷ 0 ∷ []) refl)
        (are_below_sound 256 message message-are_bytes))
      refl refl)

-- The review is on, and this is the hash of its transaction.
under_review :
    (on_screen.review ≡ some review_txn)
    × (deep_hash platform.sha384 (
          transaction_tree
            (view (toy.contents on_screen.session.buffer) on_screen.session.parsed.1))
        ≡ some (replicate 48 6))
unfolding on_screen begun at_start start_app init_test init slot_is_initialized same_masterseed
    initialize_slot derive_master_seed init_primes init_keys primes_of derive_prime prime_blocks
    uninitialized_slot handle_apdu dispatch answer status_word handle_sign process_chunk add_chunk
    after_chunk reply_parsed tx_initialize tx_reset tx_append tx_parse tx_get_buffer
    tx_get_buffer_length report_parsing report_validation parse Parser.init init_context read
    read_u16 read_element read_tag read_tags read_tag_list check_format check_owner check_tags_count
    encode encode_element encode_u16 encode_tags validate same_owner get_pubkey_part is_initialized
    pubkey_part get_pubkey show_items first_page get_item get_num_items get_fixed_item
    get_further_item get_tag_item print_target print_quantity print_reward print_last_tx print_data
    print_size print_tag Base64.encode Base64.round Base64.rounds Base64.finish deep_hash absorb_all
under_review = (refl, refl)

shown : on_screen.review ≡ some review_txn
shown = under_review.0

hashed :
    deep_hash platform.sha384
      (transaction_tree (view (toy.contents on_screen.session.buffer) on_screen.session.parsed.1))
    ≡ some (replicate 48 6)
hashed = under_review.1

pub signed-Run : Run platform toy flash (approval_of platform toy on_screen ∷ []) signed
unfolding signed
signed-Run = next on_screen-Run (approve shown refl refl)

-- The device after the approval has keys and a signature.
at_end : (is_sig_set signed.store ≡ true) × (signed.store.device_initialized ≡ true)
unfolding signed on_screen begun at_start start_app init_test init slot_is_initialized
    same_masterseed initialize_slot derive_master_seed init_primes init_keys primes_of derive_prime
    prime_blocks uninitialized_slot handle_apdu dispatch answer status_word handle_sign
    process_chunk add_chunk after_chunk reply_parsed tx_initialize tx_reset tx_append tx_parse
    tx_get_buffer tx_get_buffer_length report_parsing report_validation parse Parser.init
    init_context read read_u16 read_element read_tag read_tags read_tag_list check_format
    check_owner check_tags_count encode encode_element encode_u16 encode_tags validate same_owner
    get_pubkey_part is_initialized pubkey_part get_pubkey show_items first_page get_item
    get_num_items get_fixed_item get_further_item get_tag_item print_target print_quantity
    print_reward print_last_tx print_data print_size print_tag Base64.encode Base64.round
    Base64.rounds Base64.finish app_sign reply_signed sign sign_digest get_digest hash_transaction
    crypto_sha384 deliver hash_tag hash_blob hash_accumulate hash_chunk get_tag_digest digest_tags
    combine apply_digest_tags store_signature get_privkey is_sig_set
at_end = (refl, refl)

pub ready : signed.store.device_initialized ≡ true
ready = at_end.1

pub makes : Makes4096 platform.sdk
makes pq pair e = subst (λ (o : Bytes × Bytes). length o.0 ≡ 512) (some_inj e) refl
  where
    some_inj : {x y : Bytes × Bytes} → ◌≡◌ {A = Option (Bytes × Bytes)} (some x) (some y) → x ≡ y
    some_inj e = cc

Run-IsDevice_example :
    IsDevice platform toy
      (approval_of platform toy on_screen ∷ [])
      signed.session
      signed.store
      signed.review
Run-IsDevice_example =
    Run-IsDevice platform toy flash (approval_of platform toy on_screen ∷ []) signed makes
      (refl, refl) signed-Run

Run-Authentic_example :
    Authentic platform (approval_of platform toy on_screen ∷ []) signed.store
    × (signed.store.device_initialized ≡ true)
    × IsOwn platform.sdk (in_use signed.store)
Run-Authentic_example =
    Run-Authentic platform toy flash (approval_of platform toy on_screen ∷ []) signed makes
      (refl, refl) signed-Run at_end.0

Run-IsOwn_example : IsOwn platform.sdk (in_use signed.store)
Run-IsOwn_example =
    Run-IsOwn platform toy flash (approval_of platform toy on_screen ∷ []) signed signed-Run ready

pub on_screen-IsReviewed :
    IsReviewed platform.ui on_screen.store
      (toy.contents on_screen.session.buffer)
      on_screen.session.parsed
on_screen-IsReviewed =
    (Run-IsDevice platform toy flash [] on_screen makes (refl, refl) on_screen-Run).reviewed shown

abbrev made_sig : Bytes
made_sig = replicate 32 6 ++ (in_use on_screen.store).rsa_priv

app_sign-IsReviewed_example : app_sign platform toy on_screen ≡ (
  record on_screen {
    apdu = platform.set_code (replicate 48 6 ++ drop 48 on_screen.apdu) 48 platform.code.apdu_ok;
    store = store_signature made_sig on_screen.store;
  },
  50,
)
app_sign-IsReviewed_example =
    app_sign-IsReviewed platform toy on_screen (replicate 48 6) (replicate 32 6) made_sig
      on_screen-IsReviewed (omega arith) hashed refl refl refl

pub nothing_shown : signed.review ≡ none
unfolding signed
nothing_shown = refl

pub signing-OfBytes :
    (p1 : ℕ) (chunk : Bytes) → p1 < 256 → All IsByte chunk → OfBytes (signing p1 chunk)
signing-OfBytes p1 chunk le h = (omega arith, (omega arith, (le, (omega arith, (omega arith, h)))))

pub bytes-message : All IsByte message
bytes-message = are_below_sound 256 message message-are_bytes

Run-Delivered_example :
    let d' = send platform toy (signing 2 (drop 250 message)) (
      send_all platform toy
        (signing 1 (take 250 message) ∷ [])
        (send platform toy (signing 0 []) signed)) in
    Run platform toy flash (approval_of platform toy on_screen ∷ []) d'
    × Delivered platform toy signed d' transfer (encode transfer ++ 1 ∷ 2 ∷ [])
Run-Delivered_example =
    Run-Delivered platform toy platform-IsReady flash (approval_of platform toy on_screen ∷ [])
      transfer (1 ∷ 2 ∷ []) (take 250 message ∷ []) (drop 250 message) [] (signing 0 [])
      (signing 1 (take 250 message) ∷ []) (signing 2 (drop 250 message)) signed makes (refl, refl)
      signed-Run ready nothing_shown (signing-IsSign 0 []) (signing-IsSign 1 (take 250 message), tt)
      (signing-IsSign 2 (drop 250 message))
      (
        signing-OfBytes 0 [] (omega arith) tt,
        (
          signing-OfBytes 2 (drop 250 message) (omega arith)
              (All-drop IsByte 250 message bytes-message),
          (
            signing-OfBytes 1 (take 250 message) (omega arith)
                (All-take IsByte 250 message bytes-message),
            tt,
          ),
        ),
      )
      joined transfer-IsSupported bytes-message message-small (omega (arith, length-message))

Run-InTypes_example : InTypes platform toy signed.session signed.store
Run-InTypes_example =
    Run-InTypes platform toy flash (approval_of platform toy on_screen ∷ []) signed signed-Run
