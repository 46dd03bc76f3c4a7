-- ===== src/Apdu/Tests.antt =====
-- The theorems on the commands at a concrete device, with toys in the place of the SDK and zxlib. The
-- constants are those of zxlib, but for a buffer that takes the message in one command.
use ledger_arweave.Base.{
  ℕ, ◌+◌, ◌-◌, ◌≡◌, ◌⊎◌, ◌∙◌, refl, true, false, [], ◌∷◌, ◌++◌, none, some, Bytes, take, drop,
  replicate, length, arith, take_all, take-append-drop, append_assoc, are_below_sound,
}
use ledger_arweave.Store.Tests
use ledger_arweave.Parser.Layout.{encode}
use ledger_arweave.Parser.Tests.{idle, message, transfer}
use ledger_arweave.Display.Tests.{ui, own}
use ledger_arweave.Platform.{Platform}
use ledger_arweave.Session.{stax}
use ledger_arweave.Session.Tests.{Held, toy}
use ledger_arweave.Apdu.{Device, handle_apdu}
use ledger_arweave.Apdu.Upload.{IsReady, IsSign, Command}
use ledger_arweave.Apdu.Delivery.{join}
use ledger_arweave.Apdu.Answer.{Answered, handle_apdu-Answered}
use ledger_arweave.Store.{Store, store_signature, is_initialized}
use ledger_arweave.Apdu.Fetch.{TakesGetSig, IsGetSig, after}
use ledger_arweave.Base64.Encode.{text_of}
use ledger_arweave.Apdu.Asked.{TakesGetAddr, IsGetAddr, Told, after-text_of}
use ledger_arweave.Apdu.Kept.{without_sig, handle_apdu-without_sig, handle_apdu-locked}

abbrev pub platform : Platform
platform = record {
  target = stax;
  at = record { cla = 0; ins = 1; payload_type = 2; p1 = 2; p2 = 3; data_len = 4; body = 5 };
  code = record {
    apdu_ok = 0x9000;
    wrong_length = 0x6700;
    invalid_p1p2 = 0x6B00;
    tx_not_initialized = 0x6987;
    output_buffer_too_small = 0x6983;
    command_not_allowed = 0x6986;
    execution_error = 0x6400;
    conditions_not_satisfied = 0x6985;
    data_invalid = 0x6984;
    cla_not_supported = 0x6E00;
    ins_not_supported = 0x6D00;
    sign_verify_error = 0x6F01;
  };
  io_apdu_buffer_size = 1024;
  apdu_min_length = 5;
  p1_init = 0;
  p1_add = 1;
  p1_last = 2;
  ins_get_version = 0;
  ins_get_addr = 1;
  ins_sign = 2;
  debug = false;
  major = 1;
  minor = 0;
  patch = 3;
  ux_allowed = true;
  target_id = 0x33200004;
  pin_missing = none;
  set_code = λ buffer at code. take at buffer ++ code ∷ [];
  sdk = record Tests.sdk { generate_pair = λ pq. some (replicate 512 7, replicate 480 8) };
  sha384 = λ b. some (replicate 48 6);
  rsa_sign = λ key hash. some (hash ++ key);
  ui = ui;
}

-- A device that is asked for the second half of a signature.
abbrev asked : Device Held
asked = record {
  apdu = 0x44 ∷ 0x10 ∷ 0 ∷ 1 ∷ 0 ∷ [];
  tx_initialized = false;
  session = record { buffer = ([], 0); parsed = idle; tx_obj = idle.1 };
  store = record own { device_initialized = true; signature_set = 1; first_sig = replicate 512 5 };
  response_len = 0;
  review = none;
}

handle_apdu-without_sig_example :
    ((handle_apdu platform toy 5 (record { device = asked; tx = 0; asynch = false })).device.store
      ≡ asked.store)
    ⊎ ((handle_apdu platform toy 5 (record { device = asked; tx = 0; asynch = false })).device.store
        ≡ without_sig asked.store)
handle_apdu-without_sig_example = handle_apdu-without_sig platform toy 5 asked 0 false

abbrev locked : Device Held
locked = record asked { store = own }

handle_apdu-locked_example :
    ((handle_apdu platform toy 5
        (record { device = locked; tx = 0; asynch = false })).device.session
      ≡ locked.session)
    × ((handle_apdu platform toy 5
          (record { device = locked; tx = 0; asynch = false })).device.store
        ≡ locked.store)
    × ((handle_apdu platform toy 5
          (record { device = locked; tx = 0; asynch = false })).device.review
        ≡ none)
handle_apdu-locked_example = handle_apdu-locked platform toy 5 locked 0 false refl

pub platform-IsReady : IsReady platform
platform-IsReady = record {
  pin = refl;
  sign_not_version = refl;
  sign_not_addr = refl;
  add_not_init = refl;
  last_not_init = refl;
  last_not_add = refl;
}

-- A command to sign with a chunk behind its header.
abbrev pub signing : ℕ → Bytes → Command
signing p1 chunk = record { rx = 5 + length chunk; received = 0x44 ∷ 2 ∷ p1 ∷ 0 ∷ 0 ∷ chunk }

pub signing-IsSign : (p1 : ℕ) (chunk : Bytes) → IsSign platform p1 chunk (signing p1 chunk)
signing-IsSign p1 chunk = record {
  cla = refl;
  ins = refl;
  payload_type = refl;
  p2 = refl;
  whole = omega arith;
  header = omega arith;
  body = take_all (5 + length chunk - 5) chunk (omega arith);
  body_len = omega arith;
}

abbrev unlocked : Device Held
unlocked = record asked { store = record own { device_initialized = true } }

pub joined : join (take 250 message ∷ []) ++ drop 250 message ≡ encode transfer ++ 1 ∷ 2 ∷ []
joined = append_assoc (take 250 message) [] (drop 250 message) ∙ take-append-drop 250 message

handle_apdu-Answered_example :
    Answered platform toy none
      (handle_apdu platform toy 5 (record { device = asked; tx = 0; asynch = false }))
handle_apdu-Answered_example = handle_apdu-Answered platform toy 5 asked

pub platform-TakesGetSig : TakesGetSig platform
platform-TakesGetSig = record {
  pin = refl;
  not_version = refl;
  not_addr = refl;
  not_sign = refl;
  room = omega arith;
}

abbrev pub fetching : ℕ → Command
fetching index = record { rx = 5; received = 0x44 ∷ 0x10 ∷ 0 ∷ index ∷ 0 ∷ [] }

pub fetching-IsGetSig : (index : ℕ) → IsGetSig platform index (fetching index)
fetching-IsGetSig index = record {
  cla = refl;
  ins = refl;
  data_len = refl;
  p2 = refl;
  whole = omega arith;
}

abbrev before_sig : Store
before_sig = record own { device_initialized = true }

abbrev with_sig : Device Held
with_sig = record asked { store = store_signature (replicate 512 5) before_sig }

platform-TakesGetAddr : TakesGetAddr platform
platform-TakesGetAddr = record {
  pin = refl;
  not_version = refl;
  room = omega arith;
  class_ok = refl;
  word = omega arith;
}

-- A command for the address, to be sent at once.
abbrev asking : Command
asking = record { rx = 5; received = 0x44 ∷ 1 ∷ 0 ∷ 0 ∷ 0 ∷ [] }

asking-IsGetAddr : IsGetAddr platform false asking
asking-IsGetAddr = record {
  cla = refl;
  ins = refl;
  data_len = refl;
  p1 = refl;
  whole = omega arith;
}

unlocked-keys : is_initialized unlocked.store ≡ true
unfolding is_initialized
unlocked-keys = refl

after-text_of_example :
    Told platform toy (text_of (replicate 32 7)) false (after platform toy asking unlocked)
after-text_of_example =
    after-text_of platform toy platform-TakesGetAddr false asking unlocked (replicate 32 7)
      asking-IsGetAddr refl unlocked-keys refl refl refl (are_below_sound 256 (replicate 32 7) refl)
      refl
