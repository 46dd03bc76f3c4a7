-- ===== src/Apdu.antt =====
-- app/src/apdu_handler.c: the commands and their answers.
--
-- `G_io_apdu_buffer` is a list of bytes. A handler ends by a `THROW` of a code, which `handleApdu`
-- catches, or by returning, as it does when a review has been put on the screen. `tx` is `*tx`, the
-- length of the answer, and `asynch` says whether `IO_ASYNCH_REPLY` has been set. The codes are the
-- only exceptions that the handlers throw, so `EXCEPTION_IO_RESET` does not occur.
pub mod Leaves
pub mod Effects
pub mod Kept
pub mod Upload
pub mod Delivery
pub mod Fetch
pub mod Asked
pub mod Short
pub mod Answer
pub mod Tests
use Prim.Native.Nat.{bit_and, bit_or}
use ledger_arweave.Base.{
  ℕ, ◌+◌, ◌-◌, ◌*◌, ◌/◌, ◌%◌, ◌^◌, Bool, true, false, not, ◌&&◌, ◌||◌, [], ◌∷◌, ◌++◌, Option, none,
  some, Bytes, u8, u16, ltb, leb, ◌==◌, if◌then◌else◌, length, get_or, set, take, drop, slice,
  replicate,
}
use ledger_arweave.Result
use ledger_arweave.Result.{Result, ZxError}
use ledger_arweave.Store.{Store}
use ledger_arweave.Crypto.{Address, fill_address, get_pubkey_part, get_signature_part}
use ledger_arweave.Buffering.{Buffering}
use ledger_arweave.Session.{Session, tx_initialize, tx_reset, tx_append, tx_parse}
use ledger_arweave.Platform.{Platform}

-- What waits on the screen, with the function that an approval calls: `app_sign` or
-- `app_reply_address`.
pub data Review : Type 0 where
  review_txn review_address : Review

-- `response_len` is `action_addrResponseLen`.
pub record Device (Buffer : Type 0) : Type 0 where
  pub apdu : Bytes
  pub tx_initialized : Bool
  pub session : Session Buffer
  pub store : Store
  pub response_len : ℕ
  pub review : Option Review

pub record Reply (D : Type 0) : Type 0 where
  pub device : D
  pub tx : ℕ
  pub asynch : Bool

pub data Throws (A D : Type 0) : Type 0 where
  value : A → D → Throws A D
  throw : ℕ → D → Throws A D

abbrev pub cla_arweave : ℕ
cla_arweave = 0x44

abbrev pub ins_get_sig : ℕ
ins_get_sig = 0x10

abbrev pub ins_get_pk : ℕ
ins_get_pk = 0x20

-- The code on the wire for a code thrown.
unfoldable pub status_word : ℕ → ℕ → ℕ
status_word apdu_ok e =
    if bit_and e 0xF000 == 0x6000
    then e
    else if bit_and e 0xF000 == apdu_ok
    then e
    else bit_or 0x6800 (bit_and e 0x7FF)

-- The write of a run of bytes from a position on.
abbrev pub write : Bytes → ℕ → Bytes → Bytes
write buffer at [] = buffer
write buffer at (b ∷ bs) = write (set buffer at b) (at + 1) bs

module _ (p : Platform) (zx : Buffering) where
  open zx use {Buffer}

  abbrev pub byte_at : ℕ → Device Buffer → ℕ
  byte_at at d = get_or d.apdu at 0

  -- The appending of a chunk, in the cases `P1_ADD` and `P1_LAST`.
  unfoldable pub add_chunk : Bool → ℕ → Device Buffer → Throws Bool (Device Buffer)
  add_chunk last rx d =
      let r = tx_append zx (slice d.apdu p.at.body (rx - p.at.body)) d.session in
      if not (r.0 == rx - p.at.body)
      then throw p.code.output_buffer_too_small (record d { session = r.1; tx_initialized = false })
      else value last (record d { session = r.1 })

  unfoldable pub process_chunk : ℕ → Device Buffer → Throws Bool (Device Buffer)
  process_chunk rx d =
      let payload_type = byte_at p.at.payload_type d in
      if ltb rx p.at.body
      then throw p.code.wrong_length d
      else if not (byte_at p.at.p2 d == 0)
      then throw p.code.invalid_p1p2 d
      else if payload_type == p.p1_init
      then value false (record d {
        session = tx_reset zx (tx_initialize zx p.target d.session);
        tx_initialized = true;
      })
      else if payload_type == p.p1_add
      then add_chunk false rx d
      else if payload_type == p.p1_last
      then if not d.tx_initialized then throw p.code.tx_not_initialized d else add_chunk true rx d
      else throw p.code.invalid_p1p2 (record d { tx_initialized = false })

  abbrev pub Handler : Type 0
  Handler = Reply (Device Buffer) → Throws (Unit {0}) (Reply (Device Buffer))

  abbrev version_bytes : Bytes
  version_bytes =
      (if p.debug then 0xFF else 0)
      ∷ p.major
      ∷ p.minor
      ∷ p.patch
      ∷ (if p.ux_allowed then 0 else 1)
      ∷ u8 (p.target_id / 2 ^ 24)
      ∷ u8 (p.target_id / 2 ^ 16)
      ∷ u8 (p.target_id / 2 ^ 8)
      ∷ u8 p.target_id
      ∷ []

  unfoldable pub handle_get_version : Handler
  handle_get_version r = throw p.code.apdu_ok (record r {
    device = record r.device { apdu = write r.device.apdu 0 version_bytes };
    tx = r.tx + 9;
  })

  abbrev pub zeroed : Device Buffer → Device Buffer
  zeroed d = record d { apdu = replicate p.io_apdu_buffer_size 0 }

  -- The buffer after a call that was given its first `n` bytes.
  abbrev pub overlay : ℕ → Bytes → Bytes → Bytes
  overlay n front buffer = front ++ drop n buffer

  -- `handleGetAddress` from the answer of `app_fill_address` on.
  unfoldable pub reply_address :
      Bool
      → Reply (Device Buffer)
      → Result Address Address
      → Throws (Unit {0}) (Reply (Device Buffer))
  reply_address confirm r (Result.fail e a) = throw p.code.execution_error (record r {
    device = record r.device {
      apdu = overlay (p.io_apdu_buffer_size - 2) a.buffer r.device.apdu;
      response_len = a.addr_len;
    };
    tx = 0;
  })
  reply_address confirm r (Result.ok a) =
      let d = record r.device {
        apdu = overlay (p.io_apdu_buffer_size - 2) a.buffer r.device.apdu;
        response_len = a.addr_len;
      } in
      if a.addr_len == 0
      then throw p.code.execution_error (record r { device = d; tx = 0 })
      else if confirm
      then value tt (record r { device = record d { review = some review_address }; asynch = true })
      else throw p.code.apdu_ok (record r { device = d; tx = a.addr_len })

  unfoldable pub handle_get_address : Handler
  handle_get_address r =
      if not (byte_at p.at.data_len r.device == 0)
      then throw p.code.command_not_allowed (record r { tx = 0 })
      else let confirm = not (byte_at p.at.p1 r.device == 0) in
        let d = record (zeroed r.device) { response_len = 0 } in
        reply_address confirm (record r { device = d; tx = 0 })
          (fill_address p.sdk d.store (p.io_apdu_buffer_size - 2)
            (record { buffer = take (p.io_apdu_buffer_size - 2) d.apdu; addr_len = 0 }))

  -- The handlers of the halves, from the answer of the store on.
  unfoldable pub reply_half :
      Reply (Device Buffer) → Option Bytes × Store → Throws (Unit {0}) (Reply (Device Buffer))
  reply_half r (none, s) =
      throw p.code.conditions_not_satisfied
        (record r { device = record r.device { store = s }; tx = 0 })
  reply_half r (some half, s) = throw p.code.apdu_ok (record r {
    device = record r.device { apdu = overlay 256 half r.device.apdu; store = s };
    tx = 256;
  })

  abbrev pub half_of : Result Bytes Store → Store → Option Bytes × Store
  half_of (Result.ok half) s = (some half, s)
  half_of (Result.fail e s') s = (none, s')

  abbrev pub taken_half : Result (Bytes × Store) Store → Option Bytes × Store
  taken_half (Result.ok (half, s)) = (some half, s)
  taken_half (Result.fail e s) = (none, s)

  unfoldable pub handle_get_pubkey_part : Handler
  handle_get_pubkey_part r =
      if not (byte_at p.at.data_len r.device == 0)
      then throw p.code.command_not_allowed (record r { tx = 0 })
      else let index = byte_at p.at.p2 r.device in
        reply_half (record r { device = zeroed r.device; tx = 0 })
          (half_of (get_pubkey_part (p.io_apdu_buffer_size - 3) index r.device.store)
            r.device.store)

  unfoldable pub handle_get_sig_part : Handler
  handle_get_sig_part r =
      if not (byte_at p.at.data_len r.device == 0)
      then throw p.code.command_not_allowed (record r { tx = 0 })
      else let index = byte_at p.at.p2 r.device in
        reply_half (record r { device = zeroed r.device; tx = 0 })
          (taken_half (get_signature_part (p.io_apdu_buffer_size - 3) index r.device.store))

  -- `handleSign` after `tx_parse`: an error message is the answer, or the review is put on the screen.
  unfoldable pub reply_parsed :
      Reply (Device Buffer)
      → Option Bytes × Session Buffer
      → Throws (Unit {0}) (Reply (Device Buffer))
  reply_parsed r (some error_msg, s) = throw p.code.data_invalid (record r {
    device = record r.device { apdu = write r.device.apdu 0 error_msg; session = s };
    tx = r.tx + length error_msg;
  })
  reply_parsed r (none, s) = value tt (record r {
    device = record r.device { session = s; review = some review_txn };
    asynch = true;
  })

  unfoldable pub after_chunk :
      Reply (Device Buffer)
      → Throws Bool (Device Buffer)
      → Throws (Unit {0}) (Reply (Device Buffer))
  after_chunk r (throw e d) = throw e (record r { device = d })
  after_chunk r (value false d) = throw p.code.apdu_ok (record r { device = d })
  after_chunk r (value true d) =
      reply_parsed (record r { device = d }) (tx_parse zx p.ui d.store d.session)

  unfoldable pub handle_sign : ℕ → Handler
  handle_sign rx r = after_chunk r (process_chunk rx r.device)

  -- `CHECK_PIN_VALIDATED` with its answer, and then the handler.
  abbrev pub check_pin : Option ℕ → Handler → Handler
  check_pin none h r = h r
  check_pin (some e) h r = throw e r

  -- The body of the `TRY` of `handleApdu`.
  unfoldable pub dispatch : ℕ → Handler
  dispatch rx r =
      let ins = byte_at p.at.ins r.device in
      if not (byte_at p.at.cla r.device == cla_arweave)
      then throw p.code.cla_not_supported r
      else if ltb rx p.apdu_min_length
      then throw p.code.wrong_length r
      else if not r.device.store.device_initialized && not (ins == p.ins_get_version)
      then throw p.code.tx_not_initialized r
      else if ins == p.ins_get_version
      then handle_get_version r
      else if ins == p.ins_get_addr
      then check_pin p.pin_missing handle_get_address r
      else if ins == p.ins_sign
      then check_pin p.pin_missing (handle_sign rx) r
      else if ins == ins_get_sig
      then check_pin p.pin_missing handle_get_sig_part r
      else if ins == ins_get_pk
      then check_pin p.pin_missing handle_get_pubkey_part r
      else throw p.code.ins_not_supported r

  -- The `CATCH_OTHER`: the status word goes behind what the handler has written.
  unfoldable pub answer : Throws (Unit {0}) (Reply (Device Buffer)) → Reply (Device Buffer)
  answer (value u r) = r
  answer (throw e r) =
      let sw = u16 (status_word p.code.apdu_ok e) in
      record r {
        device = record r.device {
          apdu = set (set r.device.apdu r.tx (sw / 2 ^ 8)) (r.tx + 1) (sw % 2 ^ 8);
        };
        tx = r.tx + 2;
      }

  -- `handleApdu`, for `rx` bytes received.
  unfoldable pub handle_apdu : ℕ → Reply (Device Buffer) → Reply (Device Buffer)
  handle_apdu rx r = answer (dispatch rx r)
