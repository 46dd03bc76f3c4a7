-- ===== src/Apdu/Asked.antt =====
-- The command for the address.
use Prim.Native.Nat.{bit_and}
use ledger_arweave.Base.{
  ◌<◌, ◌/◌, ◌%◌, ◌≢◌, u16, set, get_or-set_self, get_or-set_ne, length-append, length-set,
  length-replicate, take_all, on_test, ℕ, ◌+◌, ◌-◌, ◌≤◌, ◌≡◌, refl, sym, ap, ◌∙◌, subst, Bool, true,
  false, not, ltb-false, ◌==◌, ◌++◌, none, some, Bytes, IsByte, All, get_or, take, replicate,
  length, take-append, append_assoc, arith,
}
use ledger_arweave.Base64.{min_space}
use ledger_arweave.Base64.Encode.{text_of, length-text_of}
use ledger_arweave.Result.{Result}
use ledger_arweave.Store.{in_use, is_initialized}
use ledger_arweave.Crypto.{Address, fill_address}
use ledger_arweave.Crypto.FillAddress.{fill_address-text_of}
use ledger_arweave.Buffering.{Buffering}
use ledger_arweave.Platform.{Platform}
use ledger_arweave.Apdu.{
  Device, Reply, status_word, review_address, dispatch, answer, handle_apdu, handle_get_address,
  reply_address, zeroed,
}
use ledger_arweave.Apdu.Upload.{Command, received_by}
use ledger_arweave.Apdu.Fetch.{after, take-set}
use ledger_arweave.Actions.{app_reply_address}

-- The PIN has been entered, the code of the command is told apart, the buffer holds an address, and the
-- code for success is one of the class 0x9000, as APDU_CODE_OK is.
pub record TakesGetAddr (p : Platform) : Type 0 where
  pub pin : p.pin_missing ≡ none
  pub not_version : (p.ins_get_addr == p.ins_get_version) ≡ false
  pub room : 49 ≤ p.io_apdu_buffer_size
  pub class_ok : bit_and p.code.apdu_ok 0xF000 ≡ p.code.apdu_ok
  pub word : p.code.apdu_ok < 65536

-- A command for the address, to be confirmed on the screen or not.
pub record IsGetAddr (p : Platform) (confirm : Bool) (c : Command) : Type 0 where
  pub cla : get_or c.received p.at.cla 0 ≡ 0x44
  pub ins : get_or c.received p.at.ins 0 ≡ p.ins_get_addr
  pub data_len : get_or c.received p.at.data_len 0 ≡ 0
  pub p1 : not (get_or c.received p.at.p1 0 == 0) ≡ confirm
  pub whole : p.apdu_min_length ≤ c.rx

==_self : (n : ℕ) → (n == n) ≡ true
==_self n = ground arith

front : (text zeros behind : Bytes) → length text ≡ 43 → take 43 ((text ++ zeros) ++ behind) ≡ text
front text zeros behind h =
    ap (take 43) (append_assoc text zeros behind) ∙ take-append text (zeros ++ behind) 43 (sym h)

module _ (p : Platform) (zx : Buffering) where
  open zx use {Buffer}

  -- The answer to the command: the address at the start of the buffer, sent at once with
  -- the status word for success behind it, or waiting for the user, whose consent sends it.
  pub data Told (text : Bytes) (confirm : Bool) (r : Reply (Device Buffer)) : Type 0 where
    sent :
        confirm ≡ false
        → take 43 r.device.apdu ≡ text
        → get_or r.device.apdu 43 0 ≡ p.code.apdu_ok / 256
        → get_or r.device.apdu 44 0 ≡ p.code.apdu_ok % 256
        → r.tx ≡ 45
        → r.asynch ≡ false
        → Told text confirm r
    waits :
        confirm ≡ true
        → take 43 r.device.apdu ≡ text
        → r.asynch ≡ true
        → r.device.review ≡ some review_address
        → app_reply_address p zx r.device
          ≡ (record r.device { apdu = p.set_code r.device.apdu 43 p.code.apdu_ok }, 45)
        → Told text confirm r

  module _ (ready : TakesGetAddr p) where
    status_word-apdu_ok : u16 (status_word p.code.apdu_ok p.code.apdu_ok) ≡ p.code.apdu_ok
    unfolding status_word
    status_word-apdu_ok =
        ap u16 (
          on_test (λ w. w ≡ p.code.apdu_ok) _ _ (bit_and p.code.apdu_ok 0xF000 == 0x6000)
            (λ _. refl) λ _. rw (ready.class_ok, ==_self p.code.apdu_ok) refl)
        ∙ omega (arith, ready.word)

    other_place : ◌≢◌ {A = ℕ} 44 43
    other_place e = omega (arith, e)

    -- The status word behind an address.
    status-high :
        (b : Bytes)
        → 45 ≤ length b
        → let sw = u16 (status_word p.code.apdu_ok p.code.apdu_ok) in
          get_or (set (set b 43 (sw / 256)) 44 (sw % 256)) 43 0 ≡ p.code.apdu_ok / 256
    status-high b h =
        let sw = u16 (status_word p.code.apdu_ok p.code.apdu_ok) in
        get_or-set_ne (set b 43 (sw / 256)) 44 43 (sw % 256) 0 other_place
        ∙ get_or-set_self b 43 (sw / 256) 0 (omega (arith, h))
        ∙ ap (λ (n : ℕ). n / 256) status_word-apdu_ok

    status-low :
        (b : Bytes)
        → 45 ≤ length b
        → let sw = u16 (status_word p.code.apdu_ok p.code.apdu_ok) in
          get_or (set (set b 43 (sw / 256)) 44 (sw % 256)) 44 0 ≡ p.code.apdu_ok % 256
    status-low b h =
        let sw = u16 (status_word p.code.apdu_ok p.code.apdu_ok) in
        get_or-set_self (set b 43 (sw / 256)) 44 (sw % 256) 0
          (omega (arith, length-set b 43 (sw / 256), h))
        ∙ ap (λ (n : ℕ). n % 256) status_word-apdu_ok

    long_enough :
        (text zeros behind : Bytes)
        → length text ≡ 43
        → 2 ≤ length zeros
        → 45 ≤ length ((text ++ zeros) ++ behind)
    long_enough text zeros behind a b =
        omega (arith, length-append (text ++ zeros) behind, length-append text zeros, a, b)

    dispatch-get_addr :
        (confirm : Bool) (c : Command) (d : Device Buffer)
        → IsGetAddr p confirm c
        → d.store.device_initialized ≡ true
        → dispatch p zx c.rx (received_by p zx c d) ≡ handle_get_address p zx (received_by p zx c d)
    unfolding dispatch
    dispatch-get_addr confirm c d h set_up =
        rw
          (
            h.cla,
            ltb-false c.rx p.apdu_min_length h.whole,
            set_up,
            h.ins,
            ready.not_version,
            ==_self p.ins_get_addr,
            ready.pin,
          )
          refl

    abbrev cleared : Command → Device Buffer → Reply (Device Buffer)
    cleared c d = record {
      device = record (zeroed p zx (record d { apdu = c.received })) { response_len = 0 };
      tx = 0;
      asynch = false;
    }

    handle_get_address-text :
        (confirm : Bool) (c : Command) (d : Device Buffer) (a : Address)
        → IsGetAddr p confirm c
        → fill_address p.sdk d.store (p.io_apdu_buffer_size - 2) (record {
          buffer = take (p.io_apdu_buffer_size - 2) (replicate p.io_apdu_buffer_size 0);
          addr_len = 0;
        })
          ≡ Result.ok a
        → handle_get_address p zx (received_by p zx c d)
          ≡ reply_address p zx confirm (cleared c d) (Result.ok a)
    unfolding handle_get_address
    handle_get_address-text confirm c d a h e = rw (h.data_len, h.p1, e) refl

    Told-text :
        (confirm : Bool) (r : Reply (Device Buffer)) (text zeros : Bytes)
        → length text ≡ 43
        → 2 ≤ length zeros
        → r.asynch ≡ false
        → Told text confirm (
            answer p zx (
              reply_address p zx confirm r
                (Result.ok (record { buffer = text ++ zeros; addr_len = 43 }))))
    unfolding answer reply_address app_reply_address
    Told-text false r text zeros long room e =
        sent refl
          (take-set 43 44 _ _ (omega arith)
            ∙ take-set 43 43 _ _ (omega arith)
            ∙ front text zeros _ long)
          (status-high _ (long_enough text zeros _ long room))
          (status-low _ (long_enough text zeros _ long room)) refl e
    Told-text true r text zeros long room e = waits refl (front text zeros _ long) refl refl refl

    -- The command GET_ADDR answers with the address, the 43 characters of the base64url text of the
    -- SHA-256 hash of the modulus in use: at once, with the two bytes of the code for success behind
    -- it, when P1 is 0, and else when the user has confirmed the address on the screen. The device is
    -- initialized with keys in the slot in use, whose modulus and its size are of 512 bytes, the PIN
    -- is entered, the buffer has 49 bytes or more, and the hash has 32 bytes.
    pub after-text_of :
        (confirm : Bool) (c : Command) (d : Device Buffer) (h : Bytes)
        → IsGetAddr p confirm c
        → d.store.device_initialized ≡ true
        → is_initialized d.store ≡ true
        → (in_use d.store).rsa_size ≡ 512
        → length (in_use d.store).rsa_pub ≡ 512
        → p.sdk.sha256 (in_use d.store).rsa_pub ≡ some h
        → All IsByte h
        → length h ≡ 32
        → Told (text_of h) confirm (after p zx c d)
    unfolding handle_apdu
    after-text_of confirm c d h cmd set_up keys sized whole hashes bytes long =
        subst (Told (text_of h) confirm)
          (sym (
            ap (answer p zx) (
              dispatch-get_addr confirm c d cmd set_up
              ∙ handle_get_address-text confirm c d _ cmd filled)))
          (Told-text confirm (cleared c d) (text_of h)
            (replicate (p.io_apdu_buffer_size - 2 - 43) 0)
            (length-text_of h ∙ ap (λ (n : ℕ). n + min_space n) long)
            (omega (arith, length-replicate {A = ℕ} (p.io_apdu_buffer_size - 2 - 43) 0, ready.room))
            refl)
      where
        modulus : take (in_use d.store).rsa_size (in_use d.store).rsa_pub ≡ (in_use d.store).rsa_pub
        modulus =
            take_all (in_use d.store).rsa_size (in_use d.store).rsa_pub
              (omega (arith, sized, whole))

        filled :
            fill_address p.sdk d.store (p.io_apdu_buffer_size - 2) (record {
              buffer = take (p.io_apdu_buffer_size - 2) (replicate p.io_apdu_buffer_size 0);
              addr_len = 0;
            })
            ≡ Result.ok (record {
              buffer = text_of h ++ replicate (p.io_apdu_buffer_size - 2 - 43) 0;
              addr_len = 43;
            })
        filled =
            fill_address-text_of p.sdk d.store (p.io_apdu_buffer_size - 2) _ h keys
              (omega (arith, ready.room)) (ap p.sdk.sha256 modulus ∙ hashes) bytes long
