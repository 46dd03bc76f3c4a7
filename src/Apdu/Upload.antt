-- ===== src/Apdu/Upload.antt =====
-- A message sent in chunks.
use ledger_arweave.Base.{
  ℕ, ◌+◌, ◌-◌, ◌≤◌, ◌≡◌, refl, sym, ap, ◌∙◌, subst, Bool, true, false, ◌==◌, ==_iff, ltb-false,
  List, [], ◌∷◌, ◌++◌, none, Bytes, get_or, slice, length, arith,
}
use ledger_arweave.Store.{Store}
use ledger_arweave.Buffering.{Buffering}
use ledger_arweave.Platform.{Platform}
use ledger_arweave.Session.{ram_buffer_size, flash_buffer_size, tx_initialize, tx_reset, tx_append}
use ledger_arweave.Apdu.{
  Device, Reply, Throws, value, dispatch, handle_sign, process_chunk, add_chunk, after_chunk,
  answer, handle_apdu,
}

-- The PIN has been entered, and the codes of the commands are told apart.
pub record IsReady (p : Platform) : Type 0 where
  pub pin : p.pin_missing ≡ none
  pub sign_not_version : (p.ins_sign == p.ins_get_version) ≡ false
  pub sign_not_addr : (p.ins_sign == p.ins_get_addr) ≡ false
  pub add_not_init : (p.p1_add == p.p1_init) ≡ false
  pub last_not_init : (p.p1_last == p.p1_init) ≡ false
  pub last_not_add : (p.p1_last == p.p1_add) ≡ false

-- `rx` bytes received, with what lies in the buffer.
pub record Command : Type 0 where
  pub rx : ℕ
  pub received : Bytes

-- A command to sign with the given P1 and chunk.
pub record IsSign (p : Platform) (p1 : ℕ) (chunk : Bytes) (c : Command) : Type 0 where
  pub cla : get_or c.received p.at.cla 0 ≡ 0x44
  pub ins : get_or c.received p.at.ins 0 ≡ p.ins_sign
  pub payload_type : get_or c.received p.at.payload_type 0 ≡ p1
  pub p2 : get_or c.received p.at.p2 0 ≡ 0
  pub whole : p.apdu_min_length ≤ c.rx
  pub header : p.at.body ≤ c.rx
  pub body : slice c.received p.at.body (c.rx - p.at.body) ≡ chunk
  pub body_len : length chunk ≡ c.rx - p.at.body

==_self : (n : ℕ) → (n == n) ≡ true
==_self n = (==_iff n n).1 refl

module _ (p : Platform) (zx : Buffering) where
  open zx use {
    Buffer, contents, limit, start, append_fits, append_whole, limit-append, limit-reset,
    reset-empty,
  }

  abbrev pub received_by : Command → Device Buffer → Reply (Device Buffer)
  received_by c d = record { device = record d { apdu = c.received }; tx = 0; asynch = false }

  -- The device after a command.
  abbrev pub send : Command → Device Buffer → Device Buffer
  send c d = (handle_apdu p zx c.rx (received_by c d)).device

  abbrev pub send_all : List Command → Device Buffer → Device Buffer
  send_all [] d = d
  send_all (c ∷ cs) d = send_all cs (send c d)

  module _ (ready : IsReady p) where
    dispatch-sign :
        (p1 : ℕ) (chunk : Bytes) (c : Command) (d : Device Buffer)
        → IsSign p p1 chunk c
        → d.store.device_initialized ≡ true
        → dispatch p zx c.rx (received_by c d) ≡ handle_sign p zx c.rx (received_by c d)
    unfolding dispatch
    dispatch-sign p1 chunk c d h set_up =
        rw
          (
            h.cla,
            ltb-false c.rx p.apdu_min_length h.whole,
            set_up,
            h.ins,
            ready.sign_not_version,
            ready.sign_not_addr,
            ==_self p.ins_sign,
            ready.pin,
          )
          refl

    chunked :
        (p1 : ℕ) (chunk : Bytes) (c : Command) (d : Device Buffer)
        → IsSign p p1 chunk c
        → d.store.device_initialized ≡ true
        → handle_apdu p zx c.rx (received_by c d)
          ≡ answer p zx (
              after_chunk p zx
                (received_by c d)
                (process_chunk p zx c.rx (record d { apdu = c.received })))
    unfolding handle_apdu handle_sign
    chunked p1 chunk c d h set_up = ap (answer p zx) (dispatch-sign p1 chunk c d h set_up)

    process_chunk-init :
        (chunk : Bytes) (c : Command) (d : Device Buffer)
        → IsSign p p.p1_init chunk c
        → process_chunk p zx c.rx (record d { apdu = c.received })
          ≡ value false (record d {
            apdu = c.received;
            session = tx_reset zx (tx_initialize zx p.target d.session);
            tx_initialized = true;
          })
    unfolding process_chunk
    process_chunk-init chunk c d h =
        rw (ltb-false c.rx p.at.body h.header, h.p2, h.payload_type, ==_self p.p1_init) refl

    add_chunk-fits :
        (p1 : ℕ) (chunk : Bytes) (last : Bool) (c : Command) (d : Device Buffer)
        → IsSign p p1 chunk c
        → length (contents d.session.buffer) + length chunk ≤ limit d.session.buffer
        → add_chunk p zx last c.rx (record d { apdu = c.received })
          ≡ value last (record d { apdu = c.received; session = (tx_append zx chunk d.session).1 })
    unfolding add_chunk tx_append
    add_chunk-fits p1 chunk last c d h room =
        rw (h.body, sym h.body_len, append_fits chunk d.session.buffer room, ==_self (length chunk))
          refl

    process_chunk-add :
        (chunk : Bytes) (c : Command) (d : Device Buffer)
        → IsSign p p.p1_add chunk c
        → length (contents d.session.buffer) + length chunk ≤ limit d.session.buffer
        → process_chunk p zx c.rx (record d { apdu = c.received })
          ≡ value false (record d { apdu = c.received; session = (tx_append zx chunk d.session).1 })
    unfolding process_chunk
    process_chunk-add chunk c d h room =
        rw
          (
            ltb-false c.rx p.at.body h.header,
            h.p2,
            h.payload_type,
            ready.add_not_init,
            ==_self p.p1_add,
          )
          (add_chunk-fits p.p1_add chunk false c d h room)

    pub process_chunk-last :
        (chunk : Bytes) (c : Command) (d : Device Buffer)
        → IsSign p p.p1_last chunk c
        → d.tx_initialized ≡ true
        → length (contents d.session.buffer) + length chunk ≤ limit d.session.buffer
        → process_chunk p zx c.rx (record d { apdu = c.received })
          ≡ value true (record d { apdu = c.received; session = (tx_append zx chunk d.session).1 })
    unfolding process_chunk
    process_chunk-last chunk c d h begun room =
        rw
          (
            ltb-false c.rx p.at.body h.header,
            h.p2,
            h.payload_type,
            ready.last_not_init,
            ready.last_not_add,
            ==_self p.p1_last,
            begun,
          )
          (add_chunk-fits p.p1_last chunk true c (record d { tx_initialized = true }) h room)

    -- The device after a chunk, from the outcome of `process_chunk`.
    pub send_after :
        (p1 : ℕ) (chunk : Bytes) (c : Command) (d : Device Buffer) (m : Throws Bool (Device Buffer))
        → IsSign p p1 chunk c
        → d.store.device_initialized ≡ true
        → process_chunk p zx c.rx (record d { apdu = c.received }) ≡ m
        → send c d ≡ (answer p zx (after_chunk p zx (received_by c d) m)).device
    send_after p1 chunk c d m h set_up e =
        ap (λ (r : Reply (Device Buffer)). r.device)
          (chunked p1 chunk c d h set_up
            ∙ ap
                (λ (m : Throws Bool (Device Buffer)).
                  answer p zx (after_chunk p zx (received_by c d) m))
                e)

    -- The device `d'` has come from `d` by commands that have brought it the message `sent`.
    pub record Received (d d' : Device Buffer) (n : ℕ) (sent : Bytes) : Type 0 where
      pub holds : contents d'.session.buffer ≡ sent
      pub room : limit d'.session.buffer ≡ n
      pub parsed : d'.session.parsed ≡ d.session.parsed
      pub same_store : d'.store ≡ d.store
      pub same_review : d'.review ≡ d.review
      pub begun : d'.tx_initialized ≡ true

    -- The device that `tx_initialize` and `tx_reset` leave room for.
    abbrev pub capacity : Device Buffer → ℕ
    capacity d =
        limit (start (ram_buffer_size p.target) (flash_buffer_size p.target) d.session.buffer)

    pub send-init :
        (chunk : Bytes) (c : Command) (d : Device Buffer)
        → IsSign p p.p1_init chunk c
        → d.store.device_initialized ≡ true
        → Received d (send c d) (capacity d) []
    unfolding answer after_chunk tx_reset tx_initialize
    send-init chunk c d h set_up =
        subst (λ (x : Device Buffer). Received d x (capacity d) [])
          (sym (send_after p.p1_init chunk c d _ h set_up (process_chunk-init chunk c d h)))
          (record {
            holds = reset-empty _;
            room = limit-reset _;
            parsed = refl;
            same_store = refl;
            same_review = refl;
            begun = refl;
          })

    pub send-add :
        (chunk sent : Bytes) (n : ℕ) (c : Command) (d d' : Device Buffer)
        → IsSign p p.p1_add chunk c
        → d.store.device_initialized ≡ true
        → Received d d' n sent
        → length sent + length chunk ≤ n
        → Received d (send c d') n (sent ++ chunk)
    unfolding answer after_chunk tx_append
    send-add chunk sent n c d d' h set_up r fits =
        subst (λ (x : Device Buffer). Received d x n (sent ++ chunk))
          (sym (
            send_after p.p1_add chunk c d' _ h
              (ap (λ (s : Store). s.device_initialized) r.same_store ∙ set_up)
              (process_chunk-add chunk c d' h room)))
          (record {
            holds =
                append_whole chunk d'.session.buffer (append_fits chunk d'.session.buffer room)
                ∙ ap (λ (b : Bytes). b ++ chunk) r.holds;
            room = limit-append chunk d'.session.buffer ∙ r.room;
            parsed = r.parsed;
            same_store = r.same_store;
            same_review = r.same_review;
            begun = r.begun;
          })
      where
        room : length (contents d'.session.buffer) + length chunk ≤ limit d'.session.buffer
        room = omega (arith, ap length r.holds, r.room, fits)
