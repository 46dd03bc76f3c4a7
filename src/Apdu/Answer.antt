-- ===== src/Apdu/Answer.antt =====
-- Every command is answered at once, or by the user.
use ledger_arweave.Base.{
  ℕ, ◌-◌, ◌≤◌, ◌≡◌, refl, Bool, true, false, not, ◌&&◌, ◌⊎◌, inl, inr, ltb, ◌==◌, on_test, on_not,
  Option, none, some, Bytes, slice, arith,
}
use ledger_arweave.Result.{Result}
use ledger_arweave.Store.{Store}
use ledger_arweave.Crypto.{Address}
use ledger_arweave.Buffering.{Buffering}
use ledger_arweave.Platform.{Platform}
use ledger_arweave.Session.{Session, tx_append}
use ledger_arweave.Apdu.{
  Device, Reply, Review, Throws, value, throw, review_txn, review_address, byte_at, add_chunk,
  process_chunk, handle_get_version, handle_get_address, reply_address, handle_get_pubkey_part,
  handle_get_sig_part, handle_sign, after_chunk, reply_parsed, reply_half, check_pin, dispatch,
  answer, handle_apdu, Handler,
}
use ledger_arweave.Apdu.Short.{Short, fill_address-len, tx_parse-Short}

module _ (p : Platform) (zx : Buffering) where
  open zx use {Buffer, contents}

  -- An answer of at most 258 bytes with its status word is given at once, with nothing new on the
  -- screen, or it is left to the user, with a review on the screen.
  pub Answered : Option Review → Reply (Device Buffer) → Type 0
  Answered before r =
      ((r.asynch ≡ false) × (2 ≤ r.tx) × (r.tx ≤ 258) × (r.device.review ≡ before))
      ⊎ ((r.asynch ≡ true) × (r.tx ≡ 0) × ((v : Review) × (r.device.review ≡ some v)))

  module _ (before : Option Review) where
    -- The same before the status word is written.
    Pending : Throws (Unit {0}) (Reply (Device Buffer)) → Type 0
    Pending (value u r) =
        (r.asynch ≡ true) × (r.tx ≡ 0) × ((v : Review) × (r.device.review ≡ some v))
    Pending (throw e r) = (r.asynch ≡ false) × (r.tx ≤ 256) × (r.device.review ≡ before)

    thrown :
        (e : ℕ) (r : Reply (Device Buffer))
        → r.asynch ≡ false
        → r.tx ≤ 256
        → r.device.review ≡ before
        → Pending (throw e r)
    unfolding Pending
    thrown e r a h k = (a, h, k)

    shown :
        (r : Reply (Device Buffer)) (v : Review)
        → r.asynch ≡ true
        → r.tx ≡ 0
        → r.device.review ≡ some v
        → Pending (value tt r)
    unfolding Pending
    shown r v a h k = (a, h, (v, k))

    answer-Pending :
        (m : Throws (Unit {0}) (Reply (Device Buffer)))
        → Pending m
        → Answered before (answer p zx m)
    unfolding answer Pending Answered
    answer-Pending (value u r) h = inr h
    answer-Pending (throw e r) h = inl (h.0, omega arith, omega (arith, h.1), h.2)

    module _ (d : Device Buffer) (same : d.review ≡ before) where
      abbrev starting : Reply (Device Buffer)
      starting = record { device = d; tx = 0; asynch = false }

      reply_address-Pending :
          (confirm : Bool) (x : Device Buffer) (a : Result Address Address)
          → x.review ≡ before
          → ((b : Address) → a ≡ Result.ok b → b.addr_len ≡ 43)
          → Pending (reply_address p zx confirm (record { device = x; tx = 0; asynch = false }) a)
      unfolding reply_address
      reply_address-Pending confirm x (Result.fail e a) s long = thrown _ _ refl (omega arith) s
      reply_address-Pending confirm x (Result.ok a) s long =
          on_test Pending _ _ (a.addr_len == 0) (λ _. thrown _ _ refl (omega arith) s)
            λ _.
              on_test Pending _ _ confirm (λ _. shown _ review_address refl refl refl)
                λ _. thrown _ _ refl (omega (arith, long a refl)) s

      address-Pending : Pending (handle_get_address p zx starting)
      unfolding handle_get_address
      address-Pending =
          on_not Pending _ _ (byte_at p zx p.at.data_len d == 0)
            (λ _. thrown _ _ refl (omega arith) same)
            λ _. reply_address-Pending _ _ _ same (fill_address-len p.sdk d.store _ _)

      reply_half-Pending :
          (x : Device Buffer) (a : Option Bytes × Store)
          → x.review ≡ before
          → Pending (reply_half p zx (record { device = x; tx = 0; asynch = false }) a)
      unfolding reply_half
      reply_half-Pending x (none, s) e = thrown _ _ refl (omega arith) e
      reply_half-Pending x (some half, s) e = thrown _ _ refl (omega arith) e

      pubkey_part-Pending : Pending (handle_get_pubkey_part p zx starting)
      unfolding handle_get_pubkey_part
      pubkey_part-Pending =
          on_not Pending _ _ (byte_at p zx p.at.data_len d == 0)
            (λ _. thrown _ _ refl (omega arith) same) λ _. reply_half-Pending _ _ same

      sig_part-Pending : Pending (handle_get_sig_part p zx starting)
      unfolding handle_get_sig_part
      sig_part-Pending =
          on_not Pending _ _ (byte_at p zx p.at.data_len d == 0)
            (λ _. thrown _ _ refl (omega arith) same) λ _. reply_half-Pending _ _ same

      version-Pending : Pending (handle_get_version p zx starting)
      unfolding handle_get_version
      version-Pending = thrown _ _ refl (omega arith) same

      parsed-Pending :
          (x : Device Buffer) (a : Option Bytes × Session Buffer)
          → x.review ≡ before
          → Short a.0
          → Pending (reply_parsed p zx (record { device = x; tx = 0; asynch = false }) a)
      unfolding reply_parsed
      parsed-Pending x (none, s) e h = shown _ review_txn refl refl refl
      parsed-Pending x (some message, s) e h = thrown _ _ refl (omega (arith, h)) e

      Chunked : Throws Bool (Device Buffer) → Type 0
      Chunked m = Pending (after_chunk p zx starting m)

      chunk_thrown : (e : ℕ) (x : Device Buffer) → x.review ≡ before → Chunked (throw e x)
      unfolding Chunked after_chunk
      chunk_thrown e x h = thrown _ _ refl (omega arith) h

      chunk_returned :
          (last : Bool) (x : Device Buffer) → x.review ≡ before → Chunked (value last x)
      unfolding Chunked after_chunk
      chunk_returned false x h = thrown _ _ refl (omega arith) h
      chunk_returned true x h = parsed-Pending x _ h (tx_parse-Short zx p.ui x.store x.session)

      add_chunk-Chunked : (last : Bool) (rx : ℕ) → Chunked (add_chunk p zx last rx d)
      unfolding add_chunk
      add_chunk-Chunked last rx =
          on_not Chunked _ _
            ((tx_append zx (slice d.apdu p.at.body (rx - p.at.body)) d.session).0 == rx - p.at.body)
            (λ _. chunk_thrown _ _ same) λ _. chunk_returned _ _ same

      sign-Pending : (rx : ℕ) → Pending (handle_sign p zx rx starting)
      unfolding handle_sign process_chunk Chunked
      sign-Pending rx =
          on_test Chunked _ _ (ltb rx p.at.body) (λ _. chunk_thrown _ _ same)
            λ _.
              on_not Chunked _ _ (byte_at p zx p.at.p2 d == 0) (λ _. chunk_thrown _ _ same)
                λ _.
                  on_test Chunked _ _ (byte_at p zx p.at.payload_type d == p.p1_init)
                    (λ _. chunk_returned _ _ same)
                    λ _.
                      on_test Chunked _ _ (byte_at p zx p.at.payload_type d == p.p1_add)
                        (λ _. add_chunk-Chunked false rx)
                        λ _.
                          on_test Chunked _ _ (byte_at p zx p.at.payload_type d == p.p1_last)
                            (λ _.
                              on_not Chunked _ _ d.tx_initialized (λ _. chunk_thrown _ _ same)
                                λ _. add_chunk-Chunked true rx)
                            λ _. chunk_thrown _ _ same

      pin-Pending :
          (o : Option ℕ) (h : Handler p zx)
          → Pending (h starting)
          → Pending (check_pin p zx o h starting)
      pin-Pending none h l = l
      pin-Pending (some e) h l = thrown _ _ refl (omega arith) same

      dispatch-Pending : (rx : ℕ) → Pending (dispatch p zx rx starting)
      unfolding dispatch
      dispatch-Pending rx =
          on_not Pending _ _ (byte_at p zx p.at.cla d == 0x44) (λ _. refused _)
            λ _.
              on_test Pending _ _ (ltb rx p.apdu_min_length) (λ _. refused _)
                λ _.
                  on_test Pending _ _
                    (not d.store.device_initialized && not (ins == p.ins_get_version))
                    (λ _. refused _)
                    λ _.
                      on_test Pending _ _ (ins == p.ins_get_version) (λ _. version-Pending)
                        λ _.
                          on_test Pending _ _ (ins == p.ins_get_addr)
                            (λ _. pin-Pending _ (handle_get_address p zx) address-Pending)
                            λ _.
                              on_test Pending _ _ (ins == p.ins_sign)
                                (λ _. pin-Pending _ (handle_sign p zx rx) (sign-Pending rx))
                                λ _.
                                  on_test Pending _ _ (ins == 0x10)
                                    (λ _. pin-Pending _ (handle_get_sig_part p zx) sig_part-Pending)
                                    λ _.
                                      on_test Pending _ _ (ins == 0x20)
                                        (λ _.
                                          pin-Pending _ (handle_get_pubkey_part p zx)
                                            pubkey_part-Pending)
                                        λ _. refused _
        where
          ins : ℕ
          ins = byte_at p zx p.at.ins d

          refused : (e : ℕ) → Pending (throw e starting)
          refused e = thrown e starting refl (omega arith) same

  -- Every command is either answered at once, with 2 to 258 bytes, and then nothing new is on the
  -- screen; or it leaves the answer to the user, and then a review is on the screen.
  pub handle_apdu-Answered :
      (rx : ℕ) (d : Device Buffer)
      → Answered d.review (handle_apdu p zx rx (record { device = d; tx = 0; asynch = false }))
  unfolding handle_apdu
  handle_apdu-Answered rx d =
      answer-Pending d.review (dispatch p zx rx (record { device = d; tx = 0; asynch = false }))
        (dispatch-Pending d.review d refl rx)
