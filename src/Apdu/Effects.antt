-- ===== src/Apdu/Effects.antt =====
-- The ways in which a command changes the state.
use ledger_arweave.Base.{
  ℕ, ◌-◌, ◌≡◌, refl, true, false, not, ◌&&◌, Bool, Option, none, some, ltb, ◌==◌, on_test, on_not,
  slice,
}
use ledger_arweave.Crypto.{get_signature_part}
use ledger_arweave.Buffering.{Buffering}
use ledger_arweave.Platform.{Platform}
use ledger_arweave.Session.{Session, tx_append, tx_parse}
use ledger_arweave.Apdu.{
  Device, Reply, Throws, value, throw, review_txn, review_address, byte_at, add_chunk,
  process_chunk, handle_get_address, handle_get_pubkey_part, handle_get_sig_part, handle_sign,
  after_chunk, taken_half, check_pin, dispatch, handle_apdu, Handler,
}
use ledger_arweave.Apdu.Leaves.{
  State, Uploaded, started, added, ignored, answer-Leaves, version-Leaves, address-Leaves,
  pubkey_part-Leaves, sig_part-Leaves, parsed-Leaves, thrown, InDevice, pubkey_part_kept, unlocked,
  Leaves,
}

module _ (p : Platform) (zx : Buffering) where
  open zx use {Buffer}

  module _ (R : State p zx) where
    -- The property holds of every state that the handling of a chunk may come to.
    module _ (d : Device Buffer)
        (kept : (s : Session Buffer) → Uploaded p zx d.apdu d.session s → R s d.store d.review)
        (parsed : (s : Session Buffer)
          → Uploaded p zx d.apdu d.session s
          → R (tx_parse zx p.ui d.store s).1 d.store d.review)
        (shown : (s : Session Buffer)
          → Uploaded p zx d.apdu d.session s
          → (tx_parse zx p.ui d.store s).0 ≡ none
          → R (tx_parse zx p.ui d.store s).1 d.store (some review_txn)) where
      unfoldable Chunked : Throws Bool (Device Buffer) → Type 0
      Chunked m =
          (tx : ℕ) (asynch : Bool)
          → Leaves p zx R (after_chunk p zx (record { device = d; tx = tx; asynch = asynch }) m)

      chunk_thrown :
          (e : ℕ) (d' : Device Buffer)
          → Uploaded p zx d.apdu d.session d'.session
          → d'.store ≡ d.store
          → d'.review ≡ d.review
          → Chunked (throw e d')
      unfolding Chunked after_chunk
      chunk_thrown e d' u s v tx asynch = thrown p zx R _ _ (rw (s, v) (kept _ u))

      chunk_returned :
          (last : Bool) (d' : Device Buffer)
          → Uploaded p zx d.apdu d.session d'.session
          → d'.store ≡ d.store
          → d'.review ≡ d.review
          → Chunked (value last d')
      unfolding Chunked after_chunk
      chunk_returned false d' u s v tx asynch = thrown p zx R _ _ (rw (s, v) (kept _ u))
      chunk_returned true d' u s v tx asynch =
          parsed-Leaves p zx R _ _ (rw s (shown _ u)) (rw (s, v) (parsed _ u))

      add_chunk-Chunked : (last : Bool) (rx : ℕ) → Chunked (add_chunk p zx last rx d)
      unfolding add_chunk
      add_chunk-Chunked last rx =
          on_not Chunked _ _
            ((tx_append zx (slice d.apdu p.at.body (rx - p.at.body)) d.session).0 == rx - p.at.body)
            (λ _. chunk_thrown _ _ (added _ refl) refl refl)
            λ _. chunk_returned _ _ (added _ refl) refl refl

      process_chunk-Chunked : (rx : ℕ) → Chunked (process_chunk p zx rx d)
      unfolding process_chunk
      process_chunk-Chunked rx =
          on_test Chunked _ _ (ltb rx p.at.body) (λ _. chunk_thrown _ _ (ignored refl) refl refl)
            λ _.
              on_not Chunked _ _ (byte_at p zx p.at.p2 d == 0)
                (λ _. chunk_thrown _ _ (ignored refl) refl refl)
                λ _.
                  on_test Chunked _ _ (byte_at p zx p.at.payload_type d == p.p1_init)
                    (λ _. chunk_returned _ _ (started refl) refl refl)
                    λ _.
                      on_test Chunked _ _ (byte_at p zx p.at.payload_type d == p.p1_add)
                        (λ _. add_chunk-Chunked false rx)
                        λ _.
                          on_test Chunked _ _ (byte_at p zx p.at.payload_type d == p.p1_last)
                            (λ _.
                              on_not Chunked _ _ d.tx_initialized
                                (λ _. chunk_thrown _ _ (ignored refl) refl refl)
                                λ _. add_chunk-Chunked true rx)
                            λ _. chunk_thrown _ _ (ignored refl) refl refl

      sign-Leaves :
          (rx tx : ℕ) (asynch : Bool)
          → Leaves p zx R (handle_sign p zx rx (record { device = d; tx = tx; asynch = asynch }))
      unfolding handle_sign Chunked
      sign-Leaves rx tx asynch = process_chunk-Chunked rx tx asynch

    -- What a property of the state must be closed under, to hold after any command.
    pub record Closed (d : Device Buffer) : Type 0 where
      pub kept : R d.session d.store d.review
      pub asked : d.store.device_initialized ≡ true → R d.session d.store (some review_address)
      pub fetched :
          d.store.device_initialized ≡ true
          → (n index : ℕ)
          → R d.session (taken_half p zx (get_signature_part n index d.store)).1 d.review
      pub received :
          d.store.device_initialized ≡ true
          → (s : Session Buffer) → Uploaded p zx d.apdu d.session s
          → R s d.store d.review
      pub parsed :
          d.store.device_initialized ≡ true
          → (s : Session Buffer) → Uploaded p zx d.apdu d.session s
          → R (tx_parse zx p.ui d.store s).1 d.store d.review
      pub shown :
          d.store.device_initialized ≡ true
          → (s : Session Buffer) → Uploaded p zx d.apdu d.session s
          → (tx_parse zx p.ui d.store s).0 ≡ none
          → R (tx_parse zx p.ui d.store s).1 d.store (some review_txn)

    pin-Leaves :
        (o : Option ℕ) (h : Handler p zx) (r : Reply (Device Buffer))
        → InDevice p zx R r.device
        → Leaves p zx R (h r)
        → Leaves p zx R (check_pin p zx o h r)
    pin-Leaves none h r k l = l
    pin-Leaves (some e) h r k l = thrown p zx R _ _ k

    dispatch-Leaves :
        (rx : ℕ) (d : Device Buffer) (tx : ℕ) (asynch : Bool)
        → Closed d
        → Leaves p zx R (dispatch p zx rx (record { device = d; tx = tx; asynch = asynch }))
    unfolding dispatch
    dispatch-Leaves rx d tx asynch c =
        on_not (Leaves p zx R) _ _ (byte_at p zx p.at.cla d == 0x44) (λ _. thrown p zx R _ _ c.kept)
          λ _.
            on_test (Leaves p zx R) _ _ (ltb rx p.apdu_min_length) (λ _. thrown p zx R _ _ c.kept)
              λ _.
                on_test (Leaves p zx R) _ _
                  (not d.store.device_initialized && not (ins == p.ins_get_version))
                  (λ _. thrown p zx R _ _ c.kept)
                  λ ready.
                    on_test (Leaves p zx R) _ _ (ins == p.ins_get_version)
                      (λ _. version-Leaves p zx R r c.kept)
                      λ other.
                        let set_up =
                          unlocked p zx R d.store.device_initialized (ins == p.ins_get_version)
                            ready other in
                        on_test (Leaves p zx R) _ _ (ins == p.ins_get_addr)
                          (λ _.
                            pin-Leaves _ (handle_get_address p zx) r c.kept
                              (address-Leaves p zx R r c.kept (c.asked set_up)))
                          λ _.
                            on_test (Leaves p zx R) _ _ (ins == p.ins_sign)
                              (λ _. pin-Leaves _ (handle_sign p zx rx) r c.kept (
                                sign-Leaves d (c.received set_up) (c.parsed set_up) (c.shown set_up)
                                  rx tx asynch))
                              λ _.
                                on_test (Leaves p zx R) _ _ (ins == 0x10)
                                  (λ _.
                                    pin-Leaves _ (handle_get_sig_part p zx) r c.kept
                                      (sig_part-Leaves p zx R r (c.fetched set_up) c.kept))
                                  λ _.
                                    on_test (Leaves p zx R) _ _ (ins == 0x20)
                                      (λ _. pin-Leaves _ (handle_get_pubkey_part p zx) r c.kept (
                                        pubkey_part-Leaves p zx R r
                                          (pubkey_part_kept p zx R d c.kept) c.kept))
                                      λ _. thrown p zx R _ _ c.kept
      where
        ins : ℕ
        ins = byte_at p zx p.at.ins d

        r : Reply (Device Buffer)
        r = record { device = d; tx = tx; asynch = asynch }

    -- After any command, in the state that `handleApdu` leaves.
    pub handle_apdu-Closed :
        (rx : ℕ) (d : Device Buffer) (tx : ℕ) (asynch : Bool)
        → Closed d
        → InDevice p zx R
            (handle_apdu p zx rx (record { device = d; tx = tx; asynch = asynch })).device
    unfolding handle_apdu
    handle_apdu-Closed rx d tx asynch c = answer-Leaves p zx R _ (dispatch-Leaves rx d tx asynch c)
