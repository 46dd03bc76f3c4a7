-- ===== src/Apdu/Leaves.antt =====
-- What each handler does to the session, the store and the screen.
use ledger_arweave.Base.{
  ℕ, ◌≡◌, refl, true, false, not, ◌&&◌, ◌||◌, Bool, inl, inr, Option, none, some, Bytes, ltb, ◌==◌,
  on_test, on_not, Option-cases, slice,
}
use ledger_arweave.Result.{Result}
use ledger_arweave.Store.{Store, pubkey_part, get_pubkey, is_initialized}
use ledger_arweave.Crypto.{Address, get_pubkey_part, get_signature_part, min_buffer_len}
use ledger_arweave.Buffering.{Buffering}
use ledger_arweave.Platform.{Platform}
use ledger_arweave.Session.{Session, tx_initialize, tx_reset, tx_append}
use ledger_arweave.Apdu.{
  Device, Reply, Review, Throws, value, throw, review_txn, review_address, byte_at,
  handle_get_version, handle_get_address, reply_address, handle_get_pubkey_part,
  handle_get_sig_part, reply_parsed, reply_half, half_of, taken_half, answer,
}

module _ (p : Platform) (zx : Buffering) where
  open zx use {Buffer}

  abbrev pub State : Type 1
  State = Session Buffer → Store → Option Review → Type 0

  -- The session after a chunk: begun anew, or with the body of the command in `apdu` appended.
  pub data Uploaded (apdu : Bytes) (s s' : Session Buffer) : Type 0 where
    started : s' ≡ tx_reset zx (tx_initialize zx p.target s) → Uploaded apdu s s'
    added : (n : ℕ) → s' ≡ (tx_append zx (slice apdu p.at.body n) s).1 → Uploaded apdu s s'
    ignored : s' ≡ s → Uploaded apdu s s'

  half_of-store : (n index : ℕ) (s : Store) → (half_of p zx (get_pubkey_part n index s) s).1 ≡ s
  unfolding get_pubkey_part pubkey_part
  half_of-store n index s =
      on_test Same _ _ (not (is_initialized s) || ltb n min_buffer_len) (λ _. refl)
        λ _.
          on_not Same _ _ (is_initialized s) (λ _. refl)
            λ _.
              on_test Same _ _ (ltb 1 index) (λ _. refl)
                λ _. elim (Option-cases (get_pubkey s)) [ inl e ↦ rw e refl | inr n ↦ rw n.1 refl ]
    where
      Same : Result Bytes Store → Type 0
      Same r = (half_of p zx r s).1 ≡ s

  module _ (R : State) where
    abbrev pub InDevice : Device Buffer → Type 0
    InDevice d = R d.session d.store d.review

    -- The property holds of the state that a handler leaves, by a return or by a `THROW`.
    unfoldable pub Leaves : Throws (Unit {0}) (Reply (Device Buffer)) → Type 0
    Leaves (value u r) = InDevice r.device
    Leaves (throw e r) = InDevice r.device

    pub thrown : (e : ℕ) (r : Reply (Device Buffer)) → InDevice r.device → Leaves (throw e r)
    unfolding Leaves
    thrown e r h = h

    pub returned :
        (u : Unit {0}) (r : Reply (Device Buffer)) → InDevice r.device → Leaves (value u r)
    unfolding Leaves
    returned u r h = h

    pub answer-Leaves :
        (m : Throws (Unit {0}) (Reply (Device Buffer))) → Leaves m → InDevice (answer p zx m).device
    unfolding answer Leaves
    answer-Leaves (value u r) h = h
    answer-Leaves (throw e r) h = h

    pub version-Leaves :
        (r : Reply (Device Buffer)) → InDevice r.device → Leaves (handle_get_version p zx r)
    unfolding handle_get_version Leaves
    version-Leaves r h = h

    reply_address-Leaves :
        (confirm : Bool) (r : Reply (Device Buffer)) (a : Result Address Address)
        → InDevice r.device
        → R r.device.session r.device.store (some review_address)
        → Leaves (reply_address p zx confirm r a)
    unfolding reply_address
    reply_address-Leaves confirm r (Result.fail e a) h k = thrown _ _ h
    reply_address-Leaves confirm r (Result.ok a) h k =
        on_test Leaves _ _ (a.addr_len == 0) (λ _. thrown _ _ h)
          λ _. on_test Leaves _ _ confirm (λ _. returned _ _ k) λ _. thrown _ _ h

    pub unlocked :
        (set_up version : Bool)
        → (not set_up && not version) ≡ false
        → version ≡ false
        → set_up ≡ true
    unlocked true version h k = refl
    unlocked false true h k = absurd (cc)
    unlocked false false h k = absurd (cc)

    pub pubkey_part_kept :
        (d : Device Buffer)
        → InDevice d
        → (n index : ℕ)
        → R d.session (half_of p zx (get_pubkey_part n index d.store) d.store).1 d.review
    pubkey_part_kept d h n index = rw (half_of-store n index d.store) h

    pub address-Leaves :
        (r : Reply (Device Buffer))
        → InDevice r.device
        → R r.device.session r.device.store (some review_address)
        → Leaves (handle_get_address p zx r)
    unfolding handle_get_address
    address-Leaves r h k =
        on_not Leaves _ _ (byte_at p zx p.at.data_len r.device == 0) (λ _. thrown _ _ h)
          λ _. reply_address-Leaves _ _ _ h k

    reply_half-Leaves :
        (r : Reply (Device Buffer)) (a : Option Bytes × Store)
        → R r.device.session a.1 r.device.review
        → Leaves (reply_half p zx r a)
    unfolding reply_half Leaves
    reply_half-Leaves r (none, s) h = h
    reply_half-Leaves r (some half, s) h = h

    pub pubkey_part-Leaves :
        (r : Reply (Device Buffer))
        → ((n index : ℕ)
            → R r.device.session
                (half_of p zx (get_pubkey_part n index r.device.store) r.device.store).1
                r.device.review)
        → InDevice r.device
        → Leaves (handle_get_pubkey_part p zx r)
    unfolding handle_get_pubkey_part
    pubkey_part-Leaves r k h =
        on_not Leaves _ _ (byte_at p zx p.at.data_len r.device == 0) (λ _. thrown _ _ h)
          λ _. reply_half-Leaves _ _ (k _ _)

    pub sig_part-Leaves :
        (r : Reply (Device Buffer))
        → ((n index : ℕ)
            → R r.device.session
                (taken_half p zx (get_signature_part n index r.device.store)).1
                r.device.review)
        → InDevice r.device
        → Leaves (handle_get_sig_part p zx r)
    unfolding handle_get_sig_part
    sig_part-Leaves r k h =
        on_not Leaves _ _ (byte_at p zx p.at.data_len r.device == 0) (λ _. thrown _ _ h)
          λ _. reply_half-Leaves _ _ (k _ _)

    -- What `tx_parse` does to the session, and what waits on the screen after it.
    pub parsed-Leaves :
        (r : Reply (Device Buffer)) (a : Option Bytes × Session Buffer)
        → (a.0 ≡ none → R a.1 r.device.store (some review_txn))
        → R a.1 r.device.store r.device.review
        → Leaves (reply_parsed p zx r a)
    unfolding reply_parsed
    parsed-Leaves r (none, s) show h = returned _ _ (show refl)
    parsed-Leaves r (some error_msg, s) show h = thrown _ _ h
