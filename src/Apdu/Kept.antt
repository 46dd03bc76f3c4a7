-- ===== src/Apdu/Kept.antt =====
-- What no command changes: the keys, and everything while there are none.
use ledger_arweave.Base.{
  ℕ, ◌≡◌, refl, Bool, false, not, ◌||◌, ◌⊎◌, inl, inr, Bytes, ltb, ◌==◌, on_test, on_not, replicate,
}
use ledger_arweave.Result.{Result}
use ledger_arweave.Store.{Store, put_sig, is_sig_set, signature_part}
use ledger_arweave.Store.Init.{true_not_false}
use ledger_arweave.Crypto.{get_signature_part, min_buffer_len}
use ledger_arweave.Buffering.{Buffering}
use ledger_arweave.Platform.{Platform}
use ledger_arweave.Apdu.{Device, taken_half, handle_apdu}
use ledger_arweave.Apdu.Effects.{handle_apdu-Closed}

-- The store after its signature has been fetched.
abbrev pub without_sig : Store → Store
without_sig s = record (put_sig s.slot_in_use (replicate 512 0) s) { signature_set = 0 }

module _ (p : Platform) (zx : Buffering) where
  open zx use {Buffer}

  pub taken_half-without_sig :
      (n index : ℕ) (s : Store)
      → ((taken_half p zx (get_signature_part n index s)).1 ≡ s)
        ⊎ ((taken_half p zx (get_signature_part n index s)).1 ≡ without_sig s)
  unfolding get_signature_part signature_part
  taken_half-without_sig n index s =
      on_test Goal _ _ (not (is_sig_set s) || ltb n min_buffer_len) (λ _. inl refl)
        λ _.
          on_not Goal _ _ (s.signature_set == 1) (λ _. inl refl)
            λ _.
              on_test Goal _ _ (ltb 1 index) (λ _. inl refl)
                λ _. on_test Goal _ _ (index == 1) (λ _. inr refl) λ _. inl refl
    where
      Goal : Result (Bytes × Store) Store → Type 0
      Goal r = ((taken_half p zx r).1 ≡ s) ⊎ ((taken_half p zx r).1 ≡ without_sig s)

  -- No command changes a slot or the slot in use, and none stores a signature: the store after it is
  -- the one before, or the one before with its signature wiped.
  pub handle_apdu-without_sig :
      (rx : ℕ) (d : Device Buffer) (tx : ℕ) (asynch : Bool)
      → let after =
          (handle_apdu p zx rx (record { device = d; tx = tx; asynch = asynch })).device.store in
        (after ≡ d.store) ⊎ (after ≡ without_sig d.store)
  handle_apdu-without_sig rx d tx asynch =
      handle_apdu-Closed p zx (λ s t v. (t ≡ d.store) ⊎ (t ≡ without_sig d.store)) rx d tx asynch
        (record {
          kept = inl refl;
          asked = λ _. inl refl;
          fetched = λ _ n index. taken_half-without_sig n index d.store;
          received = λ _ _ _. inl refl;
          parsed = λ _ _ _. inl refl;
          shown = λ _ _ _ _. inl refl;
        })

  -- While the device is not initialized, no command changes the session or the store, and none puts
  -- a review on the screen.
  pub handle_apdu-locked :
      (rx : ℕ) (d : Device Buffer) (tx : ℕ) (asynch : Bool)
      → d.store.device_initialized ≡ false
      → let after =
          (handle_apdu p zx rx (record { device = d; tx = tx; asynch = asynch })).device in
        (after.session ≡ d.session) × (after.store ≡ d.store) × (after.review ≡ d.review)
  handle_apdu-locked rx d tx asynch locked =
      handle_apdu-Closed p zx (λ s t v. (s ≡ d.session) × (t ≡ d.store) × (v ≡ d.review)) rx d tx
        asynch
        (record {
          kept = (refl, refl, refl);
          asked = λ e. absurd (true_not_false e locked);
          fetched = λ e. absurd (true_not_false e locked);
          received = λ e. absurd (true_not_false e locked);
          parsed = λ e. absurd (true_not_false e locked);
          shown = λ e. absurd (true_not_false e locked);
        })
