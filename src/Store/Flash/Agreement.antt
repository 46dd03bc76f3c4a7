-- ===== src/Store/Flash/Agreement.antt =====
-- The writes are those of the functions of the store.
use ledger_arweave.Base.{ℕ, zero, suc, ◌≡◌, refl, Bool, true, false}
use ledger_arweave.Result.{Result, ok, fail, final}
use ledger_arweave.Store.{Sdk, Store, init, initialize_slot}
use ledger_arweave.Store.Cases.{wiped_both}
use ledger_arweave.Store.Flash.{Writes, perform, initialize_writes, init_writes}
use ledger_arweave.Store.Flash.Ways.{initialize-ways, init-ways}

abbrev pub succeeds : Result Store Store → Bool
succeeds (ok s) = true
succeeds (fail e s) = false

-- The call on `s` with the result `r` makes the writes `w`; what else changes is in the RAM.
abbrev pub Makes : Store → Writes → Result Store Store → Type 0
Makes s w r =
    (w.1 ≡ succeeds r)
    × (final r ≡ record (perform w.0 s) {
      slot_in_use = (final r).slot_in_use;
      device_initialized = (final r).device_initialized;
    })

module _ (sdk : Sdk) where
  initialize-Makes :
      (k : ℕ) (s : Store)
      → Makes s (initialize_writes sdk k s) (initialize_slot sdk (record s { slot_in_use = k }))
  unfolding perform
  initialize-Makes zero s =
      initialize-ways sdk 0 s (Makes s) (λ _. (refl, refl)) (λ _ _. (refl, refl))
        (λ _ _ _. (refl, refl)) λ _ _ _ _ _ _. (refl, refl)
  initialize-Makes (suc n) s =
      initialize-ways sdk (suc n) s (Makes s) (λ _. (refl, refl)) (λ _ _. (refl, refl))
        (λ _ _ _. (refl, refl)) λ _ _ _ _ _ _. (refl, refl)

  -- One after the other, the writes of `crypto_store_init` give the flash that it leaves, whether it
  -- succeeds or fails: the store at its end is the one after all of them, up to the slot in use and
  -- the mark of the device, which are in the RAM. The writes also say whether it succeeds.
  pub init-init_writes : (s : Store) → Makes s (init_writes sdk s) (init sdk s)
  unfolding perform
  init-init_writes s =
      init-ways sdk s (Makes s) (λ _. initialize-Makes 0 s) (λ _ _. (refl, refl))
        (λ _ _ _. initialize-Makes 1 s) (λ _ _ _ _. (refl, refl))
        λ _ _ _ _. initialize-Makes 0 (wiped_both s)
