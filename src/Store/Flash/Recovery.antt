-- ===== src/Store/Flash/Recovery.antt =====
-- A start after the power was lost during `crypto_store_init`.
use ledger_arweave.Base.{ℕ, ◌≡◌, refl, subst, false, take}
use ledger_arweave.Result.{Result, ok}
use ledger_arweave.Store.{Sdk, Slot, Store, in_use, power_on, init, initialize_slot}
use ledger_arweave.Store.Keys.{IsOwn, IsDerived, initialize_slot-cases}
use ledger_arweave.Store.Cases.{wiped_both, init-cases}
use ledger_arweave.Store.Init.{same_masterseed-IsOwn, init-IsOwn, ok-inj}
use ledger_arweave.Store.Total.{Works, init-Works}
use ledger_arweave.Store.Flash.{init_writes, cut}
use ledger_arweave.Store.Flash.Between.{HasOwnKeys, IsSafe, HasSeed, ends_open, cut-IsSafe}

module _ (sdk : Sdk) where
  own_keys : {k : Slot} → HasOwnKeys sdk k → IsOwn sdk k → IsDerived sdk k
  unfolding HasOwnKeys
  own_keys h = h

  abbrev Goal : Store → Result Store Store → Type 0
  Goal s' r = r ≡ ok s' → IsDerived sdk (in_use s')

  initialize_first-IsDerived :
      (s s' : Store) → Goal s' (initialize_slot sdk (record s { slot_in_use = 0 }))
  initialize_first-IsDerived s s' =
      initialize_slot-cases sdk 0 s (Goal s') (λ _ e. absurd (cc)) (λ _ _ _ _ e. absurd (cc))
        λ derived pq pair _ p q e.
          subst (λ (t : Store). IsDerived sdk (in_use t)) (ok-inj e)
            (record { primes = p; pair = q; size = refl })

  initialize_second-IsDerived :
      (s s' : Store) → Goal s' (initialize_slot sdk (record s { slot_in_use = 1 }))
  initialize_second-IsDerived s s' =
      initialize_slot-cases sdk 1 s (Goal s') (λ _ e. absurd (cc)) (λ _ _ _ _ e. absurd (cc))
        λ derived pq pair _ p q e.
          subst (λ (t : Store). IsDerived sdk (in_use t)) (ok-inj e)
            (record { primes = p; pair = q; size = refl })

  init-IsDerived : (s s' : Store) → IsSafe sdk s → Goal s' (init sdk s)
  init-IsDerived s s' h =
      init-cases sdk s (Goal s') (λ _. initialize_first-IsDerived s s')
        (λ a b e.
          subst (λ (t : Store). IsDerived sdk (in_use t)) (ok-inj e)
            (own_keys h.first_own (same_masterseed-IsOwn sdk 0 s a b)))
        (λ _ _ _. initialize_second-IsDerived s s')
        (λ _ _ c d e.
          subst (λ (t : Store). IsDerived sdk (in_use t)) (ok-inj e)
            (own_keys h.second_own (same_masterseed-IsOwn sdk 1 s c d)))
        λ _ _ _ _. initialize_first-IsDerived (wiped_both s) s'

  -- Power may be lost after any number of the writes of `crypto_store_init`, but not while a slot is
  -- marked as initialized and its two keys are not yet written: the next `crypto_store_init` then
  -- succeeds, and the slot in use holds the seed of this device's mnemonic with the primes and the
  -- key pair that the seed determines. The slots of this seed held such keys before, the seed is not
  -- the 32 zeros of a wiped slot, and the SDK reports no error.
  pub cut-IsDerived :
      (s : Store) (n : ℕ)
      → Works sdk
      → HasSeed sdk
      → IsSafe sdk s
      → ends_open false (take n (init_writes sdk s).0) ≡ false
      → (s' : Store) × (init sdk (power_on (cut sdk n s)) ≡ ok s')
        × IsOwn sdk (in_use s')
        × IsDerived sdk (in_use s')
  cut-IsDerived s n works law h closed =
      let safe = cut-IsSafe sdk s n law h closed in
      let (s', e) = init-Works sdk works (power_on (cut sdk n s)) in
      (
        s',
        e,
        (init-IsOwn sdk (power_on (cut sdk n s)) s' e).1,
        init-IsDerived (power_on (cut sdk n s)) s'
            (record { first_own = safe.first_own; second_own = safe.second_own }) e,
      )
