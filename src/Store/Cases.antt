-- ===== src/Store/Cases.antt =====
-- The five ways through `crypto_store_init`.
use ledger_arweave.Base.{◌≡◌, true, false, on_test, on_not, replicate, length}
use ledger_arweave.Result.{Result, ok}
use ledger_arweave.Store.{
  Sdk, Slot, Store, same_masterseed, slot_is_initialized, initialize_slot, uninitialized_slot, init,
  masterseed_len,
}

-- A slot after `crypto_uninitialized_slot`.
abbrev pub wiped : Slot → Slot
wiped k = record k {
  pq = replicate 512 0;
  rsa_priv = replicate (length k.rsa_priv) 0;
  master_seed = replicate masterseed_len 0;
  initialized = false;
}

abbrev pub wiped_both : Store → Store
wiped_both s = record s { first = wiped s.first; second = wiped s.second }

pub init-cases :
    (sdk : Sdk) (s : Store) (R : Result Store Store → Type 0)
    → (s.first.initialized ≡ false → R (initialize_slot sdk (record s { slot_in_use = 0 })))
    → (s.first.initialized ≡ true
        → same_masterseed sdk 0 s ≡ true
        → R (ok (record s { slot_in_use = 0 })))
    → (s.first.initialized ≡ true
        → same_masterseed sdk 0 s ≡ false
        → s.second.initialized ≡ false
        → R (initialize_slot sdk (record s { slot_in_use = 1 })))
    → (s.first.initialized ≡ true
        → same_masterseed sdk 0 s ≡ false
        → s.second.initialized ≡ true
        → same_masterseed sdk 1 s ≡ true
        → R (ok (record s { slot_in_use = 1 })))
    → (s.first.initialized ≡ true
        → same_masterseed sdk 0 s ≡ false
        → s.second.initialized ≡ true
        → same_masterseed sdk 1 s ≡ false
        → R (initialize_slot sdk (record (wiped_both s) { slot_in_use = 0 })))
    → R (init sdk s)
unfolding init slot_is_initialized uninitialized_slot
init-cases sdk s R new_first own_first new_second own_second neither =
    on_not R _ _ s.first.initialized new_first λ a.
      on_test R _ _ (same_masterseed sdk 0 s) (own_first a) λ b.
        on_not R _ _ s.second.initialized (new_second a b)
          λ c. on_test R _ _ (same_masterseed sdk 1 s) (own_second a b c) (neither a b c)
